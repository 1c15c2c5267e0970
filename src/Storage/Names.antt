-- ===== src/Storage/Names.antt =====
-- internal/storage/links.go: `InterfaceName`. A Go string is the list of its bytes here.
use sd_wan_plus.Base.{
  ℕ, zero, suc, ◌≤◌, ◌≡◌, List, [], ◌∷◌, ◌++◌, if◌then◌else◌, leb, ltb, length, length-append, take,
  arith, String, str_append,
}

unfoldable pub short : List ℕ → List ℕ
short id = if leb 4 (length id) then take 4 id else id

-- "pwl-" and the short forms of the two ids.
unfoldable pub full_name : List ℕ → List ℕ → List ℕ
full_name a b = 112 ∷ 119 ∷ 108 ∷ 45 ∷ short a ++ short b

unfoldable pub interface_name : List ℕ → List ℕ → List ℕ
interface_name a b = let name = full_name a b in if ltb 15 (length name) then take 15 name else name

length-take-le : (n : ℕ) (xs : List ℕ) → length (take n xs) ≤ n
length-take-le zero xs = omega arith
length-take-le (suc n) [] = omega arith
length-take-le (suc n) (x ∷ xs) = omega (arith, length-take-le n xs)

length-short : (id : List ℕ) → length (short id) ≤ 4
unfolding short
length-short id = ground (arith, length-take-le 4 id)

-- An interface name has at most 12 bytes, which Linux allows (15 at most), and it is never cut: it
-- ends with the short forms of both ids.
pub interface_name-bounded :
    (a b : List ℕ)
    → (length (interface_name a b) ≤ 12)
      × (interface_name a b ≡ 112 ∷ 119 ∷ 108 ∷ 45 ∷ short a ++ short b)
unfolding interface_name full_name
interface_name-bounded a b =
    ground (arith, length-append (short a) (short b), length-short a, length-short b)

-- The same on texts of ASCII characters, which the ids are: a character is a byte.
unfoldable pub take_text : ℕ → String → String
take_text zero s = String.[]
take_text (suc n) String.[] = String.[]
take_text (suc n) (String.◌∷◌ c s) = String.◌∷◌ c (take_text n s)

-- `take_text` leaves a text of at most that length, as the two tests of the code do.
unfoldable pub interface_label : String → String → String
interface_label a b = take_text 15 (str_append "pwl-" (str_append (take_text 4 a) (take_text 4 b)))

-- ===== src/Base/Strings.antt =====
-- The functions of Go's packages strings, unicode, strconv and fmt that the code calls.
use Prim.Native.Nat.{ℕ, zero, suc, ◌+◌, ◌/◌, ◌%◌}
use Prim.Native.String.{String, [], ◌∷◌}
use Prim.Native.Char.{Char, code}
use mathlib.Core.Bool.{Bool, true, false, ◌&&◌, ◌||◌}
use sd_wan_plus.Base.Tests.{eqb, leb, if◌then◌else◌}
use sd_wan_plus.Base.Text.{str_append}

-- unicode.IsSpace
unfoldable pub is_space : Char → Bool
is_space c =
    let n = code c in
    leb 9 n && leb n 13
    || eqb n 32
    || eqb n 133
    || eqb n 160
    || eqb n 5760
    || leb 8192 n && leb n 8202
    || eqb n 8232
    || eqb n 8233
    || eqb n 8239
    || eqb n 8287
    || eqb n 12288

unfoldable pub trim_left : String → String
trim_left [] = []
trim_left (c ∷ s) = let rest = trim_left s in if is_space c then rest else c ∷ s

abbrev pub nonspace : Char → String → String
nonspace c [] = if is_space c then [] else c ∷ []
nonspace c (d ∷ s) = c ∷ d ∷ s

unfoldable pub trim_right : String → String
trim_right [] = []
trim_right (c ∷ s) = let rest = trim_right s in nonspace c rest

-- strings.TrimSpace
unfoldable pub trim_space : String → String
trim_space s = trim_right (trim_left s)

-- strings.Contains with a text of one character
unfoldable pub contains_char : ℕ → String → Bool
contains_char n [] = false
contains_char n (c ∷ s) = let rest = contains_char n s in eqb (code c) n || rest

-- A decimal digit.
unfoldable pub digit : ℕ → String
digit n =
    if eqb n 0
    then "0"
    else if eqb n 1
    then "1"
    else if eqb n 2
    then "2"
    else if eqb n 3
    then "3"
    else if eqb n 4
    then "4"
    else if eqb n 5
    then "5"
    else if eqb n 6
    then "6"
    else if eqb n 7
    then "7"
    else if eqb n 8
    then "8"
    else "9"

unfoldable pub digits : (fuel : ℕ) → ℕ → String → String
digits zero n s = s
digits (suc fuel) n s =
    let rest = digits fuel (n / 10) (str_append (digit (n % 10)) s) in
    if leb n 9 then str_append (digit n) s else rest

-- fmt's %d for a number of at most 20 digits, which all 64-bit numbers are.
unfoldable pub decimal : ℕ → String
decimal n = digits 20 n ""

-- A set of characters, as the text that holds them.
unfoldable pub in_set : String → Char → Bool
in_set set c = contains_char (code c) set

unfoldable pub trim_left_set : String → String → String
trim_left_set set [] = []
trim_left_set set (c ∷ s) = let rest = trim_left_set set s in if in_set set c then rest else c ∷ s

abbrev pub keep_unless : String → Char → String → String
keep_unless set c [] = if in_set set c then [] else c ∷ []
keep_unless set c (d ∷ s) = c ∷ d ∷ s

unfoldable pub trim_right_set : String → String → String
trim_right_set set [] = []
trim_right_set set (c ∷ s) = let rest = trim_right_set set s in keep_unless set c rest

-- strings.Trim
unfoldable pub trim_set : String → String → String
trim_set s set = trim_right_set set (trim_left_set set s)

-- The code of a letter of A to Z becomes that of a to z.
unfoldable pub lower_code : ℕ → ℕ
lower_code n = if leb 65 n && leb n 90 then n + 32 else n

-- Equality up to the case of A to Z; the texts that the code compares so have no other letters.
unfoldable pub equal_fold : String → String → Bool
equal_fold [] [] = true
equal_fold [] (d ∷ t) = false
equal_fold (c ∷ s) [] = false
equal_fold (c ∷ s) (d ∷ t) =
    let rest = equal_fold s t in eqb (lower_code (code c)) (lower_code (code d)) && rest

-- strings.HasSuffix (strings.ToLower s) t, for a lower-case t
unfoldable pub has_suffix_fold : String → String → Bool
has_suffix_fold [] t = equal_fold [] t
has_suffix_fold (c ∷ s) t = let rest = has_suffix_fold s t in equal_fold (c ∷ s) t || rest

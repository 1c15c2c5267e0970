-- ===== src/Base/Text.antt =====
-- Texts (Go strings that are only compared) and lists of texts.
use Prim.Native.String.{String, ◌++◌ as joined}
use mathlib.Core.Path.{◌≡◌, refl, sym, subst}
use mathlib.Core.Logic.{◌≢◌, ◌↔◌, ◌⊎◌, inl, inr}
use mathlib.Core.Bool.{Bool, true, false, ◌||◌}
use mathlib.Core.List.{List, [], ◌∷◌, ◌++◌}
use native.Mathlib.Omega.{arith}
pub use text.Mathlib.Text.{◌==◌}
pub use text.Mathlib.TextEquality.{eq_iff}
use sd_wan_plus.Base.Tests.{Bool-cases}
use sd_wan_plus.Base.Lists.{All}

-- Go's `+` on strings.
abbrev pub str_append : String → String → String
str_append s t = joined s t

pub ==-self : (s : String) → (s == s) ≡ true
==-self s = (eq_iff s s).1 refl

pub ==-cases : (s t : String) → ((s ≡ t) × ((s == t) ≡ true)) ⊎ ((s ≢ t) × ((s == t) ≡ false))
==-cases s t = elim (Bool-cases (s == t)) [
  | inl e ↦ inl ((eq_iff s t).0 e, e)
  | inr e ↦ inr (λ p. cc ((eq_iff s t).1 p), e)
]

pub ==-false : {s t : String} → s ≢ t → (s == t) ≡ false
==-false {s} {t} h = ground (arith, eq_iff s t)

pub ==-apart : (s t : String) → (s == t) ≡ false → s ≢ t
==-apart s t h p = cc ((eq_iff s t).1 p)

-- `x` occurs in the list.
abbrev pub Member : String → List String → Type 0
Member x [] = ⊥
Member x (y ∷ ys) = (x ≡ y) ⊎ Member x ys

-- No text occurs twice.
abbrev pub Distinct : List String → Type 0
Distinct [] = Unit {0}
Distinct (x ∷ xs) = (¬ Member x xs) × Distinct xs

-- A Go `map[string]bool` that only grows, as the list of its keys.
abbrev pub contains : List String → String → Bool
contains [] x = false
contains (y ∷ ys) x = x == y || contains ys x

pub contains_iff : (xs : List String) (x : String) → (contains xs x ≡ true) ↔ Member x xs
contains_iff [] x = (λ e. cc, λ m. absurd m)
contains_iff (y ∷ ys) x = ground (arith, eq_iff x y, contains_iff ys x)

pub Member-append :
    (x : String) (xs ys : List String) → Member x (xs ++ ys) ↔ (Member x xs ⊎ Member x ys)
Member-append x [] ys = ground arith
Member-append x (y ∷ xs) ys = ground (arith, Member-append x xs ys)

pub All-Member {κ} :
    (P : String → Type κ) (x : String) (xs : List String) → All P xs → Member x xs → P x
All-Member P x [] h m = absurd m
All-Member P x (y ∷ xs) h (inl e) = subst P (sym e) h.0
All-Member P x (y ∷ xs) h (inr m) = All-Member P x xs h.1 m

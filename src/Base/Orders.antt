-- ===== src/Base/Orders.antt =====
-- ORDER BY: a stable insertion sort by a Boolean test, and lists in which neighbours pass the test.
use mathlib.Core.Path.{◌≡◌, refl}
use mathlib.Core.Logic.{◌↔◌, ◌⊎◌, inl, inr}
use mathlib.Core.Bool.{Bool, true, false}
use mathlib.Core.List.{List, [], ◌∷◌}
use native.Mathlib.Omega.{arith}
use sd_wan_plus.Base.Tests.{if◌then◌else◌, Bool-cases}
use sd_wan_plus.Base.Lists.{All, All-mono, Any}

module _ {ℓ} {A : Type ℓ} (le : A → A → Bool) where
  abbrev pub insert_by : A → List A → List A
  insert_by x [] = x ∷ []
  insert_by x (y ∷ ys) = let rest = insert_by x ys in if le x y then x ∷ y ∷ ys else y ∷ rest

  abbrev pub order_by : List A → List A
  order_by [] = []
  order_by (x ∷ xs) = insert_by x (order_by xs)

  -- Every item comes before all the later ones.
  abbrev pub Ordered : List A → Type ℓ
  Ordered [] = Unit
  Ordered (x ∷ xs) = All (λ y. le x y ≡ true) xs × Ordered xs

  insert_by-All {κ} :
      (P : A → Type κ) (x : A) (ys : List A) → P x → All P ys → All P (insert_by x ys)
  insert_by-All P x [] p h = (p, tt)
  insert_by-All P x (y ∷ ys) p h = elim (Bool-cases (le x y)) [
    | inl e ↦ rw e (p, h)
    | inr e ↦ rw e (h.0, insert_by-All P x ys p h.1)
  ]

  -- What holds of every row holds of every row in order.
  pub order_by-All {κ} : (P : A → Type κ) (xs : List A) → All P xs → All P (order_by xs)
  order_by-All P [] h = tt
  order_by-All P (x ∷ xs) h = insert_by-All P x (order_by xs) h.0 (order_by-All P xs h.1)

  -- A list in order is left as it is.
  pub order_by-Ordered : (xs : List A) → Ordered xs → order_by xs ≡ xs
  order_by-Ordered [] h = refl
  order_by-Ordered (x ∷ xs) h = rw (order_by-Ordered xs h.1) (front xs h.0)
    where
      front : (ys : List A) → All (λ y. le x y ≡ true) ys → insert_by x ys ≡ x ∷ ys
      front [] k = refl
      front (y ∷ ys) k = rw k.0 refl

  module _ (total : (x y : A) → le x y ≡ false → le y x ≡ true)
      (trans : (x y z : A) → le x y ≡ true → le y z ≡ true → le x z ≡ true) where
    insert_by-Ordered : (x : A) (ys : List A) → Ordered ys → Ordered (insert_by x ys)
    insert_by-Ordered x [] h = (tt, tt)
    insert_by-Ordered x (y ∷ ys) h = elim (Bool-cases (le x y)) [
      | inl e ↦ rw e ((e, All-mono ys (λ z k. trans x y z e k) h.0), h)
      | inr e ↦
          rw e
            (insert_by-All (λ z. le y z ≡ true) x ys (total x y e) h.0, insert_by-Ordered x ys h.1)
    ]

    -- The result is in order.
    pub Ordered-order_by : (xs : List A) → Ordered (order_by xs)
    Ordered-order_by [] = tt
    Ordered-order_by (x ∷ xs) = insert_by-Ordered x (order_by xs) (Ordered-order_by xs)

  Any-insert_by : (P : A → Type 0) (x : A) (ys : List A) → Any P (insert_by x ys) ↔ (P x ⊎ Any P ys)
  Any-insert_by P x [] = ground arith
  Any-insert_by P x (y ∷ ys) = ground (arith, Any-insert_by P x ys)

  -- Ordering loses no row and adds none.
  pub Any-order_by : (P : A → Type 0) (xs : List A) → Any P (order_by xs) ↔ Any P xs
  Any-order_by P [] = ground arith
  Any-order_by P (x ∷ xs) = ground (arith, Any-insert_by P x (order_by xs), Any-order_by P xs)

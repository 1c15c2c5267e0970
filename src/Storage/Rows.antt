-- ===== src/Storage/Rows.antt =====
-- Facts of the statements that select and delete rows.
use sd_wan_plus.Base.{
  ◌≡◌, refl, subst, Bool, true, false, none, some, map, if◌then◌else◌, List, [], ◌∷◌, ◌++◌,
  Bool-cases, inl, inr, All, arith,
}
use sd_wan_plus.Storage.Tables.{where_rows, delete_rows, first_row}

pub some_inj {ℓ} : {A : Type ℓ} {a b : A} → some a ≡ some b → a ≡ b
some_inj h = cc

module _ {ℓ} {A : Type ℓ} where
  pub where_rows-append :
      (p : A → Bool) (xs ys : List A) → where_rows p (xs ++ ys) ≡ where_rows p xs ++ where_rows p ys
  where_rows-append p [] ys = refl
  where_rows-append p (x ∷ xs) ys = elim (Bool-cases (p x)) [
    | inl e ↦ rw (e, where_rows-append p xs ys) refl
    | inr e ↦ rw (e, where_rows-append p xs ys) refl
  ]

  -- Rows that all fail the test.
  pub where_rows-none :
      (p : A → Bool) (xs : List A) → All (λ x. p x ≡ false) xs → where_rows p xs ≡ []
  where_rows-none p [] h = refl
  where_rows-none p (x ∷ xs) h = rw (h.0, where_rows-none p xs h.1) refl

  pub where_rows-all :
      (p : A → Bool) (xs : List A) → All (λ x. p x ≡ true) xs → where_rows p xs ≡ xs
  where_rows-all p [] h = refl
  where_rows-all p (x ∷ xs) h = rw (h.0, where_rows-all p xs h.1) refl

  -- No row that was deleted is selected.
  pub where_rows-delete_same : (p : A → Bool) (xs : List A) → where_rows p (delete_rows p xs) ≡ []
  where_rows-delete_same p [] = refl
  where_rows-delete_same p (x ∷ xs) = elim (Bool-cases (p x)) [
    | inl e ↦ rw e (where_rows-delete_same p xs)
    | inr e ↦ rw (e, e) (where_rows-delete_same p xs)
  ]

  pub first_row-delete_same : (p : A → Bool) (xs : List A) → first_row p (delete_rows p xs) ≡ none
  first_row-delete_same p [] = refl
  first_row-delete_same p (x ∷ xs) = elim (Bool-cases (p x)) [
    | inl e ↦ rw e (first_row-delete_same p xs)
    | inr e ↦ rw (e, e) (first_row-delete_same p xs)
  ]

  module _ (p q : A → Bool) (apart : (x : A) → q x ≡ true → p x ≡ false) where
    -- Rows that the deletion does not touch are selected as before.
    pub where_rows-delete_other : (xs : List A) → where_rows q (delete_rows p xs) ≡ where_rows q xs
    where_rows-delete_other [] = refl
    where_rows-delete_other (x ∷ xs) = ground (arith, where_rows-delete_other xs, apart x)

    pub first_row-delete_other : (xs : List A) → first_row q (delete_rows p xs) ≡ first_row q xs
    first_row-delete_other [] = refl
    first_row-delete_other (x ∷ xs) = ground (arith, first_row-delete_other xs, apart x)

  pub first_row-none :
      (p : A → Bool) (xs : List A) → All (λ x. p x ≡ false) xs → first_row p xs ≡ none
  first_row-none p [] h = refl
  first_row-none p (x ∷ xs) h = rw h.0 (first_row-none p xs h.1)

  -- The first row with the property, after rows without it.
  pub first_row-append :
      (p : A → Bool) (xs : List A) (y : A)
      → All (λ x. p x ≡ false) xs
      → p y ≡ true
      → first_row p (xs ++ y ∷ []) ≡ some y
  first_row-append p [] y h e = rw e refl
  first_row-append p (x ∷ xs) y h e = rw h.0 (first_row-append p xs y h.1 e)

-- What holds of every row holds of a row that is found, and of the rows after an update that keeps it.
pub map-All {ℓ κ} :
    {A : Type ℓ} (P : A → Type κ) (test : A → Bool) (f : A → A) (xs : List A)
    → ((x : A) → P x → P (f x))
    → All P xs
    → All P (map (λ x. if test x then f x else x) xs)
map-All P test f [] h a = tt
map-All P test f (x ∷ xs) h a = elim (Bool-cases (test x)) [
  | inl e ↦ rw e (h x a.0, map-All P test f xs h a.1)
  | inr e ↦ rw e (a.0, map-All P test f xs h a.1)
]

pub first_row-All {ℓ κ} :
    {A : Type ℓ} (P : A → Type κ) (test : A → Bool) (xs : List A) (x : A)
    → All P xs
    → first_row test xs ≡ some x
    → P x
first_row-All P test [] x a e = cc
first_row-All P test (y ∷ ys) x a e = elim (Bool-cases (test y)) [
  | inl t ↦ subst P (some_inj (rw t at e)) a.0
  | inr t ↦ first_row-All P test ys x a.1 (rw t at e)
]

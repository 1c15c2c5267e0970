-- ===== src/Topology/Tree/Routes.antt =====
-- Ancestors and routes in the control tree, and that a route is unique.
use sd_wan_plus.Base.{
  ℕ, ◌≤◌, ◌<◌, String, ◌≡◌, refl, sym, ap, subst, ◌⊎◌, inl, inr, some, List, [], ◌∷◌, Dict, lookup,
  arith,
}

abbrev pub Parent : Dict String → String → String → Type 0
Parent parent_of n p = lookup n parent_of ≡ some p

-- No cycle, and no node deeper than the rounds of the loops: `depth` witnesses both.
pub record IsForest (parent_of : Dict String) (bound : ℕ) : Type 0 where
  pub depth : String → ℕ
  pub depth_falls : (n p : String) → Parent parent_of n p → depth p < depth n
  pub depth_bounded : (n : String) → depth n ≤ bound

-- `a` is `d` or one of its ancestors.
pub data Anc (parent_of : Dict String) (a : String) : String → Type 0 where
  self : Anc parent_of a a
  above : {d p : String} → Parent parent_of d p → Anc parent_of a p → Anc parent_of a d

-- The route from one node to another: up while the target is not below, then down towards it.
pub data Route (parent_of : Dict String) (d : String) : String → List String → Type 0 where
  arrive : {s : String} → s ≡ d → Route parent_of d s (s ∷ [])
  rise :
      {s p : String} {path : List String}
      → ¬ Anc parent_of s d
      → Parent parent_of s p
      → Route parent_of d p path
      → Route parent_of d s (s ∷ path)
  sink :
      {s c : String} {path : List String}
      → Parent parent_of c s
      → Anc parent_of c d
      → Route parent_of d c path
      → Route parent_of d s (s ∷ path)

pub Parent-unique :
    (parent_of : Dict String) (n : String) {p q : String}
    → Parent parent_of n p
    → Parent parent_of n q
    → p ≡ q
Parent-unique parent_of n h k = cc

pub Anc-trans :
    {parent_of : Dict String} {a b c : String}
    → Anc parent_of a b
    → Anc parent_of b c
    → Anc parent_of a c
Anc-trans h self = h
Anc-trans h (above e k) = above e (Anc-trans h k)

pub Anc-cases :
    {parent_of : Dict String} {a d : String}
    → Anc parent_of a d
    → (d ≡ a) ⊎ ((p : String) × Parent parent_of d p × Anc parent_of a p)
Anc-cases self = inl refl
Anc-cases (above {p} e h) = inr (p, e, h)

-- Two ancestors of one node are comparable.
pub Anc-total :
    {parent_of : Dict String} {a b d : String}
    → Anc parent_of a d
    → Anc parent_of b d
    → Anc parent_of a b ⊎ Anc parent_of b a
Anc-total self k = inr k
Anc-total (above e h) self = inl (above e h)
Anc-total {parent_of} {a} {b} (above e h) (above f k) =
    Anc-total h (subst (Anc parent_of b) (Parent-unique parent_of _ f e) k)

pub Route-cast :
    {parent_of : Dict String} {d s t : String} {path : List String}
    → s ≡ t
    → Route parent_of d s path
    → Route parent_of d t path
Route-cast {parent_of} {d} {path = path} e r = subst (λ x. Route parent_of d x path) e r

module _ {parent_of : Dict String} {bound : ℕ} (forest : IsForest parent_of bound) where
  open forest use {depth, depth_falls}

  pub depth-le_of_Anc : {a d : String} → Anc parent_of a d → depth a ≤ depth d
  depth-le_of_Anc self = omega arith
  depth-le_of_Anc (above {d} {p} e h) = omega (arith, depth_falls d p e, depth-le_of_Anc h)

  -- Two children of one node that are both above `d` are the same.
  pub child_unique :
      {s c c' d : String}
      → Parent parent_of c s
      → Parent parent_of c' s
      → Anc parent_of c d
      → Anc parent_of c' d
      → c ≡ c'
  child_unique {s} {c} {c'} e e' h h' = elim (Anc-total h h') [
    | inl k ↦ child_above e e' k
    | inr k ↦ sym (child_above e' e k)
  ]
    where
      child_above :
          {x y : String} → Parent parent_of x s → Parent parent_of y s → Anc parent_of x y → x ≡ y
      child_above f g self = refl
      child_above {x} {y} f g (above {p} q k) = absurd (
          omega (
            arith,
            depth_falls x s f,
            depth-le_of_Anc (subst (Anc parent_of x) (Parent-unique parent_of _ q g) k),
          ))

  no_sink : {d s c : String} → s ≡ d → Parent parent_of c s → Anc parent_of c d → ⊥
  no_sink {d} {s} {c} x e a = omega (arith, ap depth x, depth_falls c s e, depth-le_of_Anc a)

  -- There is one route at most.
  pub Route-unique :
      {d s : String} {p q : List String} → Route parent_of d s p → Route parent_of d s q → p ≡ q
  Route-unique (arrive x) (arrive y) = refl
  Route-unique (arrive x) (rise n e r) = absurd (n (subst (Anc parent_of _) x self))
  Route-unique (arrive x) (sink {c} e a r) = absurd (no_sink x e a)
  Route-unique (rise n e r) (arrive x) = absurd (n (subst (Anc parent_of _) x self))
  Route-unique {d} (rise {s} n e r) (rise n' e' r') =
      ap (λ t. s ∷ t) (Route-unique r (Route-cast (Parent-unique parent_of s e' e) r'))
  Route-unique (rise n e r) (sink e' a r') = absurd (n (Anc-trans (above e' self) a))
  Route-unique (sink e a r) (arrive x) = absurd (no_sink x e a)
  Route-unique (sink e a r) (rise n' e' r') = absurd (n' (Anc-trans (above e self) a))
  Route-unique {d} (sink {s} e a r) (sink e' a' r') =
      ap (λ t. s ∷ t) (Route-unique r (Route-cast (child_unique e' e a' a) r'))

-- ===== src/Topology/Tree/Step.antt =====
-- A route's tail is the route of its second node, and a route visits no node twice.
use sd_wan_plus.Base.{
  ℕ, ◌≤◌, String, ◌≡◌, refl, sym, ap, subst, ◌⊎◌, inl, inr, some, List, [], ◌∷◌, Dict, length,
  Member, Distinct, arith,
}
use sd_wan_plus.Topology.Tree.{max_rounds, control_tree_path}
use sd_wan_plus.Topology.Tree.Routes.{
  Parent, IsForest, Anc, Route, arrive, rise, sink, Route-unique, Route-cast,
}
use sd_wan_plus.Topology.Tree.Search.{control_tree_path_iff}

-- One of two neighbours is the parent of the other.
abbrev pub Adjacent : Dict String → String → String → Type 0
Adjacent parent_of a b = Parent parent_of a b ⊎ Parent parent_of b a

-- What a route's first move is.
pub record Move (parent_of : Dict String) (d s x : String) (rest : List String) : Type 0 where
  pub turn : Parent parent_of s x ⊎ Parent parent_of x s × Anc parent_of x d
  pub onward : Route parent_of d x (x ∷ rest)

module _ {parent_of : Dict String} {d : String} where
  pub Route-head :
      {s : String} {p : List String} → Route parent_of d s p → (rest : List String) × (p ≡ s ∷ rest)
  Route-head (arrive e) = ([], refl)
  Route-head (rise {path = path} n f r) = (path, refl)
  Route-head (sink {path = path} f a r) = (path, refl)

  -- The tail of a route is the route from its first node.
  Route-tail :
      {y x : String} {path rest : List String}
      → Route parent_of d y path
      → path ≡ x ∷ rest
      → (x ≡ y) × Route parent_of d x (x ∷ rest)
  Route-tail {y} {x} {path} {rest} r e =
      let (rest', e') = Route-head r in
      let same : x ≡ y = cc in
      (same, subst (λ p. Route parent_of d x p) e (Route-cast (sym same) r))

  pub Route-Move :
      {s a x : String} {p rest : List String}
      → Route parent_of d s p
      → p ≡ a ∷ x ∷ rest
      → (a ≡ s) × Move parent_of d s x rest
  Route-Move (arrive e) h = absurd (cc h)
  Route-Move {s} {a} {x} {rest = rest} (rise {p} {path} n f r) h =
      let tail : path ≡ x ∷ rest = cc in
      let (same, onward) = Route-tail r tail in
      (cc, record { turn = inl (subst (Parent parent_of s) (sym same) f); onward = onward })
  Route-Move {s} {a} {x} {rest = rest} (sink {c} {path} f b r) h =
      let tail : path ≡ x ∷ rest = cc in
      let (same, onward) = Route-tail r tail in
      (
        cc,
        record {
          turn = inr (
            subst (λ t. Parent parent_of t s) (sym same) f,
            subst (λ t. Anc parent_of t d) (sym same) b,
          );
          onward = onward;
        },
      )

  -- Each node of a route has its own route, which is no longer.
  Route-Member :
      {s y : String} {p : List String}
      → Route parent_of d s p
      → Member y p
      → (q : List String) × Route parent_of d y q × (length q ≤ length p)
  Route-Member {s} (arrive e) m = elim m [
    | inl same ↦ (s ∷ [], Route-cast (sym same) (arrive e), omega arith)
    | inr none_left ↦ absurd none_left
  ]
  Route-Member {s} (rise {path = path} n f r) m = elim m [
    | inl same ↦ (s ∷ path, Route-cast (sym same) (rise n f r), omega arith)
    | inr later ↦ let (q, r', le) = Route-Member r later in (q, r', omega arith)
  ]
  Route-Member {s} (sink {path = path} f a r) m = elim m [
    | inl same ↦ (s ∷ path, Route-cast (sym same) (sink f a r), omega arith)
    | inr later ↦ let (q, r', le) = Route-Member r later in (q, r', omega arith)
  ]

-- The nodes after each one are joined to it by an edge of the tree.
abbrev pub Edges : Dict String → String → List String → Type 0
Edges parent_of a [] = Unit {0}
Edges parent_of a (b ∷ rest) = Adjacent parent_of a b × Edges parent_of b rest

abbrev pub Ends : String → String → List String → Type 0
Ends a d [] = a ≡ d
Ends a d (b ∷ rest) = Ends b d rest

module _ {parent_of : Dict String} {bound : ℕ} (forest : IsForest parent_of bound) where
  not_later :
      {d s : String} {path : List String}
      → Route parent_of d s (s ∷ path)
      → ((m : Member s path) → (q : List String) × Route parent_of d s q × (length q ≤ length path))
      → ¬ Member s path
  not_later {s = s} {path = path} r shorter m =
      let (q, r', le) = shorter m in
      let same : length (s ∷ path) ≡ length q = ap length (Route-unique forest r r') in omega arith

  pub Route-Distinct : {d s : String} {p : List String} → Route parent_of d s p → Distinct p
  Route-Distinct (arrive e) = (λ m. m, tt)
  Route-Distinct (rise n f r) = (not_later (rise n f r) (Route-Member r), Route-Distinct r)
  Route-Distinct (sink f a r) = (not_later (sink f a r) (Route-Member r), Route-Distinct r)

module _ {parent_of : Dict String} {d : String} where
  pub Route-single : {s a : String} {p : List String} → Route parent_of d s p → p ≡ a ∷ [] → s ≡ d
  Route-single (arrive e) h = e
  Route-single (rise n f r) h = let (rest, e) = Route-head r in absurd (cc)
  Route-single (sink f a r) h = let (rest, e) = Route-head r in absurd (cc)

  Route-shape :
      (rest : List String) {s : String}
      → Route parent_of d s (s ∷ rest)
      → Edges parent_of s rest × Ends s d rest
  Route-shape [] r = (tt, Route-single r refl)
  Route-shape (x ∷ rest) {s} r =
      let (first, move) = Route-Move r refl in
      let (edges, ends) = Route-shape rest move.onward in ((turn_Adjacent move.turn, edges), ends)
    where
      turn_Adjacent :
          {y : String}
          → Parent parent_of s y ⊎ Parent parent_of y s × Anc parent_of y d
          → Adjacent parent_of s y
      turn_Adjacent (inl f) = inl f
      turn_Adjacent (inr (f, a)) = inr f

-- In a forest of at most 1025 levels, a path that `controlTreePath` returns begins with `src` and
-- ends with `dst`, each two neighbours in it are parent and child, and no node occurs twice.
pub control_tree_path-shape :
    {parent_of : Dict String}
    → IsForest parent_of max_rounds
    → (s d : String) (q : List String) → control_tree_path parent_of s d ≡ some q
    → (rest : List String) × (q ≡ s ∷ rest) × Edges parent_of s rest × Ends s d rest × Distinct q
control_tree_path-shape {parent_of} forest s d q h =
    let r = (control_tree_path_iff forest s d q).0 h in
    let (rest, e) = Route-head r in
    let (edges, ends) = Route-shape rest (subst (Route parent_of d s) e r) in
    (rest, e, edges, ends, Route-Distinct forest r)

-- In a forest of at most 1025 levels, the path that `controlTreePath` returns begins with `src`, and
-- what follows its first node is what `controlTreePath` returns for the second node.
pub control_tree_path-step :
    {parent_of : Dict String}
    → IsForest parent_of max_rounds
    → (s d a x : String) (rest : List String)
    → control_tree_path parent_of s d ≡ some (a ∷ x ∷ rest)
    → (a ≡ s) × (control_tree_path parent_of x d ≡ some (x ∷ rest))
control_tree_path-step forest s d a x rest h =
    let (first, move) = Route-Move ((control_tree_path_iff forest s d (a ∷ x ∷ rest)).0 h) refl in
    (first, (control_tree_path_iff forest x d (x ∷ rest)).1 move.onward)

-- ===== src/Topology/Tree/Search.antt =====
-- `controlTreePath` returns the route, and returns it whenever there is one.
use sd_wan_plus.Base.{
  ℕ, zero, suc, ◌≤◌, String, ◌≡◌, refl, sym, ◌∙◌, ap, subst, ◌⊎◌, inl, inr, ◌≢◌, ◌↔◌, some, none,
  Option-cases, List, [], ◌∷◌, ◌++◌, Dict, lookup, take, All, Member, All-Member, arith,
}
use sd_wan_plus.Topology.Tree.{climb, descend, max_rounds, control_tree_path}
use sd_wan_plus.Topology.Tree.Routes.{
  IsForest, Anc, self, above, Anc-trans, Route, arrive, rise, sink, depth-le_of_Anc, Route-unique,
  Parent-unique, Anc-cases,
}
use sd_wan_plus.Topology.Tree.Climb.{
  Climbed, climb-Climbed, lookup-index_from, lookup-index_from-none, Rise, top, higher, Sink,
  bottom, lower, Rise-take, Anc-Rise, Anc-Sink, Chain-Member, climb_total,
}

-- What the second loop has found when it returns a path.
record Found (parent_of : Dict String) (d : String) (ancestors : Dict ℕ) (way q : List String)
    : Type 0 where
  lca : String
  index : ℕ
  rest : List String
  hit : lookup lca ancestors ≡ some index
  path : q ≡ take (suc index) way ++ rest
  sunk : Sink parent_of d lca rest
  missed : All (λ x. lookup x ancestors ≡ none) rest

module _ (parent_of : Dict String) (d : String) (anc : Dict ℕ) (way q : List String) where
  -- A round that hits an ancestor.
  Found-hit :
      {cur : String} {behind : List String} {j : ℕ}
      → Sink parent_of d cur behind
      → All (λ x. lookup x anc ≡ none) behind
      → lookup cur anc ≡ some j
      → some (take (suc j) way ++ behind) ≡ some q
      → Found parent_of d anc way q
  Found-hit {cur} {behind} {j} s m e h = record {
    lca = cur;
    index = j;
    rest = behind;
    hit = e;
    path = cc;
    sunk = s;
    missed = m;
  }

  descend-Found :
      (left : ℕ) (behind : List String) (cur : String)
      → Sink parent_of d cur behind
      → All (λ x. lookup x anc ≡ none) behind
      → descend parent_of anc way left behind cur ≡ some q
      → Found parent_of d anc way q
  unfolding descend
  descend-Found zero behind cur s m h = elim (Option-cases (lookup cur anc)) [
    | inl e ↦ absurd (cc (rw (e, descend) at h))
    | inr (j, e) ↦ Found-hit s m e (rw (e, descend) at h)
  ]
  descend-Found (suc left) behind cur s m h = elim (Option-cases (lookup cur anc)) [
    | inr (j, e) ↦ Found-hit s m e (rw (e, descend) at h)
    | inl e ↦ elim (Option-cases (lookup cur parent_of)) [
      | inl f ↦ absurd (cc (rw (e, f, descend) at h))
      | inr (p, f) ↦
          descend-Found left (cur ∷ behind) p (lower f s) (e, m) (rw (e, f, descend) at h)
    ]
  ]

-- Below a common ancestor in a forest the loop returns a path.
descend_total :
    {parent_of : Dict String} {bound : ℕ} (forest : IsForest parent_of bound) (anc : Dict ℕ)
    (way : List String) (l : String) (left : ℕ) (behind : List String) (cur : String)
    → Anc parent_of l cur
    → lookup l anc ≢ none
    → forest.depth cur ≤ left
    → (q : List String) × (descend parent_of anc way left behind cur ≡ some q)
unfolding descend
descend_total {parent_of} forest anc way l zero behind cur a n h =
    elim (Option-cases (lookup cur anc)) [
      | inr (j, e) ↦ (take (suc j) way ++ behind, rw (e, descend))
      | inl e ↦ elim (Anc-cases a) [
        | inl same ↦ absurd (n (rw same at e))
        | inr (p, f, b) ↦ absurd (omega (arith, forest.depth_falls cur p f))
      ]
    ]
descend_total {parent_of} forest anc way l (suc left) behind cur a n h =
    elim (Option-cases (lookup cur anc)) [
      | inr (j, e) ↦ (take (suc j) way ++ behind, rw (e, descend))
      | inl e ↦ elim (Anc-cases a) [
        | inl same ↦ absurd (n (rw same at e))
        | inr (p, f, b) ↦
            let (q, k) =
              descend_total forest anc way l left (cur ∷ behind) p b n
                (omega (arith, forest.depth_falls cur p f)) in
            (q, rw (e, f, descend) k)
      ]
    ]

module _ {parent_of : Dict String} {bound : ℕ} (forest : IsForest parent_of bound) where
  open forest use {depth, depth_falls}

  -- The way down is a route.
  Route-Sink :
      {d s : String} {rest : List String} → Sink parent_of d s rest → Route parent_of d s (s ∷ rest)
  Route-Sink (bottom e) = arrive e
  Route-Sink (lower f r) = sink f (Anc-Sink r) (Route-Sink r)

  -- An ancestor of the target lies on the way down or above it.
  Sink-Anc :
      {x d l : String} {rest : List String}
      → Anc parent_of x d
      → Sink parent_of d l rest
      → Member x rest ⊎ Anc parent_of x l
  Sink-Anc {x} a (bottom e) = inr (subst (Anc parent_of x) (sym e) a)
  Sink-Anc {x} a (lower {s} {c} f r) = elim (Sink-Anc a r) [
    | inl m ↦ inl (inr m)
    | inr b ↦ elim (Anc-cases b) [
      | inl same ↦ inl (inl (sym same))
      | inr (p, g, k) ↦ inr (subst (Anc parent_of x) (Parent-unique parent_of c g f) k)
    ]
  ]

  -- The way up, and the way down over nodes that are not above its start, make a route.
  Route-Rise :
      {d l s : String} {a rest : List String}
      → Rise parent_of l s a
      → Sink parent_of d l rest
      → ((x : String) → Member x rest → ¬ Anc parent_of x s)
      → Route parent_of d s (a ++ rest)
  Route-Rise {d} {rest = rest} (top e) k apart =
      Route-Sink (subst (λ x. Sink parent_of d x rest) (sym e) k)
  Route-Rise {d} {l} {s} (higher {p} f r) k apart =
      rise not_above f (Route-Rise r k (λ x m b. apart x m (above f b)))
    where
      not_above : ¬ Anc parent_of s d
      not_above b = elim (Sink-Anc b k) [
        | inl m ↦ apart s m self
        | inr c ↦ omega (
          arith,
          depth_falls s p f,
          depth-le_of_Anc forest c,
          depth-le_of_Anc forest (Anc-Rise r),
        )
      ]

  module _ {s d : String} {anc : Dict ℕ} {way q : List String}
      (climbed : Climbed parent_of 0 [] (s ∷ []) s (anc, way))
      (found : Found parent_of d anc way q) where
    open climbed use {chain, is_chain, indices}
    open found use {lca, index, rest, hit, path, sunk, missed}

    Rise-way : Rise parent_of lca s (take (suc index) way)
    Rise-way = elim (lookup-index_from 0 (s ∷ chain) [] lca index (rw (← indices) hit)) [
      | inl (k, e, g) ↦
          let same : index ≡ k = omega arith in
          rw (climbed.way, same) (Rise-take parent_of s lca k is_chain g)
      | inr e ↦ absurd (cc e)
    ]

    rest_apart : (x : String) → Member x rest → ¬ Anc parent_of x s
    rest_apart x m a =
        (lookup-index_from-none 0 (s ∷ chain) [] x
            (rw (← indices) (All-Member (λ y. lookup y anc ≡ none) x rest missed m))).0
          (Chain-Member a is_chain)

    -- What the two loops return is a route.
    Route-loops : Route parent_of d s q
    Route-loops = rw path (Route-Rise Rise-way sunk rest_apart)

common_ancestor :
    {parent_of : Dict String} {d s : String} {q : List String}
    → Route parent_of d s q
    → (l : String) × Anc parent_of l s × Anc parent_of l d
common_ancestor {parent_of} {d} {s} (arrive e) = (s, self, subst (Anc parent_of s) e self)
common_ancestor (rise n f r) = let (l, a, b) = common_ancestor r in (l, above f a, b)
common_ancestor {s = s} (sink f a r) = (s, self, Anc-trans (above f self) a)

-- For a forest whose nodes are at most 1025 levels deep: `controlTreePath` returns a path exactly
-- when it is the route from `src` to `dst` in the control tree.
module _ {parent_of : Dict String} (forest : IsForest parent_of max_rounds) (s d : String) where
  Route-path : (q : List String) → control_tree_path parent_of s d ≡ some q → Route parent_of d s q
  unfolding control_tree_path
  Route-path q h = elim (Option-cases (climb parent_of max_rounds 0 [] (s ∷ []) s)) [
    | inl e ↦ absurd (cc (rw (e, control_tree_path) at h))
    | inr ((anc, way), e) ↦
        Route-loops forest (climb-Climbed parent_of max_rounds 0 [] (s ∷ []) s (anc, way) e) (
          descend-Found parent_of d anc way q max_rounds [] d (bottom refl) tt
            (rw (e, control_tree_path) at h))
  ]

  path_returned :
      (l : String)
      → Anc parent_of l s
      → Anc parent_of l d
      → (q : List String) × (control_tree_path parent_of s d ≡ some q)
  unfolding control_tree_path
  path_returned l a b =
      let ((anc, way), e) =
        climb_total forest max_rounds 0 [] (s ∷ []) s (forest.depth_bounded s) in
      let c = climb-Climbed parent_of max_rounds 0 [] (s ∷ []) s (anc, way) e in
      let (q, f) =
        descend_total forest anc way l max_rounds [] d b
          (λ h.
            (lookup-index_from-none 0 (s ∷ c.chain) [] l (rw c.indices at h)).0
              (Chain-Member a c.is_chain))
          (forest.depth_bounded d) in
      (q, rw (e, control_tree_path) f)

  pub control_tree_path_iff :
      (q : List String) → (control_tree_path parent_of s d ≡ some q) ↔ Route parent_of d s q
  control_tree_path_iff q = (Route-path q, complete)
    where
      complete : Route parent_of d s q → control_tree_path parent_of s d ≡ some q
      complete r =
          let (l, a, b) = common_ancestor r in
          let (q', e) = path_returned l a b in e ∙ ap some (Route-unique forest (Route-path q' e) r)

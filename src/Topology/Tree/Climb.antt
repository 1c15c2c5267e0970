-- ===== src/Topology/Tree/Climb.antt =====
-- The first loop of `controlTreePath`: what it returns, and that it returns.
use sd_wan_plus.Base.{
  ℕ, zero, suc, ◌+◌, ◌≤◌, String, eq_iff, ==-cases, ◌≡◌, refl, sym, ◌∙◌, ap, subst, ◌⊎◌, inl, inr,
  some, none, Option-cases, List, [], ◌∷◌, ◌++◌, append_assoc, append-nil, Dict, lookup, get_elem?,
  take, Member, arith,
}
use sd_wan_plus.Topology.Tree.{climb}
use sd_wan_plus.Topology.Tree.Routes.{Parent, IsForest, Anc, self, above, Anc-trans, Parent-unique}

-- The proper ancestors of a node, the nearest first.
pub data Chain (parent_of : Dict String) : String → List String → Type 0 where
  root : {n : String} → lookup n parent_of ≡ none → Chain parent_of n []
  link :
      {n p : String} {c : List String}
      → Parent parent_of n p
      → Chain parent_of p c
      → Chain parent_of n (p ∷ c)

-- What the first loop writes into `ancestors`.
pub index_from : ℕ → List String → Dict ℕ → Dict ℕ
index_from i [] m = m
index_from i (x ∷ xs) m = index_from (suc i) xs ((x, i) ∷ m)

-- What the first loop has done when it ends.
pub record Climbed (parent_of : Dict String) (i : ℕ) (ancestors : Dict ℕ) (up : List String)
    (cur : String) (r : Dict ℕ × List String) : Type 0 where
  pub chain : List String
  pub is_chain : Chain parent_of cur chain
  pub way : r.1 ≡ up ++ chain
  pub indices : r.0 ≡ index_from i (cur ∷ chain) ancestors

-- A round of the loop at a root, and at any other node.
module _ {parent_of : Dict String} {i : ℕ} {anc : Dict ℕ} {up : List String} {cur : String}
    {r : Dict ℕ × List String} where
  Climbed-root :
      lookup cur parent_of ≡ none
      → some ((cur, i) ∷ anc, up) ≡ some r
      → Climbed parent_of i anc up cur r
  unfolding index_from
  Climbed-root e h = record {
    chain = [];
    is_chain = root e;
    way = rw append-nil (ground arith);
    indices = ground arith;
  }

  Climbed-link :
      {p : String}
      → Parent parent_of cur p
      → Climbed parent_of (suc i) ((cur, i) ∷ anc) (up ++ p ∷ []) p r
      → Climbed parent_of i anc up cur r
  unfolding index_from
  Climbed-link {p} e c = record {
    chain = p ∷ c.chain;
    is_chain = link e c.is_chain;
    way = c.way ∙ append_assoc up (p ∷ []) c.chain;
    indices = c.indices;
  }

pub climb-Climbed :
    (parent_of : Dict String) (left i : ℕ) (ancestors : Dict ℕ) (up : List String) (cur : String)
    (r : Dict ℕ × List String)
    → climb parent_of left i ancestors up cur ≡ some r
    → Climbed parent_of i ancestors up cur r
unfolding climb
climb-Climbed parent_of zero i anc up cur r h = elim (Option-cases (lookup cur parent_of)) [
  | inl e ↦ Climbed-root e (rw (e, climb) at h)
  | inr (p, e) ↦ absurd (cc (rw (e, climb) at h))
]
climb-Climbed parent_of (suc left) i anc up cur r h = elim (Option-cases (lookup cur parent_of)) [
  | inl e ↦ Climbed-root e (rw (e, climb) at h)
  | inr (p, e) ↦ Climbed-link e (
      climb-Climbed parent_of left (suc i) ((cur, i) ∷ anc) (up ++ p ∷ []) p r (rw (e, climb) at h))
]

pub lookup-index_from :
    (i : ℕ) (xs : List String) (m : Dict ℕ) (x : String) (j : ℕ)
    → lookup x (index_from i xs m) ≡ some j
    → ((k : ℕ) × (j ≡ i + k) × (get_elem? xs k ≡ some x)) ⊎ (lookup x m ≡ some j)
unfolding index_from
lookup-index_from i [] m x j h = inr h
lookup-index_from i (y ∷ xs) m x j h = elim (lookup-index_from (suc i) xs ((y, i) ∷ m) x j h) [
  | inl (k, e, g) ↦ inl (suc k, omega arith, g)
  | inr found ↦ elim (==-cases y x) [
    | inl (e, t) ↦ inl (0, ground arith, ap some e)
    | inr (n, t) ↦ inr (rw t at found)
  ]
]

pub lookup-index_from-none :
    (i : ℕ) (xs : List String) (m : Dict ℕ) (x : String)
    → lookup x (index_from i xs m) ≡ none
    → (¬ Member x xs) × (lookup x m ≡ none)
unfolding index_from
lookup-index_from-none i [] m x h = (λ b. b, h)
lookup-index_from-none i (y ∷ xs) m x h =
    ground (arith, eq_iff y x, lookup-index_from-none (suc i) xs ((y, i) ∷ m) x)

-- The way from a node up to an ancestor, both ends included.
pub data Rise (parent_of : Dict String) (l : String) : String → List String → Type 0 where
  top : {s : String} → s ≡ l → Rise parent_of l s (s ∷ [])
  higher :
      {s p : String} {path : List String}
      → Parent parent_of s p
      → Rise parent_of l p path
      → Rise parent_of l s (s ∷ path)

-- The way from a node down to `d`, without the node itself.
pub data Sink (parent_of : Dict String) (d : String) : String → List String → Type 0 where
  bottom : {s : String} → s ≡ d → Sink parent_of d s []
  lower :
      {s c : String} {path : List String}
      → Parent parent_of c s
      → Sink parent_of d c path
      → Sink parent_of d s (c ∷ path)

pub Rise-take :
    (parent_of : Dict String) (n l : String) {c : List String} (k : ℕ)
    → Chain parent_of n c
    → get_elem? (n ∷ c) k ≡ some l
    → Rise parent_of l n (take (suc k) (n ∷ c))
Rise-take parent_of n l zero h e = top (ground arith)
Rise-take parent_of n l (suc k) (root r) e = absurd (cc e)
Rise-take parent_of n l (suc k) (link {p} f h) e = higher f (Rise-take parent_of p l k h e)

pub Anc-Rise :
    {parent_of : Dict String} {l s : String} {p : List String}
    → Rise parent_of l s p
    → Anc parent_of l s
Anc-Rise {parent_of} {l} (top e) = subst (Anc parent_of l) (sym e) self
Anc-Rise (higher f r) = above f (Anc-Rise r)

pub Anc-Sink :
    {parent_of : Dict String} {d s : String} {p : List String}
    → Sink parent_of d s p
    → Anc parent_of s d
Anc-Sink {parent_of} {d} {s} (bottom e) = subst (Anc parent_of s) e self
Anc-Sink (lower f r) = Anc-trans (above f self) (Anc-Sink r)

-- Each ancestor is on the chain.
pub Chain-Member :
    {parent_of : Dict String} {x n : String} {c : List String}
    → Anc parent_of x n
    → Chain parent_of n c
    → Member x (n ∷ c)
Chain-Member self h = inl refl
Chain-Member (above f a) (root e) = absurd (cc f)
Chain-Member {parent_of} {x} {n} (above f a) (link g h) =
    inr (Chain-Member (subst (Anc parent_of x) (Parent-unique parent_of n f g) a) h)

-- In a forest the loop ends at a root before its bound.
pub climb_total :
    {parent_of : Dict String} {bound : ℕ} (forest : IsForest parent_of bound) (left i : ℕ)
    (ancestors : Dict ℕ) (up : List String) (cur : String)
    → forest.depth cur ≤ left
    → (r : Dict ℕ × List String) × (climb parent_of left i ancestors up cur ≡ some r)
unfolding climb
climb_total {parent_of} forest zero i anc up cur h = elim (Option-cases (lookup cur parent_of)) [
  | inl e ↦ (((cur, i) ∷ anc, up), rw (e, climb))
  | inr (p, e) ↦ absurd (omega (arith, forest.depth_falls cur p e))
]
climb_total {parent_of} forest (suc left) i anc up cur h =
    elim (Option-cases (lookup cur parent_of)) [
      | inl e ↦ (((cur, i) ∷ anc, up), rw (e, climb))
      | inr (p, e) ↦
          let (r, k) =
            climb_total forest left (suc i) ((cur, i) ∷ anc) (up ++ p ∷ []) p
              (omega (arith, forest.depth_falls cur p e)) in
          (r, rw (e, climb) k)
    ]

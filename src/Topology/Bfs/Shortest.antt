-- ===== src/Topology/Bfs/Shortest.antt =====
-- The hop that `NextHop` returns is the first of a shortest walk, and it returns one if any walk
-- leads to the target. The queue is a front of nodes at distance d + 1 and a back at d + 2.
use mathlib.Core.List.{Memᴰ}
use sd_wan_plus.Base.{
  ℕ, zero, suc, ◌≤◌, String, ◌≡◌, sym, ap, ◌∙◌, subst, ◌⊎◌, inl, inr, ◌≢◌, ◌↔◌, Option, some, none,
  List, [], ◌∷◌, ◌++◌, append-nil, append_assoc, Member, All, All-append, All-mono, arith,
}
use sd_wan_plus.Topology.Tree.{NextHopResult}
use sd_wan_plus.Topology.Bfs.{
  Neighbor, Adj, Item, first_of_neighbor, scan, Answer, answer, out_of_fuel, search_queue,
}
use sd_wan_plus.Topology.Bfs.Walks.{ids, Edge, Walk, here, step}
use sd_wan_plus.Topology.Bfs.Scan.{nodes_of, Scanned, scan-Scanned, scan-found, Stands, Sourced}
use sd_wan_plus.Topology.Bfs.Rounds.{Outcome-cases}

-- The hop stands for a neighbour of the source, a walk of `k` edges leads on from it, and no walk
-- from the source has fewer than `suc k` edges.
pub record Shortest (adj : Adj) (src dst : String) (h : NextHopResult) : Type 0 where
  pub beside : (n : Neighbor) × Memᴰ n (adj src) × (first_of_neighbor n ≡ h)
  pub k : ℕ
  pub onward : Walk (Edge adj) h.peer_id k dst
  pub least : (m : ℕ) → Walk (Edge adj) src m dst → suc k ≤ m

-- What an answer promises.
abbrev pub Promise : Adj → String → String → Option NextHopResult → Type 0
Promise adj src dst none = (m : ℕ) → ¬ Walk (Edge adj) src m dst
Promise adj src dst (some h) = Shortest adj src dst h

le_cases : (a b : ℕ) → (a ≤ b) ⊎ (suc b ≤ a)
le_cases a b = ground arith

nodes_of-append :
    (u : String) (xs ys : List Item)
    → Member u (nodes_of (xs ++ ys)) ↔ (Member u (nodes_of xs) ⊎ Member u (nodes_of ys))
nodes_of-append u [] ys = ground arith
nodes_of-append u (x ∷ xs) ys = ground (arith, nodes_of-append u xs ys)

module _ (adj : Adj) (src dst : String) where
  -- An item at the end of a walk of `k` edges from its first hop.
  abbrev At : ℕ → Item → Type 0
  At k i =
      ((n : Neighbor) × Memᴰ n (adj src) × (first_of_neighbor n ≡ i.hop))
      × Walk (Edge adj) i.hop.peer_id k i.node

  -- No walk of fewer than `k` edges leads to the item's node.
  abbrev Far : ℕ → Item → Type 0
  Far k i = (m : ℕ) → Walk (Edge adj) src m i.node → k ≤ m

  pub record Inv (d : ℕ) (front back : List Item) (seen : List String) : Type 0 where
    misses : ¬ Member dst seen
    closed :
        (u v : String)
        → Member u seen
        → Edge adj u v
        → Member u (nodes_of (front ++ back)) ⊎ Member v seen
    front_at : All (At d) front
    back_at : All (At (suc d)) back
    near : (m : ℕ) (v : String) → Walk (Edge adj) src m v → m ≤ suc d → Member v seen
    back_far : All (Far (suc (suc d))) back

  -- The back of the queue becomes the front.
  Inv-shift :
      {d : ℕ} {back : List Item} {seen : List String}
      → Inv d [] back seen
      → Inv (suc d) back [] seen
  Inv-shift {d} {back} {seen} inv = record {
    misses = inv.misses;
    closed = λ u v m e. rw append-nil (inv.closed u v m e);
    front_at = inv.back_at;
    back_at = tt;
    near = further;
    back_far = tt;
  }
    where
      far :
          (is : List Item)
          → All (Far (suc (suc d))) is
          → (u : String) → Member u (nodes_of is)
          → (m : ℕ) → Walk (Edge adj) src m u
          → suc (suc d) ≤ m
      far [] a u x m w = absurd x
      far (i ∷ is) a u (inl e) m w = a.0 m (subst (Walk (Edge adj) src m) e w)
      far (i ∷ is) a u (inr x) m w = far is a.1 u x m w

      further : (m : ℕ) (v : String) → Walk (Edge adj) src m v → m ≤ suc (suc d) → Member v seen
      further m v (here e) le = inv.near 0 v (here e) (omega arith)
      further m v (step {k} {u} w e) le = elim (inv.closed u v (inv.near k u w (omega arith)) e) [
        | inl waits ↦ absurd (omega (arith, far back inv.back_far u waits k w))
        | inr m' ↦ m'
      ]

  -- With an empty queue nothing else can be reached.
  Inv-end :
      {d : ℕ} {seen : List String}
      → Inv d [] [] seen
      → (m : ℕ) (v : String) → Walk (Edge adj) src m v
      → Member v seen
  Inv-end inv m v (here e) = inv.near 0 v (here e) (omega arith)
  Inv-end inv m v (step {k} {u} w e) = elim (inv.closed u v (Inv-end inv k u w) e) [
    | inl waits ↦ absurd waits
    | inr m' ↦ m'
  ]

  -- A round that finds the target from a node of the front.
  Shortest-round :
      {d : ℕ} {cur : Item} {front back : List Item} {seen : List String}
      → Inv d (cur ∷ front) back seen
      → Edge adj cur.node dst
      → Shortest adj src dst cur.hop
  Shortest-round {d} inv e = record {
    beside = inv.front_at.0.0;
    k = suc d;
    onward = step inv.front_at.0.1 e;
    least = λ m w. elim (le_cases m (suc d)) [
      | inl le ↦ absurd (inv.misses (inv.near m dst w le))
      | inr gt ↦ gt
    ];
  }

  -- A round that goes on.
  Inv-round :
      {d : ℕ} {cur : Item} {front back q : List Item} {seen seen' : List String}
      → Inv d (cur ∷ front) back seen
      → (s : Scanned dst cur.hop (adj cur.node) seen seen' (front ++ back) q)
      → Inv d front (back ++ s.pushed) seen'
  Inv-round {d} {cur} {front} {back} {seen = seen} {seen' = seen'} inv s = record {
    misses = s.misses inv.misses;
    closed = still;
    front_at = inv.front_at.1;
    back_at = All-append (At (suc d)) back s.pushed inv.back_at (All-mono s.pushed reached s.fresh);
    near = λ m v w le. (s.seen_iff v).1 (inl (inv.near m v w le));
    back_far =
        All-append (Far (suc (suc d))) back s.pushed inv.back_far (All-mono s.pushed later s.fresh);
  }
    where
      still :
          (u v : String)
          → Member u seen'
          → Edge adj u v
          → Member u (nodes_of (front ++ (back ++ s.pushed))) ⊎ Member v seen'
      still u v m e = ground (
        arith,
        s.seen_iff u,
        s.seen_iff v,
        inv.closed u v,
        nodes_of-append u front (back ++ s.pushed),
        nodes_of-append u back s.pushed,
        nodes_of-append u front back,
        (λ (x : u ≡ cur.node). s.covers v (subst (λ t. Edge adj t v) x e)),
        e,
      )

      reached :
          (i : Item)
          → (i.hop ≡ cur.hop) × Member i.node (ids (adj cur.node)) × (¬ Member i.node seen)
          → At (suc d) i
      reached i (same, m, _) =
          let (n, k, x) = inv.front_at.0.0 in
          (
            (n, k, x ∙ sym same),
            step (subst (λ h. Walk (Edge adj) h.peer_id d cur.node) (sym same) inv.front_at.0.1) m,
          )

      later :
          (i : Item)
          → (i.hop ≡ cur.hop) × Member i.node (ids (adj cur.node)) × (¬ Member i.node seen)
          → Far (suc (suc d)) i
      later i (_, _, f) m w = elim (le_cases m (suc d)) [
        | inl le ↦ absurd (f (inv.near m i.node w le))
        | inr gt ↦ gt
      ]

  -- What a run of the loop promises.
  abbrev pub Promised : Answer → Type 0
  Promised (answer r) = Promise adj src dst r
  Promised out_of_fuel = Unit

  abbrev Loop : ℕ → Type 0
  Loop fuel =
      (d : ℕ) (front back : List Item) (seen : List String)
      → Inv d front back seen
      → Promised (search_queue adj dst fuel seen (front ++ back))

  round-Promised :
      (fuel d : ℕ) (cur : Item) (front back : List Item) (seen : List String)
      → Loop fuel
      → Inv d (cur ∷ front) back seen
      → Promised (search_queue adj dst (suc fuel) seen (cur ∷ front ++ back))
  unfolding search_queue
  round-Promised fuel d cur front back seen loop inv =
      elim (Outcome-cases (scan dst cur.hop (adj cur.node) seen (front ++ back))) [
        | inl (hop, e) ↦
            let (same, m) = scan-found dst cur.hop (adj cur.node) seen (front ++ back) hop e in
            let run : search_queue adj dst (suc fuel) seen (cur ∷ front ++ back)
                ≡ answer (some hop) =
              rw (e, search_queue) in
            subst Promised (sym run)
              (subst (Shortest adj src dst) (sym same) (Shortest-round inv m))
        | inr (seen', q, e) ↦
            let s = scan-Scanned dst cur.hop (adj cur.node) seen seen' (front ++ back) q e in
            let run : search_queue adj dst (suc fuel) seen (cur ∷ front ++ back)
                ≡ search_queue adj dst fuel seen' q =
              rw (e, search_queue) in
            subst Promised
              (sym (
                run
                ∙ ap (search_queue adj dst fuel seen')
                    (s.queue ∙ append_assoc front back s.pushed)))
              (loop d front (back ++ s.pushed) seen' (Inv-round inv s))
      ]

  pub search_queue-Promised : (fuel : ℕ) → Loop fuel
  unfolding search_queue
  search_queue-Promised fuel d [] [] seen inv = λ m w. inv.misses (Inv-end inv m dst w)
  search_queue-Promised zero d [] (b ∷ back) seen inv = tt
  search_queue-Promised zero d (cur ∷ front) back seen inv = tt
  search_queue-Promised (suc fuel) d [] (cur ∷ back) seen inv =
      subst (λ q. Promised (search_queue adj dst (suc fuel) seen (cur ∷ q))) (append-nil back)
        (round-Promised fuel (suc d) cur back [] seen (search_queue-Promised fuel) (Inv-shift inv))
  search_queue-Promised (suc fuel) d (cur ∷ front) back seen inv =
      round-Promised fuel d cur front back seen (search_queue-Promised fuel) inv

  -- The loop over the neighbours of the source establishes the invariant.
  pub Inv-start :
      {q : List Item} {seen : List String}
      → src ≢ dst
      → Sourced dst (adj src) (src ∷ []) seen [] q
      → Inv 0 q [] seen
  Inv-start {q} {seen} apart s = record {
    misses = s.misses (elim [ inl e ↦ apart (sym e) | inr m ↦ m ]);
    closed = λ u v m e. ground (
      arith,
      s.seen_iff u,
      s.seen_iff v,
      λ (x : u ≡ src). subst (λ t. Edge adj t v) x e,
      subst (λ t. Member u (ids (adj src)) → Member u t) waiting (λ k. k),
    );
    front_at = subst (All (At 0)) (sym s.queue) (All-mono s.pushed at s.stand);
    back_at = tt;
    near = near;
    back_far = tt;
  }
    where
      waiting : ids (adj src) ≡ nodes_of (q ++ [])
      waiting = sym s.nodes ∙ ap nodes_of (sym s.queue ∙ sym (append-nil q))

      at : (i : Item) → Stands (adj src) i.hop i.node → At 0 i
      at i (n, m, e, x) = ((n, m, e), here (sym (ap (λ h. h.peer_id) e) ∙ x))

      near : (m : ℕ) (v : String) → Walk (Edge adj) src m v → m ≤ 1 → Member v seen
      near m v (here e) le = (s.seen_iff v).1 (inl (inl (sym e)))
      near m v (step (here x) e) le = (s.seen_iff v).1 (inr (subst (λ t. Edge adj t v) (sym x) e))
      near m v (step (step w x) e) le = absurd (omega arith)

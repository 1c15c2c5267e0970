-- ===== src/Topology/Bfs/Scan.antt =====
-- What the two inner loops of `NextHop` do to the set of seen nodes and to the queue.
use mathlib.Core.List.{Memᴰ}
use sd_wan_plus.Base.{
  String, ◌==◌, eq_iff, ◌≡◌, refl, ap, ◌∙◌, ◌⊎◌, inl, inr, ◌↔◌, true, false, Bool-cases, List, [],
  ◌∷◌, ◌++◌, map, append_assoc, append-nil, contains, contains_iff, Member, All, All-mono, arith,
  ==-cases,
}
use sd_wan_plus.Topology.Tree.{NextHopResult}
use sd_wan_plus.Topology.Bfs.Walks.{ids}
use sd_wan_plus.Topology.Bfs.{
  Neighbor, Item, found, searching, first_of_neighbor, scan_source, scan,
}

abbrev pub nodes_of : List Item → List String
nodes_of = map (λ i. i.node)

-- A pass over the neighbours `ns` that leaves `seen'` and adds `pushed` to the queue.
pub record Scanned (dst : String) (hop : NextHopResult) (ns : List Neighbor)
    (seen seen' : List String) (q q' : List Item) : Type 0 where
  pub pushed : List Item
  pub queue : q' ≡ q ++ pushed
  pub fresh : All (λ i. (i.hop ≡ hop) × Member i.node (ids ns) × (¬ Member i.node seen)) pushed
  pub seen_iff : (x : String) → Member x seen' ↔ (Member x seen ⊎ Member x (nodes_of pushed))
  pub covers : (x : String) → Member x (ids ns) → Member x seen'
  pub misses : ¬ Member dst seen → ¬ Member dst seen'

module _ (dst : String) (hop : NextHopResult) where
  pub scan-Scanned :
      (ns : List Neighbor) (seen seen' : List String) (q q' : List Item)
      → scan dst hop ns seen q ≡ searching seen' q'
      → Scanned dst hop ns seen seen' q q'
  unfolding scan
  scan-Scanned [] seen seen' q q' h = record {
    pushed = [];
    queue = rw append-nil (ground arith);
    fresh = tt;
    seen_iff = λ x. ground arith;
    covers = λ x m. absurd m;
    misses = λ k m. ground arith;
  }
  scan-Scanned (n ∷ ns) seen seen' q q' h = elim (Bool-cases (contains seen n.node_id)) [
    | inl e ↦ skip e (scan-Scanned ns seen seen' q q' (ground arith))
    | inr e ↦ push e (ground arith) (
        scan-Scanned ns (n.node_id ∷ seen) seen' (q ++ record { node = n.node_id; hop = hop } ∷ [])
          q' (ground arith))
  ]
    where
      skip :
          contains seen n.node_id ≡ true
          → Scanned dst hop ns seen seen' q q'
          → Scanned dst hop (n ∷ ns) seen seen' q q'
      skip e s = record {
        pushed = s.pushed;
        queue = s.queue;
        fresh = All-mono s.pushed (λ i f. (f.0, inr f.1, f.2)) s.fresh;
        seen_iff = s.seen_iff;
        covers =
            λ x m. ground (arith, s.seen_iff n.node_id, contains_iff seen n.node_id, s.covers x);
        misses = s.misses;
      }

      push :
          contains seen n.node_id ≡ false
          → (n.node_id == dst) ≡ false
          → Scanned dst hop ns
              (n.node_id ∷ seen)
              seen'
              (q ++ record { node = n.node_id; hop = hop } ∷ [])
              q'
          → Scanned dst hop (n ∷ ns) seen seen' q q'
      push e d s = record {
        pushed = record { node = n.node_id; hop = hop } ∷ s.pushed;
        queue = s.queue ∙ append_assoc q (record { node = n.node_id; hop = hop } ∷ []) s.pushed;
        fresh = (
          (refl, inl refl, ground (arith, contains_iff seen n.node_id)),
          All-mono s.pushed (λ i f. (f.0, inr f.1, λ m. f.2 (inr m))) s.fresh,
        );
        seen_iff = λ x. ground (arith, s.seen_iff x);
        covers = λ x m. ground (arith, s.seen_iff x, s.covers x);
        misses = λ k. s.misses (λ m. ground (arith, eq_iff n.node_id dst));
      }

  pub scan-found :
      (ns : List Neighbor) (seen : List String) (q : List Item) (h : NextHopResult)
      → scan dst hop ns seen q ≡ found h
      → (h ≡ hop) × Member dst (ids ns)
  unfolding scan
  scan-found [] seen q h e = cc
  scan-found (n ∷ ns) seen q h e = ground (
    arith,
    eq_iff n.node_id dst,
    scan-found ns seen q h,
    scan-found ns (n.node_id ∷ seen) (q ++ record { node = n.node_id; hop = hop } ∷ []) h,
  )

-- The neighbour that an item of the first ring stands for.
abbrev pub Stands : List Neighbor → NextHopResult → String → Type 0
Stands ns hop v = (n : Neighbor) × Memᴰ n ns × (first_of_neighbor n ≡ hop) × (n.node_id ≡ v)

Stands-cons :
    {n : Neighbor} {ns : List Neighbor} {hop : NextHopResult} {v : String}
    → Stands ns hop v
    → Stands (n ∷ ns) hop v
Stands-cons (k, m, e, f) = (k, Memᴰ.tail m, e, f)

-- The pass over the neighbours of the source.
pub record Sourced (dst : String) (ns : List Neighbor) (seen seen' : List String) (q q' : List Item)
    : Type 0 where
  pub pushed : List Item
  pub queue : q' ≡ q ++ pushed
  pub stand : All (λ i. Stands ns i.hop i.node) pushed
  pub nodes : nodes_of pushed ≡ ids ns
  pub seen_iff : (x : String) → Member x seen' ↔ (Member x seen ⊎ Member x (ids ns))
  pub misses : ¬ Member dst seen → ¬ Member dst seen'

pub scan_source-Sourced :
    (dst : String) (ns : List Neighbor) (seen seen' : List String) (q q' : List Item)
    → scan_source dst ns seen q ≡ searching seen' q'
    → Sourced dst ns seen seen' q q'
unfolding scan_source
scan_source-Sourced dst [] seen seen' q q' h = record {
  pushed = [];
  queue = rw append-nil (ground arith);
  stand = tt;
  nodes = refl;
  seen_iff = λ x. ground arith;
  misses = λ k m. ground arith;
}
scan_source-Sourced dst (n ∷ ns) seen seen' q q' h = push (ground arith) (
    scan_source-Sourced dst ns (n.node_id ∷ seen) seen'
      (q ++ record { node = n.node_id; hop = first_of_neighbor n } ∷ []) q' (ground arith))
  where
    item : Item
    item = record { node = n.node_id; hop = first_of_neighbor n }

    push :
        (n.node_id == dst) ≡ false
        → Sourced dst ns (n.node_id ∷ seen) seen' (q ++ item ∷ []) q'
        → Sourced dst (n ∷ ns) seen seen' q q'
    push d s = record {
      pushed = item ∷ s.pushed;
      queue = s.queue ∙ append_assoc q (item ∷ []) s.pushed;
      stand = ((n, Memᴰ.head refl, refl, refl), All-mono s.pushed (λ i k. Stands-cons k) s.stand);
      nodes = ap (λ t. n.node_id ∷ t) s.nodes;
      seen_iff = λ x. ground (arith, s.seen_iff x);
      misses = λ k. s.misses (λ m. ground (arith, eq_iff n.node_id dst));
    }

pub scan_source-found :
    (dst : String) (ns : List Neighbor) (seen : List String) (q : List Item) (h : NextHopResult)
    → scan_source dst ns seen q ≡ found h
    → Stands ns h dst
unfolding scan_source
scan_source-found dst [] seen q h e = absurd (cc e)
scan_source-found dst (n ∷ ns) seen q h e = elim (==-cases n.node_id dst) [
  | inl (x, t) ↦ (n, Memᴰ.head refl, ground (arith, t), x)
  | inr (x, t) ↦ Stands-cons (
      scan_source-found dst ns (n.node_id ∷ seen)
        (q ++ record { node = n.node_id; hop = first_of_neighbor n } ∷ []) h (ground (arith, t)))
]

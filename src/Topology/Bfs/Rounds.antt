-- ===== src/Topology/Bfs/Rounds.antt =====
-- The queue loop of `NextHop` ends: the rounds allowed are enough.
use sd_wan_plus.Base.{
  ℕ, zero, suc, ◌+◌, ◌*◌, ◌≤◌, String, ◌==◌, eq_iff, ◌≡◌, refl, ◌⊎◌, inl, inr, false, ◌||◌,
  Bool-cases, Option, some, none, List, [], ◌∷◌, ◌++◌, if◌then◌else◌, contains, Member, length,
  length-append, arith,
}
use sd_wan_plus.Core.Types.{WireGuardLink}
use sd_wan_plus.Topology.Tree.{NextHopResult}
use sd_wan_plus.Topology.Bfs.{
  Neighbor, Adj, Item, Outcome, found, searching, first_of_neighbor, scan_source, scan, answer,
  search_queue, enabled_adj, enough, next_hop,
}
use sd_wan_plus.Topology.Bfs.Walks.{ids, length-enabled_adj, Edge-enabled_adj}
use sd_wan_plus.Topology.Links.{Linked}

-- The texts of the pool that have not been seen, counted with repetitions.
unseen : List String → List String → ℕ
unseen [] seen = 0
unseen (p ∷ pool) seen = let rest = unseen pool seen in if contains seen p then rest else suc rest

unseen-cons-le : (pool seen : List String) (x : String) → unseen pool (x ∷ seen) ≤ unseen pool seen
unfolding unseen
unseen-cons-le [] seen x = omega arith
unseen-cons-le (p ∷ pool) seen x = ground (arith, unseen-cons-le pool seen x)

unseen-cons-lt :
    (pool seen : List String) (x : String)
    → Member x pool
    → contains seen x ≡ false
    → unseen pool (x ∷ seen) + 1 ≤ unseen pool seen
unfolding unseen
unseen-cons-lt [] seen x m h = absurd m
unseen-cons-lt (p ∷ pool) seen x (inl e) h =
    ground (arith, unseen-cons-le pool seen x, eq_iff p x, e)
unseen-cons-lt (p ∷ pool) seen x (inr m) h = ground (arith, unseen-cons-lt pool seen x m h)

unseen-le : (pool seen : List String) → unseen pool seen ≤ length pool
unfolding unseen
unseen-le [] seen = omega arith
unseen-le (p ∷ pool) seen = ground (arith, unseen-le pool seen)

-- A pass pushes no more than it marks.
scan-work :
    (dst : String) (hop : NextHopResult) (pool : List String) (ns : List Neighbor)
    (seen seen' : List String) (q q' : List Item)
    → ((x : String) → Member x (ids ns) → Member x pool)
    → scan dst hop ns seen q ≡ searching seen' q'
    → unseen pool seen' + length q' ≤ unseen pool seen + length q
unfolding scan
scan-work dst hop pool [] seen seen' q q' inside h = ground arith
scan-work dst hop pool (n ∷ ns) seen seen' q q' inside h =
    let item : Item = record { node = n.node_id; hop = hop } in
    ground (
      arith,
      inside n.node_id (inl refl),
      scan-work dst hop pool ns seen seen' q q' (λ x m. inside x (inr m)),
      scan-work dst hop pool ns (n.node_id ∷ seen) seen' (q ++ item ∷ []) q'
          (λ x m. inside x (inr m)),
      unseen-cons-lt pool seen n.node_id,
      length-append q (item ∷ []),
    )

pub Outcome-cases :
    (o : Outcome)
    → ((h : NextHopResult) × (o ≡ found h))
      ⊎ ((seen : List String) × (q : List Item) × (o ≡ searching seen q))
Outcome-cases (found h) = inl (h, refl)
Outcome-cases (searching seen q) = inr (seen, q, refl)

search_queue-answer :
    (adj : Adj) (dst : String) (pool : List String)
    → ((u x : String) → Member x (ids (adj u)) → Member x pool)
    → (fuel : ℕ) (seen : List String) (q : List Item) → unseen pool seen + length q ≤ fuel
    → (r : Option NextHopResult) × (search_queue adj dst fuel seen q ≡ answer r)
unfolding search_queue
search_queue-answer adj dst pool inside fuel seen [] h = (none, refl)
search_queue-answer adj dst pool inside zero seen (cur ∷ q) h = absurd (omega arith)
search_queue-answer adj dst pool inside (suc fuel) seen (cur ∷ q) h =
    elim (Outcome-cases (scan dst cur.hop (adj cur.node) seen q)) [
      | inl (hop, e) ↦ (some hop, rw (e, search_queue))
      | inr (seen', q', e) ↦
          let (r, k) = search_queue-answer adj dst pool inside fuel seen' q' (
            omega (
              arith,
              scan-work dst cur.hop pool (adj cur.node) seen seen' q q' (inside cur.node) e,
            )) in
          (r, rw (e, search_queue) k)
    ]

endpoints : List WireGuardLink → List String
endpoints [] = []
endpoints (l ∷ ls) = l.node_a ∷ l.node_b ∷ endpoints ls

length-endpoints : (ls : List WireGuardLink) → length (endpoints ls) ≡ 2 * length ls
unfolding endpoints
length-endpoints [] = refl
length-endpoints (l ∷ ls) = omega (arith, length-endpoints ls)

Linked-endpoints :
    (ls : List WireGuardLink) (u v : String) → Linked ls u v → Member v (endpoints ls)
unfolding endpoints
Linked-endpoints [] u v k = k
Linked-endpoints (l ∷ ls) u v k = ground (arith, Linked-endpoints ls u v)

scan_source-length :
    (dst : String) (ns : List Neighbor) (seen seen' : List String) (q q' : List Item)
    → scan_source dst ns seen q ≡ searching seen' q'
    → length q' ≡ length q + length ns
unfolding scan_source
scan_source-length dst [] seen seen' q q' h = ground arith
scan_source-length dst (n ∷ ns) seen seen' q q' h =
    let item : Item = record { node = n.node_id; hop = first_of_neighbor n } in
    ground (
      arith,
      scan_source-length dst ns (n.node_id ∷ seen) seen' (q ++ item ∷ []) q',
      length-append q (item ∷ []),
    )

-- `NextHop` returns, whatever the links are: four rounds of its queue loop for each link are
-- enough.
pub next_hop-answer :
    (links : List WireGuardLink) (src dst : String)
    → (r : Option NextHopResult) × (next_hop links src dst ≡ answer r)
unfolding next_hop
next_hop-answer links src dst = elim (Bool-cases (src == "" || dst == "" || src == dst)) [
  | inl e ↦ (none, rw (e, next_hop))
  | inr e ↦ elim (Outcome-cases (scan_source dst (enabled_adj links src) (src ∷ []) [])) [
    | inl (hop, o) ↦ (some hop, rw (e, o, next_hop))
    | inr (seen, q, o) ↦
        let (r, k) =
          search_queue-answer (enabled_adj links) dst (endpoints links)
            (λ u x m. Linked-endpoints links u x ((Edge-enabled_adj links u x).0 m)) (enough links)
            seen q
            (omega (
              arith,
              unseen-le (endpoints links) seen,
              length-endpoints links,
              length-enabled_adj links src,
              scan_source-length dst (enabled_adj links src) (src ∷ []) seen [] q o,
            )) in
        (r, rw (e, o, next_hop) k)
  ]
]

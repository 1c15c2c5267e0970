-- ===== src/Topology/Bfs.antt =====
-- internal/topology/graph.go: `EnabledAdj` and `NextHop`. The proofs are in the modules below:
-- `Walks` has walks over links, `Scan` the inner loops, `Rounds` the end of the queue loop,
-- `Shortest` the invariant of the search by rings, and `Correct` what the answers mean.
pub mod Walks
pub mod Scan
pub mod Rounds
pub mod Shortest
pub mod Correct
mod Samples
use sd_wan_plus.Base.{
  ℕ, zero, suc, ◌*◌, String, ◌==◌, Bool, true, false, ◌||◌, Option, some, none, List, [], ◌∷◌, ◌++◌,
  if◌then◌else◌, contains, length,
}
use sd_wan_plus.Core.Types.{WireGuardLink}
use sd_wan_plus.Topology.Tree.{NextHopResult}

pub record Neighbor : Type 0 where
  pub node_id : String
  pub link_id : String
  pub iface : String

-- A Go `map[string][]Neighbor`, in which a missing key reads as the empty list.
abbrev pub Adj : Type 0
Adj = String → List Neighbor

-- adj[k] = append(adj[k], n)
unfoldable pub add_neighbor : Adj → String → Neighbor → Adj
add_neighbor adj k n j = if k == j then adj j ++ n ∷ [] else adj j

unfoldable pub add_link : Adj → WireGuardLink → Adj
add_link adj l =
    add_neighbor
      (add_neighbor adj l.node_a
        (record { node_id = l.node_b; link_id = l.id; iface = l.interface_name_a }))
      l.node_b (record { node_id = l.node_a; link_id = l.id; iface = l.interface_name_b })

unfoldable pub enabled_adj_from : Adj → List WireGuardLink → Adj
enabled_adj_from adj [] = adj
enabled_adj_from adj (l ∷ ls) = enabled_adj_from (if l.enabled then add_link adj l else adj) ls

unfoldable pub enabled_adj : List WireGuardLink → Adj
enabled_adj ls = enabled_adj_from (λ _. []) ls

-- An item of the queue: a node, and the first hop of the way to it.
pub record Item : Type 0 where
  pub node : String
  pub hop : NextHopResult

-- Where an inner loop ends: it has returned a hop, or it leaves `seen` and the queue.
pub data Outcome : Type 0 where
  found : NextHopResult → Outcome
  searching : List String → List Item → Outcome

abbrev pub first_of_neighbor : Neighbor → NextHopResult
first_of_neighbor n = record { peer_id = n.node_id; iface = n.iface; link_id = n.link_id }

-- The loop over adj[src].
unfoldable pub scan_source : String → List Neighbor → List String → List Item → Outcome
scan_source dst [] seen q = searching seen q
scan_source dst (n ∷ ns) seen q =
    let rest =
      scan_source dst ns (n.node_id ∷ seen)
        (q ++ record { node = n.node_id; hop = first_of_neighbor n } ∷ []) in
    if n.node_id == dst then found (first_of_neighbor n) else rest

-- The loop over adj[cur.node].
unfoldable pub scan : String → NextHopResult → List Neighbor → List String → List Item → Outcome
scan dst hop [] seen q = searching seen q
scan dst hop (n ∷ ns) seen q =
    let skip = scan dst hop ns seen q in
    let push =
      scan dst hop ns (n.node_id ∷ seen) (q ++ record { node = n.node_id; hop = hop } ∷ []) in
    if contains seen n.node_id then skip else if n.node_id == dst then found hop else push

-- The result of the search; `out_of_fuel` never comes from `next_hop`.
pub data Answer : Type 0 where
  answer : Option NextHopResult → Answer
  out_of_fuel : Answer

-- The loop over the queue.
unfoldable pub search_queue : Adj → String → (fuel : ℕ) → List String → List Item → Answer
search_queue adj dst fuel seen [] = answer none
search_queue adj dst zero seen (cur ∷ q) = out_of_fuel
search_queue adj dst (suc fuel) seen (cur ∷ q) = elim (scan dst cur.hop (adj cur.node) seen q) [
  | found hop ↦ answer (some hop)
  | searching seen' q' ↦ search_queue adj dst fuel seen' q'
]

-- A bound for the rounds: each link puts at most two items on the queue from adj[src], and at most
-- two more nodes into `seen` later.
abbrev pub enough : List WireGuardLink → ℕ
enough ls = 4 * length ls

unfoldable pub next_hop : List WireGuardLink → String → String → Answer
next_hop links src dst =
    if src == "" || dst == "" || src == dst
    then answer none
    else elim (scan_source dst (enabled_adj links src) (src ∷ []) []) [
      | found hop ↦ answer (some hop)
      | searching seen q ↦ search_queue (enabled_adj links) dst (enough links) seen q
    ]

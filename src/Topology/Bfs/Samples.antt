-- ===== src/Topology/Bfs/Samples.antt =====
-- `NextHop` on the network of internal/topology/graph_test.go.
use sd_wan_plus.Base.{==-apart, ℕ, ◌≡◌, refl, ◌↔◌, Option, some, none}
use sd_wan_plus.Topology.Links.{Linked}
use sd_wan_plus.Topology.Samples.{links}
use sd_wan_plus.Topology.Tree.{NextHopResult}
use sd_wan_plus.Topology.Bfs.{
  answer, next_hop, enabled_adj, enabled_adj_from, add_link, add_neighbor, scan_source, scan,
  search_queue,
}
use sd_wan_plus.Topology.Bfs.Walks.{Walk}
use sd_wan_plus.Topology.Bfs.Rounds.{next_hop-answer}
use sd_wan_plus.Topology.Bfs.Correct.{ShortestHop, next_hop-ShortestHop, next_hop-none_iff}

abbrev over_a : NextHopResult
over_a = record { peer_id = "A"; iface = "pwl-ra"; link_id = "ra" }

-- R reaches C over A: the direct link is not enabled.
r_to_c : next_hop links "R" "C" ≡ answer (some over_a)
unfolding next_hop enabled_adj enabled_adj_from add_link add_neighbor scan_source scan search_queue
r_to_c = refl

next_hop-ShortestHop_example : ShortestHop links "R" "C" over_a
next_hop-ShortestHop_example = next_hop-ShortestHop links "R" "C" over_a r_to_c

next_hop-none_iff_example :
    (next_hop links "R" "D" ≡ answer none) ↔ ((m : ℕ) → ¬ Walk (Linked links) "R" m "D")
next_hop-none_iff_example =
    next_hop-none_iff links "R" "D" (==-apart "R" "" refl) (==-apart "D" "" refl)
      (==-apart "R" "D" refl)

next_hop-answer_example : (r : Option NextHopResult) × (next_hop links "R" "C" ≡ answer r)
next_hop-answer_example = next_hop-answer links "R" "C"

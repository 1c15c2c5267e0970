-- ===== src/Topology/Tree.antt =====
-- internal/topology/graph.go: `ControlNextHop` and `controlTreePath`. The proofs are in the modules
-- below: `Routes` says what a route in the control tree is, `Search` that the two loops find it,
-- `Step` that a route's tail is the route of its next node, `Deliver` that forwarding arrives.
pub mod Routes
pub mod Climb
pub mod Search
pub mod Step
pub mod Deliver
use sd_wan_plus.Base.{
  ℕ, zero, suc, ◌+◌, String, ◌==◌, Bool, true, false, ◌||◌, Option, some, none, List, [], ◌∷◌, ◌++◌,
  if◌then◌else◌, take, Dict, lookup,
}
use sd_wan_plus.Core.Types.{WireGuardLink, Node}
use sd_wan_plus.Topology.Links.{has_direct_link, link_toward}

-- The body of the loop that fills `parentOf`.
unfoldable pub add_parent : Dict String → String → Option String → Dict String
add_parent m id none = m
add_parent m id (some p) = if p == "" then m else (id, p) ∷ m

-- The later node of two with one id overwrites the earlier one's entry.
unfoldable pub parents_from : Dict String → List Node → Dict String
parents_from m [] = m
parents_from m (n ∷ ns) = parents_from (add_parent m n.id n.control_parent_id) ns

-- The first loop of `controlTreePath`: the depth of each node on the way up, and the way up. It
-- runs with `left + i = 1025`, so `left = 0` is the round i = 1025, the one with i > 1024 in which
-- a further parent means failure.
unfoldable pub climb :
    Dict String → (left i : ℕ) → Dict ℕ → List String → String → Option (Dict ℕ × List String)
climb parent_of zero i ancestors up cur = elim (lookup cur parent_of) [
  | none ↦ some ((cur, i) ∷ ancestors, up)
  | some p ↦ none
]
climb parent_of (suc left) i ancestors up cur = elim (lookup cur parent_of) [
  | none ↦ some ((cur, i) ∷ ancestors, up)
  | some p ↦ climb parent_of left (suc i) ((cur, i) ∷ ancestors) (up ++ p ∷ []) p
]

-- The second loop. `down` is kept newest first, the order in which Go walks it at the end.
unfoldable pub descend :
    Dict String → Dict ℕ → List String → (left : ℕ) → List String → String → Option (List String)
descend parent_of ancestors up zero down cur = elim (lookup cur ancestors) [
  | some lca ↦ some (take (suc lca) up ++ down)
  | none ↦ none
]
descend parent_of ancestors up (suc left) down cur = elim (lookup cur ancestors) [
  | some lca ↦ some (take (suc lca) up ++ down)
  | none ↦ elim (lookup cur parent_of) [
    | none ↦ none
    | some p ↦ descend parent_of ancestors up left (cur ∷ down) p
  ]
]

abbrev pub max_rounds : ℕ
max_rounds = 1025

unfoldable pub control_tree_path : Dict String → String → String → Option (List String)
control_tree_path parent_of src dst = elim (climb parent_of max_rounds 0 [] (src ∷ []) src) [
  | none ↦ none
  | some (ancestors, up) ↦ descend parent_of ancestors up max_rounds [] dst
]

-- Every two neighbours of the path have an enabled link.
unfoldable pub all_linked : List WireGuardLink → List String → Bool
all_linked links [] = true
all_linked links (a ∷ []) = true
all_linked links (a ∷ b ∷ rest) =
    let tail = all_linked links (b ∷ rest) in if has_direct_link links a b then tail else false

pub record NextHopResult : Type 0 where
  pub peer_id : String
  pub iface : String
  pub link_id : String

abbrev pub hop_of : String → Option (String × String) → Option NextHopResult
hop_of peer none = none
hop_of peer (some (iface, link_id)) =
    some (record { peer_id = peer; iface = iface; link_id = link_id })

-- The part of `ControlNextHop` after the path is known.
unfoldable pub first_hop : List WireGuardLink → String → List String → Option NextHopResult
first_hop links src [] = none
first_hop links src (a ∷ []) = none
first_hop links src (a ∷ b ∷ rest) =
    if all_linked links (a ∷ b ∷ rest) then hop_of b (link_toward links src b) else none

-- `none` is the result with ok = false.
unfoldable pub control_next_hop :
    List Node → List WireGuardLink → String → String → Option NextHopResult
control_next_hop nodes links src dst =
    if src == "" || dst == "" || src == dst
    then none
    else elim (control_tree_path (parents_from [] nodes) src dst) [
      | none ↦ none
      | some path ↦ first_hop links src path
    ]

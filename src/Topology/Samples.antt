-- ===== src/Topology/Samples.antt =====
-- The network of internal/topology/graph_test.go (R above A, A above B and C, and a shortcut
-- between B and C), with the theorems at it and tests of the definitions.
use sd_wan_plus.Base.{
  ℕ, String, ◌==◌, eq_iff, ◌≡◌, refl, ◌↔◌, ◌⊎◌, inl, inr, Bool, true, false, Option, some, none,
  List, [], ◌∷◌, if◌then◌else◌, ◌≤◌, ◌<◌, length, Distinct, arith,
}
use sd_wan_plus.Core.Types.{WireGuardLink, Node, active}
use sd_wan_plus.Core.Errors.{AppError, new_error, forwarding_loop}
use sd_wan_plus.Topology.Links.{has_direct_link, link_toward, facing, joins}
use sd_wan_plus.Topology.Path.{validate_path, validate_path-none_iff, IsChain}
use sd_wan_plus.Topology.Tree.{
  parents_from, add_parent, climb, descend, control_tree_path, control_next_hop, first_hop,
  all_linked, max_rounds,
}
use sd_wan_plus.Topology.Tree.Routes.{IsForest, Parent}
use sd_wan_plus.Topology.Tree.Step.{control_tree_path-step, control_tree_path-shape, Edges, Ends}
use sd_wan_plus.Topology.Tree.Deliver.{control_next_hop-Delivered, Delivered}

abbrev pub node : String → Option String → Node
node id parent = record {
  id = id;
  display_name = id;
  overlay_ipv4 = "";
  overlay_ipv6 = "";
  wg_public_key = "";
  wg_private_key_encrypted = "";
  identity_public_key = "";
  identity_private_key_enc = "";
  control_parent_id = parent;
  node_service_port = 14302;
  wg_port_range_start = 14303;
  wg_port_range_end = 14399;
  is_controller = false;
  agent_version = "";
  protocol_version = 1;
  desired_generation = none;
  active_generation = none;
  created_at = 0;
  updated_at = 0;
  last_seen_at = none;
  last_handshake_at = none;
  enrollment_token_id = none;
}

abbrev pub link : String → String → String → String → String → Bool → WireGuardLink
link id a b ia ib on = record {
  id = id;
  node_a = a;
  node_b = b;
  initiator_node_id = b;
  listener_node_id = a;
  listener_address = "";
  listener_port = 14303;
  interface_name_a = ia;
  interface_name_b = ib;
  enabled = on;
  bidirectional = false;
  admin_weight = 1;
  last_handshake_a = none;
  last_handshake_b = none;
  status = active;
  created_at = 0;
}

abbrev pub nodes : List Node
nodes = node "R" none ∷ node "A" (some "R") ∷ node "B" (some "A") ∷ node "C" (some "A") ∷ []

abbrev pub links : List WireGuardLink
links =
    link "ra" "R" "A" "pwl-ra" "pwl-ar" true
    ∷ link "ab" "A" "B" "pwl-ab" "pwl-ba" true
    ∷ link "ac" "A" "C" "pwl-ac" "pwl-ca" true
    ∷ link "bc" "B" "C" "pwl-bc" "pwl-cb" true
    ∷ link "rc" "R" "C" "pwl-rc" "pwl-cr" false
    ∷ []

-- B reaches C over A, and not over the shortcut.
b_to_c :
    control_next_hop nodes links "B" "C"
    ≡ some (record { peer_id = "A"; iface = "pwl-ba"; link_id = "ab" })
unfolding control_next_hop control_tree_path climb descend parents_from add_parent first_hop
    all_linked has_direct_link joins link_toward facing
b_to_c = refl

depth : String → ℕ
depth n = if "A" == n then 1 else if "B" == n then 2 else if "C" == n then 2 else 0

edges :
    (n p : String)
    → Parent (parents_from [] nodes) n p
    → ((n ≡ "A") × (p ≡ "R")) ⊎ ((n ≡ "B") × (p ≡ "A")) ⊎ ((n ≡ "C") × (p ≡ "A"))
unfolding parents_from add_parent
edges n p h = ground (arith, eq_iff "A" n, eq_iff "B" n, eq_iff "C" n)

falls : (n p : String) → Parent (parents_from [] nodes) n p → depth p < depth n
unfolding depth
falls n p h = elim (edges n p h) [
  | inl (a, b) ↦ rw (a, b) (omega arith)
  | inr (inl (a, b)) ↦ rw (a, b) (omega arith)
  | inr (inr (a, b)) ↦ rw (a, b) (omega arith)
]

forest : IsForest (parents_from [] nodes) max_rounds
unfolding depth
forest = record { depth = depth; depth_falls = falls; depth_bounded = λ n. ground arith }

abbrev b_to_c_path : List String
b_to_c_path = "B" ∷ "A" ∷ "C" ∷ []

b_to_c_path_returned : control_tree_path (parents_from [] nodes) "B" "C" ≡ some b_to_c_path
unfolding control_tree_path climb descend parents_from add_parent
b_to_c_path_returned = refl

control_tree_path-step_example :
    (◌≡◌ {A = String} "B" "B")
    × (control_tree_path (parents_from [] nodes) "A" "C" ≡ some ("A" ∷ "C" ∷ []))
control_tree_path-step_example =
    control_tree_path-step forest "B" "C" "B" "A" ("C" ∷ []) b_to_c_path_returned

control_tree_path-shape_example :
    (rest : List String) × (b_to_c_path ≡ "B" ∷ rest)
    × Edges (parents_from [] nodes) "B" rest
    × Ends "B" "C" rest
    × Distinct b_to_c_path
control_tree_path-shape_example =
    control_tree_path-shape forest "B" "C" b_to_c_path b_to_c_path_returned

control_next_hop-Delivered_example :
    (path : List String) × (control_tree_path (parents_from [] nodes) "B" "C" ≡ some ("B" ∷ path))
    × Delivered nodes links "C" "B" (length path)
control_next_hop-Delivered_example =
    control_next_hop-Delivered nodes links "B" "C"
      (record { peer_id = "A"; iface = "pwl-ba"; link_id = "ab" }) forest b_to_c

validate_path-none_iff_example :
    (validate_path links ("R" ∷ "A" ∷ "B" ∷ []) ≡ none)
    ↔ ((2 ≤ 3) × Distinct ("R" ∷ "A" ∷ "B" ∷ []) × IsChain links ("R" ∷ "A" ∷ "B" ∷ []))
validate_path-none_iff_example = validate_path-none_iff links ("R" ∷ "A" ∷ "B" ∷ [])

abbrev looping : List String
looping = "A" ∷ "B" ∷ "A" ∷ []

abbrev loop_error : AppError
loop_error = record { code = forwarding_loop; message = "duplicate node in path: A"; cause = none }

looping_refused : validate_path links looping ≡ some loop_error
unfolding validate_path has_direct_link joins new_error
looping_refused = refl

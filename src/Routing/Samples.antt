-- ===== src/Routing/Samples.antt =====
-- The theorems on the desired state, for node B of the network of internal/topology/graph_test.go.
use sd_wan_plus.Base.{
  inl, inr, trim_space, trim_left, trim_right, is_space, contains_char, sort_strings, insert_sorted,
  str_le, ℕ, String, ◌==◌, ◌≡◌, map, arith, eq_iff, ◌↔◌, refl, true, Option, none, some, List, [],
  ◌∷◌, Any, All, Member, Distinct, if◌then◌else◌,
}
use sd_wan_plus.Core.Types.{Node, WireGuardLinkEndpoint}
use sd_wan_plus.Topology.Samples.{node, links}
use sd_wan_plus.Netutil.{Ip}
use sd_wan_plus.Routing.Types.{NodeDesiredState, RouteCfg, compute_hash, seal}
use sd_wan_plus.Routing.Links.{
  concerns, is_pending, link_cfg, base_cfg, with_endpoints, own_endpoint, dial_listener,
  default_port, default_keepalive,
}
use sd_wan_plus.Routing.Compile.{
  node_links, node_state, node_overlay, build_links, reach_all, reach, over_link, add_reach,
  allow_at, append_unique_cidr, ensure_host_cidr, sort_allowed,
}
use sd_wan_plus.Topology.Links.{has_direct_link, joins, link_toward, facing}
use sd_wan_plus.Topology.Tree.{
  control_next_hop, control_tree_path, climb, descend, parents_from, add_parent, first_hop,
  all_linked,
}
use sd_wan_plus.Routing.MainTable.{destinations, IsMain}
use sd_wan_plus.Routing.Allowed.{allowed_at}
use sd_wan_plus.Routing.Carried.{Carried, compiled-allowed_iff}
use sd_wan_plus.Routing.Peers.{Owns, Led, compiled-one_peer, compiled-routes_iff}

abbrev no_port : String → Option (String × String)
no_port s = none

abbrev no_ip : String → Option Ip
no_ip s = none

abbrev digest : NodeDesiredState → Option String
digest s = some "digest"

abbrev plain : String → Option String
plain s = some s

abbrev no_endpoints : String → Option (List WireGuardLinkEndpoint)
no_endpoints id = some []

-- The nodes with overlay addresses.
abbrev addressed : String → Option String → String → Node
addressed id parent ip = record (node id parent) { overlay_ipv4 = ip }

abbrev site_b : Node
site_b = addressed "B" (some "A") "10.77.0.3"

abbrev sites : List Node
sites =
    addressed "R" none "10.77.0.1"
    ∷ addressed "A" (some "R") "10.77.0.2"
    ∷ site_b
    ∷ addressed "C" (some "A") "10.77.0.4"
    ∷ []

abbrev state_b : NodeDesiredState
state_b = node_state no_port no_ip digest plain no_endpoints sites links 7 site_b

links_Distinct : Distinct (map (λ l. l.id) links)
links_Distinct = ground (
  arith,
  eq_iff "ra" "ab",
  eq_iff "ra" "ac",
  eq_iff "ra" "bc",
  eq_iff "ra" "rc",
  eq_iff "ab" "ac",
  eq_iff "ab" "bc",
  eq_iff "ab" "rc",
  eq_iff "ac" "bc",
  eq_iff "ac" "rc",
  eq_iff "bc" "rc",
)

compiled-allowed_iff_example :
    Member "10.77.0.4/32" (allowed_at state_b.wireguard_links 0)
    ↔ Any
        (Carried no_port no_ip digest plain no_endpoints sites links 7 site_b 0 "10.77.0.4/32")
        sites
compiled-allowed_iff_example =
    compiled-allowed_iff no_port no_ip digest plain no_endpoints sites links 7 site_b links_Distinct
      0 "10.77.0.4/32"

compiled-routes_iff_example :
    (routes : List RouteCfg) × IsMain state_b.route_tables routes
    × Distinct (destinations routes)
    × ((d : String) → Member d (destinations routes) ↔ Any (Led sites links site_b d) sites)
compiled-routes_iff_example =
    compiled-routes_iff no_port no_ip digest plain no_endpoints sites links 7 site_b

sealed : seal digest state_b ≡ some (record state_b { config_hash = "digest" })
unfolding seal compute_hash
sealed = refl

owner : String → String
owner d =
    if d == "10.77.0.1/32"
    then "R"
    else if d == "10.77.0.2/32"
    then "A"
    else if d == "10.77.0.3/32"
    then "B"
    else "C"

owned : All (Owns owner) sites
unfolding owner ensure_host_cidr trim_space trim_left trim_right is_space contains_char
owned = ((λ h. refl), ((λ h. refl), ((λ h. refl), ((λ h. refl), tt))))

over_a : Member "10.77.0.4/32" (allowed_at state_b.wireguard_links 0)
unfolding node_state node_overlay node_links build_links concerns is_pending link_cfg base_cfg
    with_endpoints own_endpoint dial_listener default_port default_keepalive reach_all reach
    over_link add_reach control_next_hop control_tree_path climb descend parents_from add_parent
    first_hop all_linked has_direct_link joins link_toward facing allow_at append_unique_cidr
    ensure_host_cidr trim_space trim_left trim_right is_space contains_char sort_allowed
    sort_strings insert_sorted str_le
over_a = inr (inr (inl refl))

compiled-one_peer_example : ◌≡◌ {A = ℕ} 0 0
compiled-one_peer_example =
    compiled-one_peer no_port no_ip digest plain no_endpoints sites links 7 site_b owner 0 0
      "10.77.0.4/32" owned over_a over_a

-- An initiator's endpoint that names nothing to dial.
abbrev silent : WireGuardLinkEndpoint
silent = record {
  id = "e1";
  link_id = "ab";
  node_id = "B";
  interface_name = "pwl-ba";
  listen_port = 0;
  peer_endpoint = none;
  peer_public_key = "";
  persistent_keepalive = 0;
  is_initiator = true;
}

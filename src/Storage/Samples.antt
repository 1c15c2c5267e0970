-- ===== src/Storage/Samples.antt =====
-- The theorems on the tables, for the network of internal/topology/graph_test.go.
use sd_wan_plus.Base.{
  List, ℕ, String, ◌≡◌, ◌≤◌, ◌↔◌, refl, true, false, Option, none, some, [], ◌∷◌, suc, decimal,
  digits, digit,
}
use sd_wan_plus.Core.Types.{Node, ConfigRevision}
use sd_wan_plus.Topology.Samples.{nodes, node, links}
use sd_wan_plus.Topology.Links.{has_direct_link, joins}
use sd_wan_plus.Netutil.{Ip, v4}
use sd_wan_plus.Storage.Tables.{Db, get_node}
use sd_wan_plus.Storage.Ports.{
  allocate_wg_port, allocate_wg_port-FirstFree, FirstFree, used_ports, pool_end,
}
use sd_wan_plus.Storage.Nodes.{
  allocate_overlay_ipv4, allocate_overlay_ipv4-Fresh, Fresh, overlays, overlay_in, free_overlay,
  inside, dotted,
}
use sd_wan_plus.Storage.Sessions.{
  Session, session_of, revoke_other_sessions, session_of-revoke_other_sessions,
}
use sd_wan_plus.Storage.Depth.{node_depth, node_depth_iff, depth, Below}

abbrev db : Db
db = record {
  nodes = nodes;
  node_addresses = [];
  control_relations = [];
  links = links;
  link_endpoints = [];
  enrollment_tokens = [];
}

b_c_direct : has_direct_link links "B" "C" ≡ true
unfolding has_direct_link joins
b_c_direct = refl

abbrev no_port : String → Option (String × String)
no_port s = none

abbrev no_ip : String → Option Ip
no_ip s = none

abbrev site_b : Node
site_b = node "B" (some "A")

b_found : get_node db "B" ≡ some site_b
unfolding get_node
b_found = refl

allocate_wg_port-FirstFree_example :
    FirstFree
      (used_ports db "B")
      14303
      (suc (pool_end no_port no_ip db site_b))
      (allocate_wg_port no_port no_ip db 0 "B").0
allocate_wg_port-FirstFree_example =
    allocate_wg_port-FirstFree no_port no_ip db 0 "B" site_b b_found

abbrev parse_cidr : String → Option (Ip × ℕ)
parse_cidr s = some (v4 10 77 0 0, 16)

first_overlay : allocate_overlay_ipv4 parse_cidr db "10.77.0.0/16" ≡ some "10.77.0.1"
unfolding allocate_overlay_ipv4 overlay_in free_overlay inside dotted decimal digits digit
first_overlay = refl

allocate_overlay_ipv4-Fresh_example :
    Fresh (overlays nodes) (record { a = 10; b = 77; c = 0; d = 0; ones = 16 }) 1 "10.77.0.1"
allocate_overlay_ipv4-Fresh_example =
    allocate_overlay_ipv4-Fresh parse_cidr db "10.77.0.0/16" "10.77.0.1" 10 77 0 0 16 refl
      first_overlay

node_depth_iff_example : (node_depth db "B" ≡ depth 2) ↔ (Below db "B" 2 × (2 ≤ 1000))
node_depth_iff_example = node_depth_iff db "B" 2

abbrev session : String → String → Session
session id token = record {
  id = id;
  admin_id = "root";
  token = token;
  ip_address = "";
  user_agent = "";
  created_at = 0;
  expires_at = 100;
  revoked = false;
}

abbrev sessions : List Session
sessions = session "s1" "t1" ∷ session "s2" "t2" ∷ []

session_of-revoke_other_sessions_example :
    (session_of (revoke_other_sessions sessions "root" "s1") 5 "t2" ≡ some (session "s2" "t2")) ↔ (
      (session_of sessions 5 "t2" ≡ some (session "s2" "t2"))
      × (◌≡◌ {A = String} "root" "root" → ◌≡◌ {A = String} "s2" "s1"))
session_of-revoke_other_sessions_example =
    session_of-revoke_other_sessions sessions "root" "s1" 5 "t2" (session "s2" "t2")

abbrev revisions : List ConfigRevision
revisions =
    record {
      id = "r1";
      generation = 4;
      reason = "link";
      status = "Pending";
      created_at = 0;
      completed_at = none;
    }
    ∷ []

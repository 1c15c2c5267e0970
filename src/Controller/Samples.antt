-- ===== src/Controller/Samples.antt =====
-- The theorems on the controller, for the network of internal/topology/graph_test.go.
use sd_wan_plus.Base.{
  ℕ, String, ◌≡◌, ◌↔◌, ◌⊎◌, refl, eq_iff, Bool, true, false, Option, none, some, inl, List, [], ◌∷◌,
  All, arith,
}
use sd_wan_plus.Core.Types.{WireGuardLink, WireGuardLinkEndpoint, EnrollmentToken}
use sd_wan_plus.Topology.Samples.{node, link, nodes, links}
use sd_wan_plus.Topology.Links.{has_direct_link, joins}
use sd_wan_plus.Topology.Path.{validate_path}
use sd_wan_plus.Netutil.{Ip}
use sd_wan_plus.Routing.Types.{NodeDesiredState}
use sd_wan_plus.Routing.Links.{link_cfg}
use sd_wan_plus.Storage.Tables.{Db, has_node, get_node}
use sd_wan_plus.Controller.State.{Server, Call, Accepted, ok}
use sd_wan_plus.Controller.Policies.{
  PolicyBody, PolicyView, handle_create_policy, accept_policy, handle_get_policy,
}
use sd_wan_plus.Controller.Policies.Created.{
  Acceptable, IsFresh, Keeps, handle_create_policy-ok_iff, handle_get_policy-created,
  handle_delete_policy-seen, seen,
}
use sd_wan_plus.Controller.Policies.{handle_delete_policy}
use sd_wan_plus.Controller.Repair.{repair_link}
use sd_wan_plus.Controller.Repair.Compiled.{Dials, Waits, repair_link-one_way}
use sd_wan_plus.Controller.Repair.Stored.{Pair}
use sd_wan_plus.Storage.Links.{list_link_endpoints}
use sd_wan_plus.Controller.Publish.{publish_config}
use sd_wan_plus.Controller.Publish.Published.{Published, publish_config-Published}
use sd_wan_plus.Controller.Nodes.{PortsBody, handle_update_node}
use sd_wan_plus.Controller.Nodes.{removed}
use sd_wan_plus.Controller.Nodes.Removed.{Unnamed, removed-Gone}
use sd_wan_plus.Storage.Removed.{Gone}
use sd_wan_plus.Storage.Removal.{
  delete_node, deleted, node_delete_impact, node_impact, delete_allowed, delete_links, delete_rest,
  touches,
}
use sd_wan_plus.Core.Types.{Node}
use sd_wan_plus.Storage.Tables.{children_of}
use sd_wan_plus.Controller.Nodes.Ports.{ValidPorts, handle_update_node-ValidPorts}
use sd_wan_plus.Controller.Links.Parallel.{NoParallel}
use sd_wan_plus.Controller.Links.Requests.{
  LinkRequest, create, update, delete, serve_all, serve_all-NoParallel,
}
use sd_wan_plus.Storage.Links.{list_links, touches_both}

abbrev pub no_port : String → Option (String × String)
no_port s = none

abbrev pub no_ip : String → Option Ip
no_ip s = none

abbrev pub digest : NodeDesiredState → Option String
digest s = some "digest"

abbrev pub plain : String → Option String
plain s = some s

-- Identifiers that the tables do not have.
abbrev new_ids : ℕ → String
new_ids i = "new"

abbrev pub call : Call
call = record { uuid = new_ids; now = 50; admin = "root"; ip = "192.0.2.1" }

abbrev token : EnrollmentToken
token = record {
  id = "t1";
  token = "secret";
  network_id = "net";
  parent_node_id = "R";
  suggested_node_name = "D";
  allowed_install_mode = "script";
  expires_at = 100;
  used_at = none;
  revoked = false;
  created_at = 1;
}

abbrev pub server : Server
server = record {
  db = record {
    nodes = nodes;
    node_addresses = [];
    control_relations = [];
    links = links;
    link_endpoints = [];
    enrollment_tokens = token ∷ [];
  };
  policies = record { policies = []; matches = []; hops = []; configs = [] };
  revisions = [];
  rollout_nodes = [];
  desired_configs = [];
  desired = [];
  update_jobs = [];
  update_targets = [];
  active_update = none;
  audit_logs = [];
  public_address = "198.51.100.1";
  wg_port_start = 14303;
}

-- A policy over the path from B to C.
abbrev over_a : PolicyBody
over_a = record {
  name = "over A";
  priority = 10;
  description = "";
  enabled = none;
  hops = "B" ∷ "A" ∷ "C" ∷ [];
  source_node_id = none;
  source_cidr = none;
  destination_node_id = none;
  destination_cidr = some "10.9.0.0/24";
  protocol = "";
  destination_port_start = none;
  destination_port_end = none;
  egress_nat = true;
  return_path_type = "";
  egress_node_id = none;
}

handle_create_policy-ok_iff_example :
    (Accepted (handle_create_policy call (some over_a) server).0 ↔ Acceptable over_a server)
    × (Accepted (handle_create_policy call (some over_a) server).0
        ⊎ ((handle_create_policy call (some over_a) server).1 ≡ server))
handle_create_policy-ok_iff_example = handle_create_policy-ok_iff call over_a server

over_a-Accepted : Accepted (handle_create_policy call (some over_a) server).0
unfolding handle_create_policy accept_policy validate_path has_direct_link joins list_links
over_a-Accepted = tt

nothing_new : IsFresh "new" server.policies
nothing_new = record { policies = tt; matches = tt; hops = tt; configs = tt }

hops_known : All (λ h. has_node server.db h ≡ true) over_a.hops
unfolding has_node get_node
hops_known = (refl, (refl, (refl, tt)))

handle_get_policy-created_example :
    (v : PolicyView) × (handle_get_policy "new" (handle_create_policy call (some over_a) server).1
      ≡ ok v)
    × Keeps (has_node server.db) over_a v
handle_get_policy-created_example =
    handle_get_policy-created call over_a server nothing_new hops_known over_a-Accepted

handle_delete_policy-seen_example :
    (seen (handle_delete_policy "p1" server).policies "p1" ≡ (none, [], [], none))
    × (seen (handle_delete_policy "p1" server).policies "p2" ≡ seen server.policies "p2")
handle_delete_policy-seen_example =
    handle_delete_policy-seen "p1" "p2" server (ground (arith, eq_iff "p2" "p1"))

publish_config-Published_example :
    Published digest server (publish_config no_port no_ip digest plain call "link_created" server)
publish_config-Published_example =
    publish_config-Published no_port no_ip digest plain call "link_created" server

abbrev ports : PortsBody
ports = record {
  node_service_port = none;
  wg_listen_port = none;
  wg_port_range_start = some 15000;
  wg_port_range_end = some 70000;
}

valid_nodes : All ValidPorts server.db.nodes
valid_nodes = ground arith

handle_update_node-ValidPorts_example :
    All ValidPorts (handle_update_node no_port no_ip call "B" ports server).1.db.nodes
    × (Accepted (handle_update_node no_port no_ip call "B" ports server).0
        ⊎ ((handle_update_node no_port no_ip call "B" ports server).1 ≡ server))
handle_update_node-ValidPorts_example =
    handle_update_node-ValidPorts no_port no_ip call "B" ports server valid_nodes

-- A second link between B and C, and the first one switched off and deleted.
abbrev requests : List (LinkRequest no_port no_ip digest plain)
requests =
    create call (record {
      node_a = "C";
      node_b = "B";
      initiator_node_id = "B";
      listener_address = "198.51.100.7";
      admin_weight = 1;
      enabled = true;
      bidirectional = false;
    })
    ∷ update call "bc" (some false) none
    ∷ delete call "bc"
    ∷ []

links_differ : NoParallel server.db.links
unfolding touches_both
links_differ = ground arith

serve_all-NoParallel_example :
    NoParallel (serve_all no_port no_ip digest plain server requests).db.links
serve_all-NoParallel_example =
    serve_all-NoParallel no_port no_ip digest plain server requests links_differ

-- One row for each end of the link between R and A, as the handlers insert them.
abbrev end_of : String → String → Bool → WireGuardLinkEndpoint
end_of id node initiates = record {
  id = id;
  link_id = "ra";
  node_id = node;
  interface_name = "pwl";
  listen_port = 0;
  peer_endpoint = none;
  peer_public_key = "";
  persistent_keepalive = 0;
  is_initiator = initiates;
}

abbrev linked : Db
linked = record server.db { link_endpoints = end_of "e1" "A" true ∷ end_of "e2" "R" false ∷ [] }

abbrev ra : WireGuardLink
ra = link "ra" "R" "A" "pwl-ra" "pwl-ar" true

two_ends : Pair (list_link_endpoints linked "ra") (end_of "e1" "A" true) (end_of "e2" "R" false)
unfolding list_link_endpoints
two_ends = inl refl

repair_link-one_way_example :
    (Dials ra (
      link_cfg no_port no_ip nodes "key"
        (node "A" (some "R"))
        ra
        (some (list_link_endpoints (repair_link no_port no_ip linked 60 ra) "ra"))))
    × (Waits ra (
        link_cfg no_port no_ip nodes "key"
          (node "R" none)
          ra
          (some (list_link_endpoints (repair_link no_port no_ip linked 60 ra) "ra"))))
repair_link-one_way_example =
    repair_link-one_way no_port no_ip linked 60 ra (end_of "e1" "A" true) (end_of "e2" "R" false)
      nodes "key" "key" (node "A" (some "R")) (node "R" none) two_ends
      (ground (arith, eq_iff "e1" "e2")) refl refl (ground (arith, eq_iff "A" "R")) refl refl refl
      (omega arith) (omega arith)

abbrev without_b : Db
without_b = delete_rest (delete_links server.db ("ab" ∷ "bc" ∷ [])) "B"

b_deleted : delete_node server.db "B" ≡ deleted without_b
unfolding delete_node node_delete_impact get_node node_impact delete_allowed children_of list_links
    touches
b_deleted = refl

removed-Gone_example :
    ((n : Node) × (get_node server.db "B" ≡ some n)
      × (n.is_controller ≡ false)
      × (children_of server.db "B" ≡ []))
    × Gone server.db (removed "B" without_b server).db "B"
    × Unnamed (removed "B" without_b server) "B"
removed-Gone_example = removed-Gone server without_b "B" b_deleted

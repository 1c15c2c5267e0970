-- ===== src/Controller/Nodes.antt =====
-- internal/controller/nodes_handlers.go: the handlers of nodes and of their addresses. A port is a
-- number; the code refuses a negative one as it refuses 0.
use sd_wan_plus.Base.{
  ℕ, ◌-◌, String, ◌==◌, Bool, true, false, not, ◌&&◌, Option, none, some, List, [], ◌∷◌,
  if◌then◌else◌, leb, ltb, eqb, map, Dict, length, str_append, decimal,
}
use sd_wan_plus.Core.Types.{Node, NodeAddress, WireGuardLink, LinkStatus, failed}
use sd_wan_plus.Netutil.{Ip}
use sd_wan_plus.Routing.Types.{NodeDesiredState}
use sd_wan_plus.Storage.Tables.{
  Db, get_node, has_node, delete_rows, list_nodes, rename_node, update_node_ports,
  list_node_addresses, add_node_address, where_rows,
}
use sd_wan_plus.Storage.Links.{list_links}
use sd_wan_plus.Storage.Removal.{
  NodeDeleteImpact, node_delete_impact, delete_node, Deletion, no_row, blocked, deleted,
}
use sd_wan_plus.Storage.Policies.{forget_node}
use sd_wan_plus.Controller.State.{Server, Call, Reply, ok, refused, later, audit, ◌>>=◌}
use sd_wan_plus.Controller.Repair.{node_public_advertise}
use sd_wan_plus.Controller.Publish.{publish_config}
pub mod Ports
pub mod Removed

-- core.NodeStatus
pub record NodeStatus : Type 0 where
  pub node_id : String
  pub display_name : String
  pub agent_online : Bool
  pub config_consistent : Bool
  pub wg_interfaces_ok : Bool
  pub last_handshake_at : Option ℕ
  pub overlay_reachable : Bool
  pub path_available : Bool
  pub update_consistent : Bool
  pub agent_version : String
  pub desired_generation : Option ℕ
  pub active_generation : Option ℕ

-- now.Sub(seen) < 90 seconds, which a time in the future satisfies.
unfoldable pub is_online : (now : ℕ) → Node → Bool
is_online now n = elim n.last_seen_at [ none ↦ false | some seen ↦ ltb (now - seen) 90 ]

abbrev pub same_generation : Option ℕ → Option ℕ → Bool
same_generation none b = false
same_generation (some a) none = false
same_generation (some a) (some b) = eqb a b

unfoldable pub node_status : (now : ℕ) → Node → NodeStatus
node_status now n = record {
  node_id = n.id;
  display_name = n.display_name;
  agent_online = is_online now n;
  config_consistent = same_generation n.desired_generation n.active_generation;
  wg_interfaces_ok = true;
  last_handshake_at = n.last_handshake_at;
  overlay_reachable = is_online now n;
  path_available = is_online now n;
  update_consistent = true;
  agent_version = n.agent_version;
  desired_generation = n.desired_generation;
  active_generation = n.active_generation;
}

unfoldable pub handle_list_nodes : (now : ℕ) → Server → Reply (List Node × List NodeStatus)
handle_list_nodes now s = ok (list_nodes s.db, map (node_status now) (list_nodes s.db))

unfoldable pub is_failed : LinkStatus → Bool
is_failed failed = true
is_failed _ = false

-- The reply of handleDashboard, less the version.
pub record Dashboard : Type 0 where
  pub node_total : ℕ
  pub agent_online : ℕ
  pub overlay_reachable : ℕ
  pub link_total : ℕ
  pub link_failed : ℕ

unfoldable pub handle_dashboard : (now : ℕ) → Server → Dashboard
handle_dashboard now s = record {
  node_total = length (list_nodes s.db);
  agent_online = length (where_rows (is_online now) (list_nodes s.db));
  overlay_reachable = length (where_rows (is_online now) (list_nodes s.db));
  link_total = length (list_links s.db);
  link_failed = length (where_rows (λ l. is_failed l.status) (list_links s.db));
}

-- `none` for a body that cannot be read.
unfoldable pub handle_rename_node :
    Call → String → Option String → Server → Reply (Unit {0}) × Server
handle_rename_node c id none s = (refused 400 "display_name required", s)
handle_rename_node c id (some name) s =
    if name == "" then (refused 400 "display_name required", s) else (
      ok tt,
      audit c (c.uuid 0) "rename_node" "node" id name
          (record s { db = rename_node s.db c.now id name }),
    )

pub record PortsBody : Type 0 where
  pub node_service_port : Option ℕ
  pub wg_listen_port : Option ℕ
  pub wg_port_range_start : Option ℕ
  pub wg_port_range_end : Option ℕ

-- validUDPPort; the test of the service port is the same.
unfoldable pub valid_udp_port : ℕ → Bool
valid_udp_port p = leb 1 p && leb p 65535

-- A pool of ports, from its first to its last.
abbrev pub Pool : Type 0
Pool = ℕ × ℕ

unfoldable pub service_port : Option ℕ → ℕ → Reply ℕ
service_port none p = ok p
service_port (some q) p =
    if valid_udp_port q then ok q else refused 400 "node_service_port out of range"

unfoldable pub with_listen_port : Option ℕ → Pool → Reply Pool
with_listen_port none p = ok p
with_listen_port (some q) p =
    if valid_udp_port q then ok (q, q) else refused 400 "wg_listen_port out of range"

-- `single` says that the end follows the start.
unfoldable pub with_start : (single : Bool) → Option ℕ → Pool → Reply Pool
with_start single none p = ok p
with_start single (some q) p =
    if valid_udp_port q
    then ok (q, if single then q else p.1)
    else refused 400 "wg_port_range_start out of range"

unfoldable pub with_end : Option ℕ → Pool → Reply Pool
with_end none p = ok p
with_end (some q) p =
    if valid_udp_port q then ok (p.0, q) else refused 400 "wg_port_range_end out of range"

unfoldable pub ordered_pool : Pool → Reply Pool
ordered_pool p = if ltb p.1 p.0 then refused 400 "wg port range start > end" else ok p

abbrev pub absent : Option ℕ → Bool
absent none = true
absent (some p) = false

unfoldable pub store_ports : Call → String → Reply (ℕ × Pool) → Server → Reply (ℕ × Pool) × Server
store_ports c id (refused code message) s = (refused code message, s)
store_ports c id (ok (sp, (ws, we))) s = (
  ok (sp, (ws, we)),
  audit c (c.uuid 0) "update_node_ports" "node" id
      (str_append "wg=" (str_append (decimal ws) (str_append "-" (decimal we))))
      (record s { db = update_node_ports s.db c.now id sp ws we }),
)

-- The statements of DeleteNode on the other tables. No code writes heartbeats or node_port_pools.
unfoldable pub delete_node_rows : String → Server → Server
delete_node_rows id s = record s {
  update_targets = delete_rows (λ t. t.node_id == id) s.update_targets;
  rollout_nodes = delete_rows (λ r. r.node_id == id) s.rollout_nodes;
  desired_configs = delete_rows (λ d. d.node_id == id) s.desired_configs;
  policies = forget_node s.policies id;
}

-- delete(s.desired, id)
unfoldable pub without : String → Dict NodeDesiredState → Dict NodeDesiredState
without id [] = []
without id ((k, st) ∷ d) = let rest = without id d in if k == id then rest else (k, st) ∷ rest

-- The server after DeleteNode has left the tables `db`, and before the publication.
unfoldable pub removed : String → Db → Server → Server
removed id db s = record (delete_node_rows id s) { db = db; desired = without id s.desired }

module _ (split_host_port : String → Option (String × String)) (parse_ip : String → Option Ip) where
  -- The ports that handleUpdateNode stores, or its refusal.
  unfoldable pub updated_ports : Db → String → Node → PortsBody → Reply (ℕ × Pool)
  updated_ports db id n b = do
    sp ← service_port b.node_service_port n.node_service_port
    p ← with_listen_port b.wg_listen_port (n.wg_port_range_start, n.wg_port_range_end)
    q ←
        with_start
          (absent b.wg_port_range_end
            && absent b.wg_listen_port
            && node_public_advertise split_host_port parse_ip db id == "")
          b.wg_port_range_start p
    r ← with_end b.wg_port_range_end q
    o ← ordered_pool r
    ok (sp, o)

  unfoldable pub handle_update_node : Call → String → PortsBody → Server → Reply (ℕ × Pool) × Server
  handle_update_node c id b s = elim (get_node s.db id) [
    | none ↦ (refused 404 "node not found", s)
    | some n ↦ store_ports c id (updated_ports s.db id n b) s
  ]

module _ (split_host_port : String → Option (String × String)) (parse_ip : String → Option Ip)
    (sha256_of_json : NodeDesiredState → Option String) (decrypt : String → Option String) where
  -- The statements after DeleteNode.
  unfoldable pub node_gone : Call → String → NodeDeleteImpact → Db → Server → Server
  node_gone c id impact db s =
      audit c (c.uuid 1) "delete_node" "node" id impact.display_name
        (publish_config split_host_port parse_ip sha256_of_json decrypt (later 8 c)
          (str_append "auto after delete node " impact.display_name) (removed id db s)).1

  unfoldable pub remove_node :
      Call → String → NodeDeleteImpact → Deletion → Server → Reply NodeDeleteImpact × Server
  remove_node c id impact no_row s = (refused 500 "delete node", s)
  remove_node c id impact (blocked reason) s = (refused 500 reason, s)
  remove_node c id impact (deleted db) s = (ok impact, node_gone c id impact db s)

  unfoldable pub handle_delete_node : Call → String → Server → Reply NodeDeleteImpact × Server
  handle_delete_node c id s = elim (node_delete_impact s.db id) [
    | none ↦ (refused 404 "node not found", s)
    | some impact ↦
        if not impact.can_delete
        then (refused 409 impact.block_reason, s)
        else remove_node c id impact (delete_node s.db id) s
  ]

pub record AddressBody : Type 0 where
  pub address : String
  pub address_type : String
  pub is_primary : Bool

-- `none` for a body that cannot be read.
unfoldable pub handle_add_address :
    Call → String → Option AddressBody → Server → Reply (Unit {0}) × Server
handle_add_address c id none s = (refused 400 "address required", s)
handle_add_address c id (some b) s =
    if b.address == ""
    then (refused 400 "address required", s)
    else if not (has_node s.db id)
    then (refused 500 "add address", s)
    else (
      ok tt,
      record s {
        db =
            add_node_address s.db (c.uuid 0) c.now id b.address
              (if b.address_type == "" then "public" else b.address_type) b.is_primary;
      },
    )

unfoldable pub handle_list_addresses : String → Server → Reply (List NodeAddress)
handle_list_addresses id s = ok (list_node_addresses s.db id)

unfoldable pub handle_delete_node_impact : String → Server → Reply NodeDeleteImpact
handle_delete_node_impact id s = elim (node_delete_impact s.db id) [
  | none ↦ refused 404 "node not found"
  | some impact ↦ ok impact
]

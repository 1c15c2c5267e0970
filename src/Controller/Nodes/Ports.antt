-- ===== src/Controller/Nodes/Ports.antt =====
-- The pools of ports that handleUpdateNode lets into the table.
use sd_wan_plus.Base.{
  ℕ, ◌≤◌, String, ◌==◌, ◌≡◌, ◌⊎◌, refl, Option, none, some, Option-cases, inl, inr, All, arith,
}
use sd_wan_plus.Core.Types.{Node}
use sd_wan_plus.Netutil.{Ip}
use sd_wan_plus.Storage.Tables.{Db, get_node, update_node, update_node_ports}
use sd_wan_plus.Storage.Rows.{map-All, first_row-All}
use sd_wan_plus.Controller.State.{Server, Call, Reply, ok, refused, audit, Accepted}
use sd_wan_plus.Controller.Nodes.{
  PortsBody, Pool, valid_udp_port, service_port, with_listen_port, with_start, with_end,
  ordered_pool, updated_ports, store_ports, handle_update_node,
}

-- The node's ports are UDP ports, and its pool is not empty.
pub record ValidPorts (n : Node) : Type 0 where
  pub service_low : 1 ≤ n.node_service_port
  pub service_high : n.node_service_port ≤ 65535
  pub pool_low : 1 ≤ n.wg_port_range_start
  pub pool_order : n.wg_port_range_start ≤ n.wg_port_range_end
  pub pool_high : n.wg_port_range_end ≤ 65535

abbrev pub GoodPool : ℕ × Pool → Type 0
GoodPool (sp, (ws, we)) = (1 ≤ sp) × (sp ≤ 65535) × (1 ≤ ws) × (ws ≤ we) × (we ≤ 65535)

abbrev pub Good : Reply (ℕ × Pool) → Type 0
Good (ok p) = GoodPool p
Good (refused code message) = Unit {0}

stored :
    (c : Call) (id : String) (s : Server) (r : Reply (ℕ × Pool))
    → All ValidPorts s.db.nodes
    → Good r
    → All ValidPorts (store_ports c id r s).1.db.nodes
      × (Accepted (store_ports c id r s).0 ⊎ ((store_ports c id r s).1 ≡ s))
unfolding store_ports audit update_node_ports update_node
stored c id s (refused code message) v g = (v, inr refl)
stored c id s (ok (sp, (ws, we))) v g =
    (map-All ValidPorts (λ n. n.id == id) _ s.db.nodes (λ n h. ground arith) v, inl tt)

module _ (split_host_port : String → Option (String × String)) (parse_ip : String → Option Ip) where
  updated_ports-Good :
      (db : Db) (id : String) (n : Node) (b : PortsBody)
      → ValidPorts n
      → Good (updated_ports split_host_port parse_ip db id n b)
  unfolding updated_ports service_port with_listen_port with_start with_end ordered_pool
      valid_udp_port
  updated_ports-Good db id n b v = ground arith

  module _ (c : Call) (id : String) (b : PortsBody) (s : Server) where
    abbrev after : Reply (ℕ × Pool) × Server
    after = handle_update_node split_host_port parse_ip c id b s

    update_node-missing : get_node s.db id ≡ none → after ≡ (refused 404 "node not found", s)
    unfolding handle_update_node
    update_node-missing e = rw (e, handle_update_node) refl

    update_node-found :
        (n : Node)
        → get_node s.db id ≡ some n
        → after ≡ store_ports c id (updated_ports split_host_port parse_ip s.db id n b) s
    unfolding handle_update_node
    update_node-found n e = rw (e, handle_update_node) refl

    -- If every node of the tables has valid ports, every node has valid ports after handleUpdateNode,
    -- whatever the body is; a refusal changes nothing.
    pub handle_update_node-ValidPorts :
        All ValidPorts s.db.nodes
        → All ValidPorts after.1.db.nodes × (Accepted after.0 ⊎ (after.1 ≡ s))
    unfolding get_node
    handle_update_node-ValidPorts v = elim (Option-cases (get_node s.db id)) [
      | inl e ↦ rw (update_node-missing e) (v, inr refl)
      | inr (n, e) ↦ rw (update_node-found n e) (
          stored c id s (updated_ports split_host_port parse_ip s.db id n b) v (
            updated_ports-Good s.db id n b
              (first_row-All ValidPorts (λ m. m.id == id) s.db.nodes n v e)))
    ]

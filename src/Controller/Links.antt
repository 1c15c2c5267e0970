-- ===== src/Controller/Links.antt =====
-- internal/controller/nodes_handlers.go: the handlers of links.
use sd_wan_plus.Base.{
  ℕ, String, ◌==◌, Bool, true, false, not, ◌&&◌, ◌||◌, Option, none, some, List, if◌then◌else◌, eqb,
  ltb, str_append, decimal,
}
use sd_wan_plus.Core.Types.{Node, WireGuardLink, WireGuardLinkEndpoint, pending, active}
use sd_wan_plus.Netutil.{Ip, is_public_dialable}
use sd_wan_plus.Routing.Types.{NodeDesiredState}
use sd_wan_plus.Storage.Tables.{Db, get_node}
use sd_wan_plus.Storage.Links.{
  known_ends, create_link, create_link_endpoint, get_link, list_links, set_link_enabled,
  set_link_bidirectional, delete_link, link_exists_between,
}
use sd_wan_plus.Storage.Ports.{allocate_wg_port}
use sd_wan_plus.Storage.Names.{interface_label}
use sd_wan_plus.Controller.State.{Server, Call, Reply, ok, refused, later, audit}
use sd_wan_plus.Controller.Repair.{node_public_advertise}
use sd_wan_plus.Controller.Publish.{publish_config}
pub mod Parallel
pub mod Requests

pub record LinkBody : Type 0 where
  pub node_a : String
  pub node_b : String
  pub initiator_node_id : String
  pub listener_address : String
  pub admin_weight : ℕ
  pub enabled : Bool
  pub bidirectional : Bool

-- What the guards leave for the rest of handleCreateLink.
pub record LinkPlan : Type 0 where
  pub listener : String
  pub listen_adv : String
  pub init_adv : String
  pub na : Node
  pub nb : Node

unfoldable pub listener_of : LinkBody → String
listener_of b = if b.initiator_node_id == b.node_b then b.node_a else b.node_b

unfoldable pub endpoint_at : String → ℕ → String
endpoint_at address port = str_append address (str_append ":" (decimal port))

-- The link, with the ports of its ends.
unfoldable pub link_of : (id : String) → LinkBody → LinkPlan → (port : ℕ) → WireGuardLink
link_of id b p port = record {
  id = id;
  node_a = b.node_a;
  node_b = b.node_b;
  initiator_node_id = b.initiator_node_id;
  listener_node_id = p.listener;
  listener_address = p.listen_adv;
  listener_port = port;
  interface_name_a = interface_label b.node_a b.node_b;
  interface_name_b = interface_label b.node_b b.node_a;
  enabled = b.enabled;
  bidirectional = b.bidirectional;
  admin_weight = if eqb b.admin_weight 0 then 1 else b.admin_weight;
  last_handshake_a = none;
  last_handshake_b = none;
  status = pending;
  created_at = 0;
}

-- An end before the two ports are given out.
abbrev pub bare_end : String → String → String → String → Bool → WireGuardLinkEndpoint
bare_end link node iface key init = record {
  id = "";
  link_id = link;
  node_id = node;
  interface_name = iface;
  listen_port = 0;
  peer_endpoint = none;
  peer_public_key = key;
  persistent_keepalive = 0;
  is_initiator = init;
}

unfoldable pub dialling :
    LinkBody → LinkPlan → (port_l port_i : ℕ) → WireGuardLinkEndpoint → WireGuardLinkEndpoint
dialling b p port_l port_i e = record e {
  peer_endpoint = some (endpoint_at p.listen_adv port_l);
  persistent_keepalive = 25;
  listen_port = if b.bidirectional then port_i else 0;
}

abbrev pub reverse_of : LinkBody → LinkPlan → ℕ → Option String
reverse_of b p port_i =
    if b.bidirectional && not (p.init_adv == "") && ltb 0 port_i
    then some (endpoint_at p.init_adv port_i)
    else none

unfoldable pub listening :
    LinkBody → LinkPlan → (port_l port_i : ℕ) → WireGuardLinkEndpoint → WireGuardLinkEndpoint
listening b p port_l port_i e = record e {
  listen_port = port_l;
  peer_endpoint = reverse_of b p port_i;
  persistent_keepalive = if b.bidirectional then 25 else 0;
}

unfoldable pub end_a :
    WireGuardLink → LinkBody → LinkPlan → (port_l port_i : ℕ) → WireGuardLinkEndpoint
end_a l b p port_l port_i =
    let e =
      bare_end l.id b.node_a l.interface_name_a p.nb.wg_public_key
        (b.initiator_node_id == b.node_a) in
    if b.initiator_node_id == b.node_a
    then dialling b p port_l port_i e
    else listening b p port_l port_i e

unfoldable pub end_b :
    WireGuardLink → LinkBody → LinkPlan → (port_l port_i : ℕ) → WireGuardLinkEndpoint
end_b l b p port_l port_i =
    let e =
      bare_end l.id b.node_b l.interface_name_b p.na.wg_public_key
        (b.initiator_node_id == b.node_b) in
    if b.initiator_node_id == b.node_a
    then listening b p port_l port_i e
    else dialling b p port_l port_i e

-- The rows that are inserted.
unfoldable pub insert_rows : Call → LinkBody → LinkPlan → (port_l port_i : ℕ) → Db → Db
insert_rows c b p port_l port_i db =
    let l = link_of (c.uuid 0) b p port_l in
    let with_link = create_link db (c.uuid 0) c.now l in
    let with_a = create_link_endpoint with_link (c.uuid 1) (end_a l b p port_l port_i) in
    create_link_endpoint with_a (c.uuid 2) (end_b l b p port_l port_i)

-- The rows, and the switch.
unfoldable pub insert_link : Call → LinkBody → LinkPlan → (port_l port_i : ℕ) → Db → Db
insert_link c b p port_l port_i db =
    let rows = insert_rows c b p port_l port_i db in
    if b.enabled then set_link_enabled rows (c.uuid 0) true else rows

module _ (split_host_port : String → Option (String × String)) (parse_ip : String → Option Ip) where
  abbrev pub dialable : String → Bool
  dialable a = is_public_dialable split_host_port parse_ip a

  -- The address to dial the listener at: the given one, or one that the listener advertises.
  unfoldable pub listen_address : Db → LinkBody → String
  listen_address db b =
      if dialable b.listener_address
      then b.listener_address
      else if node_public_advertise split_host_port parse_ip db (listener_of b) == ""
      then b.listener_address
      else node_public_advertise split_host_port parse_ip db (listener_of b)

  unfoldable pub plan_between : Db → LinkBody → Node → Node → LinkPlan
  plan_between db b na nb = record {
    listener = listener_of b;
    listen_adv = listen_address db b;
    init_adv = node_public_advertise split_host_port parse_ip db b.initiator_node_id;
    na = na;
    nb = nb;
  }

  -- The test of a bidirectional link.
  unfoldable pub planned : Db → LinkBody → LinkPlan → Reply LinkPlan
  planned db b p =
      if b.bidirectional && (not (dialable p.listen_adv) || p.init_adv == "")
      then refused 400 "bidirectional requires both nodes to have public dialable addresses"
      else ok p

  -- The guards of handleCreateLink.
  unfoldable pub plan_link : Db → LinkBody → Reply LinkPlan
  plan_link db b =
      if b.node_a == "" || b.node_b == "" || b.initiator_node_id == "" || b.listener_address == ""
      then refused 400 "node_a, node_b, initiator_node_id, listener_address required"
      else if link_exists_between db b.node_a b.node_b
      then refused 409 "link already exists"
      else elim (get_node db b.node_a) [
        | none ↦ refused 404 "node not found"
        | some na ↦ elim (get_node db b.node_b) [
          | none ↦ refused 404 "node not found"
          | some nb ↦ planned db b (plan_between db b na nb)
        ]
      ]

  -- The port of the initiator, and the tables: 0 where the link has one direction.
  unfoldable pub initiator_port : Call → LinkBody → Db → Option ℕ × Db
  initiator_port c b db =
      if b.bidirectional
      then allocate_wg_port split_host_port parse_ip db c.now b.initiator_node_id
      else (some 0, db)

module _ (split_host_port : String → Option (String × String)) (parse_ip : String → Option Ip)
    (sha256_of_json : NodeDesiredState → Option String) (decrypt : String → Option String) where
  unfoldable pub publish_if : Bool → Call → String → Server → Server
  publish_if b c reason s =
      if b
      then (publish_config split_host_port parse_ip sha256_of_json decrypt (later 8 c) reason s).1
      else s

  unfoldable pub store_link :
      Call → LinkBody → LinkPlan → (port_l port_i : ℕ) → Server → Reply WireGuardLink × Server
  store_link c b p port_l port_i s =
      let l = link_of (c.uuid 0) b p port_l in
      if not (known_ends s.db l) then (refused 500 "create link", s) else (
        ok (record l { created_at = c.now; status = if b.enabled then active else pending }),
        publish_if b.enabled c "auto after create link" (
            audit c (c.uuid 3) "create_link" "link" l.id ""
              (record s { db = insert_link c b p port_l port_i s.db })),
      )

  -- A port that AllocateWGPort does not find ends the handler; the tables stay as it left them.
  unfoldable pub with_initiator_port :
      Call → LinkBody → LinkPlan → ℕ → Option ℕ × Db → Server → Reply WireGuardLink × Server
  with_initiator_port c b p port_l (none, db) s = (refused 400 "no free port", record s { db = db })
  with_initiator_port c b p port_l (some port_i, db) s =
      store_link c b p port_l port_i (record s { db = db })

  unfoldable pub with_listener_port :
      Call → LinkBody → LinkPlan → Option ℕ × Db → Server → Reply WireGuardLink × Server
  with_listener_port c b p (none, db) s = (refused 400 "no free port", record s { db = db })
  with_listener_port c b p (some port_l, db) s =
      with_initiator_port c b p port_l (initiator_port split_host_port parse_ip c b db) s

  unfoldable pub with_plan :
      Call → LinkBody → Reply LinkPlan → Server → Reply WireGuardLink × Server
  with_plan c b (refused code message) s = (refused code message, s)
  with_plan c b (ok p) s =
      with_listener_port c b p (allocate_wg_port split_host_port parse_ip s.db c.now p.listener) s

  unfoldable pub handle_create_link : Call → LinkBody → Server → Reply WireGuardLink × Server
  handle_create_link c b s = with_plan c b (plan_link split_host_port parse_ip s.db b) s

  -- The test of a link that shall become bidirectional.
  unfoldable pub can_be_both : Db → WireGuardLink → Bool
  can_be_both db l =
      let init_adv = node_public_advertise split_host_port parse_ip db l.initiator_node_id in
      let listen_adv =
        if is_public_dialable split_host_port parse_ip l.listener_address
        then l.listener_address
        else node_public_advertise split_host_port parse_ip db l.listener_node_id in
      not (init_adv == "" || not (is_public_dialable split_host_port parse_ip listen_adv))

  unfoldable pub change_direction : String → Option Bool → Server → Reply (Unit {0}) × Server
  change_direction id none s = (ok tt, s)
  change_direction id (some both) s = elim (get_link s.db id) [
    | none ↦ (refused 404 "link not found", s)
    | some l ↦
        if both && not (can_be_both s.db l)
        then (refused 400 "bidirectional requires both nodes to have public dialable addresses", s)
        else (ok tt, record s { db = set_link_bidirectional s.db id both })
  ]

  abbrev pub given : Option Bool → Bool
  given none = false
  given (some b) = true

  unfoldable pub change_enabled : String → Option Bool → Server → Server
  change_enabled id none s = s
  change_enabled id (some on) s = record s { db = set_link_enabled s.db id on }

  -- The rest of handleUpdateLink.
  unfoldable pub finish_update :
      Call
      → String
      → Option Bool
      → Option Bool
      → Reply (Unit {0}) × Server
      → Reply (Option WireGuardLink) × Server
  finish_update c id enabled both (refused code message, s) = (refused code message, s)
  finish_update c id enabled both (ok done, s) =
      let t =
        publish_if (given enabled || given both) c "auto after update link"
          (change_enabled id enabled s) in
      (ok (get_link t.db id), t)

  unfoldable pub handle_update_link :
      Call → String → (enabled both : Option Bool) → Server → Reply (Option WireGuardLink) × Server
  handle_update_link c id enabled both s =
      finish_update c id enabled both (change_direction id both s)

unfoldable pub handle_delete_link : Call → String → Server → Server
handle_delete_link c id s =
    audit c (c.uuid 0) "delete_link" "link" id "" (record s { db = delete_link s.db id })

unfoldable pub handle_list_links : Server → Reply (List WireGuardLink)
handle_list_links s = ok (list_links s.db)

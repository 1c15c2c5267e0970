-- ===== src/Controller/Enroll.antt =====
-- internal/controller/bootstrap.go: the nodes that enroll with a token. The keys come from `generate`
-- and `encrypt` (internal/security), the network row from GetNetwork.
use sd_wan_plus.Base.{
  ℕ, ◌+◌, ◌*◌, String, ◌==◌, Bool, true, false, not, ◌&&◌, ◌||◌, Option, none, some, List, [], ◌∷◌,
  if◌then◌else◌, ltb, eqb, str_append, decimal, trim_space, equal_fold,
}
use sd_wan_plus.Core.Types.{
  Node, NodeAddress, WireGuardLink, WireGuardLinkEndpoint, EnrollmentToken, active,
}
use sd_wan_plus.Netutil.{Ip, is_public_dialable}
use sd_wan_plus.Routing.Types.{NodeDesiredState}
use sd_wan_plus.Storage.Tables.{
  Db, get_node, create_node, list_node_addresses, add_node_address, create_control_relation,
  touch_node_seen,
}
use sd_wan_plus.Storage.Links.{create_link, create_link_endpoint}
use sd_wan_plus.Storage.Ports.{allocate_wg_port}
use sd_wan_plus.Storage.Nodes.{allocate_overlay_ipv4}
use sd_wan_plus.Storage.Names.{interface_label}
use sd_wan_plus.Storage.Tokens.{
  create_enrollment_token, get_enrollment_token, list_enrollment_tokens, mark_token_used,
  revoke_token,
}
use sd_wan_plus.Controller.State.{Server, Call, Reply, ok, refused, later, audit, ◌>>=◌}
use sd_wan_plus.Controller.Nodes.{
  Pool, with_listen_port, with_start, with_end, ordered_pool, absent,
}
use sd_wan_plus.Controller.Links.{endpoint_at}
use sd_wan_plus.Controller.Publish.{publish_config}
use sd_wan_plus.Controller.Tokens.{NetworkRow, or_refuse, valid_token}
pub mod Token
pub mod Closed
mod Samples

-- A row of the table networks.
pub record EnrollBody : Type 0 where
  pub token : String
  pub node_name : String
  pub wg_public_key : String
  pub wg_private_key : String
  pub identity_public_key : String
  pub agent_version : String
  pub protocol_version : ℕ
  pub advertise_address : String
  pub address_type : String
  pub has_public_ip : Bool
  pub wg_listen_port : Option ℕ
  pub wg_port_range_start : Option ℕ
  pub wg_port_range_end : Option ℕ

-- The key pair of the node, private key first: its own, or one that is generated.
unfoldable pub wg_keys :
    (generate : Option (String × String)) → EnrollBody → Reply (String × String)
wg_keys generate b =
    let priv = trim_space b.wg_private_key in
    let key = trim_space b.wg_public_key in
    if priv == ""
    then or_refuse 500 "generate wg key" generate
    else if key == ""
    then refused 400 "wg_public_key required with wg_private_key"
    else if key == priv
    then refused 400 "invalid wg keypair: public key equals private"
    else ok (priv, key)

unfoldable pub address_type_of : EnrollBody → String
address_type_of b =
    let given = trim_space b.address_type in
    if given == "" then if b.has_public_ip then "public" else "lan" else given

-- A node that can be dialled, by what it says of itself.
unfoldable pub counts_as_public : (dialable : String → Bool) → EnrollBody → Bool
counts_as_public dialable b =
    let kind = address_type_of b in
    let adv = trim_space b.advertise_address in
    if equal_fold kind "lan"
    then false
    else b.has_public_ip || equal_fold kind "public" || not (adv == "") && dialable adv

-- The pool of the node: that of its parent, or one port for a node that cannot be dialled.
unfoldable pub enrolled_pool : Bool → (port : ℕ) → (parent : Node) → EnrollBody → Reply Pool
enrolled_pool is_public port parent b = do
  p ←
      with_listen_port b.wg_listen_port
        (if is_public then (parent.wg_port_range_start, parent.wg_port_range_end) else (port, port))
  q ←
      with_start (not is_public && absent b.wg_port_range_end && absent b.wg_listen_port)
        b.wg_port_range_start p
  r ← with_end b.wg_port_range_end q
  o ← ordered_pool r
  ok (if is_public then o else (o.0, o.0))

-- What the guards of handleEnroll leave for the rest.
pub record Admission : Type 0 where
  pub token : EnrollmentToken
  pub parent : Node
  pub overlay : String
  pub wg_priv_enc : String
  pub wg_pub : String
  pub id_priv_enc : String
  pub id_pub : String
  pub pool : Pool

unfoldable pub enrolled_node : EnrollBody → Admission → Node
enrolled_node b a = record {
  id = "";
  display_name = if b.node_name == "" then a.token.suggested_node_name else b.node_name;
  overlay_ipv4 = a.overlay;
  overlay_ipv6 = "";
  wg_public_key = a.wg_pub;
  wg_private_key_encrypted = a.wg_priv_enc;
  identity_public_key = if b.identity_public_key == "" then a.id_pub else b.identity_public_key;
  identity_private_key_enc = a.id_priv_enc;
  control_parent_id = some a.parent.id;
  node_service_port = a.parent.node_service_port;
  wg_port_range_start = a.pool.0;
  wg_port_range_end = a.pool.1;
  is_controller = false;
  agent_version = b.agent_version;
  protocol_version = if eqb b.protocol_version 0 then 1 else b.protocol_version;
  desired_generation = none;
  active_generation = none;
  created_at = 0;
  updated_at = 0;
  last_seen_at = none;
  last_handshake_at = none;
  enrollment_token_id = some a.token.id;
}

-- The node, its relation to the parent and its address.
unfoldable pub insert_node : Call → EnrollBody → Admission → Db → Db
insert_node c b a db =
    let with_node = create_node db (c.uuid 0) c.now (enrolled_node b a) in
    let related =
      create_control_relation with_node (c.uuid 1) c.now a.parent.id (c.uuid 0) a.token.id in
    let adv = trim_space b.advertise_address in
    if adv == ""
    then related
    else add_node_address related (c.uuid 2) c.now (c.uuid 0) adv (address_type_of b) true

unfoldable pub enrolled_link : (id child : String) → Admission → String → ℕ → WireGuardLink
enrolled_link id child a address port = record {
  id = id;
  node_a = a.parent.id;
  node_b = child;
  initiator_node_id = child;
  listener_node_id = a.parent.id;
  listener_address = address;
  listener_port = port;
  interface_name_a = interface_label a.parent.id child;
  interface_name_b = interface_label child a.parent.id;
  enabled = true;
  bidirectional = false;
  admin_weight = 1;
  last_handshake_a = none;
  last_handshake_b = none;
  status = active;
  created_at = 0;
}

unfoldable pub parent_end : WireGuardLink → Admission → WireGuardLinkEndpoint
parent_end l a = record {
  id = "";
  link_id = l.id;
  node_id = l.node_a;
  interface_name = l.interface_name_a;
  listen_port = l.listener_port;
  peer_endpoint = none;
  peer_public_key = a.wg_pub;
  persistent_keepalive = 0;
  is_initiator = false;
}

unfoldable pub child_end : WireGuardLink → Admission → WireGuardLinkEndpoint
child_end l a = record {
  id = "";
  link_id = l.id;
  node_id = l.node_b;
  interface_name = l.interface_name_b;
  listen_port = 0;
  peer_endpoint = some (endpoint_at l.listener_address l.listener_port);
  peer_public_key = a.parent.wg_public_key;
  persistent_keepalive = 25;
  is_initiator = true;
}

-- The link to the parent, with its two ends.
unfoldable pub insert_parent_link : Call → Admission → String → ℕ → Db → Db
insert_parent_link c a address port db =
    let l = enrolled_link (c.uuid 3) (c.uuid 0) a address port in
    let with_link = create_link db (c.uuid 3) c.now l in
    create_link_endpoint (create_link_endpoint with_link (c.uuid 4) (parent_end l a)) (c.uuid 5)
      (child_end l a)

unfoldable pub first_address : List NodeAddress → Option String
first_address [] = none
first_address (a ∷ rest) = some a.address

module _ (split_host_port : String → Option (String × String)) (parse_ip : String → Option Ip) where
  unfoldable pub first_dialable : List NodeAddress → Option String
  first_dialable [] = none
  first_dialable (a ∷ rest) =
      let later = first_dialable rest in
      if is_public_dialable split_host_port parse_ip a.address then some a.address else later

  -- The address that the child dials.
  unfoldable pub listener_address : String → List NodeAddress → String
  listener_address configured addrs = elim (first_dialable addrs) [
    | some a ↦ a
    | none ↦
        if configured == ""
        then elim (first_address addrs) [ none ↦ "" | some a ↦ a ]
        else configured
  ]

  module _ (parse_cidr : String → Option (Ip × ℕ)) (encrypt : String → Option String)
      (network : Option NetworkRow) (wg_pair id_pair : Option (String × String)) where
    -- The guards of handleEnroll.
    unfoldable pub admit : (now : ℕ) → EnrollBody → Server → Reply Admission
    admit now b s = do
      t ← valid_token now s.db b.token
      net ← or_refuse 500 "network" network
      parent ← or_refuse 500 "parent missing" (get_node s.db t.parent_node_id)
      ip ← or_refuse 500 "overlay" (allocate_overlay_ipv4 parse_cidr s.db net.overlay_ipv4_cidr)
      wg ← wg_keys wg_pair b
      enc ← or_refuse 500 "encrypt wg key" (encrypt wg.0)
      identity ← or_refuse 500 "identity" id_pair
      enc_id ← or_refuse 500 "encrypt" (encrypt identity.0)
      pool ←
          enrolled_pool (counts_as_public (is_public_dialable split_host_port parse_ip) b)
            s.wg_port_start parent b
      ok (record {
        token = t;
        parent = parent;
        overlay = ip;
        wg_priv_enc = enc;
        wg_pub = wg.1;
        id_priv_enc = enc_id;
        id_pub = identity.1;
        pool = pool;
      })

    module _ (sha256_of_json : NodeDesiredState → Option String)
        (decrypt : String → Option String) where
      -- The rest, with what AllocateWGPort returns: its failure leaves the node that was inserted.
      unfoldable pub with_port :
          Call → EnrollBody → Admission → Option ℕ × Db → Server → Reply String × Server
      with_port c b a (none, db) s = (refused 500 "no free port", record s { db = db })
      with_port c b a (some port, db) s =
          let address = listener_address s.public_address (list_node_addresses db a.parent.id) in
          (
            ok (c.uuid 0),
            (publish_config split_host_port parse_ip sha256_of_json decrypt (later 8 c)
                (str_append "auto after enroll " (enrolled_node b a).display_name)
                (record s { db = insert_parent_link c a address port db })).1,
          )

      unfoldable pub with_admission :
          Call → EnrollBody → Reply Admission → Server → Reply String × Server
      with_admission c b (refused code message) s = (refused code message, s)
      with_admission c b (ok a) s =
          with_port c b a
            (allocate_wg_port split_host_port parse_ip (insert_node c b a s.db) c.now a.parent.id) s

      -- The reply names the new node.
      unfoldable pub handle_enroll : Call → EnrollBody → Server → Reply String × Server
      handle_enroll c b s = with_admission c b (admit c.now b s) s

-- The recovery endpoint of handleCommitEnroll.
unfoldable pub recovery_of : Server → Option Node → String
recovery_of s none = s.public_address
recovery_of s (some p) = elim (first_address (list_node_addresses s.db p.id)) [
  | none ↦ s.public_address
  | some a ↦ str_append a (str_append ":" (decimal p.node_service_port))
]

-- The token is marked as used only here; `version` is core.ProductVersion.
unfoldable pub handle_commit_enroll :
    (now : ℕ) → (version node token : String) → Server → Reply String × Server
handle_commit_enroll now version node token s = elim (get_enrollment_token s.db token) [
  | none ↦ (refused 403 "bad token", s)
  | some t ↦ (
    ok (recovery_of s (get_node s.db t.parent_node_id)),
    record s { db = touch_node_seen (mark_token_used s.db now t.id) now node version none },
  )
]

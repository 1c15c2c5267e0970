-- ===== src/Routing/Links.antt =====
-- internal/routing/compile.go: the interface that a node has for one link.
use sd_wan_plus.Base.{
  ◌%◌, ◌^◌, String, ◌==◌, Bool, true, false, not, ◌&&◌, ◌||◌, Option, some, none, List, [], ◌∷◌,
  if◌then◌else◌, eqb, str_append, decimal,
}
use sd_wan_plus.Core.Types.{Node, WireGuardLink, WireGuardLinkEndpoint, LinkStatus, pending}
use sd_wan_plus.Netutil.{Ip, is_public_dialable, host_or}
use sd_wan_plus.Routing.Types.{WireGuardLinkCfg}

unfoldable pub is_pending : LinkStatus → Bool
is_pending pending = true
is_pending _ = false

-- The guards at the head of the loop over the links.
unfoldable pub concerns : String → WireGuardLink → Bool
concerns n l =
    if not l.enabled && not (is_pending l.status)
    then false
    else if not (l.node_a == n) && not (l.node_b == n)
    then false
    else true

-- nodeByID[id]: the last node with the id, and one with empty fields where there is none.
unfoldable pub public_key_of : List Node → String → String → String
public_key_of [] id found = found
public_key_of (m ∷ ms) id found =
    public_key_of ms id (if m.id == id then m.wg_public_key else found)

unfoldable pub overlay_of : List Node → String → String → String
overlay_of [] id found = found
overlay_of (m ∷ ms) id found = overlay_of ms id (if m.id == id then m.overlay_ipv4 else found)

unfoldable pub peer_of : String → WireGuardLink → String
peer_of n l = if n == l.node_b then l.node_a else l.node_b

unfoldable pub iface_of : String → WireGuardLink → String
iface_of n l = if n == l.node_b then l.interface_name_b else l.interface_name_a

-- The configuration from the link alone.
unfoldable pub base_cfg : List Node → String → Node → WireGuardLink → WireGuardLinkCfg
base_cfg nodes priv n l = record {
  link_id = l.id;
  interface_name = iface_of n.id l;
  listen_port = 0;
  peer_public_key = public_key_of nodes (peer_of n.id l) "";
  peer_endpoint = "";
  persistent_keepalive = 0;
  is_initiator = n.id == l.initiator_node_id;
  node_private_key = priv;
  overlay_ip = n.overlay_ipv4;
  peer_overlay_ip = overlay_of nodes (peer_of n.id l) "";
  allowed_ips = [];
}

-- The first endpoint of the node.
unfoldable pub own_endpoint : String → List WireGuardLinkEndpoint → Option WireGuardLinkEndpoint
own_endpoint n [] = none
own_endpoint n (e ∷ es) = let rest = own_endpoint n es in if e.node_id == n then some e else rest

-- fmt.Sprintf("%s:%d", …)
unfoldable pub listener : WireGuardLink → String
listener l = str_append l.listener_address (str_append ":" (decimal l.listener_port))

-- The defaults after the endpoints.
unfoldable pub dial_listener : WireGuardLink → WireGuardLinkCfg → WireGuardLinkCfg
dial_listener l cfg =
    if cfg.peer_endpoint == "" && cfg.is_initiator
    then record cfg {
      peer_endpoint = listener l;
      persistent_keepalive =
          if eqb cfg.persistent_keepalive 0 then 25 else cfg.persistent_keepalive;
    }
    else cfg

unfoldable pub default_port : WireGuardLink → WireGuardLinkCfg → WireGuardLinkCfg
default_port l cfg =
    if eqb cfg.listen_port 0 && not cfg.is_initiator
    then record cfg { listen_port = l.listener_port % 2 ^ 32 }
    else cfg

unfoldable pub default_keepalive : WireGuardLinkCfg → WireGuardLinkCfg
default_keepalive cfg =
    if eqb cfg.persistent_keepalive 0 && not (cfg.peer_endpoint == "")
    then record cfg { persistent_keepalive = 25 }
    else cfg

module _ (split_host_port : String → Option (String × String)) (parse_ip : String → Option Ip) where
  -- The peer endpoint that is taken over: one that can be dialled, or any for the initiator.
  unfoldable pub taken_endpoint : WireGuardLinkEndpoint → String
  taken_endpoint e = elim e.peer_endpoint [
    | none ↦ ""
    | some p ↦
        if is_public_dialable split_host_port parse_ip (host_or p (split_host_port p))
          || e.is_initiator
        then p
        else ""
  ]

  unfoldable pub apply_endpoint : WireGuardLinkCfg → WireGuardLinkEndpoint → WireGuardLinkCfg
  apply_endpoint cfg e = record cfg {
    interface_name = if e.interface_name == "" then cfg.interface_name else e.interface_name;
    peer_public_key = if e.peer_public_key == "" then cfg.peer_public_key else e.peer_public_key;
    is_initiator = e.is_initiator;
    listen_port = e.listen_port % 2 ^ 32;
    persistent_keepalive = e.persistent_keepalive % 2 ^ 32;
    peer_endpoint = taken_endpoint e;
  }

  -- `eps` is what ListLinkEndpoints returns, `none` for an error.
  unfoldable pub with_endpoints :
      String → WireGuardLinkCfg → Option (List WireGuardLinkEndpoint) → WireGuardLinkCfg
  with_endpoints n cfg none = cfg
  with_endpoints n cfg (some eps) = elim (own_endpoint n eps) [
    | none ↦ cfg
    | some e ↦ apply_endpoint cfg e
  ]

  unfoldable pub link_cfg :
      List Node
      → String
      → Node
      → WireGuardLink
      → Option (List WireGuardLinkEndpoint)
      → WireGuardLinkCfg
  link_cfg nodes priv n l eps =
      default_keepalive
        (default_port l (dial_listener l (with_endpoints n.id (base_cfg nodes priv n l) eps)))

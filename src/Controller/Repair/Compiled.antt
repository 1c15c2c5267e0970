-- ===== src/Controller/Repair/Compiled.antt =====
-- What Compile makes of a link whose endpoints repairLinkEndpoints has visited.
use sd_wan_plus.Base.{
  ℕ, ◌^◌, ◌<◌, String, ◌≡◌, ◌≢◌, ==-self, eq_iff, refl, ap, true, false, Option, none, some, List,
  arith, inl, inr,
}
use sd_wan_plus.Core.Types.{Node, WireGuardLink, WireGuardLinkEndpoint}
use sd_wan_plus.Netutil.{Ip}
use sd_wan_plus.Storage.Tables.{Db}
use sd_wan_plus.Storage.Links.{list_link_endpoints}
use sd_wan_plus.Routing.Types.{WireGuardLinkCfg}
use sd_wan_plus.Routing.Links.{
  listener, own_endpoint, taken_endpoint, apply_endpoint, with_endpoints, base_cfg, dial_listener,
  default_port, default_keepalive, link_cfg,
}
use sd_wan_plus.Controller.Repair.{repair_link, both_ways}
use sd_wan_plus.Controller.Repair.Stored.{
  Pair, one_way_init, one_way_listen, final_init, final_listen, repair_link-Pair,
}

-- The end that dials, and the end that waits to be dialled.
pub record Dials (l : WireGuardLink) (c : WireGuardLinkCfg) : Type 0 where
  pub endpoint : c.peer_endpoint ≡ listener l
  pub keepalive : c.persistent_keepalive ≡ 25
  pub port : c.listen_port ≡ 0

pub record Waits (l : WireGuardLink) (c : WireGuardLinkCfg) : Type 0 where
  pub endpoint : c.peer_endpoint ≡ ""
  pub keepalive : c.persistent_keepalive ≡ 0
  pub port : c.listen_port ≡ l.listener_port

Pair-own :
    (xs : List WireGuardLinkEndpoint) (i r : WireGuardLinkEndpoint)
    → Pair xs i r
    → i.node_id ≢ r.node_id
    → (own_endpoint i.node_id xs ≡ some i) × (own_endpoint r.node_id xs ≡ some r)
unfolding own_endpoint
Pair-own xs i r (inl e) ne =
    rw e (ground (arith, eq_iff i.node_id r.node_id, ==-self i.node_id, ==-self r.node_id))
Pair-own xs i r (inr e) ne =
    rw e (ground (arith, eq_iff r.node_id i.node_id, ==-self i.node_id, ==-self r.node_id))

module _ (split_host_port : String → Option (String × String)) (parse_ip : String → Option Ip) where
  defaults-Waits :
      (l : WireGuardLink) (c : WireGuardLinkCfg)
      → c.peer_endpoint ≡ ""
      → c.is_initiator ≡ false
      → c.persistent_keepalive ≡ 0
      → c.listen_port ≡ l.listener_port
      → Waits l (default_keepalive (default_port l (dial_listener l c)))
  unfolding default_keepalive default_port dial_listener
  defaults-Waits l c p i k q = ground (arith, eq_iff c.peer_endpoint "")

  -- The defaults after the endpoint `e`.
  abbrev settled : WireGuardLink → WireGuardLinkEndpoint → WireGuardLinkCfg → WireGuardLinkCfg
  settled l e c =
      default_keepalive
        (default_port l (dial_listener l (apply_endpoint split_host_port parse_ip c e)))

  taken_endpoint-some :
      (e : WireGuardLinkEndpoint) (p : String)
      → e.peer_endpoint ≡ some p
      → e.is_initiator ≡ true
      → taken_endpoint split_host_port parse_ip e ≡ p
  unfolding taken_endpoint
  taken_endpoint-some e p h i = rw (h, taken_endpoint) (ground arith)

  taken_endpoint-none :
      (e : WireGuardLinkEndpoint)
      → e.peer_endpoint ≡ none
      → taken_endpoint split_host_port parse_ip e ≡ ""
  unfolding taken_endpoint
  taken_endpoint-none e h = rw (h, taken_endpoint) refl

  module _ (l : WireGuardLink) (e : WireGuardLinkEndpoint) (c : WireGuardLinkCfg) where
    settled-Dials :
        e.peer_endpoint ≡ some (listener l)
        → e.is_initiator ≡ true
        → e.persistent_keepalive ≡ 25
        → e.listen_port ≡ 0
        → Dials l (settled l e c)
    unfolding default_keepalive default_port dial_listener apply_endpoint
    settled-Dials h i k p = ground (arith, taken_endpoint-some e (listener l) h i)

    settled-Waits :
        e.peer_endpoint ≡ none
        → e.is_initiator ≡ false
        → e.persistent_keepalive ≡ 0
        → e.listen_port ≡ l.listener_port
        → l.listener_port < 2 ^ 32
        → Waits l (settled l e c)
    unfolding apply_endpoint
    settled-Waits h i k p b =
        defaults-Waits l (apply_endpoint split_host_port parse_ip c e) (taken_endpoint-none e h) i
          (omega arith) (omega arith)

  final-one_way :
      (db : Db) (now : ℕ) (l : WireGuardLink) (i r : WireGuardLinkEndpoint)
      → l.bidirectional ≡ false
      → (final_init split_host_port parse_ip db now l i r ≡ one_way_init l i)
        × (final_listen split_host_port parse_ip db now l i r ≡ one_way_listen l r)
  unfolding final_init final_listen both_ways
  final-one_way db now l i r h = rw h (refl, refl)

  link_cfg-settled :
      (nodes : List Node) (priv : String) (n : Node) (l : WireGuardLink) (e : WireGuardLinkEndpoint)
      (eps : List WireGuardLinkEndpoint)
      → own_endpoint n.id eps ≡ some e
      → link_cfg split_host_port parse_ip nodes priv n l (some eps)
        ≡ settled l e (base_cfg nodes priv n l)
  unfolding link_cfg with_endpoints apply_endpoint
  link_cfg-settled nodes priv n l e eps h =
      ap (λ c. default_keepalive (default_port l (dial_listener l c)))
        (opened n.id (base_cfg nodes priv n l) e eps h)
    where
      opened :
          (id : String) (c : WireGuardLinkCfg) (e : WireGuardLinkEndpoint)
          (eps : List WireGuardLinkEndpoint)
          → own_endpoint id eps ≡ some e
          → with_endpoints split_host_port parse_ip id c (some eps)
            ≡ apply_endpoint split_host_port parse_ip c e
      opened id c e eps h = rw (with_endpoints, h) refl

  -- After the visit of a link that is not bidirectional, whose two endpoints are those of two nodes,
  -- Compile has the initiator's node dial the listener and listen on no port, and has the listener's
  -- node listen on the port of the link and dial nobody.
  pub repair_link-one_way :
      (db : Db) (now : ℕ) (l : WireGuardLink) (i r : WireGuardLinkEndpoint) (nodes : List Node)
      (priv priv' : String) (n m : Node)
      → Pair (list_link_endpoints db l.id) i r
      → i.id ≢ r.id
      → i.is_initiator ≡ true
      → r.is_initiator ≡ false
      → i.node_id ≢ r.node_id
      → n.id ≡ i.node_id
      → m.id ≡ r.node_id
      → l.bidirectional ≡ false
      → 0 < l.listener_port
      → l.listener_port < 2 ^ 32
      → let eps = list_link_endpoints (repair_link split_host_port parse_ip db now l) l.id in
        Dials l (link_cfg split_host_port parse_ip nodes priv n l (some eps))
        × Waits l (link_cfg split_host_port parse_ip nodes priv' m l (some eps))
  repair_link-one_way db now l i r nodes priv priv' n m h ne a b nn en em one lo hi =
      let eps = list_link_endpoints (repair_link split_host_port parse_ip db now l) l.id in
      let (ei, er) = final-one_way db now l i r one in
      let visited : Pair eps (one_way_init l i) (one_way_listen l r) =
        rw (← ei, ← er) (repair_link-Pair split_host_port parse_ip db now l i r h ne a b) in
      let (oi, or) = Pair-own eps (one_way_init l i) (one_way_listen l r) visited nn in
      (
        rw (link_cfg-settled nodes priv n l (one_way_init l i) eps (rw en oi))
            (settled-Dials l (one_way_init l i) (base_cfg nodes priv n l) refl a refl refl),
        rw (link_cfg-settled nodes priv' m l (one_way_listen l r) eps (rw em or)) (
            settled-Waits l (one_way_listen l r) (base_cfg nodes priv' m l) refl b refl
              (ground arith) hi),
      )

-- ===== src/Controller/Repair/Kept.antt =====
-- What repairLinkEndpoints and publishConfig leave alone.
use sd_wan_plus.Base.{
  ℕ, String, ◌≡◌, refl, ◌∙◌, Option, none, Option-cases, inl, inr, Bool, true, false, Bool-cases,
  List, [], ◌∷◌, ltb, eqb, not, ◌&&◌, if◌then◌else◌,
}
use sd_wan_plus.Core.Types.{Node, WireGuardLink, WireGuardLinkEndpoint}
use sd_wan_plus.Netutil.{Ip}
use sd_wan_plus.Storage.Tables.{Db, get_node, update_node, update_node_ports}
use sd_wan_plus.Storage.Links.{list_links, list_link_endpoints, update_link_endpoint}
use sd_wan_plus.Storage.Ports.{allocate_wg_port, cut_pool, node_has_public_dialable}
use sd_wan_plus.Controller.Repair.{
  Repair, dial, one_way, last_endpoint, both_ways, after_port, shape_back, shape, store,
  repair_link, repair_links, repair_link_endpoints,
}

-- A part of the tables that neither the nodes nor the endpoints are in.
abbrev pub Apart {ℓ} : {X : Type ℓ} → (Db → X) → Type ℓ
Apart field =
    (db : Db) (nodes : List Node) (eps : List WireGuardLinkEndpoint)
    → field (record db { nodes = nodes; link_endpoints = eps }) ≡ field db

module _ (split_host_port : String → Option (String × String)) (parse_ip : String → Option Ip)
    {X : Type 0} (field : Db → X) (apart : Apart field) where
  cut_pool-kept :
      (db : Db) (now : ℕ) (n : Node) → field (cut_pool split_host_port parse_ip db now n) ≡ field db
  unfolding cut_pool update_node_ports update_node
  cut_pool-kept db now n = picked (
      ltb n.wg_port_range_start n.wg_port_range_end
      && not (node_has_public_dialable split_host_port parse_ip db n.id))
    where
      picked :
          (b : Bool)
          → field (
              if b
              then update_node_ports db now n.id n.node_service_port n.wg_port_range_start
                  n.wg_port_range_start
              else db)
            ≡ field db
      picked true = apart db _ db.link_endpoints
      picked false = refl

  pub allocate_wg_port-kept :
      (db : Db) (now : ℕ) (node : String)
      → field (allocate_wg_port split_host_port parse_ip db now node).1 ≡ field db
  unfolding allocate_wg_port
  allocate_wg_port-kept db now node = elim (Option-cases (get_node db node)) [
    | inl e ↦ rw (e, allocate_wg_port) refl
    | inr (n, e) ↦ rw (e, allocate_wg_port) (cut_pool-kept db now n)
  ]

  store-kept : (p : Repair) (db : Db) → field (store split_host_port parse_ip (p, db)) ≡ field db
  unfolding store update_link_endpoint
  store-kept p db = picked p.changed
    where
      picked :
          (b : Bool)
          → field (if b then update_link_endpoint (update_link_endpoint db p.init) p.listen else db)
            ≡ field db
      picked true = apart db db.nodes _
      picked false = refl

  after_port-kept :
      (db : Db) (now : ℕ) (r : Repair)
      → field (after_port split_host_port parse_ip db now r) ≡ field db
  unfolding after_port
  after_port-kept db now r = picked (eqb r.init.listen_port 0)
    where
      picked :
          (b : Bool)
          → field (
              if b then (allocate_wg_port split_host_port parse_ip db now r.init.node_id).1 else db)
            ≡ field db
      picked true = allocate_wg_port-kept db now r.init.node_id
      picked false = refl

  shape-kept :
      (db : Db) (now : ℕ) (l : WireGuardLink) (r : Repair)
      → field (store split_host_port parse_ip (shape split_host_port parse_ip db now l r))
        ≡ field db
  unfolding shape shape_back
  shape-kept db now l r = elim (Bool-cases (both_ways split_host_port parse_ip db l r)) [
    | inl e ↦ rw e (
        store-kept _ (after_port split_host_port parse_ip db now (dial l r))
        ∙ after_port-kept db now (dial l r))
    | inr e ↦ rw e (store-kept (one_way (dial l r)) db)
  ]

  repair_link-kept :
      (db : Db) (now : ℕ) (l : WireGuardLink)
      → field (repair_link split_host_port parse_ip db now l) ≡ field db
  unfolding repair_link
  repair_link-kept db now l =
      elim (Option-cases (last_endpoint true none (list_link_endpoints db l.id))) [
        | inl e ↦ rw (e, repair_link) refl
        | inr (i, e) ↦
            elim (Option-cases (last_endpoint false none (list_link_endpoints db l.id))) [
              | inl f ↦ rw (e, repair_link, f) refl
              | inr (r, f) ↦
                  rw (e, repair_link, f)
                    (shape-kept db now l (record { init = i; listen = r; changed = false }))
            ]
      ]

  repair_links-kept :
      (now : ℕ) (ls : List WireGuardLink) (db : Db)
      → field (repair_links split_host_port parse_ip now ls db) ≡ field db
  unfolding repair_links
  repair_links-kept now [] db = refl
  repair_links-kept now (l ∷ ls) db =
      repair_links-kept now ls (repair_link split_host_port parse_ip db now l)
      ∙ repair_link-kept db now l

  -- The repair changes nothing but nodes and endpoints.
  pub repair_link_endpoints-kept :
      (db : Db) (now : ℕ) → field (repair_link_endpoints split_host_port parse_ip db now) ≡ field db
  unfolding repair_link_endpoints
  repair_link_endpoints-kept db now = repair_links-kept now (list_links db) db

-- ===== src/Controller/Repair/Stored.antt =====
-- The rows of a link's endpoints after repairLinkEndpoints has visited the link.
use sd_wan_plus.Base.{
  ℕ, String, ◌==◌, ◌≡◌, ◌≢◌, eq_iff, refl, ap, ◌∙◌, Bool, true, false, Option, none, some, List, [],
  ◌∷◌, if◌then◌else◌, map, ◌⊎◌, arith, Bool-cases, Option-cases, inl, inr,
}
use sd_wan_plus.Core.Types.{WireGuardLink, WireGuardLinkEndpoint}
use sd_wan_plus.Netutil.{Ip}
use sd_wan_plus.Storage.Tables.{Db, where_rows, get_node, update_node, update_node_ports}
use sd_wan_plus.Storage.Links.{list_link_endpoints, update_link_endpoint}
use sd_wan_plus.Storage.Ports.{allocate_wg_port, cut_pool}
use sd_wan_plus.Controller.Repair.{
  Repair, last_endpoint, both_ways, one_way, dial, shape, store, repair_link, clear_init_port,
  clear_listen_endpoint, set_listen_keepalive, set_listen_port, set_init_keepalive,
  set_init_endpoint, shape_back, new_port, after_port, set_listen_endpoint, dial_back, take_port,
  node_public_advertise,
}
use sd_wan_plus.Controller.Repair.Shape.{
  address, get_or, dialled_init, dialled_listen, dial-ends, one_way-ends, dial_back-ends,
}

-- What UPDATE … WHERE id makes of a row.
abbrev pub replaced : WireGuardLinkEndpoint → WireGuardLinkEndpoint → WireGuardLinkEndpoint
replaced e x =
    if x.id == e.id then record e { id = x.id; link_id = x.link_id; node_id = x.node_id } else x

where_rows-replaced :
    (e : WireGuardLinkEndpoint) (id : String) (xs : List WireGuardLinkEndpoint)
    → where_rows (λ x. x.link_id == id) (map (replaced e) xs)
      ≡ map (replaced e) (where_rows (λ x. x.link_id == id) xs)
where_rows-replaced e id [] = refl
where_rows-replaced e id (x ∷ xs) = ground (arith, where_rows-replaced e id xs)

pub list_link_endpoints-update :
    (db : Db) (e : WireGuardLinkEndpoint) (id : String)
    → list_link_endpoints (update_link_endpoint db e) id
      ≡ map (replaced e) (list_link_endpoints db id)
unfolding list_link_endpoints update_link_endpoint
list_link_endpoints-update db e id = where_rows-replaced e id db.link_endpoints

-- The two rows of a link, in either order.
abbrev pub Pair :
    List WireGuardLinkEndpoint → WireGuardLinkEndpoint → WireGuardLinkEndpoint → Type 0
Pair xs i r = (xs ≡ i ∷ r ∷ []) ⊎ (xs ≡ r ∷ i ∷ [])

-- A repair that changed nothing left both ends as they were.
unchanged :
    (l : WireGuardLink) (r : Repair) → (one_way (dial l r)).changed ≡ false → one_way (dial l r) ≡ r
unfolding one_way dial clear_init_port clear_listen_endpoint set_listen_keepalive set_listen_port
    set_init_keepalive set_init_endpoint
unchanged l r h = ground arith

dial-unchanged : (l : WireGuardLink) (r : Repair) → (dial l r).changed ≡ false → dial l r ≡ r
unfolding dial set_listen_port set_init_keepalive set_init_endpoint
dial-unchanged l r h = ground arith

dial_back-unchanged :
    (adv : String) (r : Repair) → (dial_back adv r).changed ≡ false → dial_back adv r ≡ r
unfolding dial_back set_listen_keepalive set_listen_endpoint
dial_back-unchanged adv r h = ground arith

take_port-unchanged :
    (p : Option ℕ) (r : Repair) → (take_port p r).changed ≡ false → take_port p r ≡ r
unfolding take_port
take_port-unchanged none r h = refl
take_port-unchanged (some p) r h = cc

back-unchanged :
    (adv : String) (l : WireGuardLink) (p : Option ℕ) (r : Repair)
    → (dial_back adv (take_port p (dial l r))).changed ≡ false
    → dial_back adv (take_port p (dial l r)) ≡ r
back-unchanged adv l p r h =
    let a = dial_back-unchanged adv (take_port p (dial l r)) h in
    let b = take_port-unchanged p (dial l r) (cc) in let c = dial-unchanged l r (cc) in a ∙ b ∙ c

-- The two rows of the link as they are after the visit.
abbrev pub one_way_init : WireGuardLink → WireGuardLinkEndpoint → WireGuardLinkEndpoint
one_way_init l i = record (dialled_init l i) { listen_port = 0 }

abbrev pub one_way_listen : WireGuardLink → WireGuardLinkEndpoint → WireGuardLinkEndpoint
one_way_listen l r = record (dialled_listen l r) { peer_endpoint = none; persistent_keepalive = 0 }

abbrev start : WireGuardLinkEndpoint → WireGuardLinkEndpoint → Repair
start i r = record { init = i; listen = r; changed = false }

Pair-last :
    (xs : List WireGuardLinkEndpoint) (i r : WireGuardLinkEndpoint)
    → Pair xs i r
    → i.is_initiator ≡ true
    → r.is_initiator ≡ false
    → (last_endpoint true none xs ≡ some i) × (last_endpoint false none xs ≡ some r)
unfolding last_endpoint
Pair-last xs i r (inl e) a b = rw (e, a, b) (refl, refl)
Pair-last xs i r (inr e) a b = rw (e, a, b) (refl, refl)

Pair-replaced :
    (xs : List WireGuardLinkEndpoint) (i r i' r' : WireGuardLinkEndpoint)
    → Pair xs i r
    → i.id ≢ r.id
    → (i'.id ≡ i.id) × (i'.link_id ≡ i.link_id) × (i'.node_id ≡ i.node_id)
    → (r'.id ≡ r.id) × (r'.link_id ≡ r.link_id) × (r'.node_id ≡ r.node_id)
    → Pair (map (replaced r') (map (replaced i') xs)) i' r'
Pair-replaced xs i r i' r' (inl e) ne a b =
    inl (
      rw e (ground (arith, eq_iff i.id i.id, eq_iff r.id i.id, eq_iff i.id r.id, eq_iff r.id r.id)))
Pair-replaced xs i r i' r' (inr e) ne a b =
    inr (
      rw e (ground (arith, eq_iff i.id i.id, eq_iff r.id i.id, eq_iff i.id r.id, eq_iff r.id r.id)))

module _ (split_host_port : String → Option (String × String)) (parse_ip : String → Option Ip) where
  -- Storing two ends that were taken from the rows of the link.
  store-Pair :
      (db : Db) (id : String) (i r : WireGuardLinkEndpoint) (p : Repair)
      → Pair (list_link_endpoints db id) i r
      → i.id ≢ r.id
      → (p.init.id ≡ i.id) × (p.init.link_id ≡ i.link_id) × (p.init.node_id ≡ i.node_id)
      → (p.listen.id ≡ r.id) × (p.listen.link_id ≡ r.link_id) × (p.listen.node_id ≡ r.node_id)
      → (p.changed ≡ false → p ≡ start i r)
      → Pair (list_link_endpoints (store split_host_port parse_ip (p, db)) id) p.init p.listen
  unfolding store
  store-Pair db id i r p h ne a b same = elim (Bool-cases p.changed) [
    | inl e ↦
        rw
          (
            e,
            list_link_endpoints-update (update_link_endpoint db p.init) p.listen id,
            list_link_endpoints-update db p.init id,
          )
          (Pair-replaced (list_link_endpoints db id) i r p.init p.listen h ne a b)
    | inr e ↦ rw (e, same e) h
  ]

  abbrev both : Db → WireGuardLink → WireGuardLinkEndpoint → WireGuardLinkEndpoint → Bool
  both db l i r = both_ways split_host_port parse_ip db l (start i r)

  allocate_wg_port-rows :
      (db : Db) (now : ℕ) (node : String)
      → (allocate_wg_port split_host_port parse_ip db now node).1.link_endpoints ≡ db.link_endpoints
  unfolding allocate_wg_port cut_pool update_node_ports update_node
  allocate_wg_port-rows db now node = elim (Option-cases (get_node db node)) [
    | inl e ↦ rw (e, allocate_wg_port) refl
    | inr (n, e) ↦ rw (e, allocate_wg_port) (ground arith)
  ]

  after_port-rows :
      (db : Db) (now : ℕ) (r : Repair)
      → (after_port split_host_port parse_ip db now r).link_endpoints ≡ db.link_endpoints
  unfolding after_port
  after_port-rows db now r = ground (arith, allocate_wg_port-rows db now r.init.node_id)

  module _ (db : Db) (now : ℕ) (l : WireGuardLink) (i r : WireGuardLinkEndpoint) where
    -- The port on which the initiator listens for the reverse direction.
    unfoldable pub reverse_port : ℕ
    reverse_port = get_or i.listen_port (new_port split_host_port parse_ip db now (start i r))

    -- The two rows of the link after the visit.
    unfoldable pub final_init : WireGuardLinkEndpoint
    unfolding reverse_port
    final_init =
        if both db l i r
        then record (dialled_init l i) { listen_port = reverse_port }
        else one_way_init l i

    unfoldable pub final_listen : WireGuardLinkEndpoint
    unfolding reverse_port
    final_listen =
        if both db l i r
        then record (dialled_listen l r) {
          peer_endpoint =
              some (
                address (node_public_advertise split_host_port parse_ip db i.node_id) reverse_port);
          persistent_keepalive = 25;
        }
        else one_way_listen l r

    dial-node : (dial l (start i r)).init.node_id ≡ i.node_id
    dial-node = ap (λ e. e.node_id) (dial-ends l (start i r)).0

    new_port-dial :
        new_port split_host_port parse_ip db now (dial l (start i r))
        ≡ new_port split_host_port parse_ip db now (start i r)
    unfolding new_port
    new_port-dial = let (d, e) = dial-ends l (start i r) in cc

    shape-ends :
        ((shape split_host_port parse_ip db now l (start i r)).0.init ≡ final_init)
        × ((shape split_host_port parse_ip db now l (start i r)).0.listen ≡ final_listen)
    unfolding shape shape_back final_init final_listen reverse_port dial set_listen_port
    shape-ends = elim (Bool-cases (both db l i r)) [
      | inl e ↦
          rw (e, new_port-dial, dial-node)
            (dial_back-ends (node_public_advertise split_host_port parse_ip db i.node_id) l
              (new_port split_host_port parse_ip db now (start i r)) (start i r))
      | inr e ↦ rw e (one_way-ends l (start i r))
    ]

    shape-unchanged :
        (shape split_host_port parse_ip db now l (start i r)).0.changed ≡ false
        → (shape split_host_port parse_ip db now l (start i r)).0 ≡ start i r
    unfolding shape shape_back
    shape-unchanged = elim (Bool-cases (both db l i r)) [
      | inl e ↦ rw e (
          back-unchanged
            (node_public_advertise split_host_port parse_ip db (dial l (start i r)).init.node_id) l
            (new_port split_host_port parse_ip db now (dial l (start i r))) (start i r))
      | inr e ↦ rw e (unchanged l (start i r))
    ]

    shape-rows :
        (shape split_host_port parse_ip db now l (start i r)).1.link_endpoints ≡ db.link_endpoints
    unfolding shape shape_back
    shape-rows = elim (Bool-cases (both db l i r)) [
      | inl e ↦ rw e (after_port-rows db now (dial l (start i r)))
      | inr e ↦ rw e refl
    ]

    final_init-keys :
        (final_init.id ≡ i.id) × (final_init.link_id ≡ i.link_id) × (final_init.node_id ≡ i.node_id)
    unfolding final_init
    final_init-keys = elim (Bool-cases (both db l i r)) [
      | inl e ↦ rw e (refl, refl, refl)
      | inr e ↦ rw e (refl, refl, refl)
    ]

    final_listen-keys :
        (final_listen.id ≡ r.id)
        × (final_listen.link_id ≡ r.link_id)
        × (final_listen.node_id ≡ r.node_id)
    unfolding final_listen
    final_listen-keys = elim (Bool-cases (both db l i r)) [
      | inl e ↦ rw e (refl, refl, refl)
      | inr e ↦ rw e (refl, refl, refl)
    ]

    rows_kept :
        Pair (list_link_endpoints db l.id) i r
        → Pair
            (list_link_endpoints (shape split_host_port parse_ip db now l (start i r)).1 l.id)
            i
            r
    unfolding list_link_endpoints
    rows_kept h = rw shape-rows h

    -- Where the link has one row that initiates and one that does not, the visit leaves these two
    -- rows in their places, as `final_init` and `final_listen`.
    pub repair_link-Pair :
        Pair (list_link_endpoints db l.id) i r
        → i.id ≢ r.id
        → i.is_initiator ≡ true
        → r.is_initiator ≡ false
        → Pair
            (list_link_endpoints (repair_link split_host_port parse_ip db now l) l.id)
            final_init
            final_listen
    unfolding repair_link
    repair_link-Pair h ne a b =
        let (e, f) = Pair-last (list_link_endpoints db l.id) i r h a b in
        let (p, q) = shape-ends in
        rw (e, repair_link, f, ← p, ← q)
          (store-Pair (shape split_host_port parse_ip db now l (start i r)).1 l.id i r
            (shape split_host_port parse_ip db now l (start i r)).0 (rows_kept h) ne
            (rw p final_init-keys) (rw q final_listen-keys) shape-unchanged)

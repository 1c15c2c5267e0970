-- ===== src/Controller/Links/Requests.antt =====
-- handleCreateLink, handleUpdateLink and handleDeleteLink, one request after the other.
use sd_wan_plus.Base.{
  Bool-cases, inl, inr, ℕ, String, ◌≡◌, refl, Bool, true, false, Option, none, some, List, [], ◌∷◌,
  arith,
}
use sd_wan_plus.Netutil.{Ip}
use sd_wan_plus.Routing.Types.{NodeDesiredState}
use sd_wan_plus.Storage.Tables.{Db}
use sd_wan_plus.Storage.Ports.{allocate_wg_port}
use sd_wan_plus.Storage.Links.{link_exists_between, delete_link}
use sd_wan_plus.Controller.State.{Server, Call, Reply, ok, refused, later, audit}
use sd_wan_plus.Controller.Publish.Published.{publish_config-kept}
use sd_wan_plus.Controller.Repair.Kept.{allocate_wg_port-kept}
use sd_wan_plus.Storage.Links.{known_ends}
use sd_wan_plus.Controller.Links.{
  link_of, LinkBody, LinkPlan, plan_link, planned, initiator_port, publish_if, store_link,
  with_initiator_port, with_listener_port, with_plan, handle_create_link, handle_update_link,
  handle_delete_link, change_direction, change_enabled, finish_update,
}
use sd_wan_plus.Controller.Links.Parallel.{
  NoParallel, set_link_bidirectional-NoParallel, set_link_enabled-NoParallel,
  insert_link-NoParallel, NoParallel-where,
}

-- The guard of handleCreateLink.
abbrev Free : Db → LinkBody → Reply LinkPlan → Type 0
Free db b (ok p) = link_exists_between db b.node_a b.node_b ≡ false
Free db b (refused code message) = Unit

module _ (split_host_port : String → Option (String × String)) (parse_ip : String → Option Ip)
    (sha256_of_json : NodeDesiredState → Option String) (decrypt : String → Option String) where
  plan_link-Free : (db : Db) (b : LinkBody) → Free db b (plan_link split_host_port parse_ip db b)
  unfolding plan_link planned
  plan_link-Free db b = ground arith

  publish_if-NoParallel :
      (on : Bool) (c : Call) (reason : String) (s : Server)
      → NoParallel s.db.links
      → NoParallel
          (publish_if split_host_port parse_ip sha256_of_json decrypt on c reason s).db.links
  unfolding publish_if
  publish_if-NoParallel true c reason s n =
      rw
        (publish_config-kept split_host_port parse_ip sha256_of_json decrypt (later 8 c) reason s
          (λ db. db.links) (λ db n e. refl))
        n
  publish_if-NoParallel false c reason s n = n

  store_link-NoParallel :
      (c : Call) (b : LinkBody) (p : LinkPlan) (port_l port_i : ℕ) (s : Server)
      → NoParallel s.db.links
      → link_exists_between s.db b.node_a b.node_b ≡ false
      → NoParallel
          (store_link split_host_port parse_ip sha256_of_json decrypt c b p port_l port_i
            s).1.db.links
  unfolding store_link audit
  store_link-NoParallel c b p port_l port_i s n free =
      elim (Bool-cases (known_ends s.db (link_of (c.uuid 0) b p port_l))) [
        | inl e ↦ rw e (
            publish_if-NoParallel b.enabled c "auto after create link" _
              (insert_link-NoParallel c b p port_l port_i s.db n free))
        | inr e ↦ rw e n
      ]

  module _ (c : Call) (b : LinkBody) (p : LinkPlan) where
    with_initiator_port-NoParallel :
        (port_l : ℕ) (a : Option ℕ × Db) (s : Server)
        → NoParallel a.1.links
        → link_exists_between a.1 b.node_a b.node_b ≡ false
        → NoParallel
            (with_initiator_port split_host_port parse_ip sha256_of_json decrypt c b p port_l a
              s).1.db.links
    unfolding with_initiator_port
    with_initiator_port-NoParallel port_l (none, db) s n free = n
    with_initiator_port-NoParallel port_l (some port_i, db) s n free =
        store_link-NoParallel c b p port_l port_i (record s { db = db }) n free

    same_links :
        (db db' : Db)
        → db'.links ≡ db.links
        → link_exists_between db b.node_a b.node_b ≡ false
        → link_exists_between db' b.node_a b.node_b ≡ false
    unfolding link_exists_between
    same_links db db' e free = rw e free

    initiator_port-links :
        (db : Db) → (initiator_port split_host_port parse_ip c b db).1.links ≡ db.links
    unfolding initiator_port
    initiator_port-links db = ground (
      arith,
      allocate_wg_port-kept split_host_port parse_ip (λ db. db.links) (λ db n e. refl) db c.now
          b.initiator_node_id,
    )

    with_listener_port-NoParallel :
        (a : Option ℕ × Db) (s : Server)
        → NoParallel a.1.links
        → link_exists_between a.1 b.node_a b.node_b ≡ false
        → NoParallel
            (with_listener_port split_host_port parse_ip sha256_of_json decrypt c b p a
              s).1.db.links
    unfolding with_listener_port
    with_listener_port-NoParallel (none, db) s n free = n
    with_listener_port-NoParallel (some port_l, db) s n free =
        let e = initiator_port-links db in
        with_initiator_port-NoParallel port_l (initiator_port split_host_port parse_ip c b db) s
          (rw e n) (same_links db (initiator_port split_host_port parse_ip c b db).1 e free)

  with_plan-NoParallel :
      (c : Call) (b : LinkBody) (r : Reply LinkPlan) (s : Server)
      → Free s.db b r
      → NoParallel s.db.links
      → NoParallel (with_plan split_host_port parse_ip sha256_of_json decrypt c b r s).1.db.links
  unfolding with_plan
  with_plan-NoParallel c b (refused code message) s f n = n
  with_plan-NoParallel c b (ok p) s f n =
      let a = allocate_wg_port split_host_port parse_ip s.db c.now p.listener in
      let e =
        allocate_wg_port-kept split_host_port parse_ip (λ db. db.links) (λ db n e. refl) s.db c.now
          p.listener in
      with_listener_port-NoParallel c b p a s (rw e n) (same_links c b p s.db a.1 e f)

  create_link-NoParallel :
      (c : Call) (b : LinkBody) (s : Server)
      → NoParallel s.db.links
      → NoParallel
          (handle_create_link split_host_port parse_ip sha256_of_json decrypt c b s).1.db.links
  unfolding handle_create_link
  create_link-NoParallel c b s n =
      with_plan-NoParallel c b (plan_link split_host_port parse_ip s.db b) s (plan_link-Free s.db b)
        n

  change_enabled-NoParallel :
      (id : String) (enabled : Option Bool) (s : Server)
      → NoParallel s.db.links
      → NoParallel
          (change_enabled split_host_port parse_ip sha256_of_json decrypt id enabled s).db.links
  unfolding change_enabled
  change_enabled-NoParallel id none s n = n
  change_enabled-NoParallel id (some on) s n = set_link_enabled-NoParallel s.db id on n

  finish_update-NoParallel :
      (c : Call) (id : String) (enabled both : Option Bool) (r : Reply (Unit {0}) × Server)
      → NoParallel r.1.db.links
      → NoParallel
          (finish_update split_host_port parse_ip sha256_of_json decrypt c id enabled both
            r).1.db.links
  unfolding finish_update
  finish_update-NoParallel c id enabled both (refused code message, s) n = n
  finish_update-NoParallel c id enabled both (ok done, s) n =
      publish_if-NoParallel _ c "auto after update link" _
        (change_enabled-NoParallel id enabled s n)

  change_direction-NoParallel :
      (id : String) (both : Option Bool) (s : Server)
      → NoParallel s.db.links
      → NoParallel
          (change_direction split_host_port parse_ip sha256_of_json decrypt id both s).1.db.links
  unfolding change_direction
  change_direction-NoParallel id none s n = n
  change_direction-NoParallel id (some both) s n =
      ground (arith, set_link_bidirectional-NoParallel s.db id both n)

  update_link-NoParallel :
      (c : Call) (id : String) (enabled both : Option Bool) (s : Server)
      → NoParallel s.db.links
      → NoParallel
          (handle_update_link split_host_port parse_ip sha256_of_json decrypt c id enabled both
            s).1.db.links
  unfolding handle_update_link
  update_link-NoParallel c id enabled both s n =
      finish_update-NoParallel c id enabled both
        (change_direction split_host_port parse_ip sha256_of_json decrypt id both s)
        (change_direction-NoParallel id both s n)

  delete_link-NoParallel :
      (c : Call) (id : String) (s : Server)
      → NoParallel s.db.links
      → NoParallel (handle_delete_link c id s).db.links
  unfolding handle_delete_link delete_link audit
  delete_link-NoParallel c id s n = NoParallel-where _ s.db.links n

  -- A request that changes links, with the call's surroundings.
  pub data LinkRequest : Type 0 where
    create : Call → LinkBody → LinkRequest
    update : Call → String → Option Bool → Option Bool → LinkRequest
    delete : Call → String → LinkRequest

  abbrev pub serve : Server → LinkRequest → Server
  serve s (create c b) =
      (handle_create_link split_host_port parse_ip sha256_of_json decrypt c b s).1
  serve s (update c id enabled both) =
      (handle_update_link split_host_port parse_ip sha256_of_json decrypt c id enabled both s).1
  serve s (delete c id) = handle_delete_link c id s

  abbrev pub serve_all : Server → List LinkRequest → Server
  serve_all s [] = s
  serve_all s (r ∷ rs) = serve_all (serve s r) rs

  serve-NoParallel :
      (s : Server) (r : LinkRequest) → NoParallel s.db.links → NoParallel (serve s r).db.links
  serve-NoParallel s (create c b) n = create_link-NoParallel c b s n
  serve-NoParallel s (update c id enabled both) n = update_link-NoParallel c id enabled both s n
  serve-NoParallel s (delete c id) n = delete_link-NoParallel c id s n

  -- If every two links join different pairs of nodes, they do so after any sequence of requests that
  -- create, change and delete links, the publications that these requests cause included.
  pub serve_all-NoParallel :
      (s : Server) (rs : List LinkRequest)
      → NoParallel s.db.links
      → NoParallel (serve_all s rs).db.links
  serve_all-NoParallel s [] n = n
  serve_all-NoParallel s (r ∷ rs) n = serve_all-NoParallel (serve s r) rs (serve-NoParallel s r n)

-- ===== src/Controller/Publish.antt =====
-- internal/controller/policy_handlers.go and bootstrap.go: the publication of the configuration, and
-- the handlers that agents call for it.
use sd_wan_plus.Base.{
  ℕ, suc, ◌+◌, String, ◌==◌, Option, some, none, List, [], ◌∷◌, ◌++◌, if◌then◌else◌, map, length,
  Dict, lookup,
}
use sd_wan_plus.Core.Types.{ConfigRevision}
use sd_wan_plus.Core.Rollout.{dispatched}
use sd_wan_plus.Netutil.{Ip}
use sd_wan_plus.Routing.Types.{NodeDesiredState, WireGuardLinkCfg}
use sd_wan_plus.Routing.Compile.{compile}
use sd_wan_plus.Storage.Tables.{Db, list_nodes, touch_node_seen}
use sd_wan_plus.Storage.Links.{list_links, list_link_endpoints}
use sd_wan_plus.Storage.Revisions.{create_config_revision, next_generation}
use sd_wan_plus.Storage.Updates.{
  save_desired_config, create_rollout_node, update_rollout_status, list_rollout_nodes, RolloutNode,
}
use sd_wan_plus.Controller.State.{Server, Call, Reply, ok, refused, audit}
use sd_wan_plus.Controller.Repair.{repair_link_endpoints}
pub mod Published

-- The body of the loop of publishConfig, for one entry of the map.
unfoldable pub store_state :
    Call → (ids : ℕ) → (rev : String) → String → NodeDesiredState → Server → Server
store_state c i rev id st s = record s {
  desired_configs = save_desired_config s.desired_configs (c.uuid i) rev id st st.config_hash;
  rollout_nodes =
      update_rollout_status (create_rollout_node s.rollout_nodes (c.uuid (i + 1)) rev id) c.now rev
        id dispatched "";
  desired = (id, st) ∷ s.desired;
}

-- Go visits the entries of a map in no fixed order; here the last one is visited first.
unfoldable pub store_states : Call → (rev : String) → Dict NodeDesiredState → Server → Server
store_states c rev [] s = s
store_states c rev ((id, st) ∷ rest) s =
    store_state c (2 + length rest + length rest) rev id st (store_states c rev rest s)

unfoldable pub revision_of : (id : String) → (now : ℕ) → String → ℕ → ConfigRevision
revision_of id now reason generation = record {
  id = id;
  generation = generation;
  reason = reason;
  status = "Pending";
  created_at = now;
  completed_at = none;
}

-- hydrateDesiredFromDB writes the entries over those in memory.
unfoldable pub write_desired : Dict NodeDesiredState → Dict NodeDesiredState → Dict NodeDesiredState
write_desired states desired = states ++ desired

module _ (split_host_port : String → Option (String × String)) (parse_ip : String → Option Ip)
    (sha256_of_json : NodeDesiredState → Option String) (decrypt : String → Option String) where
  -- routing.Compile(s.db, gen, s.box)
  unfoldable pub compile_db : Db → ℕ → Option (Dict NodeDesiredState)
  compile_db db generation =
      compile split_host_port parse_ip sha256_of_json decrypt
        (λ id. some (list_link_endpoints db id)) (list_nodes db) (list_links db) generation

  unfoldable pub repaired : Call → Server → Server
  repaired c s = record s { db = repair_link_endpoints split_host_port parse_ip s.db c.now }

  -- The revision, `none` for an error, and the state afterwards.
  unfoldable pub publish_config : Call → String → Server → Option ConfigRevision × Server
  publish_config c reason s =
      let gen = next_generation s.revisions in
      elim (compile_db (repaired c s).db gen) [
        | none ↦ (none, repaired c s)
        | some states ↦ (
          some (revision_of (c.uuid 0) c.now reason gen),
          store_states c (c.uuid 0) states (record (repaired c s) {
            revisions = create_config_revision s.revisions (c.uuid 0) c.now reason gen;
          }),
        )
      ]

  unfoldable pub hydrate_desired_from_db : Server → Server
  hydrate_desired_from_db s = elim (compile_db s.db 1) [
    | none ↦ s
    | some states ↦ record s { desired = write_desired states s.desired }
  ]

  unfoldable pub handle_config_publish :
      Call → String → Server → Reply (ConfigRevision × ℕ) × Server
  handle_config_publish c reason s =
      let why = if reason == "" then "manual publish" else reason in
      let (rev, t) = publish_config c why s in
      elim rev [
        | none ↦ (refused 400 "compile", t)
        | some r ↦ (
          ok (r, length t.desired),
          audit c (c.uuid 1) "publish_config" "config_revision" r.id why t,
        )
      ]

  -- The keys are hidden in the preview, which publishes nothing.
  unfoldable pub hide_key : WireGuardLinkCfg → WireGuardLinkCfg
  hide_key l = record l { node_private_key = "***" }

  unfoldable pub hide_keys : String × NodeDesiredState → String × NodeDesiredState
  hide_keys (id, st) = (id, record st { wireguard_links = map hide_key st.wireguard_links })

  unfoldable pub handle_config_preview : Server → Reply (ℕ × Dict NodeDesiredState)
  handle_config_preview s =
      let gen = next_generation s.revisions in
      elim (compile_db s.db gen) [
        | none ↦ refused 400 "compile"
        | some states ↦ ok (gen, map hide_keys states)
      ]

unfoldable pub handle_agent_desired : String → Server → Reply NodeDesiredState
handle_agent_desired id s = elim (lookup id s.desired) [
  | none ↦ refused 404 "no desired state"
  | some st ↦ ok st
]

-- `none` for a body that cannot be read.
unfoldable pub handle_agent_heartbeat :
    Call → Option (String × String × Option ℕ) → Server → Reply (Unit {0}) × Server
handle_agent_heartbeat c none s = (refused 400 "node_id required", s)
handle_agent_heartbeat c (some (node, version, active)) s =
    if node == ""
    then (refused 400 "node_id required", s)
    else (ok tt, record s { db = touch_node_seen s.db c.now node version active })

unfoldable pub handle_revision_nodes : String → Server → Reply (List RolloutNode)
handle_revision_nodes rev s = ok (list_rollout_nodes s.rollout_nodes rev)

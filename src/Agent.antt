-- ===== src/Agent.antt =====
-- internal/agent/agent.go: what an agent does at each tick, against the local daemon (`Netd.Server`)
-- and with the replies of its parent.
use sd_wan_plus.Base.{
  ℕ, ◌-◌, ◌^◌, ltb, String, ◌==◌, Bool, true, false, not, ◌&&◌, Option, none, some, List, [], ◌∷◌,
  if◌then◌else◌, trim_space,
}
use sd_wan_plus.Core.Update.{
  UpdateStatus, prefetching, staged, installing, completed, download_failed, install_failed,
}
use sd_wan_plus.Routing.Types.{NodeDesiredState, WireGuardLinkCfg}
use sd_wan_plus.Netd.Server.{Request, Response, handle}
use sd_wan_plus.Netd.Server
use sd_wan_plus.Controller.State.{JobPhase, prefetch, install}
use sd_wan_plus.Controller.Commands.{Command, Report}
pub mod Applied
pub mod Reports
mod Samples

-- The body of the loop of injectLocalWGKey: the link, and the local key afterwards.
unfoldable pub inject_link : String → WireGuardLinkCfg → WireGuardLinkCfg × String
inject_link key l =
    let filled =
      if trim_space l.node_private_key == "" && not (key == "")
      then record l { node_private_key = key }
      else l in
    (
      filled,
      if key == "" && not (trim_space filled.node_private_key == "")
          then trim_space filled.node_private_key
          else key,
    )

unfoldable pub inject_links : String → List WireGuardLinkCfg → List WireGuardLinkCfg × String
inject_links key [] = ([], key)
inject_links key (l ∷ ls) =
    let (filled, next) = inject_link key l in
    let (rest, last) = inject_links next ls in (filled ∷ rest, last)

-- The key of the file, none where it cannot be read; the file is written where a key is known.
unfoldable pub local_key : Option String → String
local_key none = ""
local_key (some text) = trim_space text

unfoldable pub inject_local_wg_key :
    Option String → NodeDesiredState → NodeDesiredState × Option String
inject_local_wg_key file st =
    let (links, key) = inject_links (local_key file) st.wireguard_links in
    (record st { wireguard_links = links }, if key == "" then file else some key)

-- Go's int64, with the names of the library's integers.
pub data ℤ : Type 0 where
  pos negsuc : ℕ → ℤ

-- int64(g) of an unsigned 64-bit number.
unfoldable pub to_int64 : ℕ → ℤ
to_int64 g = if ltb g (2 ^ 63) then pos g else negsuc (2 ^ 64 - 1 - g)

-- What an agent keeps: the generation that it reports, its key file, and the daemon beside it.
pub record Agent : Type 0 where
  pub active_gen : Option ℤ
  pub key_file : Option String
  pub netd : Server.Server

-- A call of the daemon over its socket can fail before the daemon has seen it, or after.
pub data Delivery : Type 0 where
  answered lost reply_lost : Delivery

-- The deliveries of the calls of one tick.
pub record Deliveries : Type 0 where
  pub prepare : Delivery
  pub activate : Delivery
  pub verify : Delivery
  pub rollback : Delivery

abbrev pub request : String → Option NodeDesiredState → Request
request action st = record { action = action; state = st }

module _ (apply : NodeDesiredState → Option String) where
  -- Whether the call returned OK, and the daemon afterwards.
  unfoldable pub call : Delivery → Server.Server → Request → Bool × Server.Server
  call answered s r = ((handle apply s r).0.ok, (handle apply s r).1)
  call lost s r = (false, s)
  call reply_lost s r = (false, (handle apply s r).1)

  -- The calls after `activate`.
  unfoldable pub settle : Deliveries → NodeDesiredState → Agent → Agent
  settle d st a =
      let (good, netd) = call d.verify a.netd (request "verify" (some st)) in
      if good
      then record a { netd = netd; active_gen = some (to_int64 st.generation) }
      else record a { netd = (call d.rollback netd (request "rollback" none)).1 }

  unfoldable pub activate_state : Deliveries → NodeDesiredState → Agent → Agent
  activate_state d st a =
      let (good, netd) = call d.activate a.netd (request "activate" (some st)) in
      let b = record a { netd = netd } in if good then settle d st b else b

  unfoldable pub apply_state : Deliveries → NodeDesiredState → Agent → Agent
  apply_state d st a =
      let (good, netd) = call d.prepare a.netd (request "prepare" (some st)) in
      let b = record a { netd = netd } in if good then activate_state d st b else b

  -- pullAndApply; `none` for a reply that is no state.
  unfoldable pub pull_and_apply : Deliveries → Option NodeDesiredState → Agent → Agent
  pull_and_apply d none a = a
  pull_and_apply d (some st) a =
      let (filled, file) = inject_local_wg_key a.key_file st in
      apply_state d filled (record a { key_file = file })

-- What prefetching, staging and activating the release returned.
pub record Outcome : Type 0 where
  pub prefetch : Option String
  pub stage : Option String
  pub activate : Option String

abbrev pub report_of : String → Command → UpdateStatus → String → Report
report_of node x status error = record {
  node_id = node;
  job_id = x.job_id;
  status = status;
  error = error;
}

unfoldable pub install_report : Outcome → UpdateStatus × String
install_report o = elim o.stage [
  | some e ↦ (install_failed, e)
  | none ↦ elim o.activate [ some e ↦ (install_failed, e) | none ↦ (completed, "") ]
]

unfoldable pub prefetch_report : Outcome → UpdateStatus × String
prefetch_report o = elim o.prefetch [ some e ↦ (download_failed, e) | none ↦ (staged, "") ]

-- The reports of pollUpdate, in order; `none` for a reply that is no command.
unfoldable pub poll_update : String → Outcome → Option Command → List Report
poll_update node o none = []
poll_update node o (some x) = if x.job_id == "" then [] else elim x.phase [
  | prefetch ↦
      report_of node x prefetching ""
      ∷ report_of node x (prefetch_report o).0 (prefetch_report o).1
      ∷ []
  | install ↦
      report_of node x installing ""
      ∷ report_of node x (install_report o).0 (install_report o).1
      ∷ []
]

-- ===== src/Controller/Commands.antt =====
-- internal/controller/bootstrap.go: what agents are told to do for an update job, and their reports.
use sd_wan_plus.Base.{
  ℕ, String, ◌==◌, Bool, true, false, not, ◌||◌, Option, none, some, List, if◌then◌else◌, lookup,
}
use sd_wan_plus.Core.Records.{UpdateTarget}
use sd_wan_plus.Core.Update.{UpdateStatus, staged, installing}
use sd_wan_plus.Storage.Tables.{Db, get_node, first_row}
use sd_wan_plus.Storage.Depth.{node_depth}
use sd_wan_plus.Storage.Updates.{list_update_targets}
use sd_wan_plus.Controller.State.{Server, ActiveUpdate, JobPhase, prefetch, install}
use sd_wan_plus.Controller.Updates.{
  depth_or_zero, is_controller_node, note_status, on_active, set_row_status,
}

-- What an agent is told to do.
pub record Command : Type 0 where
  pub job_id : String
  pub target_version : String
  pub phase : JobPhase
  pub files : List String
  pub depth : ℕ

abbrev pub command : ActiveUpdate → JobPhase → ℕ → Command
command a p d = record {
  job_id = a.job_id;
  target_version = a.target_version;
  phase = p;
  files = a.files;
  depth = d;
}

unfoldable pub may_install : Option UpdateStatus → Bool
may_install (some staged) = true
may_install (some installing) = true
may_install _ = false

unfoldable pub depth_of_node : Db → String → ℕ
depth_of_node db node = elim (get_node db node) [
  | none ↦ 0
  | some n ↦ depth_or_zero (node_depth db node)
]

unfoldable pub command_for : Db → String → ActiveUpdate → Option Command
command_for db node a = elim a.phase [
  | prefetch ↦ some (command a prefetch (depth_of_node db node))
  | install ↦
      if is_controller_node db node
        || not (may_install (lookup node a.status_by_node))
        || a.install_node_id == ""
        || not (a.install_node_id == node)
      then none
      else some (command a install (depth_of_node db node))
]

-- handleAgentUpdate; `none` is the reply without content.
unfoldable pub handle_agent_update : String → Server → Option Command
handle_agent_update node s = elim s.active_update [ none ↦ none | some a ↦ command_for s.db node a ]

pub record Report : Type 0 where
  pub node_id : String
  pub job_id : String
  pub status : UpdateStatus
  pub error : String

-- The row of the first target of the node.
unfoldable pub report_row : (now : ℕ) → Report → Option UpdateTarget → Server → Server
report_row now r none s = s
report_row now r (some t) s = set_row_status now t.id r.status r.error s

unfoldable pub handle_agent_update_report : (now : ℕ) → Report → Server → Server
handle_agent_update_report now r s = on_active (note_status r.job_id r.node_id r.status) (
    report_row now r
      (first_row (λ t. t.node_id == r.node_id) (list_update_targets s.update_targets r.job_id)) s)

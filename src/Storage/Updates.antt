-- ===== src/Storage/Updates.antt =====
-- internal/storage/policies.go: the jobs and targets of updates, the nodes of a rollout, the desired
-- configurations and the audit log.
use sd_wan_plus.Base.{
  ℕ, String, ◌==◌, Bool, true, false, ◌&&◌, Option, none, some, List, [], ◌∷◌, ◌++◌, if◌then◌else◌,
  map, leb, take, order_by, eqb,
}
use sd_wan_plus.Core.Records.{
  UpdateJob, UpdateTarget, AuditLog, JobStatus, created, completed, rolled_back,
}
use sd_wan_plus.Core.Rollout.{RolloutStatus}
use sd_wan_plus.Core.Rollout
use sd_wan_plus.Core.Update.{UpdateStatus}
use sd_wan_plus.Core.Update
use sd_wan_plus.Storage.Tables.{where_rows}

-- `id` is what uuid.NewString returns.
unfoldable pub new_update_job : (id : String) → (now : ℕ) → String → String → UpdateJob
new_update_job id now version sha = record {
  id = id;
  target_version = version;
  manifest_sha256 = sha;
  status = created;
  created_at = now;
  completed_at = none;
}

-- ORDER BY created_at DESC
unfoldable pub list_update_jobs : List UpdateJob → List UpdateJob
list_update_jobs = order_by (λ i j. leb j.created_at i.created_at)

unfoldable pub add_update_target :
    List UpdateTarget → (id : String) → String → String → ℕ → List UpdateTarget
add_update_target ts id job node depth =
    ts
    ++ record {
      id = id;
      update_job_id = job;
      node_id = node;
      depth = depth;
      status = Update.waiting;
      started_at = none;
      completed_at = none;
      error_message = "";
    }
      ∷ []

-- ORDER BY depth DESC; rows of one depth keep the order of insertion.
abbrev pub deeper : UpdateTarget → UpdateTarget → Bool
deeper s t = leb t.depth s.depth

unfoldable pub list_update_targets : List UpdateTarget → String → List UpdateTarget
list_update_targets ts job = order_by deeper (where_rows (λ t. t.update_job_id == job) ts)

unfoldable pub job_done : JobStatus → Bool
job_done completed = true
job_done rolled_back = true
job_done _ = false

unfoldable pub update_job_status : List UpdateJob → (now : ℕ) → String → JobStatus → List UpdateJob
update_job_status js now id status =
    map
      (λ j.
        if j.id == id
        then if job_done status
          then record j { status = status; completed_at = some now }
          else record j { status = status }
        else j)
      js

-- CASE WHEN status IN (…)
unfoldable pub target_done : UpdateStatus → Bool
target_done Update.completed = true
target_done Update.rolled_back = true
target_done Update.install_failed = true
target_done Update.health_failed = true
target_done Update.download_failed = true
target_done Update.signature_invalid = true
target_done _ = false

abbrev pub coalesce : Option ℕ → ℕ → Option ℕ
coalesce none now = some now
coalesce (some t) now = some t

unfoldable pub update_target_status :
    List UpdateTarget → (now : ℕ) → String → UpdateStatus → String → List UpdateTarget
update_target_status ts now id status message =
    map
      (λ t.
        if t.id == id
        then record t {
          status = status;
          error_message = message;
          started_at = coalesce t.started_at now;
          completed_at = if target_done status then some now else t.completed_at;
        }
        else t)
      ts

-- A row of config_rollout_nodes.
pub record RolloutNode : Type 0 where
  pub id : String
  pub config_revision_id : String
  pub node_id : String
  pub status : RolloutStatus
  pub completed_at : Option ℕ
  pub error_message : String

unfoldable pub create_rollout_node :
    List RolloutNode → (id : String) → String → String → List RolloutNode
create_rollout_node rs id rev node =
    rs
    ++ record {
      id = id;
      config_revision_id = rev;
      node_id = node;
      status = Rollout.pending;
      completed_at = none;
      error_message = "";
    }
      ∷ []

unfoldable pub rollout_done : RolloutStatus → Bool
rollout_done Rollout.active = true
rollout_done Rollout.rolled_back = true
rollout_done Rollout.prepare_failed = true
rollout_done Rollout.activate_failed = true
rollout_done Rollout.verify_failed = true
rollout_done _ = false

unfoldable pub update_rollout_status :
    List RolloutNode → (now : ℕ) → String → String → RolloutStatus → String → List RolloutNode
update_rollout_status rs now rev node status message =
    map
      (λ r.
        if r.config_revision_id == rev && r.node_id == node
        then record r {
          status = status;
          error_message = message;
          completed_at = if rollout_done status then some now else r.completed_at;
        }
        else r)
      rs

unfoldable pub list_rollout_nodes : List RolloutNode → String → List RolloutNode
list_rollout_nodes rs rev = where_rows (λ r. r.config_revision_id == rev) rs

-- A row of node_desired_configs: the state itself is `config`, with its hash.
pub record DesiredConfig (S : Type 0) : Type 0 where
  pub id : String
  pub config_revision_id : String
  pub node_id : String
  pub config : S
  pub config_hash : String

unfoldable pub save_desired_config :
    {S : Type 0}
    → List (DesiredConfig S)
    → (id : String) → String
    → String
    → S
    → String
    → List (DesiredConfig S)
save_desired_config cs id rev node state hash =
    cs
    ++ record {
      id = id;
      config_revision_id = rev;
      node_id = node;
      config = state;
      config_hash = hash;
    }
      ∷ []

unfoldable pub add_audit : List AuditLog → (id : String) → (now : ℕ) → AuditLog → List AuditLog
add_audit ls id now a = ls ++ record a { id = id; created_at = now } ∷ []

-- ORDER BY created_at DESC LIMIT
unfoldable pub list_audit_logs : List AuditLog → (limit : ℕ) → List AuditLog
list_audit_logs ls limit =
    take (if eqb limit 0 then 100 else limit) (order_by (λ a b. leb b.created_at a.created_at) ls)

-- ===== src/Controller/State.antt =====
-- internal/controller/server.go, `Server`: its tables and the maps that it keeps in memory.
use sd_wan_plus.Base.{ℕ, ◌+◌, String, Option, some, List, Dict}
use sd_wan_plus.Core.Types.{ConfigRevision}
use sd_wan_plus.Core.Records.{UpdateJob, UpdateTarget, AuditLog}
use sd_wan_plus.Core.Update.{UpdateStatus}
use sd_wan_plus.Routing.Types.{NodeDesiredState}
use sd_wan_plus.Storage.Tables.{Db}
use sd_wan_plus.Storage.Policies.{PolicyTables}
use sd_wan_plus.Storage.Updates.{RolloutNode, DesiredConfig, add_audit}

-- Job.Phase: the orchestrator sets no other text.
pub data JobPhase : Type 0 where
  prefetch install : JobPhase

-- activeUpdateJob
pub record ActiveUpdate : Type 0 where
  pub job_id : String
  pub target_version : String
  pub phase : JobPhase
  pub install_node_id : String
  pub files : List String
  pub status_by_node : Dict UpdateStatus

-- `desired` and `active_update` are the maps in memory; the rest stands for the database and for the
-- fields of `cfg` that the handlers read.
pub record Server : Type 0 where
  pub db : Db
  pub policies : PolicyTables
  pub revisions : List ConfigRevision
  pub rollout_nodes : List RolloutNode
  pub desired_configs : List (DesiredConfig NodeDesiredState)
  pub desired : Dict NodeDesiredState
  pub update_jobs : List UpdateJob
  pub update_targets : List UpdateTarget
  pub active_update : Option ActiveUpdate
  pub audit_logs : List AuditLog
  pub public_address : String
  pub wg_port_start : ℕ

-- What a call finds around it: the values of uuid.NewString, numbered by the places that call it, the time,
-- the administrator and the client's address.
pub record Call : Type 0 where
  pub uuid : ℕ → String
  pub now : ℕ
  pub admin : String
  pub ip : String

-- The call for a function that the handler calls: its identifiers are others.
abbrev pub later : ℕ → Call → Call
later n c = record c { uuid = λ i. c.uuid (n + i) }

-- writeJSON with status 200 and a value, or with another status and a message.
pub data Reply {ℓ} (A : Type ℓ) : Type ℓ where
  ok : A → Reply A
  refused : ℕ → String → Reply A

-- The early returns of a handler.
infixl 5 ◌>>=◌
abbrev pub ◌>>=◌ {ℓ κ} : {A : Type ℓ} {B : Type κ} → Reply A → (A → Reply B) → Reply B
ok a >>= f = f a
refused code message >>= f = refused code message

-- s.db.AddAudit, as the handlers call it; `id` is the row's new id.
unfoldable pub audit : Call → (id : String) → String → String → String → String → Server → Server
audit c id action kind resource details s = record s {
  audit_logs = add_audit s.audit_logs id c.now (record {
    id = id;
    admin_id = some c.admin;
    action = action;
    resource_type = kind;
    resource_id = some resource;
    details = details;
    ip_address = c.ip;
    created_at = c.now;
  });
}

-- The request was carried out.
abbrev pub Accepted {ℓ} : {A : Type ℓ} → Reply A → Type 0
Accepted (ok a) = Unit {0}
Accepted (refused code message) = ⊥

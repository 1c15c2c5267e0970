-- ===== src/Core/Records.antt =====
-- internal/core/types.go: the records of traffic policies, of updates and of the audit log. A Go
-- pointer is an `Option`, a `time.Time` is a number of seconds, and an `int` is a number.
use sd_wan_plus.Base.{ℕ, String, Bool, Option}
use sd_wan_plus.Core.Update.{UpdateStatus}

pub record TrafficPolicy : Type 0 where
  pub id : String
  pub name : String
  pub priority : ℕ
  pub enabled : Bool
  pub description : String
  pub created_at : ℕ
  pub updated_at : ℕ

pub record TrafficPolicyMatch : Type 0 where
  pub id : String
  pub policy_id : String
  pub source_node_id : Option String
  pub source_node_group : Option String
  pub source_cidr : Option String
  pub destination_node_id : Option String
  pub destination_cidr : Option String
  pub protocol : String
  pub destination_port_start : Option ℕ
  pub destination_port_end : Option ℕ

pub record TrafficPolicyPathHop : Type 0 where
  pub id : String
  pub policy_id : String
  pub hop_order : ℕ
  pub node_id : String

pub record TrafficPolicyConfig : Type 0 where
  pub id : String
  pub policy_id : String
  pub egress_node_id : Option String
  pub egress_nat : Bool
  pub return_path_type : String
  pub failover_enabled : Bool
  pub failover_path_id : Option String

pub data JobStatus : Type 0 where
  created running completed rolled_back : JobStatus

pub record UpdateJob : Type 0 where
  pub id : String
  pub target_version : String
  pub manifest_sha256 : String
  pub status : JobStatus
  pub created_at : ℕ
  pub completed_at : Option ℕ

pub record UpdateTarget : Type 0 where
  pub id : String
  pub update_job_id : String
  pub node_id : String
  pub depth : ℕ
  pub status : UpdateStatus
  pub started_at : Option ℕ
  pub completed_at : Option ℕ
  pub error_message : String

pub record AuditLog : Type 0 where
  pub id : String
  pub admin_id : Option String
  pub action : String
  pub resource_type : String
  pub resource_id : Option String
  pub details : String
  pub ip_address : String
  pub created_at : ℕ

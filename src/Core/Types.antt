-- ===== src/Core/Types.antt =====
-- internal/core/types.go: the records that the store keeps. A Go pointer is an `Option`, a
-- `time.Time` is a number of seconds, and an `int` that holds a port or a count is a number.
use sd_wan_plus.Base.{ℕ, String, Bool, Option}

pub data LinkStatus : Type 0 where
  pending active disabled failed : LinkStatus

pub record Node : Type 0 where
  pub id : String
  pub display_name : String
  pub overlay_ipv4 : String
  pub overlay_ipv6 : String
  pub wg_public_key : String
  pub wg_private_key_encrypted : String
  pub identity_public_key : String
  pub identity_private_key_enc : String
  pub control_parent_id : Option String
  pub node_service_port : ℕ
  pub wg_port_range_start : ℕ
  pub wg_port_range_end : ℕ
  pub is_controller : Bool
  pub agent_version : String
  pub protocol_version : ℕ
  pub desired_generation : Option ℕ
  pub active_generation : Option ℕ
  pub created_at : ℕ
  pub updated_at : ℕ
  pub last_seen_at : Option ℕ
  pub last_handshake_at : Option ℕ
  pub enrollment_token_id : Option String

pub record NodeAddress : Type 0 where
  pub id : String
  pub node_id : String
  pub address : String
  pub address_type : String
  pub is_primary : Bool
  pub created_at : ℕ

pub record ControlRelation : Type 0 where
  pub id : String
  pub parent_id : String
  pub child_id : String
  pub enrolled_at : ℕ
  pub enrollment_token_id : String

pub record WireGuardLink : Type 0 where
  pub id : String
  pub node_a : String
  pub node_b : String
  pub initiator_node_id : String
  pub listener_node_id : String
  pub listener_address : String
  pub listener_port : ℕ
  pub interface_name_a : String
  pub interface_name_b : String
  pub enabled : Bool
  pub bidirectional : Bool
  pub admin_weight : ℕ
  pub last_handshake_a : Option ℕ
  pub last_handshake_b : Option ℕ
  pub status : LinkStatus
  pub created_at : ℕ

pub record WireGuardLinkEndpoint : Type 0 where
  pub id : String
  pub link_id : String
  pub node_id : String
  pub interface_name : String
  pub listen_port : ℕ
  pub peer_endpoint : Option String
  pub peer_public_key : String
  pub persistent_keepalive : ℕ
  pub is_initiator : Bool

pub record EnrollmentToken : Type 0 where
  pub id : String
  pub token : String
  pub network_id : String
  pub parent_node_id : String
  pub suggested_node_name : String
  pub allowed_install_mode : String
  pub expires_at : ℕ
  pub used_at : Option ℕ
  pub revoked : Bool
  pub created_at : ℕ

pub record ConfigRevision : Type 0 where
  pub id : String
  pub generation : ℕ
  pub reason : String
  pub status : String
  pub created_at : ℕ
  pub completed_at : Option ℕ

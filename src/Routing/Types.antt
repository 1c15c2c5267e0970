-- ===== src/Routing/Types.antt =====
-- internal/core/desired.go: the desired state that agents pull.
use sd_wan_plus.Base.{ℕ, String, Bool, Option, some, none, List}

pub record OverlayIdentity : Type 0 where
  pub ipv4 : String
  pub ipv6 : String
  pub dummy_interface : String

pub record WireGuardLinkCfg : Type 0 where
  pub link_id : String
  pub interface_name : String
  pub listen_port : ℕ
  pub peer_public_key : String
  pub peer_endpoint : String
  pub persistent_keepalive : ℕ
  pub is_initiator : Bool
  pub node_private_key : String
  pub overlay_ip : String
  pub peer_overlay_ip : String
  pub allowed_ips : List String

pub record PeerCfg : Type 0 where
  pub public_key : String
  pub endpoint : String
  pub allowed_ips : List String
  pub persistent_keepalive : ℕ

pub record NftablesRule : Type 0 where
  pub table : String
  pub chain : String
  pub match_src : String
  pub match_dst : String
  pub protocol : String
  pub dport : ℕ
  pub fwmark : ℕ
  pub action : String

pub record PolicyRule : Type 0 where
  pub priority : ℕ
  pub fwmark : ℕ
  pub table_id : ℕ

pub record RouteCfg : Type 0 where
  pub destination : String
  pub via : String
  pub dev : String
  pub metric : ℕ

pub record RouteTableCfg : Type 0 where
  pub table_id : ℕ
  pub routes : List RouteCfg

pub record ForwardingSettings : Type 0 where
  pub ipv4_forwarding : Bool
  pub ipv6_forwarding : Bool

pub record NatRuleCfg : Type 0 where
  pub rule_type : String
  pub source : String
  pub destination : String
  pub out_interface : String

pub record NodeDesiredState : Type 0 where
  pub generation : ℕ
  pub node_id : String
  pub overlay_identity : OverlayIdentity
  pub wireguard_links : List WireGuardLinkCfg
  pub listen_ports : List ℕ
  pub peers : List PeerCfg
  pub nftables_rules : List NftablesRule
  pub policy_rules : List PolicyRule
  pub route_tables : List RouteTableCfg
  pub forwarding_settings : ForwardingSettings
  pub nat_rules : List NatRuleCfg
  pub control_parent_id : String
  pub recovery_endpoint : String
  pub config_hash : String

module _ (sha256_of_json : NodeDesiredState → Option String) where
  -- ComputeHash: the digest of the state with an empty hash, or an error of the encoder.
  unfoldable pub compute_hash : NodeDesiredState → Option String
  compute_hash s = sha256_of_json (record s { config_hash = "" })

  unfoldable pub seal : NodeDesiredState → Option NodeDesiredState
  seal s = elim (compute_hash s) [ none ↦ none | some h ↦ some (record s { config_hash = h }) ]

-- ===== src/Netd/Samples.antt =====
-- The theorems on the daemon, for two requests, and on the text of one device.
use sd_wan_plus.Base.{
  String, ◌==◌, ◌≡◌, ◌↔◌, ◌⊎◌, true, false, Option, none, some, List, [], ◌∷◌, if◌then◌else◌,
  trim_space,
}
use sd_wan_plus.Routing.Types.{NodeDesiredState, WireGuardLinkCfg}
use sd_wan_plus.Netd.Server.{Server, Request, handle_all, latest, handle_all-last_good}
use sd_wan_plus.Netd.Uapi.{Resolver, build_uapi, IsKey, build_uapi-none_iff}

abbrev state : String → NodeDesiredState
state hash = record {
  generation = 1;
  node_id = "B";
  overlay_identity = record { ipv4 = "10.77.0.3"; ipv6 = ""; dummy_interface = "pw-lo" };
  wireguard_links = [];
  listen_ports = [];
  peers = [];
  nftables_rules = [];
  policy_rules = [];
  route_tables = [];
  forwarding_settings = record { ipv4_forwarding = true; ipv6_forwarding = false };
  nat_rules = [];
  control_parent_id = "A";
  recovery_endpoint = "";
  config_hash = hash;
}

-- A machine on which the state with the hash "bad" cannot be applied.
abbrev machine : NodeDesiredState → Option String
machine st = if st.config_hash == "bad" then some "no such device" else none

abbrev fresh : Server
fresh = record { socket = "netd.sock"; last_good = none }

abbrev requests : List Request
requests =
    record { action = "activate"; state = some (state "good") }
    ∷ record { action = "activate"; state = some (state "bad") }
    ∷ record { action = "verify"; state = some (state "bad") }
    ∷ []

handle_all-last_good_example :
    (handle_all machine fresh requests).last_good ≡ latest machine none requests
handle_all-last_good_example = handle_all-last_good machine fresh requests

abbrev resolver : Resolver
resolver = record {
  decode_base64 = λ s. some [];
  encode_hex = λ b. "00";
  split_host_port = λ s. none;
  parse_ip = λ s. none;
  lookup_ip = λ s. none;
  join_host_port = λ ip port. port;
}

abbrev cfg : WireGuardLinkCfg
cfg = record {
  link_id = "ab";
  interface_name = "pwl-ba";
  listen_port = 0;
  peer_public_key = "key";
  peer_endpoint = "";
  persistent_keepalive = 0;
  is_initiator = true;
  node_private_key = "key";
  overlay_ip = "10.77.0.3";
  peer_overlay_ip = "10.77.0.2";
  allowed_ips = [];
}

build_uapi-none_iff_example :
    (build_uapi resolver cfg ≡ none)
    ↔ ((¬ IsKey resolver "key") ⊎ (¬ IsKey resolver "key") ⊎ (true ≡ true) × (trim_space "" ≡ ""))
build_uapi-none_iff_example = build_uapi-none_iff resolver cfg

-- ===== src/Agent/Samples.antt =====
-- The theorems on the agent, for one link and one update job.
use sd_wan_plus.Base.{String, ◌≡◌, refl, eq_iff, true, false, Option, none, some, [], ◌∷◌, arith}
use sd_wan_plus.Core.Records.{UpdateTarget}
use sd_wan_plus.Core.Update.{staged}
use sd_wan_plus.Routing.Types.{NodeDesiredState, WireGuardLinkCfg}
use sd_wan_plus.Controller.State.{Server, ActiveUpdate, install}
use sd_wan_plus.Controller.Samples.{server}
use sd_wan_plus.Controller.Updates.{has_finished}
use sd_wan_plus.Controller.Commands.{Command}
use sd_wan_plus.Agent.{
  pos, Agent, Deliveries, answered, reply_lost, Outcome, inject_local_wg_key, pull_and_apply,
  poll_update,
}
use sd_wan_plus.Agent.Applied.{Reported, pull_and_apply-Reported}
use sd_wan_plus.Agent.Reports.{receive_all, poll_update-has_finished}

abbrev link : WireGuardLinkCfg
link = record {
  link_id = "ab";
  interface_name = "pwl-ba";
  listen_port = 0;
  peer_public_key = "";
  peer_endpoint = "198.51.100.7:14303";
  persistent_keepalive = 25;
  is_initiator = true;
  node_private_key = "";
  overlay_ip = "10.77.0.3";
  peer_overlay_ip = "10.77.0.2";
  allowed_ips = [];
}

abbrev state : NodeDesiredState
state = record {
  generation = 2;
  node_id = "B";
  overlay_identity = record { ipv4 = "10.77.0.3"; ipv6 = ""; dummy_interface = "pw-lo" };
  wireguard_links = link ∷ [];
  listen_ports = [];
  peers = [];
  nftables_rules = [];
  policy_rules = [];
  route_tables = [];
  forwarding_settings = record { ipv4_forwarding = true; ipv6_forwarding = false };
  nat_rules = [];
  control_parent_id = "A";
  recovery_endpoint = "";
  config_hash = "digest";
}

abbrev machine : NodeDesiredState → Option String
machine st = none

abbrev agent : Agent
agent = record {
  active_gen = some (pos 1);
  key_file = some "key";
  netd = record { socket = "netd.sock"; last_good = none };
}

-- The daemon applies the state, and the reply to the check is lost.
abbrev calls : Deliveries
calls = record { prepare = answered; activate = answered; verify = reply_lost; rollback = answered }

pull_and_apply-Reported_example :
    Reported machine agent
      (inject_local_wg_key (some "key") state).0
      (pull_and_apply machine calls (some state) agent)
pull_and_apply-Reported_example = pull_and_apply-Reported machine calls state agent

abbrev target : UpdateTarget
target = record {
  id = "t1";
  update_job_id = "j1";
  node_id = "B";
  depth = 1;
  status = staged;
  started_at = none;
  completed_at = none;
  error_message = "";
}

abbrev active : ActiveUpdate
active = record {
  job_id = "j1";
  target_version = "v2";
  phase = install;
  install_node_id = "B";
  files = [];
  status_by_node = [];
}

abbrev installing : Server
installing = record server { update_targets = target ∷ []; active_update = some active }

abbrev command : Command
command = record { job_id = "j1"; target_version = "v2"; phase = install; files = []; depth = 1 }

abbrev outcome : Outcome
outcome = record { prefetch = none; stage = none; activate = some "exit status 1" }

poll_update-has_finished_example :
    has_finished (receive_all 60 (poll_update "B" outcome (some command)) installing) target ≡ true
poll_update-has_finished_example =
    poll_update-has_finished 60 outcome command target installing active refl refl
      (ground (arith, eq_iff "j1" "")) refl

-- ===== src/Controller/Updates/Samples.antt =====
-- The theorems on update jobs, for a job with one node beside the controller.
use sd_wan_plus.Base.{◌≡◌, refl, sym, ap, none, some, List, [], ◌∷◌}
use sd_wan_plus.Core.Records.{UpdateTarget}
use sd_wan_plus.Core.Update.{staged}
use sd_wan_plus.Topology.Samples.{node}
use sd_wan_plus.Controller.Samples.{server}
use sd_wan_plus.Storage.Updates.{list_update_targets}
use sd_wan_plus.Storage.Tables.{get_node}
use sd_wan_plus.Storage.Depth.{node_depth, depth_from}
use sd_wan_plus.Controller.State.{Server, install}
use sd_wan_plus.Controller.Updates.{
  status_in, is_blank, depth_or_zero, begin_update, collect, stage_controllers, end_prefetch,
  fail_unfetched, on_active, open_install, set_install, seen_status, keeps_fetched,
  is_controller_node, is_started, turn, turn_of_status, grant, node_binaries,
}
use sd_wan_plus.Controller.Commands.{
  Command, handle_agent_update, command_for, may_install, depth_of_node,
}
use sd_wan_plus.Controller.Updates.Run.{
  Run, Reach, Step, started, here, next, fetched, allow, installing, waiting, prefetching,
}
use sd_wan_plus.Controller.Updates.Safety.{Turned, handle_agent_update-Turned, view}
use sd_wan_plus.Controller.Updates.Ends.{started-ends, ComesToEnd}
use sd_wan_plus.Controller.Updates.Lock.{LockStep, holder, Reach-LockStep}

abbrev target : UpdateTarget
target = record {
  id = "t1";
  update_job_id = "j1";
  node_id = "A";
  depth = 1;
  status = staged;
  started_at = none;
  completed_at = none;
  error_message = "";
}

abbrev targets : List UpdateTarget
targets = target ∷ []

abbrev updating : Server
updating = record server {
  db = record server.db { nodes = node "R" none ∷ node "A" (some "R") ∷ [] };
  update_targets = targets;
}

abbrev begun : Run
begun = started "j1" "v2" 50 targets updating

abbrev all_fetched : Run
all_fetched = record { server = end_prefetch 60 "j1" begun.server; pc = installing targets targets }

abbrev a_waited_for : Run
a_waited_for = record {
  server = on_active (set_install "A") all_fetched.server;
  pc = waiting targets target [];
}

all_listed : list_update_targets (end_prefetch 60 "j1" begun.server).update_targets "j1" ≡ targets
unfolding started begin_update collect is_started stage_controllers list_update_targets end_prefetch
    fail_unfetched seen_status keeps_fetched is_controller_node open_install on_active get_node
    status_in is_blank
all_listed = refl

a_granted : turn all_fetched.server target ≡ grant
unfolding started begin_update collect is_started stage_controllers list_update_targets end_prefetch
    fail_unfetched seen_status keeps_fetched is_controller_node open_install on_active turn
    turn_of_status get_node status_in is_blank
a_granted = refl

begun_fetching : begun.pc ≡ prefetching
unfolding started
begun_fetching = refl

to_fetched : Step "j1" "v2" begun all_fetched
to_fetched = fetched 60 begun_fetching (
    ap (λ q. record { server = end_prefetch 60 "j1" begun.server; pc = installing q q })
      (sym all_listed))

to_waited : Step "j1" "v2" all_fetched a_waited_for
to_waited = allow targets target [] refl a_granted refl

reached : Reach "j1" "v2" begun a_waited_for
reached = next (next here to_fetched) to_waited

abbrev command : Command
command = record {
  job_id = "j1";
  target_version = "v2";
  phase = install;
  files = node_binaries;
  depth = 1;
}

a_told : handle_agent_update "A" a_waited_for.server ≡ some command
unfolding started begin_update collect is_started stage_controllers list_update_targets end_prefetch
    fail_unfetched seen_status keeps_fetched is_controller_node open_install on_active set_install
    handle_agent_update command_for may_install depth_of_node get_node status_in is_blank
    depth_or_zero node_depth depth_from
a_told = refl

handle_agent_update-Turned_example : Turned "A" a_waited_for
handle_agent_update-Turned_example =
    handle_agent_update-Turned "j1" "v2" 50 targets updating a_waited_for reached "A" command a_told
      refl

started-ends_example : ComesToEnd "j1" "v2" a_waited_for
started-ends_example = started-ends "j1" "v2" 50 targets updating a_waited_for reached

Reach-LockStep_example :
    LockStep (holder (view all_fetched.server)) (holder (view a_waited_for.server))
Reach-LockStep_example =
    Reach-LockStep "j1" "v2" 50 targets updating all_fetched a_waited_for (next here to_fetched)
      to_waited

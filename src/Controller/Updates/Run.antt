-- ===== src/Controller/Updates/Run.antt =====
-- The steps of a running update job: the orchestrator's between its waits, and the agents' reports.
use sd_wan_plus.Base.{ℕ, String, ◌≡◌, Bool, true, false, Option, List, [], ◌∷◌}
use sd_wan_plus.Core.Records.{UpdateTarget}
use sd_wan_plus.Core.Update.{install_failed}
use sd_wan_plus.Storage.Updates.{list_update_targets}
use sd_wan_plus.Controller.State.{Server}
use sd_wan_plus.Controller.Updates.{
  set_update_node_status, on_active, begin_update, end_prefetch, set_install, turn, skip,
  not_staged, grant, has_finished, install_controllers, finish_update,
}
use sd_wan_plus.Controller.Commands.{Report, handle_agent_update_report}

-- Where the orchestrator is: `all` are the targets of the install loop, `q` those it has left.
pub data Pc : Type 0 where
  prefetching : Pc
  installing : (all q : List UpdateTarget) → Pc
  waiting : (all : List UpdateTarget) → UpdateTarget → (q : List UpdateTarget) → Pc
  finished : (restart : Bool) → Pc

pub record Run : Type 0 where
  pub server : Server
  pub pc : Pc

module _ (job version : String) where
  -- The first state of a job.
  unfoldable pub started : (now : ℕ) → List UpdateTarget → Server → Run
  started now targets s = record {
    server = begin_update now job version targets s;
    pc = prefetching;
  }

  unfoldable pub time_out : (now : ℕ) → UpdateTarget → Server → Server
  time_out now t s =
      set_update_node_status now job t.node_id t.id install_failed "install timeout" s

  unfoldable pub refuse : (now : ℕ) → UpdateTarget → Server → Server
  refuse now t s = set_update_node_status now job t.node_id t.id install_failed "not staged" s

  unfoldable pub close :
      (now : ℕ) → (error : Option String) → List UpdateTarget → Server → Bool × Server
  close now error all s =
      let (restart, t) = install_controllers now job version error all (false, s) in
      (restart, finish_update now job t)

  -- A deadline may pass at any time, and an agent may report anything at any time.
  pub data Step (r u : Run) : Type 0 where
    report :
        (now : ℕ) (x : Report)
        → u ≡ record r { server = handle_agent_update_report now x r.server }
        → Step r u
    fetched :
        (now : ℕ)
        → r.pc ≡ prefetching
        → u ≡ (
            let s = end_prefetch now job r.server in
            let all = list_update_targets s.update_targets job in
            record { server = s; pc = installing all all })
        → Step r u
    pass :
        (all : List UpdateTarget) (t : UpdateTarget) (q : List UpdateTarget)
        → r.pc ≡ installing all (t ∷ q)
        → turn r.server t ≡ skip
        → u ≡ record r { pc = installing all q }
        → Step r u
    fail :
        (now : ℕ) (all : List UpdateTarget) (t : UpdateTarget) (q : List UpdateTarget)
        → r.pc ≡ installing all (t ∷ q)
        → turn r.server t ≡ not_staged
        → u ≡ record { server = refuse now t r.server; pc = installing all q }
        → Step r u
    allow :
        (all : List UpdateTarget) (t : UpdateTarget) (q : List UpdateTarget)
        → r.pc ≡ installing all (t ∷ q)
        → turn r.server t ≡ grant
        → u ≡ record { server = on_active (set_install t.node_id) r.server; pc = waiting all t q }
        → Step r u
    done :
        (all : List UpdateTarget) (t : UpdateTarget) (q : List UpdateTarget)
        → r.pc ≡ waiting all t q
        → has_finished r.server t ≡ true
        → u ≡ record { server = on_active (set_install "") r.server; pc = installing all q }
        → Step r u
    expire :
        (now : ℕ) (all : List UpdateTarget) (t : UpdateTarget) (q : List UpdateTarget)
        → r.pc ≡ waiting all t q
        → u ≡ record {
          server = on_active (set_install "") (time_out now t r.server);
          pc = installing all q;
        }
        → Step r u
    last :
        (now : ℕ) (error : Option String) (all : List UpdateTarget)
        → r.pc ≡ installing all []
        → u ≡ record {
          server = (close now error all r.server).1;
          pc = finished (close now error all r.server).0;
        }
        → Step r u

  pub data Reach (r : Run) : Run → Type 0 where
    here : Reach r r
    next : {u v : Run} → Reach r u → Step u v → Reach r v

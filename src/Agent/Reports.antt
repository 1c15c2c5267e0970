-- ===== src/Agent/Reports.antt =====
-- An agent's reports, received by the controller.
use sd_wan_plus.Base.{
  ℕ, String, ==-self, ==-false, eq_iff, ◌≡◌, ◌≢◌, refl, ◌∙◌, true, Option, none, some, List, [],
  ◌∷◌, lookup, arith,
}
use sd_wan_plus.Core.Records.{UpdateTarget}
use sd_wan_plus.Core.Update.{UpdateStatus, installing}
use sd_wan_plus.Controller.State.{Server, ActiveUpdate, install}
use sd_wan_plus.Controller.Updates.{
  set_row_status, on_active, note_status, has_finished, is_installed,
}
use sd_wan_plus.Controller.Commands.{Command, Report, handle_agent_update_report, report_row}
use sd_wan_plus.Agent.{Outcome, poll_update, install_report, report_of}

-- The controller receives reports one after the other.
unfoldable pub receive_all : (now : ℕ) → List Report → Server → Server
receive_all now [] s = s
receive_all now (r ∷ rs) s = receive_all now rs (handle_agent_update_report now r s)

on_active-some :
    (f : ActiveUpdate → ActiveUpdate) (s : Server) (a : ActiveUpdate)
    → s.active_update ≡ some a
    → (on_active f s).active_update ≡ some (f a)
unfolding on_active
on_active-some f s a e = rw (e, on_active) refl

report_row-active :
    (now : ℕ) (r : Report) (o : Option UpdateTarget) (s : Server)
    → (report_row now r o s).active_update ≡ s.active_update
unfolding report_row set_row_status
report_row-active now r none s = refl
report_row-active now r (some t) s = refl

-- The job in memory after a report.
report-active :
    (now : ℕ) (r : Report) (s : Server) (a : ActiveUpdate)
    → s.active_update ≡ some a
    → (handle_agent_update_report now r s).active_update
      ≡ some (note_status r.job_id r.node_id r.status a)
unfolding handle_agent_update_report
report-active now r s a e =
    on_active-some (note_status r.job_id r.node_id r.status) _ a (report_row-active now r _ s ∙ e)

-- Of two reports on the job, the last is what is noted.
noted :
    (job node : String) (st st' : UpdateStatus) (a : ActiveUpdate)
    → a.job_id ≡ job
    → lookup node (note_status job node st' (note_status job node st a)).status_by_node ≡ some st'
unfolding note_status
noted job node st st' a e = ground (arith, ==-self job, ==-self node, eq_iff a.job_id job)

has_finished-noted :
    (s : Server) (t : UpdateTarget) (a : ActiveUpdate) (st : UpdateStatus)
    → s.active_update ≡ some a
    → lookup t.node_id a.status_by_node ≡ some st
    → is_installed st ≡ true
    → has_finished s t ≡ true
unfolding has_finished
has_finished-noted s t a st e l d = rw (e, has_finished, l) d

polled :
    (node : String) (o : Outcome) (x : Command)
    → x.job_id ≢ ""
    → x.phase ≡ install
    → poll_update node o (some x)
      ≡ report_of node x installing ""
        ∷ report_of node x (install_report o).0 (install_report o).1
        ∷ []
unfolding poll_update
polled node o x n p = rw (==-false n, p, poll_update) refl

install_report-done : (o : Outcome) → is_installed (install_report o).0 ≡ true
unfolding install_report is_installed
install_report-done o = ground arith

-- The reports of an agent that has been told to install end the orchestrator's wait for it, whether
-- the install succeeded or failed.
pub poll_update-has_finished :
    (now : ℕ) (o : Outcome) (x : Command) (t : UpdateTarget) (s : Server) (a : ActiveUpdate)
    → s.active_update ≡ some a
    → a.job_id ≡ x.job_id
    → x.job_id ≢ ""
    → x.phase ≡ install
    → has_finished (receive_all now (poll_update t.node_id o (some x)) s) t ≡ true
unfolding receive_all
poll_update-has_finished now o x t s a e j n p =
    let (st, message) = install_report o in
    let first = report_of t.node_id x installing "" in
    let second = report_of t.node_id x st message in
    rw (polled t.node_id o x n p) (
      has_finished-noted _ t _ st (report-active now second _ _ (report-active now first s a e))
        (noted x.job_id t.node_id installing st a j) (install_report-done o))

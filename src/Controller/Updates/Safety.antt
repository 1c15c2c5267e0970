-- ===== src/Controller/Updates/Safety.antt =====
-- In every reachable state one node at most may install, and no later one lies deeper.
use sd_wan_plus.Base.{
  ℕ, ◌≤◌, String, ◌==◌, eq_iff, ◌≡◌, ◌≢◌, refl, sym, ap, ◌∙◌, subst, Bool, true, false, ◌||◌,
  Bool-cases, Option, none, some, Option-cases, inl, inr, List, [], ◌∷◌, if◌then◌else◌, All,
  All-mono, Ordered, Ordered-order_by, arith,
}
use sd_wan_plus.Core.Records.{UpdateTarget}
use sd_wan_plus.Core.Update.{UpdateStatus, download_failed, install_failed}
use sd_wan_plus.Storage.Tables.{Db, where_rows}
use sd_wan_plus.Storage.Updates.{list_update_targets, deeper}
use sd_wan_plus.Storage.Rows.{some_inj}
use sd_wan_plus.Controller.State.{Server, ActiveUpdate, JobPhase, prefetch, install}
use sd_wan_plus.Controller.Updates.{
  set_row_status, set_update_node_status, note_status, on_active, begin_update, end_prefetch,
  open_install, fail_unfetched, keeps_fetched, seen_status, is_controller_node, set_install,
  finish_update,
}
use sd_wan_plus.Controller.Commands.{
  Report, Command, command_for, handle_agent_update, handle_agent_update_report, report_row,
}
use sd_wan_plus.Controller.Updates.Run.{
  Pc, prefetching, installing, waiting, finished, Run, started, time_out, refuse, close, Step,
  report, fetched, pass, fail, allow, done, expire, last, Reach, here, next,
}

-- What the agents' handler reads of the job in memory.
abbrev pub view : Server → Option (JobPhase × String)
view s = elim s.active_update [ none ↦ none | some a ↦ some (a.phase, a.install_node_id) ]

on_active-view :
    (f : ActiveUpdate → ActiveUpdate) (s : Server)
    → ((a : ActiveUpdate) → ((f a).phase ≡ a.phase) × ((f a).install_node_id ≡ a.install_node_id))
    → view (on_active f s) ≡ view s
unfolding on_active
on_active-view f s h = elim (Option-cases s.active_update) [
  | inl e ↦ rw (e, on_active, e) refl
  | inr (a, e) ↦ rw (e, on_active) (λ i. some ((h a).0 i, (h a).1 i))
]

note_status-view :
    (job node : String) (st : UpdateStatus) (a : ActiveUpdate)
    → ((note_status job node st a).phase ≡ a.phase)
      × ((note_status job node st a).install_node_id ≡ a.install_node_id)
unfolding note_status
note_status-view job node st a = ground arith

set_update_node_status-view :
    (now : ℕ) (job node target : String) (st : UpdateStatus) (message : String) (s : Server)
    → view (set_update_node_status now job node target st message s) ≡ view s
unfolding set_update_node_status set_row_status
set_update_node_status-view now job node target st message s = elim (Bool-cases (target == "")) [
  | inl e ↦ rw e (on_active-view _ s (note_status-view job node st))
  | inr e ↦ rw e (on_active-view _ _ (note_status-view job node st))
]

pub report-view :
    (now : ℕ) (x : Report) (s : Server) → view (handle_agent_update_report now x s) ≡ view s
unfolding handle_agent_update_report report_row set_row_status
report-view now x s = on_active-view _ _ (note_status-view x.job_id x.node_id x.status) ∙ row _
  where
    row : (o : Option UpdateTarget) → view (report_row now x o s) ≡ view s
    row none = refl
    row (some t) = refl

fail_unfetched-view :
    (now : ℕ) (job : String) (ts : List UpdateTarget) (s : Server)
    → view (fail_unfetched now job ts s) ≡ view s
unfolding fail_unfetched
fail_unfetched-view now job [] s = refl
fail_unfetched-view now job (t ∷ ts) s =
    fail_unfetched-view now job ts _
    ∙ kept (is_controller_node s.db t.node_id || keeps_fetched (seen_status s t))
  where
    kept :
        (b : Bool)
        → view (
            if b
            then s
            else set_update_node_status now job t.node_id t.id download_failed "prefetch timeout" s)
          ≡ view s
    kept true = refl
    kept false =
        set_update_node_status-view now job t.node_id t.id download_failed "prefetch timeout" s

pub begin_update-view :
    (now : ℕ) (job version : String) (ts : List UpdateTarget) (s : Server)
    → view (begin_update now job version ts s) ≡ some (prefetch, "")
unfolding begin_update
begin_update-view now job version ts s = refl

set_install-view :
    (node : String) (p : JobPhase) (was : String) (s : Server)
    → view s ≡ some (p, was)
    → view (on_active (set_install node) s) ≡ some (p, node)
unfolding on_active set_install
set_install-view node p was s h = elim (Option-cases s.active_update) [
  | inl e ↦ absurd (none_some (rw e at h))
  | inr (a, e) ↦ rw (e, on_active) (ap (λ v. some (v, node)) (phase_of (rw e at h)))
]
  where
    none_some : ◌≡◌ {A = Option (JobPhase × String)} none (some (p, was)) → ⊥
    none_some q = cc

    phase_of :
        {a : JobPhase × String}
        → ◌≡◌ {A = Option (JobPhase × String)} (some a) (some (p, was))
        → a.0 ≡ p
    phase_of q = ap (λ v. v.0) (some_inj q)

open_install-view :
    (v : JobPhase × String) (s : Server)
    → view s ≡ some v
    → view (on_active open_install s) ≡ some (install, "")
unfolding on_active open_install
open_install-view v s h = elim (Option-cases s.active_update) [
  | inl e ↦ absurd (none_some (rw e at h))
  | inr (a, e) ↦ rw (e, on_active) refl
]
  where
    none_some : none ≡ some v → ⊥
    none_some q = cc

deeper-total : (x y : UpdateTarget) → deeper x y ≡ false → deeper y x ≡ true
deeper-total x y h = ground arith

deeper_trans : (x y z : UpdateTarget) → deeper x y ≡ true → deeper y z ≡ true → deeper x z ≡ true
deeper_trans x y z h k = ground arith

-- The targets of a job come deepest first.
pub list_update_targets-Ordered :
    (ts : List UpdateTarget) (job : String) → Ordered deeper (list_update_targets ts job)
unfolding list_update_targets
list_update_targets-Ordered ts job =
    Ordered-order_by deeper deeper-total deeper_trans (where_rows (λ t. t.update_job_id == job) ts)

-- What holds at each place of the orchestrator.
abbrev pub Holds : Pc → Option (JobPhase × String) → Type 0
Holds prefetching v = v ≡ some (prefetch, "")
Holds (installing all q) v = (v ≡ some (install, "")) × Ordered deeper q
Holds (waiting all t q) v = (v ≡ some (install, t.node_id)) × Ordered deeper (t ∷ q)
Holds (finished restart) v = v ≡ none

abbrev pub Inv : Run → Type 0
Inv r = Holds r.pc (view r.server)

pub at : (v : Option (JobPhase × String)) {p p' : Pc} → p ≡ p' → Holds p v → Holds p' v
at v e h = subst (λ p. Holds p v) e h

module _ (job version : String) where
  pub Step-Inv : (r u : Run) → Step job version r u → Inv r → Inv u
  unfolding end_prefetch refuse time_out close finish_update
  Step-Inv r u (report now x e) h =
      subst Inv (sym e) (subst (Holds r.pc) (sym (report-view now x r.server)) h)
  Step-Inv r u (fetched now p e) h = subst Inv (sym e) (
    open_install-view (prefetch, "") _
        (fail_unfetched-view now job (list_update_targets r.server.update_targets job) r.server
          ∙ at (view r.server) p h),
    list_update_targets-Ordered _ job,
  )
  Step-Inv r u (pass all t q p w e) h =
      let (a, b) = at (view r.server) p h in subst Inv (sym e) (a, b.1)
  Step-Inv r u (fail now all t q p w e) h =
      let (a, b) = at (view r.server) p h in
      subst Inv (sym e) (
        set_update_node_status-view now job t.node_id t.id install_failed "not staged" r.server ∙ a,
        b.1,
      )
  Step-Inv r u (allow all t q p w e) h =
      let (a, b) = at (view r.server) p h in
      subst Inv (sym e) (set_install-view t.node_id install "" r.server a, b)
  Step-Inv r u (done all t q p w e) h =
      let (a, b) = at (view r.server) p h in
      subst Inv (sym e) (set_install-view "" install t.node_id r.server a, b.1)
  Step-Inv r u (expire now all t q p e) h =
      let (a, b) = at (view r.server) p h in
      subst Inv (sym e) (
        set_install-view "" install t.node_id _ (
            set_update_node_status-view now job t.node_id t.id install_failed "install timeout"
              r.server
            ∙ a),
        b.1,
      )
  Step-Inv r u (last now error all p e) h = subst Inv (sym e) refl

  pub Reach-Inv : (r u : Run) → Reach job version r u → Inv r → Inv u
  Reach-Inv r u here h = h
  Reach-Inv r v (next {u = u} w st) h = Step-Inv u v st (Reach-Inv r u w h)

command_for-install :
    (db : Db) (node : String) (a : ActiveUpdate) (x : Command)
    → command_for db node a ≡ some x
    → x.phase ≡ install
    → (a.phase ≡ install) × (a.install_node_id ≡ node) × (node ≢ "")
unfolding command_for
command_for-install db node a x h i =
    ground (arith, eq_iff a.install_node_id node, eq_iff a.install_node_id "")

-- A command to install is for the node that the job names.
handle_agent_update-view :
    (node : String) (s : Server) (x : Command)
    → handle_agent_update node s ≡ some x
    → x.phase ≡ install
    → (view s ≡ some (install, node)) × (node ≢ "")
unfolding handle_agent_update
handle_agent_update-view node s x h i = elim (Option-cases s.active_update) [
  | inl e ↦ absurd (none_some (rw (e, handle_agent_update) at h))
  | inr (a, e) ↦
      let (p, n, k) = command_for-install s.db node a x (rw (e, handle_agent_update) at h) i in
      (rw e (λ j. some (p j, n j)), k)
]
  where
    none_some : ◌≡◌ {A = Option Command} none (some x) → ⊥
    none_some q = cc

-- What an agent that may install knows: it is the target that the orchestrator waits for, and no
-- target that is left lies deeper.
abbrev pub Turned : String → Run → Type 0
Turned node r =
    (all : List UpdateTarget) × (t : UpdateTarget) × (q : List UpdateTarget) × (r.pc
      ≡ waiting all t q)
    × (node ≡ t.node_id)
    × All (λ k. k.depth ≤ t.depth) q

waited :
    (node : String) (p : Pc) (v : Option (JobPhase × String))
    → Holds p v
    → v ≡ some (install, node)
    → node ≢ ""
    → (all : List UpdateTarget) × (t : UpdateTarget) × (q : List UpdateTarget) × (p
        ≡ waiting all t q)
      × (node ≡ t.node_id)
      × All (λ k. k.depth ≤ t.depth) q
waited node prefetching v h e n = absurd (ground arith)
waited node (installing all q) v h e n = absurd (ground arith)
waited node (waiting all t q) v h e n =
    (all, t, q, refl, ground arith, All-mono q (λ k d. ground arith) h.1.0)
waited node (finished restart) v h e n = absurd (ground arith)

module _ (job version : String) (now : ℕ) (ts : List UpdateTarget) (s : Server) (r : Run)
    (w : Reach job version (started job version now ts s) r) where
  -- In every state that a job reaches, whatever agents report and whichever waits time out, a node is
  -- told to install only while the orchestrator waits for it, and no target that is left to install
  -- lies deeper in the tree.
  pub handle_agent_update-Turned :
      (node : String) (x : Command)
      → handle_agent_update node r.server ≡ some x
      → x.phase ≡ install
      → Turned node r
  unfolding started
  handle_agent_update-Turned node x h i =
      let (v, n) = handle_agent_update-view node r.server x h i in
      waited node r.pc (view r.server)
        (Reach-Inv job version (started job version now ts s) r w
          (begin_update-view now job version ts s))
        v n

-- ===== src/Controller/Updates.antt =====
-- internal/controller/policy_handlers.go: the jobs that update the nodes. The job in memory,
-- `active_update`, is written by the orchestrator (`runUpdateJob`) and by agents' reports
-- (`Controller.Commands`); the pieces of the orchestrator between two waits are the functions of this
-- file, and `Controller.Updates.Run` has the steps.
use sd_wan_plus.Base.{
  ℕ, ◌+◌, String, ◌==◌, Bool, true, false, not, ◌&&◌, ◌||◌, Option, none, some, List, [], ◌∷◌, ◌++◌,
  if◌then◌else◌, Dict, lookup, length,
}
use sd_wan_plus.Core.Types.{Node}
use sd_wan_plus.Core.Records.{UpdateJob, UpdateTarget, JobStatus}
use sd_wan_plus.Core.Records
use sd_wan_plus.Core.Update.{
  UpdateStatus, waiting, staged, installing, completed, download_failed, signature_invalid,
  install_failed, health_failed, rolling_back, rolled_back, other,
}
use sd_wan_plus.Storage.Tables.{Db, get_node, list_nodes, touch_node_seen, first_row}
use sd_wan_plus.Storage.Depth.{Depth, depth, no_row, cycle_detected, node_depth}
use sd_wan_plus.Storage.Updates.{
  new_update_job, list_update_jobs, add_update_target, list_update_targets, update_job_status,
  update_target_status,
}
use sd_wan_plus.Controller.State.{
  Server, ActiveUpdate, JobPhase, prefetch, install, Call, Reply, ok, refused, audit,
}
pub mod Run
pub mod Safety
pub mod Ends
pub mod Lock
pub mod Resume
mod Samples

-- artifacts.NodeBinaries
abbrev pub node_binaries : List String
node_binaries =
    "pathweaver-agent" ∷ "pathweaver-netd" ∷ "pathweaver-updater" ∷ "pathweaver-cli"
    ∷ "pathweaver-controller" ∷ "install-node.sh" ∷ "uninstall.sh" ∷ []

-- The depth, 0 where NodeDepth fails.
unfoldable pub depth_or_zero : Depth → ℕ
depth_or_zero (depth d) = d
depth_or_zero no_row = 0
depth_or_zero cycle_detected = 0

unfoldable pub add_targets :
    (ids : ℕ → String) → Db → (job : String) → List Node → List UpdateTarget → List UpdateTarget
add_targets ids db job [] ts = ts
add_targets ids db job (n ∷ ns) ts =
    add_targets ids db job ns
      (add_update_target ts (ids (length ns)) job n.id (depth_or_zero (node_depth db n.id)))

-- handleCreateUpdate after the release has been staged; `seed_error` is what staging it from the
-- given directory returned.
unfoldable pub handle_create_update :
    Call → (version sha : String) → (seed_error : Option String) → Server → Reply UpdateJob × Server
handle_create_update c version sha (some e) s =
    (refused 400 (if version == "" then "target_version required" else e), s)
handle_create_update c version sha none s =
    let job = new_update_job (c.uuid 0) c.now version (if sha == "" then "pending" else sha) in
    if version == "" then (refused 400 "target_version required", s) else (
      ok job,
      audit c (c.uuid 1) "create_update" "update_job" job.id version (record s {
        update_jobs = s.update_jobs ++ job ∷ [];
        update_targets =
            add_targets (λ i. c.uuid (2 + i)) s.db job.id (list_nodes s.db) s.update_targets;
      }),
    )

-- A text of no characters, which Go's maps give for a missing key.
unfoldable pub is_blank : UpdateStatus → Bool
is_blank (other m) = m == ""
is_blank _ = false

unfoldable pub is_controller_node : Db → String → Bool
is_controller_node db id = elim (get_node db id) [ none ↦ false | some n ↦ n.is_controller ]

-- The status of a target for the orchestrator: that in memory, or else that of the row.
unfoldable pub status_in : Dict UpdateStatus → UpdateTarget → UpdateStatus
status_in d t = elim (lookup t.node_id d) [
  | none ↦ t.status
  | some st ↦ if is_blank st then t.status else st
]

unfoldable pub seen_status : Server → UpdateTarget → UpdateStatus
seen_status s t = elim s.active_update [ none ↦ t.status | some a ↦ status_in a.status_by_node t ]

-- setUpdateNodeStatus
unfoldable pub note_status : String → String → UpdateStatus → ActiveUpdate → ActiveUpdate
note_status job node status a =
    if a.job_id == job then record a { status_by_node = (node, status) ∷ a.status_by_node } else a

unfoldable pub on_active : (ActiveUpdate → ActiveUpdate) → Server → Server
on_active f s = elim s.active_update [ none ↦ s | some a ↦ record s { active_update = some (f a) } ]

unfoldable pub set_row_status : (now : ℕ) → String → UpdateStatus → String → Server → Server
set_row_status now target status message s = record s {
  update_targets = update_target_status s.update_targets now target status message;
}

unfoldable pub set_update_node_status :
    (now : ℕ) → String → String → String → UpdateStatus → String → Server → Server
set_update_node_status now job node target status message s =
    on_active (note_status job node status)
      (if target == "" then s else set_row_status now target status message s)

-- The statuses that the orchestrator starts with.
unfoldable pub is_started : UpdateStatus → Bool
is_started waiting = false
is_started (other m) = not (m == "")
is_started _ = true

unfoldable pub collect : Dict UpdateStatus → List UpdateTarget → Dict UpdateStatus
collect d [] = d
collect d (t ∷ ts) = collect (if is_started t.status then (t.node_id, t.status) ∷ d else d) ts

unfoldable pub keeps_controller : Option UpdateStatus → Bool
keeps_controller (some completed) = true
keeps_controller (some install_failed) = true
keeps_controller _ = false

-- The controller holds the release: its targets count as fetched.
unfoldable pub stage_controllers :
    (now : ℕ) → List UpdateTarget → Dict UpdateStatus × Server → Dict UpdateStatus × Server
stage_controllers now [] (d, s) = (d, s)
stage_controllers now (t ∷ ts) (d, s) = stage_controllers now ts (
    if is_controller_node s.db t.node_id && not (keeps_controller (lookup t.node_id d))
    then ((t.node_id, staged) ∷ d, set_row_status now t.id staged "" s)
    else (d, s))

-- runUpdateJob up to the first wait.
unfoldable pub begin_update : (now : ℕ) → String → String → List UpdateTarget → Server → Server
begin_update now job version targets s =
    let (d, t) = stage_controllers now targets (collect [] targets, s) in
    record t {
      active_update = some (record {
        job_id = job;
        target_version = version;
        phase = prefetch;
        install_node_id = "";
        files = node_binaries;
        status_by_node = d;
      });
    }

-- handleStartUpdate: the job is marked, and the orchestrator runs beside it.
unfoldable pub handle_start_update : Call → String → Server → Reply UpdateJob × Server
handle_start_update c id s = elim (first_row (λ j. j.id == id) (list_update_jobs s.update_jobs)) [
  | none ↦ (refused 404 "job not found", s)
  | some j ↦ (
    ok j,
    begin_update c.now id j.target_version (list_update_targets s.update_targets id)
        (record s { update_jobs = update_job_status s.update_jobs c.now id Records.running }),
  )
]

-- A target that the prefetch no longer waits for.
unfoldable pub is_fetched : UpdateStatus → Bool
is_fetched staged = true
is_fetched completed = true
is_fetched install_failed = true
is_fetched download_failed = true
is_fetched signature_invalid = true
is_fetched rolled_back = true
is_fetched _ = false

abbrev pub counts : Server → UpdateTarget → Bool
counts s t = elim (get_node s.db t.node_id) [ none ↦ false | some n ↦ not n.is_controller ]

-- The number of targets that the prefetch waits for.
unfoldable pub pending_targets : Server → List UpdateTarget → ℕ
pending_targets s [] = 0
pending_targets s (t ∷ ts) =
    let rest = pending_targets s ts in
    if counts s t && not (is_fetched (seen_status s t)) then 1 + rest else rest

-- The statuses that the end of the prefetch leaves.
unfoldable pub keeps_fetched : UpdateStatus → Bool
keeps_fetched staged = true
keeps_fetched completed = true
keeps_fetched install_failed = true
keeps_fetched download_failed = true
keeps_fetched _ = false

unfoldable pub fail_unfetched : (now : ℕ) → String → List UpdateTarget → Server → Server
fail_unfetched now job [] s = s
fail_unfetched now job (t ∷ ts) s = fail_unfetched now job ts (
    if is_controller_node s.db t.node_id || keeps_fetched (seen_status s t)
    then s
    else set_update_node_status now job t.node_id t.id download_failed "prefetch timeout" s)

unfoldable pub set_install : String → ActiveUpdate → ActiveUpdate
set_install node a = record a { install_node_id = node }

unfoldable pub open_install : ActiveUpdate → ActiveUpdate
open_install a = record a { phase = install; install_node_id = "" }

-- Between the prefetch and the first install.
unfoldable pub end_prefetch : (now : ℕ) → String → Server → Server
end_prefetch now job s =
    on_active open_install (fail_unfetched now job (list_update_targets s.update_targets job) s)

-- What the install loop does with a target.
pub data Turn : Type 0 where
  skip not_staged grant : Turn

unfoldable pub turn_of_status : UpdateStatus → Turn
turn_of_status completed = skip
turn_of_status install_failed = skip
turn_of_status rolled_back = skip
turn_of_status download_failed = skip
turn_of_status signature_invalid = skip
turn_of_status staged = grant
turn_of_status installing = grant
turn_of_status _ = not_staged

unfoldable pub turn : Server → UpdateTarget → Turn
turn s t = if is_controller_node s.db t.node_id then skip else turn_of_status (seen_status s t)

-- The wait ends by itself at these statuses in memory.
unfoldable pub is_installed : UpdateStatus → Bool
is_installed completed = true
is_installed install_failed = true
is_installed rolled_back = true
is_installed _ = false

unfoldable pub has_finished : Server → UpdateTarget → Bool
has_finished s t = elim s.active_update [
  | none ↦ false
  | some a ↦ elim (lookup t.node_id a.status_by_node) [ none ↦ false | some st ↦ is_installed st ]
]

unfoldable pub is_completed : Option UpdateStatus → Bool
is_completed (some completed) = true
is_completed _ = false

unfoldable pub memory_status : Server → UpdateTarget → Option UpdateStatus
memory_status s t = elim s.active_update [
  | none ↦ none
  | some a ↦ lookup t.node_id a.status_by_node
]

-- installControllerRelease gives `error`; a success touches the node and completes the target.
unfoldable pub install_controller :
    (now : ℕ) → String → String → (error : Option String) → UpdateTarget → Node → Server → Server
install_controller now job version (some e) t n s =
    set_update_node_status now job t.node_id t.id install_failed e
      (set_update_node_status now job t.node_id t.id installing "" s)
install_controller now job version none t n s =
    let begun = set_update_node_status now job t.node_id t.id installing "" s in
    set_update_node_status now job t.node_id t.id completed ""
      (record begun { db = touch_node_seen begun.db now n.id version n.active_generation })

-- What the loop over the controller's targets does with one: whether it ends there, whether the
-- controller has to be restarted, and the state.
unfoldable pub controller_turn :
    (now : ℕ)
    → String
    → String
    → (error : Option String) → UpdateTarget
    → Bool × Server
    → Bool × (Bool × Server)
controller_turn now job version error t (restart, s) = elim (get_node s.db t.node_id) [
  | none ↦ (false, (restart, s))
  | some n ↦
      if not n.is_controller
      then (false, (restart, s))
      else if is_completed (memory_status s t)
      then (true, (true, s))
      else (
        false,
        (
          elim error [ none ↦ true | some e ↦ restart ],
          install_controller now job version error t n s,
        ),
      )
]

unfoldable pub install_controllers :
    (now : ℕ)
    → String
    → String
    → (error : Option String) → List UpdateTarget
    → Bool × Server
    → Bool × Server
install_controllers now job version error [] r = r
install_controllers now job version error (t ∷ ts) r =
    let (stop, next) = controller_turn now job version error t r in
    let rest = install_controllers now job version error ts next in if stop then next else rest

unfoldable pub finish_update : (now : ℕ) → String → Server → Server
finish_update now job s = record s {
  update_jobs = update_job_status s.update_jobs now job Records.completed;
  active_update = none;
}

-- ===== src/Controller/Updates/Lock.antt =====
-- The job in memory as a lock that one node holds at a time.
use sd_wan_plus.Base.{
  ℕ, List, String, ◌==◌, ◌≡◌, refl, ap, ◌∙◌, Bool-cases, inl, inr, Option, none, some,
  if◌then◌else◌,
}
use sd_wan_plus.Core.Records.{UpdateTarget}
use sd_wan_plus.Controller.State.{Server, JobPhase, prefetch, install}
use sd_wan_plus.Controller.Updates.Run.{
  Run, Reach, started, Step, report, fetched, pass, fail, allow, done, expire, last,
}
use sd_wan_plus.Controller.Updates.Safety.{
  Inv, view, at, report-view, Step-Inv, Reach-Inv, begin_update-view,
}

-- The abstract machine: nobody may install, one node may, or the job is over.
pub data Lock : Type 0 where
  idle : Lock
  held : String → Lock
  over : Lock

pub data LockStep (a b : Lock) : Type 0 where
  stay : b ≡ a → LockStep a b
  acquire : (node : String) → a ≡ idle → b ≡ held node → LockStep a b
  release : (node : String) → a ≡ held node → b ≡ idle → LockStep a b
  shut : a ≡ idle → b ≡ over → LockStep a b

-- Who holds the lock, by what the agents' handler reads.
abbrev pub holder : Option (JobPhase × String) → Lock
holder none = over
holder (some (prefetch, node)) = idle
holder (some (install, node)) = if node == "" then idle else held node

taken : (node : String) → LockStep idle (holder (some (install, node)))
taken node = elim (Bool-cases (node == "")) [
  | inl e ↦ rw e (stay refl)
  | inr e ↦ rw e (acquire node refl refl)
]

freed : (node : String) → LockStep (holder (some (install, node))) idle
freed node = elim (Bool-cases (node == "")) [
  | inl e ↦ rw e (stay refl)
  | inr e ↦ rw e (release node refl refl)
]

module _ (job version : String) (r u : Run) where
  seen_as :
      {v w : Option (JobPhase × String)}
      → view r.server ≡ v
      → view u.server ≡ w
      → LockStep (holder v) (holder w)
      → LockStep (holder (view r.server)) (holder (view u.server))
  seen_as p q h = rw (p, q) h

  -- In a state with the invariant, every step is a step of the lock.
  Step-LockStep :
      Step job version r u → Inv r → LockStep (holder (view r.server)) (holder (view u.server))
  Step-LockStep (report now x e) i =
      seen_as refl (ap (λ v. view v.server) e ∙ report-view now x r.server) (stay refl)
  Step-LockStep (fetched now p e) i =
      let j =
        at (view u.server) (ap (λ v. v.pc) e) (Step-Inv job version r u (fetched now p e) i) in
      seen_as (at (view r.server) p i) j.0 (stay refl)
  Step-LockStep (pass all t q p w e) i = seen_as refl (ap (λ v. view v.server) e) (stay refl)
  Step-LockStep (fail now all t q p w e) i =
      let j =
        at (view u.server) (ap (λ v. v.pc) e)
          (Step-Inv job version r u (fail now all t q p w e) i) in
      seen_as (at (view r.server) p i).0 j.0 (stay refl)
  Step-LockStep (allow all t q p w e) i =
      let j =
        at (view u.server) (ap (λ v. v.pc) e) (Step-Inv job version r u (allow all t q p w e) i) in
      seen_as (at (view r.server) p i).0 j.0 (taken t.node_id)
  Step-LockStep (done all t q p w e) i =
      let j =
        at (view u.server) (ap (λ v. v.pc) e) (Step-Inv job version r u (done all t q p w e) i) in
      seen_as (at (view r.server) p i).0 j.0 (freed t.node_id)
  Step-LockStep (expire now all t q p e) i =
      let j =
        at (view u.server) (ap (λ v. v.pc) e)
          (Step-Inv job version r u (expire now all t q p e) i) in
      seen_as (at (view r.server) p i).0 j.0 (freed t.node_id)
  Step-LockStep (last now error all p e) i =
      let j =
        at (view u.server) (ap (λ v. v.pc) e)
          (Step-Inv job version r u (last now error all p e) i) in
      seen_as (at (view r.server) p i).0 j (shut refl refl)

module _ (job version : String) (now : ℕ) (ts : List UpdateTarget) (s : Server) (r u : Run) where
  -- From every state that a job reaches, every step, the orchestrator's or a report, is a step of the
  -- lock: a node takes it only when nobody holds it, and it is given back before the next one takes
  -- it and before the job ends.
  pub Reach-LockStep :
      Reach job version (started job version now ts s) r
      → Step job version r u
      → LockStep (holder (view r.server)) (holder (view u.server))
  unfolding started
  Reach-LockStep w st = Step-LockStep job version r u st (
      Reach-Inv job version (started job version now ts s) r w
        (begin_update-view now job version ts s))

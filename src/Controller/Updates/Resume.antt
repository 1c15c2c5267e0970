-- ===== src/Controller/Updates/Resume.antt =====
-- internal/controller/policy_handlers.go: a job after a restart of the controller, and its rollback.
use sd_wan_plus.Base.{
  ℕ, String, ◌==◌, eq_iff, ==-cases, ◌≡◌, refl, sym, ◌⊎◌, inl, inr, Bool, true, false, ◌&&◌,
  Bool-cases, none, some, List, [], ◌∷◌, if◌then◌else◌, All, All-mono, Any, Any-order_by,
  order_by-All,
}
use sd_wan_plus.Core.Records.{UpdateJob, UpdateTarget, JobStatus, running}
use sd_wan_plus.Core.Records
use sd_wan_plus.Core.Update.{rolled_back, rolling_back}
use sd_wan_plus.Storage.Tables.{where_rows}
use sd_wan_plus.Storage.Updates.{
  list_update_jobs, list_update_targets, deeper, update_job_status, update_target_status,
  target_done,
}
use sd_wan_plus.Storage.Rows.{map-All}
use sd_wan_plus.Controller.State.{Server}
use sd_wan_plus.Controller.Updates.{begin_update}

unfoldable pub is_running : JobStatus → Bool
is_running running = true
is_running _ = false

-- A target that a restart need not go on with; the same statuses fill in `completed_at`.
unfoldable pub all_terminal : List UpdateTarget → Bool
all_terminal [] = true
all_terminal (t ∷ ts) = let rest = all_terminal ts in target_done t.status && rest

abbrev pub is_busy : Server → Bool
is_busy s = elim s.active_update [ none ↦ false | some a ↦ true ]

-- The body of the loop for a job that is running.
unfoldable pub resume_job : (now : ℕ) → UpdateJob → Server → Server
resume_job now j s =
    let targets = list_update_targets s.update_targets j.id in
    if all_terminal targets
    then record s { update_jobs = update_job_status s.update_jobs now j.id Records.completed }
    else if is_busy s
    then s
    else begin_update now j.id j.target_version targets s

-- The first job that is running; the loop ends with it.
unfoldable pub resume_first : (now : ℕ) → List UpdateJob → Server → Server
resume_first now [] s = s
resume_first now (j ∷ js) s =
    let rest = resume_first now js s in if is_running j.status then resume_job now j s else rest

unfoldable pub resume_or_finalize_updates : (now : ℕ) → Server → Server
resume_or_finalize_updates now s = resume_first now (list_update_jobs s.update_jobs) s

-- The loop of handleRollbackUpdate.
unfoldable pub roll_back_all : (now : ℕ) → List UpdateTarget → List UpdateTarget → List UpdateTarget
roll_back_all now [] rows = rows
roll_back_all now (t ∷ ts) rows = roll_back_all now ts (
    update_target_status (update_target_status rows now t.id rolling_back "") now t.id rolled_back
      "")

unfoldable pub handle_rollback_update : (now : ℕ) → String → Server → Server
handle_rollback_update now id s = record s {
  update_targets = roll_back_all now (list_update_targets s.update_targets id) s.update_targets;
  update_jobs = update_job_status s.update_jobs now id Records.rolled_back;
}

-- Whether some target of the list has the id.
abbrev Listed : List UpdateTarget → String → Type 0
Listed ts id = Any (λ t. t.id ≡ id) ts

module _ (now : ℕ) where
  round :
      (good : String → Type 0) (id : String) (rows : List UpdateTarget)
      → All (λ r. good r.id → r.status ≡ rolled_back) rows
      → All
          (λ r. good r.id ⊎ (id ≡ r.id) → r.status ≡ rolled_back)
          (update_target_status
            (update_target_status rows now id rolling_back "")
            now
            id
            rolled_back
            "")
  unfolding update_target_status
  round good id [] h = tt
  round good id (r ∷ rows) h = elim (==-cases r.id id) [
    | inl (p, q) ↦ rw (q, q) (λ g. refl, round good id rows h.1)
    | inr (p, q) ↦
        rw (q, q)
          (λ g. elim g [ inl x ↦ h.0 x | inr e ↦ absurd (p (sym e)) ], round good id rows h.1)
  ]

  roll_back_all-rolled :
      (good : String → Type 0) (ts rows : List UpdateTarget)
      → All (λ r. good r.id → r.status ≡ rolled_back) rows
      → All (λ r. good r.id ⊎ Listed ts r.id → r.status ≡ rolled_back) (roll_back_all now ts rows)
  unfolding roll_back_all
  roll_back_all-rolled good [] rows h =
      All-mono rows (λ r k g. elim g [ inl x ↦ k x | inr y ↦ absurd y ]) h
  roll_back_all-rolled good (t ∷ ts) rows h =
      All-mono _ (λ r k g. k (moved t.id r.id g))
        (roll_back_all-rolled (λ x. good x ⊎ (t.id ≡ x)) ts _ (round good t.id rows h))
    where
      moved : (a x : String) → good x ⊎ ((a ≡ x) ⊎ Listed ts x) → (good x ⊎ (a ≡ x)) ⊎ Listed ts x
      moved a x (inl g) = inl (inl g)
      moved a x (inr (inl e)) = inl (inr e)
      moved a x (inr (inr m)) = inr m

  -- The id and the job of a row are kept.
  roll_back_all-keys :
      (P : String → String → Type 0) (ts rows : List UpdateTarget)
      → All (λ r. P r.id r.update_job_id) rows
      → All (λ r. P r.id r.update_job_id) (roll_back_all now ts rows)
  unfolding roll_back_all update_target_status
  roll_back_all-keys P [] rows h = h
  roll_back_all-keys P (t ∷ ts) rows h = roll_back_all-keys P ts _ (
      map-All (λ r. P r.id r.update_job_id) (λ r. r.id == t.id) _ _ (λ r k. k)
        (map-All (λ r. P r.id r.update_job_id) (λ r. r.id == t.id) _ rows (λ r k. k) h))

module _ (p : UpdateTarget → Bool) (t : UpdateTarget) (ts : List UpdateTarget) where
  Listed-own : p t ≡ true → Listed (where_rows p (t ∷ ts)) t.id
  Listed-own e = rw e (inl refl)

  Listed-later : (id : String) → Listed (where_rows p ts) id → Listed (where_rows p (t ∷ ts)) id
  Listed-later id h = elim (Bool-cases (p t)) [ inl e ↦ rw e (inr h) | inr e ↦ rw e h ]

Listed-where :
    (p : UpdateTarget → Bool) (ts : List UpdateTarget)
    → All (λ r. p r ≡ true → Listed (where_rows p ts) r.id) ts
Listed-where p [] = tt
Listed-where p (t ∷ ts) =
    (Listed-own p t ts, All-mono ts (λ r h k. Listed-later p t ts r.id (h k)) (Listed-where p ts))

All-both {ℓ} :
    {A : Type ℓ} (P Q : A → Type 0) (xs : List A) → All P xs → All Q xs → All (λ x. P x × Q x) xs
All-both P Q [] h k = tt
All-both P Q (x ∷ xs) h k = ((h.0, k.0), All-both P Q xs h.1 k.1)

All-of {ℓ} : {A : Type ℓ} (P : A → Type 0) (xs : List A) → ((x : A) → P x) → All P xs
All-of P [] h = tt
All-of P (x ∷ xs) h = (h x, All-of P xs h)

rolled_rows :
    (now : ℕ) (id : String) (s : Server)
    → All
        (λ r. r.update_job_id ≡ id → r.status ≡ rolled_back)
        (handle_rollback_update now id s).update_targets
unfolding handle_rollback_update list_update_targets
rolled_rows now id s =
    All-mono _ (λ r h e. h.0 (inr (h.1 e)))
      (All-both _ _ _
        (roll_back_all-rolled now (λ x. ⊥) (list_update_targets s.update_targets id)
          s.update_targets (All-of _ s.update_targets (λ r x. absurd x)))
        (roll_back_all-keys now (λ k j. j ≡ id → Listed (list_update_targets s.update_targets id) k)
          (list_update_targets s.update_targets id) s.update_targets
          (All-mono s.update_targets
            (λ r h e.
              (Any-order_by deeper (λ t. t.id ≡ r.id) _).1 (h ((eq_iff r.update_job_id id).1 e)))
            (Listed-where (λ t. t.update_job_id == id) s.update_targets))))

where_rows-holds :
    {A : Type 0} (P : A → Type 0) (p : A → Bool) (xs : List A)
    → All (λ x. p x ≡ true → P x) xs
    → All P (where_rows p xs)
where_rows-holds P p [] h = tt
where_rows-holds P p (x ∷ xs) h = elim (Bool-cases (p x)) [
  | inl e ↦ rw e (h.0 e, where_rows-holds P p xs h.1)
  | inr e ↦ rw e (where_rows-holds P p xs h.1)
]

-- After handleRollbackUpdate every target that is listed for the job is rolled back.
pub handle_rollback_update-rolled :
    (now : ℕ) (id : String) (s : Server)
    → All
        (λ r. r.status ≡ rolled_back)
        (list_update_targets (handle_rollback_update now id s).update_targets id)
unfolding list_update_targets
handle_rollback_update-rolled now id s =
    order_by-All deeper (λ r. r.status ≡ rolled_back) _
      (where_rows-holds (λ r. r.status ≡ rolled_back) (λ t. t.update_job_id == id) _
        (All-mono _ (λ r h e. h ((eq_iff r.update_job_id id).0 e)) (rolled_rows now id s)))

-- ===== src/Jobs/Admin.antt =====
-- src/app/background_jobs/admin.py: the commands on dead-lettered jobs, without what they print.
use deal_screening_agent.Prelude.{
  if◌then◌else◌, is_some, Bool-cases, select, first, All-select, All-map, ℕ, String, ◌≡◌, refl, inl,
  inr, Bool, true, false, not, ◌&&◌, Option, none, some, List, [], ◌∷◌, ◌++◌, str_eq,
}
use deal_screening_agent.Prelude.Exec.{Result, ok, err, Exec}
use deal_screening_agent.Models.Enums.{pending, is_dead_lettered}
use deal_screening_agent.Models.Job.{BackgroundJob}
use deal_screening_agent.Jobs.Registry.{
  JobError, HandlerRegistration, Registry, lookup, is_registered,
}
use deal_screening_agent.Jobs.Queue.{new_job, enqueue, has_id}
use deal_screening_agent.Jobs.Queue.Rows.{IsValidRow, AllValid}

-- the id of the new job, as what the command reports
abbrev as_some : {S : Type 0} → Result JobError ℕ × S → Result JobError (Option ℕ) × S
as_some (ok id, s) = (ok (some id), s)
as_some (err e, s) = (err e, s)

module _ {P : Type 0} where
  -- WHERE job_id = … AND state = DEAD_LETTERED
  abbrev pub is_dead : ℕ → BackgroundJob P → Bool
  is_dead job_id j = has_id job_id j && is_dead_lettered j.state

  -- the rows that `list-dead-letter` shows; their order is left out
  unfoldable pub list_dead_letter : Option String → List (BackgroundJob P) → List (BackgroundJob P)
  list_dead_letter none jobs = select (λ j. is_dead_lettered j.state) jobs
  list_dead_letter (some t) jobs =
      select (λ j. is_dead_lettered j.state && str_eq j.job_type t) jobs

  abbrev retry_found :
      Registry P
      → (P → Option String)
      → ℕ
      → ℕ
      → Option (BackgroundJob P)
      → Exec (List (BackgroundJob P)) JobError (Option ℕ)
  retry_found registry payload_tenant new_id now none jobs = (ok none, jobs)
  retry_found registry payload_tenant new_id now (some job) jobs =
      if is_registered job.job_type registry
      then as_some (
          enqueue registry payload_tenant new_id now job.job_type job.payload none job.trace_context
            none job.tenant_id jobs)
      else (ok none, jobs)

  -- `none` where the command reports that it cannot retry
  unfoldable pub retry_job :
      Registry P
      → (P → Option String)
      → ℕ
      → ℕ
      → ℕ
      → Exec (List (BackgroundJob P)) JobError (Option ℕ)
  unfolding is_registered enqueue
  retry_job registry payload_tenant new_id now job_id jobs =
      retry_found registry payload_tenant new_id now (first (is_dead job_id) jobs) jobs

  -- whether a row was deleted
  unfoldable pub drop_job : ℕ → List (BackgroundJob P) → Bool × List (BackgroundJob P)
  drop_job job_id jobs =
      if is_some (first (is_dead job_id) jobs)
      then (true, select (λ j. not (has_id job_id j)) jobs)
      else (false, jobs)

  select-AllValid :
      (p : BackgroundJob P → Bool) (jobs : List (BackgroundJob P))
      → AllValid jobs
      → AllValid (select p jobs)
  select-AllValid p jobs v = All-map (λ j h. h.0) _ (All-select IsValidRow p jobs v)

  pub drop_job-AllValid :
      (job_id : ℕ) (jobs : List (BackgroundJob P))
      → AllValid jobs
      → AllValid (drop_job job_id jobs).1
  unfolding drop_job
  drop_job-AllValid job_id jobs v = elim (Bool-cases (is_some (first (is_dead job_id) jobs))) [
    | inl e ↦ rw e (select-AllValid (λ j. not (has_id job_id j)) jobs v)
    | inr e ↦ rw e v
  ]

  -- A command on a job that is not dead-lettered changes nothing.
  pub admin_only_dead :
      (registry : Registry P) (payload_tenant : P → Option String) (new_id now job_id : ℕ)
      (jobs : List (BackgroundJob P))
      → first (is_dead job_id) jobs ≡ none
      → (retry_job registry payload_tenant new_id now job_id jobs ≡ (ok none, jobs))
        × (drop_job job_id jobs ≡ (false, jobs))
  unfolding retry_job drop_job
  admin_only_dead registry payload_tenant new_id now job_id jobs e = rw e (refl, refl)

  -- A retry of a dead-lettered job of a registered type, whose payload still validates, adds one
  -- fresh PENDING job with the same type and payload and no attempts, and leaves every row as it is.
  pub retry_job_adds :
      (registry : Registry P) (payload_tenant : P → Option String) (new_id now job_id : ℕ)
      (jobs : List (BackgroundJob P)) (job : BackgroundJob P) (reg : HandlerRegistration P)
      → first (is_dead job_id) jobs ≡ some job
      → lookup job.job_type registry ≡ some reg
      → reg.validates job.payload ≡ true
      → (fresh : BackgroundJob P) × (retry_job registry payload_tenant new_id now job_id jobs
          ≡ (ok (some new_id), jobs ++ fresh ∷ []))
        × (fresh.state ≡ pending)
        × (fresh.attempts ≡ 0)
        × (fresh.job_type ≡ job.job_type)
        × (fresh.payload ≡ job.payload)
        × (fresh.max_attempts ≡ reg.max_attempts)
  unfolding retry_job new_job
  retry_job_adds registry payload_tenant new_id now job_id jobs job reg e l v = (
    new_job new_id now job.job_type job.payload reg.max_attempts none job.trace_context none
        (if is_some job.tenant_id then job.tenant_id else payload_tenant job.payload),
    rw (e, l, v),
    refl,
    refl,
    refl,
    refl,
    refl,
  )

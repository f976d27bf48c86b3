-- ===== src/Jobs/Worker/Execution.antt =====
-- What a worker leaves behind.
use deal_screening_agent.Prelude.{
  if◌then◌else◌, Bool-cases, first, first-update, ℕ, String, ◌≡◌, refl, inl, inr, Bool, true,
  Option, some, List,
}
use deal_screening_agent.Prelude.Exec.{Result, ok, err}
use deal_screening_agent.Models.Job.{BackgroundJob}
use deal_screening_agent.Jobs.Registry.{JobError, is_non_retryable, Registry, get_handler}
use deal_screening_agent.Jobs.Queue.{
  has_id, as_running, as_succeeded, mark_running, mark_succeeded, gives_up, as_dead_lettered,
  as_retrying, mark_failed,
}
use deal_screening_agent.Jobs.Worker.{
  JobContext, error_text, job_context, admits, finish_job, execute_job,
}

module _ {P : Type 0} where
  -- the row of a job's id
  abbrev pub row_of : ℕ → List (BackgroundJob P) → Option (BackgroundJob P)
  row_of job_id = first (has_id job_id)

  -- How the row looks after a run of the handler that ended so.
  abbrev pub ended :
      (String → String)
      → ℕ
      → ℕ
      → BackgroundJob P
      → Result JobError Unit
      → BackgroundJob P
      → BackgroundJob P
  ended scrub now draw job (ok _) row = as_succeeded now (as_running row)
  ended scrub now draw job (err e) row =
      if gives_up job (is_non_retryable e)
      then as_dead_lettered now job (scrub (error_text e)) (as_running row)
      else as_retrying now draw job (scrub (error_text e)) (as_running row)

  module _ (registry : Registry P) (scrub : String → String)
      (handler : P → JobContext → Result JobError Unit) (now later draw : ℕ)
      (job row : BackgroundJob P) (jobs : List (BackgroundJob P))
      (stored : row_of job.job_id jobs ≡ some row) where
    mark_failed-row :
        (now' : ℕ) (error : String) (non_retryable : Bool) (jobs' : List (BackgroundJob P))
        (row' : BackgroundJob P)
        → row_of job.job_id jobs' ≡ some row'
        → row_of job.job_id (mark_failed scrub now' draw job error non_retryable jobs')
          ≡ some (
              if gives_up job non_retryable
              then as_dead_lettered now' job (scrub error) row'
              else as_retrying now' draw job (scrub error) row')
    unfolding mark_failed
    mark_failed-row now' error non_retryable jobs' row' e =
        elim (Bool-cases (gives_up job non_retryable)) [
          | inl g ↦ rw (
            g,
            first-update (has_id job.job_id) (as_dead_lettered now' job (scrub error)) jobs'
                (λ j h. h),
            e,
          )
          | inr g ↦ rw (
            g,
            first-update (has_id job.job_id) (as_retrying now' draw job (scrub error)) jobs'
                (λ j h. h),
            e,
          )
        ]

    running_row : row_of job.job_id (mark_running job jobs) ≡ some (as_running row)
    unfolding mark_running
    running_row = rw (first-update (has_id job.job_id) as_running jobs (λ j h. h), stored)

    finish_job-row :
        (outcome : Result JobError Unit)
        → row_of job.job_id (finish_job scrub later draw job outcome (mark_running job jobs))
          ≡ some (ended scrub later draw job outcome row)
    unfolding finish_job mark_succeeded
    finish_job-row (ok _) = rw (
      first-update (has_id job.job_id) (as_succeeded later) (mark_running job jobs) (λ j h. h),
      running_row,
    )
    finish_job-row (err e) =
        mark_failed-row later (error_text e) (is_non_retryable e) (mark_running job jobs)
          (as_running row) running_row

    -- The row after a run, by the columns that the code writes.
    pub execute_job-ended :
        row_of job.job_id (execute_job registry scrub handler now later draw job jobs)
        ≡ some (elim (admits (get_handler job.job_type registry) job.payload) [
          | err e ↦ as_dead_lettered now job (scrub e) row
          | ok _ ↦ ended scrub later draw job (handler job.payload (job_context job)) row
        ])
    unfolding execute_job
    execute_job-ended = go (admits (get_handler job.job_type registry) job.payload) refl
      where
        go :
            (a : Result String Unit)
            → admits (get_handler job.job_type registry) job.payload ≡ a
            → row_of job.job_id (execute_job registry scrub handler now later draw job jobs)
              ≡ some (elim (admits (get_handler job.job_type registry) job.payload) [
                | err e ↦ as_dead_lettered now job (scrub e) row
                | ok _ ↦ ended scrub later draw job (handler job.payload (job_context job)) row
              ])
        go (ok x) k = rw (k, execute_job) (finish_job-row (handler job.payload (job_context job)))
        go (err e) k = rw (k, execute_job) (mark_failed-row now e true jobs row stored)

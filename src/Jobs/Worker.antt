-- ===== src/Jobs/Worker.antt =====
-- src/app/background_jobs/worker.py: `_execute_job`. Each `async with session.begin()` is one change
-- of the table; what runs between two of them is not held back, so the parts of the method before
-- and after the handler are two functions. Of the polling loop a round is modelled, without its
-- sleep and without the catch-all that logs.
pub mod Runs
pub mod Ends
pub mod Execution
pub mod Work
pub mod Done
pub mod Progress
use deal_screening_agent.Prelude.{
  if◌then◌else◌, ℕ, ◌+◌, String, Bool, true, false, Option, none, some, List,
}
use deal_screening_agent.Prelude.Exec.{Result, ok, err}
use deal_screening_agent.Models.Job.{BackgroundJob}
use deal_screening_agent.Jobs.Registry.{
  JobError, other_error, is_non_retryable, HandlerRegistration, Registry, get_handler,
}
use deal_screening_agent.Jobs.Queue.{claim, mark_running, mark_succeeded, mark_failed}

pub record JobContext : Type 0 where
  pub job_id : ℕ
  pub job_type : String
  pub attempt : ℕ
  pub trace_context : Option String
  pub tenant_id : Option String

-- `str(exc)`; of the errors that are not retried the model keeps no text
abbrev pub error_text : JobError → String
error_text (other_error text) = text
error_text _ = "not retryable"

-- What a slot of the worker is given for a round of its loop: the rows that others have locked,
-- the times, the draw of the backoff, and how its handler ends.
pub record Round (P : Type 0) : Type 0 where
  pub locked : ℕ → Bool
  pub worker_id : ℕ
  pub ttl : ℕ
  pub now : ℕ
  pub later : ℕ
  pub draw : ℕ
  pub handler : P → JobContext → Result JobError Unit

module _ {P : Type 0} where
  abbrev pub job_context : BackgroundJob P → JobContext
  job_context job = record {
    job_id = job.job_id;
    job_type = job.job_type;
    attempt = job.attempts + 1;
    trace_context = job.trace_context;
    tenant_id = job.tenant_id;
  }

  -- What the code does with a job before its handler runs: it is refused, or it goes on.
  abbrev pub admits : Result JobError (HandlerRegistration P) → P → Result String Unit
  admits (err e) payload = err "Unknown job type"
  admits (ok reg) payload = if reg.validates payload then ok tt else err "Schema validation failed"

  abbrev begin_with :
      (String → String)
      → ℕ
      → ℕ
      → BackgroundJob P
      → Result String Unit
      → List (BackgroundJob P)
      → Bool × List (BackgroundJob P)
  begin_with scrub now draw job (err e) jobs = (false, mark_failed scrub now draw job e true jobs)
  begin_with scrub now draw job (ok _) jobs = (true, mark_running job jobs)

  -- up to `await reg.handler(…)`: whether the handler is called
  unfoldable pub begin_job :
      Registry P
      → (String → String)
      → ℕ
      → ℕ
      → BackgroundJob P
      → List (BackgroundJob P)
      → Bool × List (BackgroundJob P)
  unfolding get_handler mark_failed mark_running
  begin_job registry scrub now draw job =
      begin_with scrub now draw job (admits (get_handler job.job_type registry) job.payload)

  -- after the handler has returned or raised
  unfoldable pub finish_job :
      (String → String)
      → ℕ
      → ℕ
      → BackgroundJob P
      → Result JobError Unit
      → List (BackgroundJob P)
      → List (BackgroundJob P)
  unfolding mark_failed mark_succeeded
  finish_job scrub now draw job (ok _) jobs = mark_succeeded now job jobs
  finish_job scrub now draw job (err e) jobs =
      mark_failed scrub now draw job (error_text e) (is_non_retryable e) jobs

  -- `_execute_job`, with no other transaction in between. `handler` is the handler's outcome.
  unfoldable pub execute_job :
      Registry P
      → (String → String)
      → (P → JobContext → Result JobError Unit)
      → ℕ
      → ℕ
      → ℕ
      → BackgroundJob P
      → List (BackgroundJob P)
      → List (BackgroundJob P)
  unfolding begin_job finish_job
  execute_job registry scrub handler now later draw job jobs =
      let (runs, jobs') = begin_job registry scrub now draw job jobs in
      if runs
      then finish_job scrub later draw job (handler job.payload (job_context job)) jobs'
      else jobs'

  abbrev pub after_claim :
      Registry P
      → (String → String)
      → Round P
      → Option (BackgroundJob P) × List (BackgroundJob P)
      → Bool × List (BackgroundJob P)
  after_claim registry scrub r (none, jobs) = (false, jobs)
  after_claim registry scrub r (some job, jobs) =
      (true, execute_job registry scrub r.handler r.now r.later r.draw job jobs)

  -- A round of `_claim_loop`, and whether it had a job.
  unfoldable pub claim_round :
      Registry P
      → (String → String)
      → Round P
      → List (BackgroundJob P)
      → Bool × List (BackgroundJob P)
  unfolding claim execute_job
  claim_round registry scrub r jobs =
      after_claim registry scrub r (claim r.locked r.worker_id r.now r.ttl jobs)

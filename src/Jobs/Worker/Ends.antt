-- ===== src/Jobs/Worker/Ends.antt =====
-- The ways in which a run of a job may end, said of its row.
use deal_screening_agent.Prelude.{ℕ, ◌+◌, ◌*◌, ◌≤◌, ◌<◌, String, ◌≡◌, ◌⊎◌, true, false, none, some}
use deal_screening_agent.Prelude.Exec.{Result, ok, err}
use deal_screening_agent.Models.Enums.{pending, succeeded, dead_lettered}
use deal_screening_agent.Models.Job.{BackgroundJob}
use deal_screening_agent.Jobs.Backoff.{base_delay}
use deal_screening_agent.Jobs.Registry.{JobError, is_non_retryable}
use deal_screening_agent.Jobs.Worker.{error_text}

-- the handler's outcome, unless the job is refused
abbrev pub outcome_of :
    Result String Unit → Result JobError Unit → Result String (Result JobError Unit)
outcome_of (err refusal) outcome = err refusal
outcome_of (ok _) outcome = ok outcome

module _ {P : Type 0} where
  -- the columns that only clients set are as they were, and no worker holds the row
  abbrev pub IsSameJob : BackgroundJob P → BackgroundJob P → Type 0
  IsSameJob row after =
      (after.job_id ≡ row.job_id)
      × (after.job_type ≡ row.job_type)
      × (after.payload ≡ row.payload)
      × (after.max_attempts ≡ row.max_attempts)
      × (after.claimed_by ≡ none)
      × (after.claim_expires_at ≡ none)

  -- dead, with an attempt more and the error
  abbrev pub IsDead : ℕ → ℕ → String → BackgroundJob P → Type 0
  IsDead now attempts error after =
      (after.state ≡ dead_lettered)
      × (after.attempts ≡ attempts + 1)
      × (after.last_error ≡ some error)
      × (after.dead_lettered_at ≡ some now)

  -- waiting with an attempt more and one left, for three quarters of the base delay at least
  abbrev pub IsRetried : ℕ → ℕ → ℕ → String → BackgroundJob P → Type 0
  IsRetried now attempts max_attempts error after =
      (after.state ≡ pending)
      × (after.attempts ≡ attempts + 1)
      × (attempts + 1 < max_attempts)
      × (after.last_error ≡ some error)
      × (now + 3 * base_delay attempts * 250000 ≤ after.not_before)

  -- succeeded, with no attempt more
  abbrev pub IsSuccess : ℕ → BackgroundJob P → BackgroundJob P → Type 0
  IsSuccess now row after =
      (after.state ≡ succeeded)
      × (after.attempts ≡ row.attempts)
      × (after.last_error ≡ row.last_error)
      × (after.succeeded_at ≡ some now)

  -- one of these, by whether the job was refused and by how its handler ended
  abbrev pub EndsAs :
      (String → String)
      → ℕ
      → ℕ
      → BackgroundJob P
      → Result String (Result JobError Unit)
      → BackgroundJob P
      → BackgroundJob P
      → Type 0
  EndsAs scrub now later job (err refusal) row after = IsDead now job.attempts (scrub refusal) after
  EndsAs scrub now later job (ok (ok _)) row after = IsSuccess later row after
  EndsAs scrub now later job (ok (err e)) row after =
      (((is_non_retryable e ≡ true) ⊎ (job.max_attempts ≤ job.attempts + 1))
        × IsDead later job.attempts (scrub (error_text e)) after)
      ⊎ ((is_non_retryable e ≡ false)
          × IsRetried later job.attempts job.max_attempts (scrub (error_text e)) after)

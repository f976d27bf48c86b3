-- ===== src/Jobs/Worker/Runs.antt =====
-- A round of the worker as one change of the row that it claims.
use deal_screening_agent.Prelude.{
  if◌then◌else◌, update, ◌<◌, String, ◌≡◌, refl, ap, ◌∙◌, Bool, true, false, Option, none, some,
  List, arith,
}
use deal_screening_agent.Prelude.Exec.{Result, ok, err}
use deal_screening_agent.Models.Enums.{is_pending}
use deal_screening_agent.Models.Job.{BackgroundJob}
use deal_screening_agent.Jobs.Registry.{JobError, is_non_retryable, Registry, get_handler}
use deal_screening_agent.Jobs.Queue.{
  has_id, claimed_job, claim, as_running, gives_up, as_dead_lettered, as_retrying,
}
use deal_screening_agent.Jobs.Worker.{error_text, Round, job_context, admits, claim_round}
use deal_screening_agent.Jobs.Worker.Execution.{ended}
use deal_screening_agent.Jobs.Queue.Claim.{choice}
use deal_screening_agent.Jobs.Queue.Rows.{
  IsValidRow, IsCurrent, claimed_job-IsValidRow, as_running-IsValidRow, as_succeeded-IsValidRow,
  as_dead_lettered-IsValidRow, as_retrying-IsValidRow,
}
use deal_screening_agent.Jobs.Worker.Work.{work, update-update}
use deal_screening_agent.Jobs.Worker.Done.{done, execute_job-update}

module _ {P : Type 0} where
  module _ (registry : Registry P) (scrub : String → String) (r : Round P) where
    abbrev pub chosen : List (BackgroundJob P) → Option (BackgroundJob P)
    chosen jobs = choice r.locked r.worker_id r.now r.ttl jobs

    -- the change of the chosen row in the round
    abbrev pub run : BackgroundJob P → BackgroundJob P → BackgroundJob P
    run was j =
        done registry scrub r (claimed_job r.worker_id r.now r.ttl was)
          (admits (get_handler was.job_type registry) was.payload)
          (claimed_job r.worker_id r.now r.ttl j)

    pub claim_round-none :
        (jobs : List (BackgroundJob P))
        → chosen jobs ≡ none
        → claim_round registry scrub r jobs ≡ (false, jobs)
    unfolding claim_round claim
    claim_round-none jobs e = rw (e, claim_round, claim) refl

    pub claim_round-some :
        (jobs : List (BackgroundJob P)) (was : BackgroundJob P)
        → chosen jobs ≡ some was
        → claim_round registry scrub r jobs ≡ (true, update (has_id was.job_id) (run was) jobs)
    unfolding claim_round claim
    claim_round-some jobs was e =
        rw (e, claim_round, claim)
          (ap (λ js. (true, js))
            (execute_job-update registry scrub r (claimed_job r.worker_id r.now r.ttl was)
                (update (has_id was.job_id) (claimed_job r.worker_id r.now r.ttl) jobs)
              ∙ update-update (has_id was.job_id) (claimed_job r.worker_id r.now r.ttl) _ jobs
                  (λ j. refl)))

    -- a row of the job after its run: it has less work left, the same id, and is valid
    pub record Ran (was after : BackgroundJob P) : Type 0 where
      pub less : work after < work was
      pub same : after.job_id ≡ was.job_id
      pub valid : IsValidRow after

    pub run-Ran :
        (was : BackgroundJob P)
        → is_pending was.state ≡ true
        → IsValidRow was
        → Ran was (run was was)
    run-Ran was p v = by_admission (admits (get_handler was.job_type registry) was.payload)
      where
        job : BackgroundJob P
        job = claimed_job r.worker_id r.now r.ttl was

        job_valid : IsValidRow job
        job_valid = claimed_job-IsValidRow r.worker_id r.now r.ttl was p v

        current : IsCurrent job job
        current = record { held = refl; same_attempts = refl; same_limit = refl }

        running_valid : IsValidRow (as_running job)
        running_valid = as_running-IsValidRow job job current job_valid

        running_current : IsCurrent job (as_running job)
        running_current = record { held = refl; same_attempts = refl; same_limit = refl }

        by_outcome : (o : Result JobError Unit) → Ran was (ended scrub r.later r.draw job o job)
        by_outcome (ok x) = record {
          less = ground (arith, v.attempt_left);
          same = refl;
          valid = as_succeeded-IsValidRow r.later (as_running job) running_valid;
        }
        by_outcome (err e) = by_test (gives_up job (is_non_retryable e)) refl
          where
            text : String
            text = scrub (error_text e)

            by_test :
                (b : Bool)
                → gives_up job (is_non_retryable e) ≡ b
                → Ran was (
                    if b
                    then as_dead_lettered r.later job text (as_running job)
                    else as_retrying r.later r.draw job text (as_running job))
            by_test true g = record {
              less = ground (arith, v.attempt_left);
              same = refl;
              valid =
                  as_dead_lettered-IsValidRow r.later text job (as_running job) running_current
                    running_valid;
            }
            by_test false g = record {
              less = ground (arith, v.attempt_left);
              same = refl;
              valid =
                  as_retrying-IsValidRow r.later r.draw text job (as_running job) (ground arith)
                    running_current running_valid;
            }

        by_admission : (a : Result String Unit) → Ran was (done registry scrub r job a job)
        by_admission (err e) = record {
          less = ground (arith, v.attempt_left);
          same = refl;
          valid = as_dead_lettered-IsValidRow r.now (scrub e) job job current job_valid;
        }
        by_admission (ok x) = by_outcome (r.handler was.payload (job_context job))

-- ===== src/Jobs/Worker/Done.antt =====
-- A run of a job as one change of its row.
use deal_screening_agent.Prelude.{
  if◌then◌else◌, if-intro, update, String, ◌≡◌, refl, ◌∙◌, Bool, true, false, List,
}
use deal_screening_agent.Prelude.Exec.{Result, ok, err}
use deal_screening_agent.Models.Job.{BackgroundJob}
use deal_screening_agent.Jobs.Registry.{JobError, is_non_retryable, Registry, get_handler}
use deal_screening_agent.Jobs.Queue.{
  has_id, as_running, as_succeeded, mark_running, mark_succeeded, gives_up, as_dead_lettered,
  as_retrying, mark_failed,
}
use deal_screening_agent.Jobs.Worker.{
  error_text, Round, job_context, admits, finish_job, execute_job,
}
use deal_screening_agent.Jobs.Worker.Execution.{ended}
use deal_screening_agent.Jobs.Worker.Work.{update-update}

module _ {P : Type 0} where
  module _ (registry : Registry P) (scrub : String → String) (r : Round P) where
    -- the row of a claimed job after the round
    abbrev pub done : BackgroundJob P → Result String Unit → BackgroundJob P → BackgroundJob P
    done job (err e) row = as_dead_lettered r.now job (scrub e) row
    done job (ok _) row =
        ended scrub r.later r.draw job (r.handler job.payload (job_context job)) row

    finish_job-update :
        (job : BackgroundJob P) (jobs : List (BackgroundJob P)) (outcome : Result JobError Unit)
        → finish_job scrub r.later r.draw job outcome (mark_running job jobs)
          ≡ update (has_id job.job_id) (ended scrub r.later r.draw job outcome) jobs
    unfolding finish_job mark_running mark_succeeded mark_failed
    finish_job-update job jobs (ok _) =
        update-update (has_id job.job_id) as_running (as_succeeded r.later) jobs λ j. refl
    finish_job-update job jobs (err e) =
        update-update (has_id job.job_id) as_running _ jobs (λ j. refl)
        ∙ by_test (gives_up job (is_non_retryable e))
      where
        dead : BackgroundJob P → BackgroundJob P
        dead = as_dead_lettered r.later job (scrub (error_text e))

        retried : BackgroundJob P → BackgroundJob P
        retried = as_retrying r.later r.draw job (scrub (error_text e))

        by_test :
            (b : Bool)
            → update (has_id job.job_id) (λ j. (if b then dead else retried) (as_running j)) jobs
              ≡ update
                  (has_id job.job_id)
                  (λ j. if b then dead (as_running j) else retried (as_running j))
                  jobs
        by_test true = refl
        by_test false = refl

    pub execute_job-update :
        (job : BackgroundJob P) (jobs : List (BackgroundJob P))
        → execute_job registry scrub r.handler r.now r.later r.draw job jobs
          ≡ update
              (has_id job.job_id)
              (done job (admits (get_handler job.job_type registry) job.payload))
              jobs
    unfolding execute_job mark_failed
    execute_job-update job jobs = go (admits (get_handler job.job_type registry) job.payload) refl
      where
        go :
            (a : Result String Unit)
            → admits (get_handler job.job_type registry) job.payload ≡ a
            → execute_job registry scrub r.handler r.now r.later r.draw job jobs
              ≡ update
                  (has_id job.job_id)
                  (done job (admits (get_handler job.job_type registry) job.payload))
                  jobs
        go (ok x) k =
            rw (k, execute_job)
              (finish_job-update job jobs (r.handler job.payload (job_context job)))
        go (err e) k = rw (k, execute_job) refl

    pub done-same :
        (job row : BackgroundJob P) (a : Result String Unit) → (done job a row).job_id ≡ row.job_id
    done-same job row (err e) = refl
    done-same job row (ok x) = by_outcome (r.handler job.payload (job_context job))
      where
        by_outcome :
            (o : Result JobError Unit) → (ended scrub r.later r.draw job o row).job_id ≡ row.job_id
        by_outcome (ok y) = refl
        by_outcome (err e) =
            if-intro (λ (j : BackgroundJob P). j.job_id ≡ row.job_id)
              (gives_up job (is_non_retryable e)) refl refl

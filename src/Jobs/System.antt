-- ===== src/Jobs/System.antt =====
-- The queue as a transition system: clients, workers, the reaper and the admin commands, in any
-- order. A worker's step on its snapshot asks that the claim still stands; `Queue/Outcome` shows
-- what happens when it does not.
pub mod Phases
pub mod Refinement
use deal_screening_agent.Prelude.{
  is_some, Bool-cases, first, ℕ, String, refl, inl, inr, Bool, not, Option, List,
}
use deal_screening_agent.Models.Job.{BackgroundJob}
use deal_screening_agent.Jobs.Queue.{
  enqueue, has_id, claim, as_running, as_succeeded, mark_running, mark_succeeded, gives_up,
  as_dead_lettered, as_retrying, mark_failed, has_expired, as_reaped, reap_expired_claims,
}
use deal_screening_agent.Jobs.Queue.Claim.{UniqueIds}
use deal_screening_agent.Jobs.Queue.Rows.{
  AllValid, Holds, mark_running-AllValid, mark_succeeded-AllValid, mark_failed-AllValid,
  reap_expired_claims-AllValid, TakesAttempts, enqueue-AllValid,
}
use deal_screening_agent.Jobs.Registry.{Registry}
use deal_screening_agent.Jobs.Admin.{is_dead, drop_job, drop_job-AllValid}
use deal_screening_agent.Jobs.Ids.{
  IsFresh, UniqueIds-update, UniqueIds-select, claim-AllValid, claim-UniqueIds, enqueue-UniqueIds,
}

module _ {P : Type 0} (registry : Registry P) (payload_tenant : P → Option String)
    (scrub : String → String) where
  -- One transaction of a client, a worker, the reaper or the admin commands.
  pub data Step : List (BackgroundJob P) → List (BackgroundJob P) → Type 0 where
    enqueues :
        (jobs : List (BackgroundJob P)) (id now : ℕ) (job_type : String) (payload : P)
        (key trace : Option String) (not_before : Option ℕ) (tenant : Option String)
        → IsFresh id jobs
        → Step jobs
            (enqueue registry payload_tenant id now job_type payload key trace not_before tenant
              jobs).1
    claims :
        (jobs : List (BackgroundJob P)) (locked : ℕ → Bool) (worker_id now ttl : ℕ)
        → Step jobs (claim locked worker_id now ttl jobs).1
    starts :
        (jobs : List (BackgroundJob P)) (s : BackgroundJob P)
        → Holds s jobs
        → Step jobs (mark_running s jobs)
    succeeds :
        (jobs : List (BackgroundJob P)) (s : BackgroundJob P) (now : ℕ)
        → Holds s jobs
        → Step jobs (mark_succeeded now s jobs)
    fails :
        (jobs : List (BackgroundJob P)) (s : BackgroundJob P) (now draw : ℕ) (error : String)
        (non_retryable : Bool)
        → Holds s jobs
        → Step jobs (mark_failed scrub now draw s error non_retryable jobs)
    reaps : (jobs : List (BackgroundJob P)) (now : ℕ) → Step jobs (reap_expired_claims now jobs).1
    drops : (jobs : List (BackgroundJob P)) (id : ℕ) → Step jobs (drop_job id jobs).1

  pub data Reach (start : List (BackgroundJob P)) : List (BackgroundJob P) → Type 0 where
    here : Reach start start
    next :
        {jobs jobs' : List (BackgroundJob P)}
        → Reach start jobs
        → Step jobs jobs'
        → Reach start jobs'

  mark_failed-UniqueIds :
      (s : BackgroundJob P) (now draw : ℕ) (error : String) (non_retryable : Bool)
      (jobs : List (BackgroundJob P))
      → UniqueIds jobs
      → UniqueIds (mark_failed scrub now draw s error non_retryable jobs)
  unfolding mark_failed
  mark_failed-UniqueIds s now draw error non_retryable jobs u =
      elim (Bool-cases (gives_up s non_retryable)) [
        | inl g ↦ rw g (
            UniqueIds-update (has_id s.job_id) (as_dead_lettered now s (scrub error)) jobs
              (λ j. refl) u)
        | inr g ↦ rw g (
            UniqueIds-update (has_id s.job_id) (as_retrying now draw s (scrub error)) jobs
              (λ j. refl) u)
      ]

  pub Step-UniqueIds :
      {jobs jobs' : List (BackgroundJob P)} → Step jobs jobs' → UniqueIds jobs → UniqueIds jobs'
  unfolding mark_running mark_succeeded reap_expired_claims drop_job
  Step-UniqueIds (enqueues jobs id now job_type payload key trace not_before tenant n) u =
      enqueue-UniqueIds registry payload_tenant id now job_type payload key trace not_before tenant
        jobs n u
  Step-UniqueIds (claims jobs locked worker_id now ttl) u =
      claim-UniqueIds locked worker_id now ttl jobs u
  Step-UniqueIds (starts jobs s h) u =
      UniqueIds-update (has_id s.job_id) as_running jobs (λ j. refl) u
  Step-UniqueIds (succeeds jobs s now h) u =
      UniqueIds-update (has_id s.job_id) (as_succeeded now) jobs (λ j. refl) u
  Step-UniqueIds (fails jobs s now draw error non_retryable h) u =
      mark_failed-UniqueIds s now draw error non_retryable jobs u
  Step-UniqueIds (reaps jobs now) u =
      UniqueIds-update (has_expired now) as_reaped jobs (λ j. refl) u
  Step-UniqueIds (drops jobs id) u = elim (Bool-cases (is_some (first (is_dead id) jobs))) [
    | inl e ↦ rw e (UniqueIds-select (λ j. not (has_id id j)) jobs u)
    | inr e ↦ rw e u
  ]

  module _ (t : TakesAttempts registry) where
    Step-AllValid :
        {jobs jobs' : List (BackgroundJob P)}
        → Step jobs jobs'
        → UniqueIds jobs
        → AllValid jobs
        → AllValid jobs'
    Step-AllValid (enqueues jobs id now job_type payload key trace not_before tenant n) u v =
        enqueue-AllValid payload_tenant id now job_type payload key trace not_before tenant jobs v
          registry t
    Step-AllValid (claims jobs locked worker_id now ttl) u v =
        claim-AllValid locked worker_id now ttl jobs u v
    Step-AllValid (starts jobs s h) u v = mark_running-AllValid s jobs h v
    Step-AllValid (succeeds jobs s now h) u v = mark_succeeded-AllValid now s jobs v
    Step-AllValid (fails jobs s now draw error non_retryable h) u v =
        mark_failed-AllValid scrub now draw s error non_retryable jobs h v
    Step-AllValid (reaps jobs now) u v = reap_expired_claims-AllValid now jobs v
    Step-AllValid (drops jobs id) u v = drop_job-AllValid id jobs v

    -- From a valid table with unique ids, every table that clients, workers whose claims stand, the
    -- reaper and the admin's drops reach is valid and has unique ids.
    pub Reach-AllValid :
        {start jobs : List (BackgroundJob P)}
        → UniqueIds start
        → AllValid start
        → Reach start jobs
        → UniqueIds jobs × AllValid jobs
    Reach-AllValid u v here = (u, v)
    Reach-AllValid u v (next r st) =
        let (u', v') = Reach-AllValid u v r in (Step-UniqueIds st u', Step-AllValid st u' v')

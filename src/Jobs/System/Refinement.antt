-- ===== src/Jobs/System/Refinement.antt =====
-- The tables of jobs refine the queue that its clients see.
use mathlib.Core.List.{Memᴰ}
use deal_screening_agent.Prelude.{
  Bool-cases, Option-cases, first, first_sound, All-first, All-map, All-intro, All-members, ℕ, ◌+◌,
  ◌-◌, String, ◌≡◌, refl, sym, subst, inl, inr, Bool, true, false, not, Option, none, some, List,
  arith,
}
use deal_screening_agent.Prelude.Exec.{Result, ok, err}
use deal_screening_agent.Models.Enums.{is_pending, is_held}
use deal_screening_agent.Models.Job.{BackgroundJob}
use deal_screening_agent.Jobs.Registry.{JobError, HandlerRegistration, Registry, get_handler}
use deal_screening_agent.Jobs.Queue.{
  new_job, has_key, insert_once, enqueue_with, enqueue, has_id, claimed_job, claim, as_running,
  as_succeeded, mark_running, mark_succeeded, gives_up, as_dead_lettered, as_retrying, mark_failed,
  has_expired, as_reaped, reap_expired_claims,
}
use deal_screening_agent.Jobs.Queue.Claim.{UniqueIds, choice, choice-claimable}
use deal_screening_agent.Jobs.Queue.Rows.{IsCurrent, Holds}
use deal_screening_agent.Jobs.Ids.{only_row, choice-only_row}
use deal_screening_agent.Jobs.Admin.{is_dead, drop_job}
use deal_screening_agent.Jobs.System.Phases.{
  Phase, held, dead, PhaseStep, stays, is_taken, is_returned, is_retried, finishes, dies, TableStep,
  Changes, none_yet, and_then, phase_in-held, phase_in-waiting, phase_in-dead, phase, view,
  same-TableStep, update-TableStep, append-TableStep, select-TableStep,
}
use deal_screening_agent.Jobs.System.{
  Step, enqueues, claims, starts, succeeds, fails, reaps, drops, Reach, here, next, Step-UniqueIds,
}

module _ {P : Type 0} where
  -- the moves of a held row
  held-PhaseStep :
      (q : Phase) (j : BackgroundJob P)
      → is_held j.state ≡ true
      → PhaseStep (held (j.max_attempts - j.attempts)) q
      → PhaseStep (phase j) q
  held-PhaseStep q j e h = rw (phase_in-held j.state (j.max_attempts - j.attempts) e) h

  as_retrying-PhaseStep :
      (now draw : ℕ) (error : String) (s j : BackgroundJob P)
      → gives_up s false ≡ false
      → IsCurrent s j
      → PhaseStep (phase j) (phase (as_retrying now draw s error j))
  as_retrying-PhaseStep now draw error s j g c = held-PhaseStep _ j c.held (
      is_retried (j.max_attempts - j.attempts) (j.max_attempts - (s.attempts + 1))
        (ground (arith, c.same_attempts, c.same_limit))
        (ground (arith, c.same_attempts, c.same_limit)))

  mark_failed-TableStep :
      (scrub : String → String) (s : BackgroundJob P) (now draw : ℕ) (error : String)
      (non_retryable : Bool) (jobs : List (BackgroundJob P))
      → Holds s jobs
      → TableStep (view jobs) (view (mark_failed scrub now draw s error non_retryable jobs))
  unfolding mark_failed
  mark_failed-TableStep scrub s now draw error non_retryable jobs h =
      elim (Bool-cases (gives_up s non_retryable)) [
        | inl g ↦ rw g (
            update-TableStep (has_id s.job_id) (as_dead_lettered now s (scrub error)) jobs
              (λ j. refl)
              (All-map
                (λ j c e. held-PhaseStep dead j (c e).held (dies (j.max_attempts - j.attempts)))
                jobs h))
        | inr g ↦ rw g (
            update-TableStep (has_id s.job_id) (as_retrying now draw s (scrub error)) jobs
              (λ j. refl)
              (All-map
                (λ j c e.
                  as_retrying-PhaseStep now draw (scrub error) s j (ground (arith, g)) (c e))
                jobs h))
      ]

  claim-TableStep :
      (locked : ℕ → Bool) (worker_id now ttl : ℕ) (jobs : List (BackgroundJob P))
      → UniqueIds jobs
      → TableStep (view jobs) (view (claim locked worker_id now ttl jobs).1)
  unfolding claim
  claim-TableStep locked worker_id now ttl jobs u =
      elim (Option-cases (choice locked worker_id now ttl jobs)) [
        | inl e ↦ rw (e, claim) (same-TableStep jobs)
        | inr (was, e) ↦
            let due = choice-claimable locked worker_id now ttl jobs was e in
            rw (e, claim)
              (update-TableStep (has_id was.job_id) (claimed_job worker_id now ttl) jobs (λ j. refl)
                (All-map
                  (λ j only h.
                    subst (λ x. PhaseStep (phase x) (phase (claimed_job worker_id now ttl x)))
                      (sym (only h)) (taken was (ground (arith, due))))
                  jobs (choice-only_row locked worker_id now ttl jobs was u e)))
      ]
    where
      taken :
          (j : BackgroundJob P)
          → is_pending j.state ≡ true
          → PhaseStep (phase j) (phase (claimed_job worker_id now ttl j))
      taken j e =
          rw (phase_in-waiting j.state (j.max_attempts - j.attempts) e)
            (is_taken (j.max_attempts - j.attempts))

  drop_job-TableStep :
      (id : ℕ) (jobs : List (BackgroundJob P))
      → UniqueIds jobs
      → TableStep (view jobs) (view (drop_job id jobs).1)
  unfolding drop_job
  drop_job-TableStep id jobs u = elim (Option-cases (first (is_dead id) jobs)) [
    | inl e ↦ rw e (same-TableStep jobs)
    | inr (was, e) ↦ rw e (
        select-TableStep (λ j. not (has_id id j)) jobs
          (All-map
            (λ j only h.
              let d = first_sound (is_dead id) jobs was e in
              let same : j ≡ was = only (ground (arith, d)) in
              rw same
                (phase_in-dead was.state (was.max_attempts - was.attempts) (ground (arith, d))))
            jobs
            (only_row was jobs u
              (All-first (λ j. Memᴰ j jobs) (is_dead id) jobs was (All-members jobs) e))))
  ]

  enqueue_with-TableStep :
      (r : Result JobError (HandlerRegistration P)) (payload_tenant : P → Option String)
      (id now : ℕ) (job_type : String) (payload : P) (key trace : Option String)
      (not_before : Option ℕ) (tenant : Option String) (jobs : List (BackgroundJob P))
      → TableStep (view jobs) (
          view
            (enqueue_with r payload_tenant id now job_type payload key trace not_before tenant
              jobs).1)
  unfolding insert_once new_job
  enqueue_with-TableStep (err e) payload_tenant id now job_type payload key trace not_before tenant
        jobs =
      same-TableStep jobs
  enqueue_with-TableStep (ok reg) payload_tenant id now job_type payload none trace not_before
        tenant jobs =
      elim (Bool-cases (reg.validates payload)) [
        | inl v ↦ rw v (append-TableStep jobs _ refl)
        | inr v ↦ rw v (same-TableStep jobs)
      ]
  enqueue_with-TableStep (ok reg) payload_tenant id now job_type payload (some key) trace not_before
        tenant jobs =
      elim (Bool-cases (reg.validates payload)) [
        | inr v ↦ rw v (same-TableStep jobs)
        | inl v ↦ elim (Option-cases (first (has_key job_type key) jobs)) [
          | inl e ↦ rw (v, e, insert_once) (append-TableStep jobs _ refl)
          | inr (x, e) ↦ rw (v, e, insert_once) (same-TableStep jobs)
        ]
      ]

  module _ (registry : Registry P) (payload_tenant : P → Option String)
      (scrub : String → String) where
    Step-TableStep :
        {jobs jobs' : List (BackgroundJob P)}
        → Step registry payload_tenant scrub jobs jobs'
        → UniqueIds jobs
        → TableStep (view jobs) (view jobs')
    unfolding mark_running mark_succeeded reap_expired_claims enqueue
    Step-TableStep (enqueues jobs id now job_type payload key trace not_before tenant n) u =
        enqueue_with-TableStep (get_handler job_type registry) payload_tenant id now job_type
          payload key trace not_before tenant jobs
    Step-TableStep (claims jobs locked worker_id now ttl) u =
        claim-TableStep locked worker_id now ttl jobs u
    Step-TableStep (starts jobs s h) u =
        update-TableStep (has_id s.job_id) as_running jobs (λ j. refl)
          (All-map
            (λ j c e. held-PhaseStep _ j (c e).held (stays (held (j.max_attempts - j.attempts))))
            jobs h)
    Step-TableStep (succeeds jobs s now h) u =
        update-TableStep (has_id s.job_id) (as_succeeded now) jobs (λ j. refl)
          (All-map (λ j c e. held-PhaseStep _ j (c e).held (finishes (j.max_attempts - j.attempts)))
            jobs h)
    Step-TableStep (fails jobs s now draw error non_retryable h) u =
        mark_failed-TableStep scrub s now draw error non_retryable jobs h
    Step-TableStep (reaps jobs now) u =
        update-TableStep (has_expired now) as_reaped jobs (λ j. refl)
          (All-intro
            (λ j e.
              held-PhaseStep _ j (ground (arith, e)) (is_returned (j.max_attempts - j.attempts)))
            jobs)
    Step-TableStep (drops jobs id) u = drop_job-TableStep id jobs u

    -- Whatever clients, workers whose claims stand, the reaper and the admin's drops do to a table
    -- with unique ids, the jobs only make moves of the abstract queue: one that waits is taken, one
    -- that is held is returned, retried with one attempt less and at least one left, finished or
    -- dead, and only a dead one is dropped.
    pub Reach-Changes :
        {start jobs : List (BackgroundJob P)}
        → UniqueIds start
        → Reach registry payload_tenant scrub start jobs
        → UniqueIds jobs × Changes (view start) (view jobs)
    Reach-Changes u here = (u, none_yet)
    Reach-Changes u (next r st) =
        let (u', c) = Reach-Changes u r in
        (Step-UniqueIds registry payload_tenant scrub st u', and_then c (Step-TableStep st u'))

-- ===== src/Jobs/Queue/Rows.antt =====
-- The invariant of a row of the queue, and the operations that keep it.
use deal_screening_agent.Prelude.{
  is_some, Bool-cases, Option-cases, first, update, All, All-append, All-update, ℕ, ◌≤◌, ◌<◌,
  String, ◌≡◌, refl, inl, inr, Bool, true, false, Option, none, some, List, [], ◌∷◌, arith, str_eq,
}
use deal_screening_agent.Models.Enums.{
  is_pending, is_held, is_succeeded, is_dead_lettered, is_terminal,
}
use deal_screening_agent.Models.Job.{BackgroundJob}
use deal_screening_agent.Jobs.Registry.{
  JobError, HandlerRegistration, Registry, lookup, get_handler,
}
use deal_screening_agent.Prelude.Exec.{Result, ok, err}
use deal_screening_agent.Jobs.Queue.{
  new_job, has_key, insert_once, enqueue_with, enqueue, has_id, claimed_job, as_running,
  as_succeeded, mark_running, mark_succeeded, gives_up, as_dead_lettered, as_retrying, mark_failed,
  has_expired, as_reaped, reap_expired_claims,
}

module _ {P : Type 0} where
  -- The check constraint attempts_bounded, an attempt left while the job is not finished, a claim
  -- exactly while the job is held, and the time of the end.
  pub record IsValidRow (j : BackgroundJob P) : Type 0 where
    pub bounded : j.attempts ≤ j.max_attempts
    pub attempt_left : is_terminal j.state ≡ false → j.attempts < j.max_attempts
    pub claimant : is_some j.claimed_by ≡ is_held j.state
    pub expiry : is_some j.claim_expires_at ≡ is_held j.state
    pub success_time : is_succeeded j.state ≡ true → is_some j.succeeded_at ≡ true
    pub dead_letter_time : is_dead_lettered j.state ≡ true → is_some j.dead_lettered_at ≡ true

  -- The row is held, as it was when the worker loaded its snapshot `s`.
  pub record IsCurrent (s j : BackgroundJob P) : Type 0 where
    pub held : is_held j.state ≡ true
    pub same_attempts : j.attempts ≡ s.attempts
    pub same_limit : j.max_attempts ≡ s.max_attempts

  abbrev pub AllValid : List (BackgroundJob P) → Type 0
  AllValid = All IsValidRow

  -- No reaper and no other worker has touched the rows of the snapshot's id.
  abbrev pub Holds : BackgroundJob P → List (BackgroundJob P) → Type 0
  Holds s = All (λ j. has_id s.job_id j ≡ true → IsCurrent s j)

  pub claimed_job-IsValidRow :
      (worker_id now ttl : ℕ) (j : BackgroundJob P)
      → is_pending j.state ≡ true
      → IsValidRow j
      → IsValidRow (claimed_job worker_id now ttl j)
  claimed_job-IsValidRow worker_id now ttl j p v = ground (arith, v.attempt_left)

  pub as_running-IsValidRow :
      (s j : BackgroundJob P) → IsCurrent s j → IsValidRow j → IsValidRow (as_running j)
  as_running-IsValidRow s j c v = ground (arith, v.attempt_left)

  pub as_succeeded-IsValidRow :
      (now : ℕ) (j : BackgroundJob P) → IsValidRow j → IsValidRow (as_succeeded now j)
  as_succeeded-IsValidRow now j v = ground arith

  pub as_dead_lettered-IsValidRow :
      (now : ℕ) (error : String) (s j : BackgroundJob P)
      → IsCurrent s j
      → IsValidRow j
      → IsValidRow (as_dead_lettered now s error j)
  as_dead_lettered-IsValidRow now error s j c v = ground (arith, v.attempt_left)

  pub as_retrying-IsValidRow :
      (now draw : ℕ) (error : String) (s j : BackgroundJob P)
      → gives_up s false ≡ false
      → IsCurrent s j
      → IsValidRow j
      → IsValidRow (as_retrying now draw s error j)
  as_retrying-IsValidRow now draw error s j g c v = ground (arith, v.attempt_left)

  as_reaped-IsValidRow :
      (j : BackgroundJob P) → is_held j.state ≡ true → IsValidRow j → IsValidRow (as_reaped j)
  as_reaped-IsValidRow j h v = ground (arith, v.attempt_left)

  -- A change of the rows of a snapshot's id keeps the table valid, if it keeps the current rows so.
  update-AllValid :
      (s : BackgroundJob P) (f : BackgroundJob P → BackgroundJob P) (jobs : List (BackgroundJob P))
      → ((j : BackgroundJob P) → IsCurrent s j → IsValidRow j → IsValidRow (f j))
      → Holds s jobs
      → AllValid jobs
      → AllValid (update (has_id s.job_id) f jobs)
  update-AllValid s f [] k h v = tt
  update-AllValid s f (j ∷ jobs) k h v = elim (Bool-cases (has_id s.job_id j)) [
    | inl e ↦ rw e (k j (h.0 e) v.0, update-AllValid s f jobs k h.1 v.1)
    | inr e ↦ rw e (v.0, update-AllValid s f jobs k h.1 v.1)
  ]

  pub mark_running-AllValid :
      (s : BackgroundJob P) (jobs : List (BackgroundJob P))
      → Holds s jobs
      → AllValid jobs
      → AllValid (mark_running s jobs)
  unfolding mark_running
  mark_running-AllValid s jobs = update-AllValid s as_running jobs (as_running-IsValidRow s)

  pub mark_succeeded-AllValid :
      (now : ℕ) (s : BackgroundJob P) (jobs : List (BackgroundJob P))
      → AllValid jobs
      → AllValid (mark_succeeded now s jobs)
  unfolding mark_succeeded
  mark_succeeded-AllValid now s jobs =
      All-update IsValidRow (has_id s.job_id) (as_succeeded now) jobs
        (λ j _. as_succeeded-IsValidRow now j)

  pub mark_failed-AllValid :
      (scrub : String → String) (now draw : ℕ) (s : BackgroundJob P) (error : String)
      (non_retryable : Bool) (jobs : List (BackgroundJob P))
      → Holds s jobs
      → AllValid jobs
      → AllValid (mark_failed scrub now draw s error non_retryable jobs)
  unfolding mark_failed
  mark_failed-AllValid scrub now draw s error non_retryable jobs =
      elim (Bool-cases (gives_up s non_retryable)) [
        | inl g ↦ rw g (
            update-AllValid s (as_dead_lettered now s (scrub error)) jobs
              (as_dead_lettered-IsValidRow now (scrub error) s))
        | inr g ↦ rw g (
            update-AllValid s (as_retrying now draw s (scrub error)) jobs
              (λ j. as_retrying-IsValidRow now draw (scrub error) s j (ground arith)))
      ]

  pub reap_expired_claims-AllValid :
      (now : ℕ) (jobs : List (BackgroundJob P))
      → AllValid jobs
      → AllValid (reap_expired_claims now jobs).1
  unfolding reap_expired_claims
  reap_expired_claims-AllValid now jobs =
      All-update IsValidRow (has_expired now) as_reaped jobs
        (λ j e. as_reaped-IsValidRow j (ground arith))

  new_job-IsValidRow :
      (job_id now : ℕ) (job_type : String) (payload : P) (max_attempts : ℕ)
      (key trace : Option String) (not_before : Option ℕ) (tenant : Option String)
      → 0 < max_attempts
      → IsValidRow (new_job job_id now job_type payload max_attempts key trace not_before tenant)
  unfolding new_job
  new_job-IsValidRow job_id now job_type payload max_attempts key trace not_before tenant h =
      ground arith

  insert_once-AllValid :
      (key : Option String) (j : BackgroundJob P) (jobs : List (BackgroundJob P))
      → IsValidRow j
      → AllValid jobs
      → AllValid (insert_once key j jobs).1
  unfolding insert_once
  insert_once-AllValid none j jobs v a = All-append IsValidRow jobs (j ∷ []) a (v, tt)
  insert_once-AllValid (some key) j jobs v a =
      elim (Option-cases (first (has_key j.job_type key) jobs)) [
        | inl e ↦ rw (e, insert_once) (All-append IsValidRow jobs (j ∷ []) a (v, tt))
        | inr (x, e) ↦ rw (e, insert_once) a
      ]

  -- Every registered job type may take an attempt.
  abbrev pub TakesAttempts : Registry P → Type 0
  TakesAttempts = All (λ r. 0 < r.1.max_attempts)

  lookup-TakesAttempts :
      (job_type : String) (registry : Registry P) (reg : HandlerRegistration P)
      → TakesAttempts registry
      → lookup job_type registry ≡ some reg
      → 0 < reg.max_attempts
  unfolding lookup
  lookup-TakesAttempts job_type [] reg t e = absurd (ground arith)
  lookup-TakesAttempts job_type ((u, r) ∷ rest) reg t e = elim (Bool-cases (str_eq u job_type)) [
    | inl k ↦ ground arith
    | inr k ↦ lookup-TakesAttempts job_type rest reg t.1 (ground arith)
  ]

  get_handler-TakesAttempts :
      (job_type : String) (registry : Registry P) (reg : HandlerRegistration P)
      → TakesAttempts registry
      → get_handler job_type registry ≡ ok reg
      → 0 < reg.max_attempts
  unfolding get_handler
  get_handler-TakesAttempts job_type registry reg t e =
      lookup-TakesAttempts job_type registry reg t (ground arith)

  module _ (payload_tenant : P → Option String) (job_id now : ℕ) (job_type : String) (payload : P)
      (key trace : Option String) (not_before : Option ℕ) (tenant : Option String)
      (jobs : List (BackgroundJob P)) (v : AllValid jobs) where
    enqueue_with-AllValid :
        (r : Result JobError (HandlerRegistration P))
        → ((reg : HandlerRegistration P) → r ≡ ok reg → 0 < reg.max_attempts)
        → AllValid
            (enqueue_with r payload_tenant job_id now job_type payload key trace not_before tenant
              jobs).1
    enqueue_with-AllValid (err e) h = v
    enqueue_with-AllValid (ok reg) h = elim (Bool-cases (reg.validates payload)) [
      | inl k ↦ rw k (
          insert_once-AllValid key _ jobs
            (new_job-IsValidRow job_id now job_type payload reg.max_attempts key trace not_before _
              (h reg refl))
            v)
      | inr k ↦ rw k v
    ]

    pub enqueue-AllValid :
        (registry : Registry P)
        → TakesAttempts registry
        → AllValid
            (enqueue registry payload_tenant job_id now job_type payload key trace not_before tenant
              jobs).1
    unfolding enqueue
    enqueue-AllValid registry t =
        enqueue_with-AllValid (get_handler job_type registry)
          (λ reg. get_handler-TakesAttempts job_type registry reg t)

  pub claim_from-AllValid :
      (job : BackgroundJob P) (worker_id now ttl : ℕ) (jobs : List (BackgroundJob P))
      → All (λ j. has_id job.job_id j ≡ true → is_pending j.state ≡ true) jobs
      → AllValid jobs
      → AllValid (update (has_id job.job_id) (claimed_job worker_id now ttl) jobs)
  claim_from-AllValid job worker_id now ttl [] k v = tt
  claim_from-AllValid job worker_id now ttl (j ∷ jobs) k v =
      elim (Bool-cases (has_id job.job_id j)) [
        | inl e ↦ rw e (
          claimed_job-IsValidRow worker_id now ttl j (k.0 e) v.0,
          claim_from-AllValid job worker_id now ttl jobs k.1 v.1,
        )
        | inr e ↦ rw e (v.0, claim_from-AllValid job worker_id now ttl jobs k.1 v.1)
      ]

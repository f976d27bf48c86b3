-- ===== src/Jobs/Queue/Outcome.antt =====
-- Enqueueing with an idempotency key, and a worker that comes too late.
use mathlib.Core.List.{Memᴰ}
use deal_screening_agent.Prelude.{
  ==_refl, first, update, any, first-append, All-first, first-update, All-members, first-mem,
  any-mem, ℕ, ◌+◌, ◌<◌, String, ◌≡◌, refl, ap, subst, Bool, true, false, Option, some, List, [],
  ◌∷◌, ◌++◌, arith, str_eq_iff,
}
use deal_screening_agent.Models.Job.{BackgroundJob}
use deal_screening_agent.Jobs.Queue.{
  has_key, insert_once, enqueue, has_id, claimable, claimed_job, claim, as_running, as_succeeded,
  mark_running, mark_succeeded, gives_up, as_retrying, mark_failed, reap_expired_claims,
}
use deal_screening_agent.Jobs.Queue.Claim.{claim_lem}
use deal_screening_agent.Jobs.Backoff.{compute_backoff}
use deal_screening_agent.Models.Enums.{pending, succeeded}
use deal_screening_agent.Prelude.Exec.{Result, ok}
use deal_screening_agent.Jobs.Registry.{JobError, HandlerRegistration, Registry, get_handler}

module _ {P : Type 0} where
  has_key_self :
      (key : String) (j : BackgroundJob P)
      → j.idempotency_key ≡ some key
      → has_key j.job_type key j ≡ true
  has_key_self key j e = rw e (ground (arith, str_eq_iff j.job_type j.job_type, str_eq_iff key key))

  insert_once-again :
      (key : String) (j k : BackgroundJob P) (jobs : List (BackgroundJob P))
      → j.idempotency_key ≡ some key
      → k.job_type ≡ j.job_type
      → insert_once (some key) k (insert_once (some key) j jobs).1
        ≡ ((insert_once (some key) j jobs).0, (insert_once (some key) j jobs).1)
  unfolding insert_once
  insert_once-again key j k jobs e same = ground (
    arith,
    first-append (has_key j.job_type key) jobs j,
    has_key_self key j e,
    ap (λ t. first (has_key t key) jobs) same,
    ap (λ t. first (has_key t key) (jobs ++ j ∷ [])) same,
  )

  -- Enqueueing again with the same type and key, whatever the payload, gives the id that the first
  -- call gave and inserts nothing.
  pub enqueue-again :
      (registry : Registry P) (payload_tenant : P → Option String) (reg : HandlerRegistration P)
      (id id' now now' : ℕ) (job_type key : String) (payload payload' : P)
      (trace trace' : Option String) (not_before not_before' : Option ℕ)
      (tenant tenant' : Option String) (jobs : List (BackgroundJob P))
      → get_handler job_type registry ≡ ok reg
      → reg.validates payload ≡ true
      → reg.validates payload' ≡ true
      → let once =
          enqueue registry payload_tenant id now job_type payload
            (some key)
            trace
            not_before
            tenant
            jobs in
        enqueue registry payload_tenant id' now' job_type payload'
          (some key)
          trace'
          not_before'
          tenant'
          once.1
        ≡ once
  unfolding enqueue
  enqueue-again registry payload_tenant reg id id' now now' job_type key payload payload' trace
        trace' not_before not_before' tenant tenant' jobs g v v' =
      rw (g, v, v')
        (ap {A = ℕ × List (BackgroundJob P)} {B = Result JobError ℕ × List (BackgroundJob P)}
          (λ r. (ok r.0, r.1)) (insert_once-again key _ _ jobs refl refl))

  retries : (s : BackgroundJob P) → s.attempts + 1 < s.max_attempts → gives_up s false ≡ false
  retries s h = ground arith

  first-update_id :
      (id : ℕ) (f : BackgroundJob P → BackgroundJob P) (jobs : List (BackgroundJob P))
      (row : BackgroundJob P)
      → ((j : BackgroundJob P) → (f j).job_id ≡ j.job_id)
      → first (has_id id) jobs ≡ some row
      → first (has_id id) (update (has_id id) f jobs) ≡ some (f row)
  first-update_id id f jobs row same e =
      rw (first-update (has_id id) f jobs (λ j h. rw (same j) h), e) refl

  -- What worker b, with its job, leaves; and then the late worker a, with its own.
  abbrev pub finished_by : ℕ → BackgroundJob P → List (BackgroundJob P) → List (BackgroundJob P)
  finished_by now b jobs = mark_succeeded now b (mark_running b jobs)

  claimed-stored :
      (locked : ℕ → Bool) (worker_id now ttl : ℕ) (jobs : List (BackgroundJob P))
      (b : BackgroundJob P)
      → (claim locked worker_id now ttl jobs).0 ≡ some b
      → (row : BackgroundJob P) × (first (has_id b.job_id) (claim locked worker_id now ttl jobs).1
          ≡ some row)
  claimed-stored locked worker_id now ttl jobs b h =
      let (was, m, _, _, _, _, same, table) = claim_lem locked worker_id now ttl jobs b h in
      let id : b.job_id ≡ was.job_id = ap (λ j. j.job_id) same in
      let (row, e) = first-mem (has_id was.job_id) was jobs m (==_refl was.job_id) in
      rw (id, table)
        (_, first-update_id was.job_id (claimed_job worker_id now ttl) jobs row (λ j. refl) e)

  module _ (scrub : String → String) (locked_a locked_b : ℕ → Bool)
      (worker_a worker_b ttl now reaped_at claimed_at finished_at late draw : ℕ) (error : String)
      (jobs : List (BackgroundJob P)) (a b : BackgroundJob P) where
    -- Worker a claims a job and starts it, and the reaper passes.
    abbrev pub after_reaping : List (BackgroundJob P)
    after_reaping =
        (reap_expired_claims reaped_at (mark_running a (claim locked_a worker_a now ttl jobs).1)).1

    -- Worker b claims the next job and finishes it.
    abbrev pub after_b : List (BackgroundJob P)
    after_b = finished_by finished_at b (claim locked_b worker_b claimed_at ttl after_reaping).1

    -- The handler of worker a raises.
    abbrev pub after_late : List (BackgroundJob P)
    after_late = mark_failed scrub late draw a error false after_b

    -- A worker claims a job and starts it, the claim is reaped, another worker claims the same job
    -- and finishes it, so that its row is SUCCEEDED; then the first worker's handler raises an
    -- error that is retryable, with an attempt left. The finished job is PENDING again, and from
    -- its new `not_before` on a worker that finds it unlocked can claim it once more.
    pub late_failure_revives :
        (claim locked_a worker_a now ttl jobs).0 ≡ some a
        → (claim locked_b worker_b claimed_at ttl after_reaping).0 ≡ some b
        → b.job_id ≡ a.job_id
        → a.attempts + 1 < a.max_attempts
        → (done : BackgroundJob P) × (revived : BackgroundJob P) × (first (has_id a.job_id) after_b
            ≡ some done)
          × (done.state ≡ succeeded)
          × (first (has_id a.job_id) after_late ≡ some revived)
          × (revived.state ≡ pending)
          × (any (claimable (λ id. false) revived.not_before) after_late ≡ true)
    unfolding mark_failed mark_succeeded mark_running
    late_failure_revives first_claim second_claim same left =
        let (row, e) =
          claimed-stored locked_b worker_b claimed_at ttl after_reaping b second_claim in
        let running_row =
          first-update_id b.job_id as_running
            (claim locked_b worker_b claimed_at ttl after_reaping).1 row (λ j. refl) e in
        let finished_row =
          first-update_id b.job_id (as_succeeded finished_at) _ (as_running row) (λ j. refl)
            running_row in
        let stored =
          subst (λ id. first (has_id id) after_b ≡ some (as_succeeded finished_at (as_running row)))
            same finished_row in
        let revived =
          first-update_id a.job_id (as_retrying late draw a (scrub error)) after_b _ (λ j. refl)
            stored in
        rw (retries a left) (
          as_succeeded finished_at (as_running row),
          as_retrying late draw a (scrub error) (as_succeeded finished_at (as_running row)),
          stored,
          refl,
          revived,
          refl,
          any-mem (claimable (λ id. false) (late + compute_backoff a.attempts draw)) _ _
              (All-first (λ j. Memᴰ j _) (has_id a.job_id) _ _ (All-members _) revived)
              (ground arith),
        )

-- ===== src/Jobs/Queue.antt =====
-- src/app/background_jobs/queue.py. The table is a list of rows; ids and times are given by the
-- caller, and times are in microseconds. A `job` that a worker holds is a snapshot of its row: the
-- session writes the columns that the code assigns, computed from the snapshot, to the row with
-- the job's id. Log lines are left out.
pub mod Rows
pub mod Claim
pub mod Outcome
use deal_screening_agent.Prelude.{
  ltb, leb, ◌==◌, if◌then◌else◌, is_some, or_default, select, first, update, count, earliest, ℕ,
  ◌+◌, ◌*◌, String, Bool, false, not, ◌&&◌, ◌||◌, Option, none, some, List, [], ◌∷◌, ◌++◌, str_eq,
}
use deal_screening_agent.Prelude.Exec.{Result, ok, err, Exec}
use deal_screening_agent.Models.Enums.{
  pending, claimed, running, succeeded, dead_lettered, is_pending, is_held,
}
use deal_screening_agent.Models.Job.{BackgroundJob}
use deal_screening_agent.Jobs.Registry.{
  JobError, schema_violation, HandlerRegistration, Registry, get_handler,
}
use deal_screening_agent.Jobs.Backoff.{second, compute_backoff}

abbrev pub default_claim_ttl_seconds : ℕ
default_claim_ttl_seconds = 300

abbrev key_matches : String → Option String → Bool
key_matches key none = false
key_matches key (some k) = str_eq k key

abbrev expires_before : ℕ → Option ℕ → Bool
expires_before now none = false
expires_before now (some t) = ltb t now

module _ {P : Type 0} where
  -- the new row of `enqueue`
  unfoldable pub new_job :
      ℕ
      → ℕ
      → String
      → P
      → ℕ
      → Option String
      → Option String
      → Option ℕ
      → Option String
      → BackgroundJob P
  new_job job_id now job_type payload max_attempts idempotency_key trace_context not_before
        tenant_id =
      record {
        job_id = job_id;
        job_type = job_type;
        payload = payload;
        state = pending;
        attempts = 0;
        max_attempts = max_attempts;
        not_before = or_default not_before now;
        claimed_by = none;
        claim_expires_at = none;
        idempotency_key = idempotency_key;
        trace_context = trace_context;
        last_error = none;
        tenant_id = tenant_id;
        succeeded_at = none;
        dead_lettered_at = none;
      }

  -- the rows that uq_idempotency would collide with
  abbrev pub has_key : String → String → BackgroundJob P → Bool
  has_key job_type key j = str_eq j.job_type job_type && key_matches key j.idempotency_key

  -- ON CONFLICT DO NOTHING, and the id of the row that was there
  unfoldable pub insert_once :
      Option String → BackgroundJob P → List (BackgroundJob P) → ℕ × List (BackgroundJob P)
  insert_once none job jobs = (job.job_id, jobs ++ job ∷ [])
  insert_once (some key) job jobs = elim (first (has_key job.job_type key) jobs) [
    | some existing ↦ (existing.job_id, jobs)
    | none ↦ (job.job_id, jobs ++ job ∷ [])
  ]

  abbrev pub enqueue_with :
      Result JobError (HandlerRegistration P)
      → (P → Option String)
      → ℕ
      → ℕ
      → String
      → P
      → Option String
      → Option String
      → Option ℕ
      → Option String
      → Exec (List (BackgroundJob P)) JobError ℕ
  enqueue_with (err e) payload_tenant job_id now job_type payload key trace not_before tenant jobs =
      (err e, jobs)
  enqueue_with (ok reg) payload_tenant job_id now job_type payload key trace not_before tenant
        jobs =
      if reg.validates payload
      then (let tenant_id = if is_some tenant then tenant else payload_tenant payload in
          let job =
            new_job job_id now job_type payload reg.max_attempts key trace not_before tenant_id in
          let (id, jobs') = insert_once key job jobs in (ok id, jobs'))
      else (err schema_violation, jobs)

  -- `payload_tenant` is `payload.get("tenant_id")`.
  unfoldable pub enqueue :
      Registry P
      → (P → Option String)
      → ℕ
      → ℕ
      → String
      → P
      → Option String
      → Option String
      → Option ℕ
      → Option String
      → Exec (List (BackgroundJob P)) JobError ℕ
  unfolding get_handler new_job insert_once
  enqueue registry payload_tenant job_id now job_type =
      enqueue_with (get_handler job_type registry) payload_tenant job_id now job_type

  abbrev pub has_id : ℕ → BackgroundJob P → Bool
  has_id job_id j = j.job_id == job_id

  -- WHERE state = PENDING AND not_before <= now, and not locked by another transaction
  abbrev pub claimable : (ℕ → Bool) → ℕ → BackgroundJob P → Bool
  claimable locked now j = is_pending j.state && leb j.not_before now && not (locked j.job_id)

  abbrev pub claimed_job : ℕ → ℕ → ℕ → BackgroundJob P → BackgroundJob P
  claimed_job worker_id now ttl j = record j {
    state = claimed;
    claimed_by = some worker_id;
    claim_expires_at = some (now + ttl * second);
  }

  -- `locked` tells the rows that FOR UPDATE SKIP LOCKED passes over.
  unfoldable pub claim :
      (ℕ → Bool)
      → ℕ
      → ℕ
      → ℕ
      → List (BackgroundJob P)
      → Option (BackgroundJob P) × List (BackgroundJob P)
  claim locked worker_id now ttl jobs =
      elim (earliest (λ j. j.not_before) (select (claimable locked now) jobs)) [
        | none ↦ (none, jobs)
        | some job ↦ (
          some (claimed_job worker_id now ttl job),
          update (has_id job.job_id) (claimed_job worker_id now ttl) jobs,
        )
      ]

  abbrev pub as_running : BackgroundJob P → BackgroundJob P
  as_running row = record row { state = running }

  abbrev pub as_succeeded : ℕ → BackgroundJob P → BackgroundJob P
  as_succeeded now row = record row {
    state = succeeded;
    succeeded_at = some now;
    claimed_by = none;
    claim_expires_at = none;
  }

  unfoldable pub mark_running : BackgroundJob P → List (BackgroundJob P) → List (BackgroundJob P)
  mark_running job = update (has_id job.job_id) as_running

  unfoldable pub mark_succeeded :
      ℕ → BackgroundJob P → List (BackgroundJob P) → List (BackgroundJob P)
  mark_succeeded now job = update (has_id job.job_id) (as_succeeded now)

  -- the test of mark_failed, on the attempts that the snapshot has after `job.attempts += 1`
  abbrev pub gives_up : BackgroundJob P → Bool → Bool
  gives_up job non_retryable = non_retryable || leb job.max_attempts (job.attempts + 1)

  abbrev pub as_dead_lettered : ℕ → BackgroundJob P → String → BackgroundJob P → BackgroundJob P
  as_dead_lettered now job error row = record row {
    attempts = job.attempts + 1;
    last_error = some error;
    claimed_by = none;
    claim_expires_at = none;
    state = dead_lettered;
    dead_lettered_at = some now;
  }

  abbrev pub as_retrying : ℕ → ℕ → BackgroundJob P → String → BackgroundJob P → BackgroundJob P
  as_retrying now draw job error row = record row {
    attempts = job.attempts + 1;
    last_error = some error;
    claimed_by = none;
    claim_expires_at = none;
    state = pending;
    not_before = now + compute_backoff job.attempts draw;
  }

  -- `scrub` is the log scrubber on the first 4096 characters.
  unfoldable pub mark_failed :
      (String → String)
      → ℕ
      → ℕ
      → BackgroundJob P
      → String
      → Bool
      → List (BackgroundJob P)
      → List (BackgroundJob P)
  mark_failed scrub now draw job error non_retryable = update (has_id job.job_id) (
      if gives_up job non_retryable
      then as_dead_lettered now job (scrub error)
      else as_retrying now draw job (scrub error))

  -- state IN (CLAIMED, RUNNING) AND claim_expires_at < now
  abbrev pub has_expired : ℕ → BackgroundJob P → Bool
  has_expired now j = is_held j.state && expires_before now j.claim_expires_at

  abbrev pub as_reaped : BackgroundJob P → BackgroundJob P
  as_reaped row = record row { state = pending; claimed_by = none; claim_expires_at = none }

  unfoldable pub reap_expired_claims : ℕ → List (BackgroundJob P) → ℕ × List (BackgroundJob P)
  reap_expired_claims now jobs =
      (count (has_expired now) jobs, update (has_expired now) as_reaped jobs)

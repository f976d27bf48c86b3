-- ===== src/Jobs/Queue/Claim.antt =====
-- Claiming: which row is taken, and that ids stay unique.
use mathlib.Core.List.{Memᴰ}
use deal_screening_agent.Prelude.{
  leb, ◌==◌, leb→le, Option-cases, select, update, All, earliest, All-select, All-earliest, All-map,
  All-intro, earliest-le, All-members, ℕ, ◌+◌, ◌*◌, ◌≤◌, ◌≡◌, refl, ◌≢◌, inl, inr, Bool, true,
  false, not, ◌&&◌, Option, some, List, [], ◌∷◌, arith,
}
use deal_screening_agent.Models.Enums.{
  JobState, pending, claimed, running, succeeded, failed_job, dead_lettered, is_pending,
}
use deal_screening_agent.Models.Job.{BackgroundJob}
use deal_screening_agent.Jobs.Queue.{claimable, claim}

pending_state : (s : JobState) → is_pending s ≡ true → s ≡ pending
pending_state pending h = refl
pending_state claimed h = absurd (ground arith)
pending_state running h = absurd (ground arith)
pending_state succeeded h = absurd (ground arith)
pending_state failed_job h = absurd (ground arith)
pending_state dead_lettered h = absurd (ground arith)

module _ {P : Type 0} where
  -- The primary key: no id twice.
  abbrev pub UniqueIds : List (BackgroundJob P) → Type 0
  UniqueIds [] = Unit
  UniqueIds (j ∷ jobs) = All (λ k. k.job_id ≢ j.job_id) jobs × UniqueIds jobs

  -- what a chosen row is
  abbrev Chosen : (ℕ → Bool) → ℕ → List (BackgroundJob P) → BackgroundJob P → Type 0
  Chosen locked now jobs job = claimable locked now job ≡ true

  module _ (locked : ℕ → Bool) (worker_id now ttl : ℕ) (jobs : List (BackgroundJob P)) where
    -- The row that `claim` chooses, before it is changed.
    abbrev pub choice : Option (BackgroundJob P)
    choice = earliest (λ j. j.not_before) (select (claimable locked now) jobs)

    pub choice-claimable :
        (job : BackgroundJob P) → choice ≡ some job → claimable locked now job ≡ true
    choice-claimable job e =
        All-earliest (λ j. claimable locked now j ≡ true) (λ j. j.not_before) _ job
          (All-map (λ j p. p.1) _
            (All-select (λ _. Unit {0}) (claimable locked now) jobs (All-intro (λ _. tt) jobs)))
          e

    pub choice-mem : (job : BackgroundJob P) → choice ≡ some job → Memᴰ job jobs
    choice-mem job e =
        All-earliest (λ j. Memᴰ j jobs) (λ j. j.not_before) _ job
          (All-map (λ j p. p.0) _
            (All-select (λ j. Memᴰ j jobs) (claimable locked now) jobs (All-members jobs)))
          e

    -- A job that is claimed was a row of the table, PENDING, due and not locked, and no other such
    -- row has an earlier `not_before`. The worker gets that row as CLAIMED in its own name until
    -- the claim's time is up, and in the table the row of that id has got the same three columns.
    pub claim_lem :
        (job : BackgroundJob P)
        → (claim locked worker_id now ttl jobs).0 ≡ some job
        → (was : BackgroundJob P) × Memᴰ was jobs
          × (was.state ≡ pending)
          × (was.not_before ≤ now)
          × (locked was.job_id ≡ false)
          × All
              (λ j. was.not_before ≤ j.not_before)
              (select
                (λ j. is_pending j.state && leb j.not_before now && not (locked j.job_id))
                jobs)
          × (job ≡ record was {
            state = claimed;
            claimed_by = some worker_id;
            claim_expires_at = some (now + ttl * 1000000);
          })
          × ((claim locked worker_id now ttl jobs).1
              ≡ update
                  (λ j. j.job_id == was.job_id)
                  (λ j. record j {
                    state = claimed;
                    claimed_by = some worker_id;
                    claim_expires_at = some (now + ttl * 1000000);
                  })
                  jobs)
    unfolding claim
    claim_lem job h = elim (Option-cases choice) [
      | inl e ↦ absurd (ground arith)
      | inr (was, e) ↦
          let test = choice-claimable was e in
          (
            was,
            choice-mem was e,
            pending_state was.state (ground arith),
            leb→le was.not_before now (ground arith),
            ground arith,
            earliest-le _ _ was e,
            ground arith,
            rw (e, claim),
          )
    ]

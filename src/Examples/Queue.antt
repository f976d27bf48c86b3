-- ===== src/Examples/Queue.antt =====
-- The job queue, its worker and its admin commands.
use mathlib.Core.List.{Memᴰ}
use deal_screening_agent.Prelude.{
  leb, ◌==◌, select, first, update, any, All, ℕ, suc, ◌+◌, ◌*◌, ◌≤◌, ◌<◌, String, ◌≡◌, refl, true,
  false, not, ◌&&◌, Option, none, some, List, [], ◌∷◌, arith,
}
use deal_screening_agent.Prelude.Exec.{Result, err}
use deal_screening_agent.Models.Enums.{pending, claimed, succeeded, is_pending}
use deal_screening_agent.Models.Job.{BackgroundJob}
use deal_screening_agent.Jobs.Registry.{JobError, other_error, lookup, get_handler}
use deal_screening_agent.Jobs.Backoff.{base_delay, compute_backoff, compute_backoff_bounds}
use deal_screening_agent.Jobs.Queue.{
  enqueue, has_id, claimable, claimed_job, claim, mark_running, reap_expired_claims,
}
use deal_screening_agent.Jobs.Queue.Claim.{UniqueIds, claim_lem}
use deal_screening_agent.Jobs.Queue.Outcome.{
  enqueue-again, after_b, after_late, late_failure_revives,
}
use deal_screening_agent.Jobs.Queue.Rows.{AllValid}
use deal_screening_agent.Jobs.Worker.{JobContext, Round, claim_round}
use deal_screening_agent.Jobs.System.{enqueues, claims, here, next, Reach-AllValid}
use deal_screening_agent.Jobs.Worker.Work.{work_left}
use deal_screening_agent.Jobs.Worker.Progress.{
  a_round, a_reaping, claim_round-runs, run_events, run_events-bounded,
}
use deal_screening_agent.Jobs.System.Phases.{Changes, view}
use deal_screening_agent.Jobs.System.Refinement.{Reach-Changes}
use deal_screening_agent.Examples.Data.{registry_of_one, a_job}

abbrev no_tenant : ℕ → Option String
no_tenant p = none

abbrev pending_jobs : List (BackgroundJob ℕ)
pending_jobs = a_job pending 0 ∷ []

compute_backoff_bounds_example :
    (3 * base_delay 2 * 250000 ≤ compute_backoff 2 12345)
    × (compute_backoff 2 12345 ≤ 5 * base_delay 2 * 250000)
    × (base_delay 2 ≤ base_delay (suc 2))
    × (base_delay (suc 2) ≤ 256)
compute_backoff_bounds_example = compute_backoff_bounds 2 12345 (omega arith)

abbrev one_enqueued : List (BackgroundJob ℕ)
one_enqueued = (enqueue registry_of_one no_tenant 1 10 "extraction" 7 none none none none []).1

one_enqueued-valid : UniqueIds one_enqueued × AllValid one_enqueued
one_enqueued-valid =
    Reach-AllValid registry_of_one no_tenant (λ s. s) (omega arith, tt) {start = []} tt tt
      (next here (enqueues [] 1 10 "extraction" 7 none none none none tt))

abbrev one_claimed : List (BackgroundJob ℕ)
one_claimed = (claim (λ id. false) 9 20 300 one_enqueued).1

Reach-AllValid_example : UniqueIds one_claimed × AllValid one_claimed
Reach-AllValid_example =
    Reach-AllValid registry_of_one no_tenant (λ s. s) (omega arith, tt) {start = []} tt tt
      (next (next here (enqueues [] 1 10 "extraction" 7 none none none none tt))
        (claims one_enqueued (λ id. false) 9 20 300))

claim_lem_example :
    let job = claimed_job 9 20 300 (a_job pending 0) in
    (was : BackgroundJob ℕ) × Memᴰ was pending_jobs
    × (was.state ≡ pending)
    × (was.not_before ≤ 20)
    × (false ≡ false)
    × All
        (λ j. was.not_before ≤ j.not_before)
        (select (λ j. is_pending j.state && leb j.not_before 20 && not false) pending_jobs)
    × (job ≡ record was {
      state = claimed;
      claimed_by = some 9;
      claim_expires_at = some (20 + 300 * 1000000);
    })
    × ((claim (λ id. false) 9 20 300 pending_jobs).1
        ≡ update
            (λ j. j.job_id == was.job_id)
            (λ j. record j {
              state = claimed;
              claimed_by = some 9;
              claim_expires_at = some (20 + 300 * 1000000);
            })
            pending_jobs)
unfolding claim
claim_lem_example =
    claim_lem (λ id. false) 9 20 300 pending_jobs (claimed_job 9 20 300 (a_job pending 0)) refl

enqueue-again_example :
    enqueue registry_of_one no_tenant 2 20 "extraction" 8
      (some "k")
      none
      none
      none
      (enqueue registry_of_one no_tenant 1 10 "extraction" 7 (some "k") none none none []).1
    ≡ enqueue registry_of_one no_tenant 1 10 "extraction" 7 (some "k") none none none []
unfolding get_handler lookup
enqueue-again_example =
    enqueue-again registry_of_one no_tenant (record { validates = λ p. true; max_attempts = 3 }) 1 2
      10 20 "extraction" "k" 7 8 none none none none none none [] refl refl refl

-- Worker 9 claims the job at 20, it is reaped after the claim's time, and worker 8 claims it.
abbrev reaped_at : ℕ
reaped_at = 21 + 300 * 1000000

abbrev job_of_9 : BackgroundJob ℕ
job_of_9 = claimed_job 9 20 300 (a_job pending 0)

abbrev job_of_8 : BackgroundJob ℕ
job_of_8 = claimed_job 8 reaped_at 300 (a_job pending 0)

late_failure_revives_example :
    (done : BackgroundJob ℕ) × (revived : BackgroundJob ℕ) × (first (has_id 1) (
        after_b
          (λ s. s)
          (λ id. false)
          (λ id. false)
          9
          8
          300
          20
          reaped_at
          reaped_at
          reaped_at
          reaped_at
          0
          "timeout"
          pending_jobs
          job_of_9
          job_of_8)
      ≡ some done)
    × (done.state ≡ succeeded)
    × (first (has_id 1) (
          after_late
            (λ s. s)
            (λ id. false)
            (λ id. false)
            9
            8
            300
            20
            reaped_at
            reaped_at
            reaped_at
            reaped_at
            0
            "timeout"
            pending_jobs
            job_of_9
            job_of_8)
        ≡ some revived)
    × (revived.state ≡ pending)
    × (any (claimable (λ id. false) revived.not_before) (
          after_late
            (λ s. s)
            (λ id. false)
            (λ id. false)
            9
            8
            300
            20
            reaped_at
            reaped_at
            reaped_at
            reaped_at
            0
            "timeout"
            pending_jobs
            job_of_9
            job_of_8)
        ≡ true)
unfolding claim mark_running reap_expired_claims
late_failure_revives_example =
    late_failure_revives (λ s. s) (λ id. false) (λ id. false) 9 8 300 20 reaped_at reaped_at
      reaped_at reaped_at 0 "timeout" pending_jobs job_of_9 job_of_8 refl refl refl (omega arith)

abbrev failing : ℕ → JobContext → Result JobError Unit
failing payload context = err (other_error "timeout")

Reach-Changes_example : UniqueIds one_claimed × Changes (view {P = ℕ} []) (view one_claimed)
Reach-Changes_example =
    Reach-Changes registry_of_one no_tenant (λ s. s) {start = []} tt
      (next (next here (enqueues [] 1 10 "extraction" 7 none none none none tt))
        (claims one_enqueued (λ id. false) 9 20 300))

-- a round in which the handler fails
abbrev failing_round : Round ℕ
failing_round = record {
  locked = λ id. false;
  worker_id = 9;
  ttl = 300;
  now = 20;
  later = 30;
  draw = 0;
  handler = failing;
}

claim_round-runs_example :
    ((claim_round registry_of_one (λ s. s) failing_round one_enqueued).0 ≡ true)
    × (work_left (claim_round registry_of_one (λ s. s) failing_round one_enqueued).1
        < work_left one_enqueued)
unfolding enqueue
claim_round-runs_example =
    claim_round-runs registry_of_one (λ s. s) failing_round one_enqueued one_enqueued-valid refl

run_events-bounded_example :
    let (n, after) =
      run_events registry_of_one
        (λ s. s)
        (a_round failing_round ∷ a_reaping 25 ∷ a_round failing_round ∷ [])
        one_enqueued in
    (UniqueIds after × AllValid after) × (n + work_left after ≤ work_left one_enqueued)
run_events-bounded_example =
    run_events-bounded registry_of_one (λ s. s)
      (a_round failing_round ∷ a_reaping 25 ∷ a_round failing_round ∷ []) one_enqueued
      one_enqueued-valid

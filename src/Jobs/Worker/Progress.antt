-- ===== src/Jobs/Worker/Progress.antt =====
-- Rounds of the worker use up the work that is left.
use deal_screening_agent.Prelude.{
  if◌then◌else◌, Option-cases, update, any, All-map, earliest-none, All-mem, ℕ, ◌+◌, ◌≤◌, ◌<◌,
  String, ◌≡◌, refl, sym, subst, inl, inr, Bool, true, false, some, List, [], ◌∷◌, arith,
}
use deal_screening_agent.Models.Enums.{is_held}
use deal_screening_agent.Models.Job.{BackgroundJob}
use deal_screening_agent.Jobs.Registry.{Registry, get_handler}
use deal_screening_agent.Jobs.Queue.{
  has_id, claimable, claimed_job, has_expired, as_reaped, reap_expired_claims,
}
use deal_screening_agent.Jobs.Worker.{Round, admits, claim_round}
use deal_screening_agent.Jobs.Queue.Claim.{UniqueIds, choice-claimable, choice-mem}
use deal_screening_agent.Jobs.Queue.Rows.{IsValidRow, AllValid, reap_expired_claims-AllValid}
use deal_screening_agent.Jobs.Ids.{UniqueIds-update, only_row}
use deal_screening_agent.Jobs.Worker.Work.{
  work, work_left, work_left-update, work_left-update_le, count-mem, All-update_at, any-select_none,
}
use deal_screening_agent.Jobs.Worker.Done.{done-same}
use deal_screening_agent.Jobs.Worker.Runs.{chosen, run, claim_round-none, claim_round-some, run-Ran}

-- What happens to the table between the clients' calls.
pub data Event (P : Type 0) : Type 0 where
  -- a round of a worker's loop
  a_round : Round P → Event P
  -- a pass of the reaper, at a time
  a_reaping : ℕ → Event P

module _ {P : Type 0} where
  module _ (registry : Registry P) (scrub : String → String) (r : Round P) where
    -- what is kept of the table from round to round
    abbrev pub IsTable : List (BackgroundJob P) → Type 0
    IsTable jobs = UniqueIds jobs × AllValid jobs

    -- a round's effect
    abbrev pub Uses : List (BackgroundJob P) → Bool × List (BackgroundJob P) → Type 0
    Uses jobs (ran, jobs') =
        IsTable jobs' × ((if ran then 1 else 0) + work_left jobs' ≤ work_left jobs)

    run-Uses :
        (jobs : List (BackgroundJob P)) (was : BackgroundJob P)
        → IsTable jobs
        → chosen registry scrub r jobs ≡ some was
        → Uses jobs (true, update (has_id was.job_id) (run registry scrub r was) jobs)
    run-Uses jobs was (u, v) e =
        let only = only_row was jobs u (choice-mem r.locked r.worker_id r.now r.ttl jobs was e) in
        let ran =
          run-Ran registry scrub r was
            (ground (arith, choice-claimable r.locked r.worker_id r.now r.ttl jobs was e))
            (All-mem IsValidRow was jobs v
              (choice-mem r.locked r.worker_id r.now r.ttl jobs was e)) in
        (
          (
            UniqueIds-update (has_id was.job_id) (run registry scrub r was) jobs
                (λ j.
                  done-same registry scrub r (claimed_job r.worker_id r.now r.ttl was)
                    (claimed_job r.worker_id r.now r.ttl j)
                    (admits (get_handler was.job_type registry) was.payload))
                u,
            All-update_at IsValidRow (has_id was.job_id) (run registry scrub r was) jobs
                (All-map
                  (λ j same h.
                    subst (λ x. IsValidRow (run registry scrub r was x)) (sym (same h)) ran.valid)
                  jobs only)
                v,
          ),
          omega (
            arith,
            count-mem was jobs (choice-mem r.locked r.worker_id r.now r.ttl jobs was e),
            work_left-update (has_id was.job_id) (run registry scrub r was) jobs (
                All-map
                  (λ j same h.
                    subst (λ x. work (run registry scrub r was x) < work x) (sym (same h)) ran.less)
                  jobs only),
          ),
        )

    pub claim_round-Uses :
        (jobs : List (BackgroundJob P))
        → IsTable jobs
        → Uses jobs (claim_round registry scrub r jobs)
    claim_round-Uses jobs t = elim (Option-cases (chosen registry scrub r jobs)) [
      | inl e ↦ rw (claim_round-none registry scrub r jobs e) (t, omega arith)
      | inr (was, e) ↦ rw (claim_round-some registry scrub r jobs was e) (run-Uses jobs was t e)
    ]

    -- In a valid table with unique ids, a round of the worker's loop in which some job is due and
    -- not locked runs a job, and leaves the jobs with fewer attempts in all.
    pub claim_round-runs :
        (jobs : List (BackgroundJob P))
        → IsTable jobs
        → any (claimable r.locked r.now) jobs ≡ true
        → ((claim_round registry scrub r jobs).0 ≡ true)
          × (work_left (claim_round registry scrub r jobs).1 < work_left jobs)
    claim_round-runs jobs t due = elim (Option-cases (chosen registry scrub r jobs)) [
      | inr (was, e) ↦
          rw (claim_round-some registry scrub r jobs was e)
            (refl, omega (arith, (run-Uses jobs was t e).1))
      | inl e ↦ absurd (
          let none_due : any (claimable r.locked r.now) jobs ≡ false =
            any-select_none (claimable r.locked r.now) jobs
              (earliest-none (λ j. claimable r.locked r.now j ≡ false) (λ j. j.not_before) _ e) in
          ground arith)
    ]

  held_work : (j : BackgroundJob P) → is_held j.state ≡ true → work (as_reaped j) ≤ work j
  held_work j h = ground arith

  reap-Uses :
      (now : ℕ) (jobs : List (BackgroundJob P))
      → UniqueIds jobs × AllValid jobs
      → (UniqueIds (reap_expired_claims now jobs).1 × AllValid (reap_expired_claims now jobs).1)
        × (work_left (reap_expired_claims now jobs).1 ≤ work_left jobs)
  unfolding reap_expired_claims
  reap-Uses now jobs t = (
    (
      UniqueIds-update (has_expired now) as_reaped jobs (λ j. refl) t.0,
      reap_expired_claims-AllValid now jobs t.1,
    ),
    work_left-update_le (has_expired now) as_reaped jobs (λ j e. held_work j (ground arith)),
  )

  -- Rounds of workers and passes of the reaper one after the other, and how many jobs were run.
  unfoldable pub run_events :
      Registry P
      → (String → String)
      → List (Event P)
      → List (BackgroundJob P)
      → ℕ × List (BackgroundJob P)
  unfolding reap_expired_claims
  run_events registry scrub [] jobs = (0, jobs)
  run_events registry scrub (a_round r ∷ events) jobs =
      let (ran, jobs') = claim_round registry scrub r jobs in
      let (n, jobs'') = run_events registry scrub events jobs' in
      ((if ran then 1 else 0) + n, jobs'')
  run_events registry scrub (a_reaping now ∷ events) jobs =
      run_events registry scrub events (reap_expired_claims now jobs).1

  -- However many whole rounds of workers and passes of the reaper follow each other in whatever
  -- order, with whatever times, locks and outcomes of the handlers, they run no more jobs than the
  -- attempts that the jobs of the table had left, and the table stays valid with unique ids. A
  -- worker that stops between its claim and the end of its job is not such a round.
  pub run_events-bounded :
      (registry : Registry P) (scrub : String → String) (events : List (Event P))
      (jobs : List (BackgroundJob P))
      → UniqueIds jobs × AllValid jobs
      → let (n, after) = run_events registry scrub events jobs in
        (UniqueIds after × AllValid after) × (n + work_left after ≤ work_left jobs)
  unfolding run_events
  run_events-bounded registry scrub [] jobs t = (t, omega arith)
  run_events-bounded registry scrub (a_round r ∷ events) jobs t =
      let (t', used) = claim_round-Uses registry scrub r jobs t in
      let (t'', rest) =
        run_events-bounded registry scrub events (claim_round registry scrub r jobs).1 t' in
      (t'', omega (arith, used, rest))
  run_events-bounded registry scrub (a_reaping now ∷ events) jobs t =
      let (t', used) = reap-Uses now jobs t in
      let (t'', rest) =
        run_events-bounded registry scrub events (reap_expired_claims now jobs).1 t' in
      (t'', omega (arith, used, rest))

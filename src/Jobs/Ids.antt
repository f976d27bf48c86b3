-- ===== src/Jobs/Ids.antt =====
-- Which rows the operations of the queue add or change: ids stay unique, and rows stay valid.
use mathlib.Core.List.{Memᴰ}
use deal_screening_agent.Prelude.{
  ==_iff, Bool-cases, Option-cases, select, first, update, All, All-append, All-update, All-select,
  All-map, All-mem, ℕ, String, ◌≡◌, refl, sym, ◌≢◌, inl, inr, Bool, true, Option, none, some, List,
  [], ◌∷◌, ◌++◌, arith,
}
use deal_screening_agent.Models.Job.{BackgroundJob}
use deal_screening_agent.Jobs.Queue.{
  new_job, has_key, insert_once, enqueue_with, enqueue, has_id, claimed_job, claim,
}
use deal_screening_agent.Jobs.Queue.Claim.{UniqueIds, choice, choice-claimable, choice-mem}
use deal_screening_agent.Jobs.Queue.Rows.{AllValid, claim_from-AllValid}
use deal_screening_agent.Prelude.Exec.{Result, ok, err}
use deal_screening_agent.Jobs.Registry.{JobError, HandlerRegistration, Registry, get_handler}

module _ {P : Type 0} where
  -- No row has the id.
  abbrev pub IsFresh : ℕ → List (BackgroundJob P) → Type 0
  IsFresh id = All (λ j. j.job_id ≢ id)

  pub IsFresh-update :
      (id : ℕ) (p : BackgroundJob P → Bool) (f : BackgroundJob P → BackgroundJob P)
      (jobs : List (BackgroundJob P))
      → ((j : BackgroundJob P) → (f j).job_id ≡ j.job_id)
      → IsFresh id jobs
      → IsFresh id (update p f jobs)
  IsFresh-update id p f jobs same =
      All-update (λ j. j.job_id ≢ id) p f jobs (λ j _ n. rw (same j) n)

  pub UniqueIds-update :
      (p : BackgroundJob P → Bool) (f : BackgroundJob P → BackgroundJob P)
      (jobs : List (BackgroundJob P))
      → ((j : BackgroundJob P) → (f j).job_id ≡ j.job_id)
      → UniqueIds jobs
      → UniqueIds (update p f jobs)
  UniqueIds-update p f [] same u = tt
  UniqueIds-update p f (j ∷ jobs) same u = elim (Bool-cases (p j)) [
    | inl e ↦
        rw (e, same j)
          (IsFresh-update j.job_id p f jobs same u.0, UniqueIds-update p f jobs same u.1)
    | inr e ↦ rw e (IsFresh-update j.job_id p f jobs same u.0, UniqueIds-update p f jobs same u.1)
  ]

  pub UniqueIds-append :
      (jobs : List (BackgroundJob P)) (j : BackgroundJob P)
      → IsFresh j.job_id jobs
      → UniqueIds jobs
      → UniqueIds (jobs ++ j ∷ [])
  UniqueIds-append [] j n u = (tt, tt)
  UniqueIds-append (k ∷ jobs) j n u = (
    All-append (λ x. x.job_id ≢ k.job_id) jobs (j ∷ []) u.0 (λ e. n.0 (sym e), tt),
    UniqueIds-append jobs j n.1 u.1,
  )

  pub UniqueIds-select :
      (p : BackgroundJob P → Bool) (jobs : List (BackgroundJob P))
      → UniqueIds jobs
      → UniqueIds (select p jobs)
  UniqueIds-select p [] u = tt
  UniqueIds-select p (j ∷ jobs) u = elim (Bool-cases (p j)) [
    | inl e ↦ rw e (
      All-map (λ x h. h.0) _ (All-select (λ x. x.job_id ≢ j.job_id) p jobs u.0),
      UniqueIds-select p jobs u.1,
    )
    | inr e ↦ rw e (UniqueIds-select p jobs u.1)
  ]

  -- With unique ids, a row of the id is the row itself.
  pub only_row :
      (job : BackgroundJob P) (jobs : List (BackgroundJob P))
      → UniqueIds jobs
      → Memᴰ job jobs
      → All (λ j. has_id job.job_id j ≡ true → j ≡ job) jobs
  only_row job [] u m = elim m [ ]
  only_row job (j ∷ jobs) u (Memᴰ.head e) = (
    λ _. sym e,
    All-map (λ x n h. absurd (n ((==_iff x.job_id j.job_id).0 (rw e at h)))) jobs u.0,
  )
  only_row job (j ∷ jobs) u (Memᴰ.tail m) = (
    λ h. absurd (
        All-mem (λ x. x.job_id ≢ j.job_id) job jobs u.0 m (sym ((==_iff j.job_id job.job_id).0 h))),
    only_row job jobs u.1 m,
  )

  pub choice-only_row :
      (locked : ℕ → Bool) (worker_id now ttl : ℕ) (jobs : List (BackgroundJob P))
      (was : BackgroundJob P)
      → UniqueIds jobs
      → choice locked worker_id now ttl jobs ≡ some was
      → All (λ j. has_id was.job_id j ≡ true → j ≡ was) jobs
  choice-only_row locked worker_id now ttl jobs was u e =
      only_row was jobs u (choice-mem locked worker_id now ttl jobs was e)

  -- A claim makes the taken row one that the worker holds, and keeps the table valid.
  pub claim-AllValid :
      (locked : ℕ → Bool) (worker_id now ttl : ℕ) (jobs : List (BackgroundJob P))
      → UniqueIds jobs
      → AllValid jobs
      → AllValid (claim locked worker_id now ttl jobs).1
  unfolding claim
  claim-AllValid locked worker_id now ttl jobs u v =
      elim (Option-cases (choice locked worker_id now ttl jobs)) [
        | inl e ↦ rw (e, claim) v
        | inr (was, e) ↦
            let pending_row = choice-claimable locked worker_id now ttl jobs was e in
            rw (e, claim)
              (claim_from-AllValid was worker_id now ttl jobs
                (All-map (λ j only h. rw (only h) (ground arith)) jobs
                  (choice-only_row locked worker_id now ttl jobs was u e))
                v)
      ]

  pub claim-UniqueIds :
      (locked : ℕ → Bool) (worker_id now ttl : ℕ) (jobs : List (BackgroundJob P))
      → UniqueIds jobs
      → UniqueIds (claim locked worker_id now ttl jobs).1
  unfolding claim
  claim-UniqueIds locked worker_id now ttl jobs u =
      elim (Option-cases (choice locked worker_id now ttl jobs)) [
        | inl e ↦ rw (e, claim) u
        | inr (was, e) ↦
            rw (e, claim)
              (UniqueIds-update (has_id was.job_id) (claimed_job worker_id now ttl) jobs (λ j. refl)
                u)
      ]

  pub enqueue_with-UniqueIds :
      (r : Result JobError (HandlerRegistration P)) (payload_tenant : P → Option String)
      (id now : ℕ) (job_type : String) (payload : P) (key trace : Option String)
      (not_before : Option ℕ) (tenant : Option String) (jobs : List (BackgroundJob P))
      → IsFresh id jobs
      → UniqueIds jobs
      → UniqueIds
          (enqueue_with r payload_tenant id now job_type payload key trace not_before tenant jobs).1
  unfolding insert_once new_job
  enqueue_with-UniqueIds (err e) payload_tenant id now job_type payload key trace not_before tenant
        jobs n u =
      u
  enqueue_with-UniqueIds (ok reg) payload_tenant id now job_type payload none trace not_before
        tenant jobs n u =
      elim (Bool-cases (reg.validates payload)) [
        | inl v ↦ rw v (UniqueIds-append jobs _ n u)
        | inr v ↦ rw v u
      ]
  enqueue_with-UniqueIds (ok reg) payload_tenant id now job_type payload (some key) trace not_before
        tenant jobs n u =
      elim (Bool-cases (reg.validates payload)) [
        | inr v ↦ rw v u
        | inl v ↦ elim (Option-cases (first (has_key job_type key) jobs)) [
          | inl e ↦ rw (v, e, insert_once) (UniqueIds-append jobs _ n u)
          | inr (x, e) ↦ rw (v, e, insert_once) u
        ]
      ]

  pub enqueue-UniqueIds :
      (registry : Registry P) (payload_tenant : P → Option String) (id now : ℕ) (job_type : String)
      (payload : P) (key trace : Option String) (not_before : Option ℕ) (tenant : Option String)
      (jobs : List (BackgroundJob P))
      → IsFresh id jobs
      → UniqueIds jobs
      → UniqueIds
          (enqueue registry payload_tenant id now job_type payload key trace not_before tenant
            jobs).1
  unfolding enqueue
  enqueue-UniqueIds registry payload_tenant id now job_type payload =
      enqueue_with-UniqueIds (get_handler job_type registry) payload_tenant id now job_type payload

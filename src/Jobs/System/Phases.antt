-- ===== src/Jobs/System/Phases.antt =====
-- The queue as its clients see it: a job waits, is held, or has ended, and has some attempts left.
use deal_screening_agent.Prelude.{
  Bool-cases, select, update, All, ℕ, suc, ◌-◌, ◌≤◌, ◌≡◌, refl, inl, inr, Bool, true, false, List,
  [], ◌∷◌, ◌++◌, arith,
}
use deal_screening_agent.Models.Enums.{
  JobState, pending, claimed, running, succeeded, failed_job, dead_lettered, is_pending, is_held,
  is_dead_lettered,
}
use deal_screening_agent.Models.Job.{BackgroundJob}

pub data Phase : Type 0 where
  waiting held : ℕ → Phase
  finished dead : Phase

-- One move of a job. A retry takes an attempt, and leaves at least one.
pub data PhaseStep : Phase → Phase → Type 0 where
  stays : (p : Phase) → PhaseStep p p
  is_taken : (n : ℕ) → PhaseStep (waiting n) (held n)
  is_returned : (n : ℕ) → PhaseStep (held n) (waiting n)
  is_retried : (n m : ℕ) → n ≡ suc m → 1 ≤ m → PhaseStep (held n) (waiting m)
  finishes : (n : ℕ) → PhaseStep (held n) finished
  dies : (n : ℕ) → PhaseStep (held n) dead

-- One change of a table: each job makes a move, a dead job may be dropped, and a new one that waits
-- may come at the end.
pub data TableStep : List (ℕ × Phase) → List (ℕ × Phase) → Type 0 where
  empty : TableStep [] []
  moves :
      {t u : List (ℕ × Phase)} {p q : Phase} (id : ℕ)
      → PhaseStep p q
      → TableStep t u
      → TableStep ((id, p) ∷ t) ((id, q) ∷ u)
  is_dropped : {t u : List (ℕ × Phase)} (id : ℕ) → TableStep t u → TableStep ((id, dead) ∷ t) u
  is_added : (id n : ℕ) → TableStep [] ((id, waiting n) ∷ [])

-- Any number of changes.
pub data Changes (start : List (ℕ × Phase)) : List (ℕ × Phase) → Type 0 where
  none_yet : Changes start start
  and_then : {t u : List (ℕ × Phase)} → Changes start t → TableStep t u → Changes start u

abbrev pub phase_in : JobState → ℕ → Phase
phase_in pending n = waiting n
phase_in claimed n = held n
phase_in running n = held n
phase_in succeeded n = finished
phase_in failed_job n = dead
phase_in dead_lettered n = dead

pub phase_in-held : (s : JobState) (n : ℕ) → is_held s ≡ true → phase_in s n ≡ held n
phase_in-held claimed n e = refl
phase_in-held running n e = refl
phase_in-held pending n e = absurd (ground arith)
phase_in-held succeeded n e = absurd (ground arith)
phase_in-held failed_job n e = absurd (ground arith)
phase_in-held dead_lettered n e = absurd (ground arith)

pub phase_in-waiting : (s : JobState) (n : ℕ) → is_pending s ≡ true → phase_in s n ≡ waiting n
phase_in-waiting pending n e = refl
phase_in-waiting claimed n e = absurd (ground arith)
phase_in-waiting running n e = absurd (ground arith)
phase_in-waiting succeeded n e = absurd (ground arith)
phase_in-waiting failed_job n e = absurd (ground arith)
phase_in-waiting dead_lettered n e = absurd (ground arith)

pub phase_in-dead : (s : JobState) (n : ℕ) → is_dead_lettered s ≡ true → phase_in s n ≡ dead
phase_in-dead dead_lettered n e = refl
phase_in-dead pending n e = absurd (ground arith)
phase_in-dead claimed n e = absurd (ground arith)
phase_in-dead running n e = absurd (ground arith)
phase_in-dead succeeded n e = absurd (ground arith)
phase_in-dead failed_job n e = absurd (ground arith)

module _ {P : Type 0} where
  abbrev pub phase : BackgroundJob P → Phase
  phase j = phase_in j.state (j.max_attempts - j.attempts)

  unfoldable pub view : List (BackgroundJob P) → List (ℕ × Phase)
  view [] = []
  view (j ∷ jobs) = (j.job_id, phase j) ∷ view jobs

  pub same-TableStep : (jobs : List (BackgroundJob P)) → TableStep (view jobs) (view jobs)
  unfolding view
  same-TableStep [] = empty
  same-TableStep (j ∷ jobs) = moves j.job_id (stays (phase j)) (same-TableStep jobs)

  pub update-TableStep :
      (p : BackgroundJob P → Bool) (f : BackgroundJob P → BackgroundJob P)
      (jobs : List (BackgroundJob P))
      → ((j : BackgroundJob P) → (f j).job_id ≡ j.job_id)
      → All (λ j. p j ≡ true → PhaseStep (phase j) (phase (f j))) jobs
      → TableStep (view jobs) (view (update p f jobs))
  unfolding view
  update-TableStep p f [] same h = empty
  update-TableStep p f (j ∷ jobs) same h = elim (Bool-cases (p j)) [
    | inl e ↦ rw (e, same j) (moves j.job_id (h.0 e) (update-TableStep p f jobs same h.1))
    | inr e ↦ rw e (moves j.job_id (stays (phase j)) (update-TableStep p f jobs same h.1))
  ]

  pub append-TableStep :
      (jobs : List (BackgroundJob P)) (j : BackgroundJob P)
      → is_pending j.state ≡ true
      → TableStep (view jobs) (view (jobs ++ j ∷ []))
  unfolding view
  append-TableStep [] j e =
      rw (phase_in-waiting j.state (j.max_attempts - j.attempts) e)
        (is_added j.job_id (j.max_attempts - j.attempts))
  append-TableStep (k ∷ jobs) j e = moves k.job_id (stays (phase k)) (append-TableStep jobs j e)

  pub select-TableStep :
      (p : BackgroundJob P → Bool) (jobs : List (BackgroundJob P))
      → All (λ j. p j ≡ false → phase j ≡ dead) jobs
      → TableStep (view jobs) (view (select p jobs))
  unfolding view
  select-TableStep p [] h = empty
  select-TableStep p (j ∷ jobs) h = elim (Bool-cases (p j)) [
    | inl e ↦ rw e (moves j.job_id (stays (phase j)) (select-TableStep p jobs h.1))
    | inr e ↦ rw (e, h.0 e) (is_dropped j.job_id (select-TableStep p jobs h.1))
  ]

-- ===== src/Jobs/Worker/Work.antt =====
-- The attempts that the jobs of a table have left, and updates of a table by id.
use mathlib.Core.List.{Memᴰ}
use deal_screening_agent.Prelude.{
  ◌==◌, if◌then◌else◌, ==_refl, Bool-cases, select, update, count, any, All, ℕ, ◌+◌, ◌-◌, ◌≤◌, ◌<◌,
  ◌≡◌, refl, subst, inl, inr, Bool, true, false, List, [], ◌∷◌, arith,
}
use deal_screening_agent.Models.Enums.{is_terminal}
use deal_screening_agent.Models.Job.{BackgroundJob}
use deal_screening_agent.Jobs.Queue.{has_id}

module _ {P : Type 0} where
  -- the attempts that a job has left
  abbrev pub work : BackgroundJob P → ℕ
  work j = if is_terminal j.state then 0 else j.max_attempts - j.attempts

  -- the attempts that the jobs of a table have left
  unfoldable pub work_left : List (BackgroundJob P) → ℕ
  work_left [] = 0
  work_left (j ∷ jobs) = work j + work_left jobs

  pub work_left-update :
      (p : BackgroundJob P → Bool) (f : BackgroundJob P → BackgroundJob P)
      (jobs : List (BackgroundJob P))
      → All (λ j. p j ≡ true → work (f j) < work j) jobs
      → count p jobs + work_left (update p f jobs) ≤ work_left jobs
  unfolding work_left
  work_left-update p f [] h = omega arith
  work_left-update p f (j ∷ jobs) h = elim (Bool-cases (p j)) [
    | inl e ↦ rw e (omega (arith, h.0 e, work_left-update p f jobs h.1))
    | inr e ↦ rw e (omega (arith, work_left-update p f jobs h.1))
  ]

  pub work_left-update_le :
      (p : BackgroundJob P → Bool) (f : BackgroundJob P → BackgroundJob P)
      (jobs : List (BackgroundJob P))
      → ((j : BackgroundJob P) → p j ≡ true → work (f j) ≤ work j)
      → work_left (update p f jobs) ≤ work_left jobs
  unfolding work_left
  work_left-update_le p f [] h = omega arith
  work_left-update_le p f (j ∷ jobs) h = elim (Bool-cases (p j)) [
    | inl e ↦ rw e (omega (arith, h j e, work_left-update_le p f jobs h))
    | inr e ↦ rw e (omega (arith, work_left-update_le p f jobs h))
  ]

  pub update-update :
      (p : BackgroundJob P → Bool) (f g : BackgroundJob P → BackgroundJob P)
      (jobs : List (BackgroundJob P))
      → ((j : BackgroundJob P) → p (f j) ≡ p j)
      → update p g (update p f jobs) ≡ update p (λ j. g (f j)) jobs
  update-update p f g [] k = refl
  update-update p f g (j ∷ jobs) k = elim (Bool-cases (p j)) [
    | inl e ↦ rw (e, k j, e, update-update p f g jobs k) refl
    | inr e ↦ rw (e, e, update-update p f g jobs k) refl
  ]

  pub count-mem :
      (job : BackgroundJob P) (jobs : List (BackgroundJob P))
      → Memᴰ job jobs
      → 1 ≤ count (has_id job.job_id) jobs
  count-mem job [] m = elim m [ ]
  count-mem job (j ∷ jobs) (Memᴰ.head e) =
      rw (subst (λ x. (x.job_id == job.job_id) ≡ true) e (==_refl job.job_id)) (omega arith)
  count-mem job (j ∷ jobs) (Memᴰ.tail m) = omega (arith, count-mem job jobs m)

  pub All-update_at :
      (Q : BackgroundJob P → Type 0) (p : BackgroundJob P → Bool)
      (f : BackgroundJob P → BackgroundJob P) (jobs : List (BackgroundJob P))
      → All (λ j. p j ≡ true → Q (f j)) jobs
      → All Q jobs
      → All Q (update p f jobs)
  All-update_at Q p f [] h a = tt
  All-update_at Q p f (j ∷ jobs) h a = elim (Bool-cases (p j)) [
    | inl e ↦ rw e (h.0 e, All-update_at Q p f jobs h.1 a.1)
    | inr e ↦ rw e (a.0, All-update_at Q p f jobs h.1 a.1)
  ]

  pub any-select_none :
      (p : BackgroundJob P → Bool) (jobs : List (BackgroundJob P))
      → All (λ j. p j ≡ false) (select p jobs)
      → any p jobs ≡ false
  any-select_none p [] h = refl
  any-select_none p (j ∷ jobs) h = elim (Bool-cases (p j)) [
    | inl e ↦ absurd (ground (arith, (rw e at h).0))
    | inr e ↦ rw e (any-select_none p jobs (rw e at h))
  ]

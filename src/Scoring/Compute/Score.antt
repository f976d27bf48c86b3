-- ===== src/Scoring/Compute/Score.antt =====
-- What _compute_score guarantees.
use deal_screening_agent.Prelude.{
  if◌then◌else◌, Bool-cases, select, any, All, ℕ, ◌≤◌, ◌≡◌, refl, sym, ◌⊎◌, inl, inr, true, false,
  not, List, [], ◌∷◌, arith,
}
use deal_screening_agent.Float.{Float, eq}
use deal_screening_agent.Scoring.Evaluator.{CriterionEvalResult}
use deal_screening_agent.Scoring.Compute.{
  fails_dealbreaker, add_weight, weights, compute_score, percentage,
}

module _ (fl : Float) where
  open fl use {
    F, of_ℕ, le, add, mul, div, round, le_refl, le_trans, le_total, of_ℕ_mono, add_mono, le_add,
    mul_mono, one_mul, div_mono, div_self, round_mono, round-of_ℕ,
  }

  -- No weight is negative: the schema's `Field(ge=0.0)`.
  abbrev pub NonNegative : List (CriterionEvalResult F) → Type 0
  NonNegative = All (λ r. le (of_ℕ 0) r.weight ≡ true)

  -- 0 <= matched_weight <= total_weight
  abbrev pub Ordered : F × F → Type 0
  Ordered (total, matched) = (le (of_ℕ 0) matched ≡ true) × (le matched total ≡ true)

  add_weight-Ordered :
      (r : CriterionEvalResult F) (t m : F)
      → le (of_ℕ 0) r.weight ≡ true
      → Ordered (t, m)
      → Ordered (add_weight fl (t, m) r)
  unfolding add_weight
  add_weight-Ordered r t m h o = ground (
    arith,
    le_add m r.weight,
    le_add t r.weight,
    add_mono m t r.weight r.weight,
    le_refl r.weight,
    le_trans (of_ℕ 0) m (add m r.weight),
    le_trans m t (add t r.weight),
  )

  pub weights-Ordered :
      (rs : List (CriterionEvalResult F)) (acc : F × F)
      → NonNegative rs
      → Ordered acc
      → Ordered (weights fl rs acc)
  unfolding weights
  weights-Ordered [] acc h o = o
  weights-Ordered (r ∷ rs) (t, m) h o =
      weights-Ordered rs (add_weight fl (t, m) r) h.1 (add_weight-Ordered r t m h.0 o)

  pub not_zero-positive :
      (t : F) → le (of_ℕ 0) t ≡ true → eq fl t (of_ℕ 0) ≡ false → le t (of_ℕ 0) ≡ false
  not_zero-positive t h z = ground arith

  le_hundred : (x : F) → le x (of_ℕ 1) ≡ true → round (mul x (of_ℕ 100)) ≤ 100
  le_hundred x h =
      let bound = mul_mono x (of_ℕ 1) (of_ℕ 100) (of_ℕ_mono 0 100 (omega arith)) h in
      let rounded = round_mono (mul x (of_ℕ 100)) (of_ℕ 100) (rw (one_mul 100) at bound) in
      omega (arith, round-of_ℕ 100 (omega arith))

  pub percentage_bound : (t m : F) → Ordered (t, m) → percentage fl (t, m) ≤ 100
  percentage_bound t m o = elim (Bool-cases (eq fl t (of_ℕ 0))) [
    | inl z ↦ rw z (omega arith)
    | inr z ↦
        let pos = not_zero-positive t (le_trans (of_ℕ 0) m t o.0 o.1) z in
        rw z (le_hundred (div m t) (rw (div_self t pos) at (div_mono m t t pos o.1)))
  ]

  pub zero_Ordered : Ordered (of_ℕ 0, of_ℕ 0)
  zero_Ordered = (le_refl (of_ℕ 0), le_refl (of_ℕ 0))

  -- The score is at most 100, when no weight is negative.
  pub compute_score-le-hundred :
      (rs : List (CriterionEvalResult F)) → NonNegative rs → compute_score fl rs ≤ 100
  unfolding compute_score
  compute_score-le-hundred [] h = omega arith
  compute_score-le-hundred (r ∷ rs) h =
      let (t, m) = weights fl (r ∷ rs) (of_ℕ 0, of_ℕ 0) in
      let bound = percentage_bound t m (weights-Ordered (r ∷ rs) (of_ℕ 0, of_ℕ 0) h zero_Ordered) in
      elim (Bool-cases (any fails_dealbreaker (r ∷ rs))) [
        | inl fails ↦ rw fails (omega arith)
        | inr passes ↦ rw passes bound
      ]

  -- The score is 0 when some dealbreaker was evaluated and not matched, whatever the weights.
  pub compute_score-dealbreaker :
      (rs : List (CriterionEvalResult F))
      → any fails_dealbreaker rs ≡ true
      → compute_score fl rs ≡ 0
  unfolding compute_score
  compute_score-dealbreaker [] h = refl
  compute_score-dealbreaker (r ∷ rs) h = rw h

  -- the results that count
  abbrev pub evaluable : List (CriterionEvalResult F) → List (CriterionEvalResult F)
  evaluable = select (λ r. not r.skipped)

  weights-evaluable :
      (rs : List (CriterionEvalResult F)) (acc : F × F)
      → weights fl rs acc ≡ weights fl (evaluable rs) acc
  unfolding weights add_weight
  weights-evaluable [] acc = refl
  weights-evaluable (r ∷ rs) (t, m) = elim (Bool-cases r.skipped) [
    | inl s ↦ rw s (weights-evaluable rs (t, m))
    | inr s ↦ rw s (weights-evaluable rs _)
  ]

  fails-evaluable :
      (rs : List (CriterionEvalResult F))
      → any fails_dealbreaker rs ≡ any fails_dealbreaker (evaluable rs)
  fails-evaluable [] = refl
  fails-evaluable (r ∷ rs) = ground (arith, fails-evaluable rs)

  percentage-zero : percentage fl (of_ℕ 0, of_ℕ 0) ≡ 0
  percentage-zero = rw (le_refl (of_ℕ 0))

  -- `compute_score` without its case for the empty list.
  unfoldable pub score_of : List (CriterionEvalResult F) → ℕ
  score_of rs =
      if any fails_dealbreaker rs then 0 else percentage fl (weights fl rs (of_ℕ 0, of_ℕ 0))

  pub compute_score-eq-score_of :
      (rs : List (CriterionEvalResult F)) → compute_score fl rs ≡ score_of rs
  unfolding compute_score score_of weights
  compute_score-eq-score_of [] = sym percentage-zero
  compute_score-eq-score_of (r ∷ rs) = refl

  -- every criterion that was evaluated matched
  weights-matched :
      (rs : List (CriterionEvalResult F)) (t : F)
      → All (λ r. (r.skipped ≡ true) ⊎ (r.matched ≡ true)) rs
      → (weights fl rs (t, t)).1 ≡ (weights fl rs (t, t)).0
  unfolding weights add_weight
  weights-matched [] t h = refl
  weights-matched (r ∷ rs) t (inl s, h) = rw s (weights-matched rs t h)
  weights-matched (r ∷ rs) t (inr m, h) = elim (Bool-cases r.skipped) [
    | inl s ↦ rw s (weights-matched rs t h)
    | inr s ↦ rw (s, m) (weights-matched rs (add t r.weight) h)
  ]

  fails-matched :
      (rs : List (CriterionEvalResult F))
      → All (λ r. (r.skipped ≡ true) ⊎ (r.matched ≡ true)) rs
      → any fails_dealbreaker rs ≡ false
  fails-matched [] h = refl
  fails-matched (r ∷ rs) h = ground (arith, fails-matched rs)

  percentage-full : (p : F × F) → le p.0 (of_ℕ 0) ≡ false → p.1 ≡ p.0 → percentage fl p ≡ 100
  percentage-full (t, m) z e = rw (e, z, div_self t z, one_mul 100) (ground (arith, round-of_ℕ 100))

  -- When every criterion that was evaluated matched and their total weight is positive, the score
  -- is 100.
  pub compute_score-matched :
      (rs : List (CriterionEvalResult F))
      → All (λ r. (r.skipped ≡ true) ⊎ (r.matched ≡ true)) rs
      → le (weights fl rs (of_ℕ 0, of_ℕ 0)).0 (of_ℕ 0) ≡ false
      → compute_score fl rs ≡ 100
  unfolding score_of
  compute_score-matched rs h z =
      rw (compute_score-eq-score_of rs, fails-matched rs h)
        (percentage-full _ z (weights-matched rs (of_ℕ 0) h))

  -- A criterion that was skipped never changes the score: it is as if it were not configured.
  pub compute_score-evaluable :
      (rs : List (CriterionEvalResult F)) → compute_score fl rs ≡ compute_score fl (evaluable rs)
  unfolding score_of
  compute_score-evaluable rs = rw (
    compute_score-eq-score_of rs,
    compute_score-eq-score_of (evaluable rs),
    fails-evaluable rs,
    weights-evaluable rs (of_ℕ 0, of_ℕ 0),
  )

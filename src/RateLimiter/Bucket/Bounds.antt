-- ===== src/RateLimiter/Bucket/Bounds.antt =====
-- A bucket never holds fewer than no tokens or more than its burst.
use deal_screening_agent.Prelude.{
  ◌==◌, if◌then◌else◌, Bool-cases, if-intro, ℕ, ◌≡◌, refl, sym, subst, inl, inr, true, arith,
}
use deal_screening_agent.Float.{Float, lt, fmax, fmin}
use deal_screening_agent.RateLimiter.Bucket.{
  BucketState, BucketConfig, CheckResult, refill, granted, denied, consume, check_and_consume,
}

module _ (fl : Float) where
  open fl use {
    F, of_ℕ, add, sub, mul, le, le_refl, le_trans, le_total, of_ℕ_mono, le_add, sub_nonneg, sub_le,
    mul_nonneg,
  }

  pub record IsWithin (state : BucketState F) (config : BucketConfig F) : Type 0 where
    pub nonneg : le (of_ℕ 0) state.tokens ≡ true
    pub at_most : le state.tokens (of_ℕ config.burst) ≡ true

  le-fmax : (a b : F) → le b (fmax fl a b) ≡ true
  le-fmax a b = elim (Bool-cases (le b a)) [ inl e ↦ rw (e, e) refl | inr e ↦ rw e (le_refl b) ]

  fmin-le : (a b : F) → le (fmin fl a b) a ≡ true
  fmin-le a b = elim (Bool-cases (le a b)) [
    | inl e ↦ rw e (le_refl a)
    | inr e ↦ rw e (le_total a b e)
  ]

  le-fmin : (c a b : F) → le c a ≡ true → le c b ≡ true → le c (fmin fl a b) ≡ true
  le-fmin c a b p q = if-intro (λ x. le c x ≡ true) (lt fl b a) q p

  refill-IsWithin :
      (state : BucketState F) (config : BucketConfig F) (now : F)
      → le (of_ℕ 0) config.refill_rate ≡ true
      → le (of_ℕ 0) state.tokens ≡ true
      → IsWithin (refill fl state config now) config
  unfolding refill
  refill-IsWithin state config now r n =
      let elapsed = sub (fmax fl now state.last_refill_at) state.last_refill_at in
      let e : le (of_ℕ 0) elapsed ≡ true =
        sub_nonneg (fmax fl now state.last_refill_at) state.last_refill_at
          (le-fmax now state.last_refill_at) in
      let more : le state.tokens (add state.tokens (mul elapsed config.refill_rate)) ≡ true =
        le_add state.tokens (mul elapsed config.refill_rate)
          (mul_nonneg elapsed config.refill_rate e r) in
      record {
        nonneg =
            le-fmin (of_ℕ 0) (of_ℕ config.burst) _ (of_ℕ_mono 0 config.burst (omega arith))
              (le_trans (of_ℕ 0) state.tokens _ n more);
        at_most = fmin-le (of_ℕ config.burst) _;
      }

  consume-IsWithin :
      (state : BucketState F) (config : BucketConfig F) (cost : ℕ) (now : F)
      → IsWithin state config
      → IsWithin (consume fl state config cost now).1 config
  consume-IsWithin state config cost now w = elim (Bool-cases (le (of_ℕ cost) state.tokens)) [
    | inr e ↦
        subst
          (λ b.
            IsWithin
              (if b then granted fl state config cost now else denied fl state config cost now).1
              config)
          (sym e) w
    | inl e ↦
        subst
          (λ b.
            IsWithin
              (if b then granted fl state config cost now else denied fl state config cost now).1
              config)
          (sym e)
          (record {
            nonneg = sub_nonneg state.tokens (of_ℕ cost) e;
            at_most =
                le_trans (sub state.tokens (of_ℕ cost)) state.tokens (of_ℕ config.burst)
                  (sub_le state.tokens (of_ℕ cost) (of_ℕ_mono 0 cost (omega arith))) w.at_most;
          })
  ]

  -- A check of a bucket that holds no negative number of tokens leaves between none and the burst,
  -- whatever was asked for, and its time of refill never moves back.
  pub check_and_consume_bounds :
      (state : BucketState F) (config : BucketConfig F) (cost : ℕ) (now : F)
      → le (of_ℕ 0) config.refill_rate ≡ true
      → le (of_ℕ 0) state.tokens ≡ true
      → IsWithin (check_and_consume fl state config cost now).1 config
        × (le state.last_refill_at (check_and_consume fl state config cost now).1.last_refill_at
            ≡ true)
  unfolding check_and_consume
  check_and_consume_bounds state config cost now r n = (
    consume-IsWithin (refill fl state config now) config cost now
        (refill-IsWithin state config now r n),
    if-intro
        (λ (r : CheckResult F × BucketState F). le state.last_refill_at r.1.last_refill_at ≡ true)
        (le (of_ℕ cost) (refill fl state config now).tokens) (le-fmax now state.last_refill_at)
        (le-fmax now state.last_refill_at),
  )

  -- A check is granted exactly when the refilled bucket holds the cost. A denial takes no token
  -- and asks for a wait of a second at least; a grant asks for none.
  pub check_and_consume-allowed :
      (state : BucketState F) (config : BucketConfig F) (cost : ℕ) (now : F)
      → ((check_and_consume fl state config cost now).0.allowed
          ≡ le (of_ℕ cost) (refill fl state config now).tokens)
        × ((check_and_consume fl state config cost now).1.tokens ≡ (
            if (check_and_consume fl state config cost now).0.allowed
            then sub (refill fl state config now).tokens (of_ℕ cost)
            else (refill fl state config now).tokens))
        × (((check_and_consume fl state config cost now).0.retry_after_seconds == 0)
            ≡ (check_and_consume fl state config cost now).0.allowed)
  unfolding check_and_consume
  check_and_consume-allowed state config cost now =
      elim (Bool-cases (le (of_ℕ cost) (refill fl state config now).tokens)) [
        | inl e ↦ rw e (refl, refl, refl)
        | inr e ↦ rw e (refl, refl, ground arith)
      ]

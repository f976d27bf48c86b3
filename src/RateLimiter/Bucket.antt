-- ===== src/RateLimiter/Bucket.antt =====
-- src/app/rate_limiter/bucket.py. Tokens and seconds are floating-point numbers, and the time is
-- an argument.
pub mod Bounds
use deal_screening_agent.Prelude.{if◌then◌else◌, ℕ, max, Bool, true, false}
use deal_screening_agent.Float.{Float, lt, fmax, fmin}

pub record BucketState (F : Type 0) : Type 0 where
  pub tokens : F
  pub last_refill_at : F

pub record BucketConfig (F : Type 0) : Type 0 where
  pub burst : ℕ
  pub refill_rate : F

pub record CheckResult (F : Type 0) : Type 0 where
  pub allowed : Bool
  pub tokens_remaining : F
  pub limit : ℕ
  pub retry_after_seconds : ℕ
  pub reset_at : F

module _ (fl : Float) where
  open fl use {F, of_ℕ, just_below_one, add, sub, mul, div, le, trunc}

  unfoldable pub refill : BucketState F → BucketConfig F → F → BucketState F
  refill state config now =
      let effective_now = fmax fl now state.last_refill_at in
      let elapsed = sub effective_now state.last_refill_at in
      record {
        tokens = fmin fl (of_ℕ config.burst) (add state.tokens (mul elapsed config.refill_rate));
        last_refill_at = effective_now;
      }

  abbrev is_refilling : BucketConfig F → Bool
  is_refilling config = lt fl (of_ℕ 0) config.refill_rate

  abbrev full_at : BucketState F → BucketConfig F → F → F
  full_at state config now =
      if is_refilling config
      then add now (div (sub (of_ℕ config.burst) state.tokens) config.refill_rate)
      else now

  abbrev pub granted : BucketState F → BucketConfig F → ℕ → F → CheckResult F × BucketState F
  granted state config cost now = (
    record {
      allowed = true;
      tokens_remaining = sub state.tokens (of_ℕ cost);
      limit = config.burst;
      retry_after_seconds = 0;
      reset_at = full_at state config now;
    },
    record { tokens = sub state.tokens (of_ℕ cost); last_refill_at = state.last_refill_at },
  )

  abbrev retry_after : BucketState F → BucketConfig F → ℕ → F
  retry_after state config cost =
      if is_refilling config
      then div (sub (of_ℕ cost) state.tokens) config.refill_rate
      else of_ℕ 3600

  abbrev pub denied : BucketState F → BucketConfig F → ℕ → F → CheckResult F × BucketState F
  denied state config cost now = (
    record {
      allowed = false;
      tokens_remaining = state.tokens;
      limit = config.burst;
      retry_after_seconds = max 1 (trunc (add (retry_after state config cost) just_below_one));
      reset_at = full_at state config now;
    },
    state,
  )

  -- what is left to do after the refill
  abbrev pub consume : BucketState F → BucketConfig F → ℕ → F → CheckResult F × BucketState F
  consume state config cost now =
      if le (of_ℕ cost) state.tokens
      then granted state config cost now
      else denied state config cost now

  unfoldable pub check_and_consume :
      BucketState F → BucketConfig F → ℕ → F → CheckResult F × BucketState F
  unfolding refill
  check_and_consume state config cost now = consume (refill state config now) config cost now

  unfoldable pub new_bucket : BucketConfig F → F → BucketState F
  new_bucket config now = record { tokens = of_ℕ config.burst; last_refill_at = now }

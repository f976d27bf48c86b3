-- ===== src/Jobs/Backoff.antt =====
-- src/app/background_jobs/backoff.py. `random.random()` is `draw / 2 ^ 53` for a whole number
-- `draw` below 2 ^ 53, and the delay is given in microseconds, the resolution of a `datetime`.
use deal_screening_agent.Prelude.{
  ℕ, zero, suc, ◌+◌, ◌-◌, ◌*◌, ◌/◌, ◌^◌, ◌≤◌, ◌<◌, ◌≡◌, refl, ◌⊎◌, inl, inr, arith,
}

-- BASE_DELAYS[min(attempt, len(BASE_DELAYS) - 1)]
unfoldable pub base_delay : ℕ → ℕ
base_delay zero = 1
base_delay (suc zero) = 4
base_delay (suc (suc zero)) = 16
base_delay (suc (suc (suc zero))) = 64
base_delay _ = 256

abbrev pub second : ℕ
second = 1000000

-- base + base * 0.25 * (2 * random - 1), over the denominator 2 ^ 55
unfoldable pub compute_backoff : ℕ → ℕ → ℕ
unfolding base_delay
compute_backoff attempt draw =
    let base = base_delay attempt in
    (base * 2 ^ 55 + base * (2 * draw) - base * 2 ^ 53) * second / 2 ^ 55

base_delay_cases :
    (n : ℕ)
    → (base_delay n ≡ 1)
      ⊎ (base_delay n ≡ 4)
      ⊎ (base_delay n ≡ 16)
      ⊎ (base_delay n ≡ 64)
      ⊎ (base_delay n ≡ 256)
unfolding base_delay
base_delay_cases zero = inl refl
base_delay_cases (suc zero) = inr (inl refl)
base_delay_cases (suc (suc zero)) = inr (inr (inl refl))
base_delay_cases (suc (suc (suc zero))) = inr (inr (inr (inl refl)))
base_delay_cases (suc (suc (suc (suc n)))) = inr (inr (inr (inr refl)))

base_delay_mono : (n : ℕ) → base_delay n ≤ base_delay (suc n)
unfolding base_delay
base_delay_mono zero = omega arith
base_delay_mono (suc zero) = omega arith
base_delay_mono (suc (suc zero)) = omega arith
base_delay_mono (suc (suc (suc zero))) = omega arith
base_delay_mono (suc (suc (suc (suc n)))) = omega arith

base_delay-le : (n : ℕ) → base_delay n ≤ 256
base_delay-le n = ground (arith, base_delay_cases n)

jitter_bounds :
    (base draw : ℕ)
    → draw < 2 ^ 53
    → (base ≡ 1) ⊎ (base ≡ 4) ⊎ (base ≡ 16) ⊎ (base ≡ 64) ⊎ (base ≡ 256)
    → (3 * base * 250000 ≤ (base * 2 ^ 55 + base * (2 * draw) - base * 2 ^ 53) * second / 2 ^ 55)
      × ((base * 2 ^ 55 + base * (2 * draw) - base * 2 ^ 53) * second / 2 ^ 55 ≤ 5 * base * 250000)
jitter_bounds base draw h (inl e) = rw e (omega arith)
jitter_bounds base draw h (inr (inl e)) = rw e (omega arith)
jitter_bounds base draw h (inr (inr (inl e))) = rw e (omega arith)
jitter_bounds base draw h (inr (inr (inr (inl e)))) = rw e (omega arith)
jitter_bounds base draw h (inr (inr (inr (inr e)))) = rw e (omega arith)

-- The lower bound holds for draws of any size.
pub compute_backoff-least :
    (attempt draw : ℕ) → 3 * base_delay attempt * 250000 ≤ compute_backoff attempt draw
unfolding compute_backoff
compute_backoff-least attempt draw = go (base_delay attempt) (base_delay_cases attempt)
  where
    go :
        (base : ℕ)
        → (base ≡ 1) ⊎ (base ≡ 4) ⊎ (base ≡ 16) ⊎ (base ≡ 64) ⊎ (base ≡ 256)
        → 3 * base * 250000 ≤ (base * 2 ^ 55 + base * (2 * draw) - base * 2 ^ 53) * second / 2 ^ 55
    go base (inl e) = rw e (omega arith)
    go base (inr (inl e)) = rw e (omega arith)
    go base (inr (inr (inl e))) = rw e (omega arith)
    go base (inr (inr (inr (inl e)))) = rw e (omega arith)
    go base (inr (inr (inr (inr e)))) = rw e (omega arith)

-- The delay lies within a quarter of the base delay of the attempt, for every random draw, and the
-- base delays grow with the attempt up to 256 seconds.
pub compute_backoff_bounds :
    (attempt draw : ℕ)
    → draw < 2 ^ 53
    → (3 * base_delay attempt * 250000 ≤ compute_backoff attempt draw)
      × (compute_backoff attempt draw ≤ 5 * base_delay attempt * 250000)
      × (base_delay attempt ≤ base_delay (suc attempt))
      × (base_delay (suc attempt) ≤ 256)
unfolding compute_backoff
compute_backoff_bounds attempt draw h =
    let (lower, upper) = jitter_bounds (base_delay attempt) draw h (base_delay_cases attempt) in
    (lower, upper, base_delay_mono attempt, base_delay-le (suc attempt))

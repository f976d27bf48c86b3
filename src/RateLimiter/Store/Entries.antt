-- ===== src/RateLimiter/Store/Entries.antt =====
-- What the store holds after any of its methods.
use deal_screening_agent.Prelude.{
  ltb, Option-cases, if-intro, length, select, first, All, All-append, All-first, All-select,
  All-map, ℕ, ◌≤◌, ◌≡◌, inl, inr, true, not, List, [], ◌∷◌, arith,
}
use deal_screening_agent.Float.{Float}
use deal_screening_agent.RateLimiter.Bucket.{BucketConfig, new_bucket}
use deal_screening_agent.RateLimiter.Bucket.Bounds.{IsWithin, check_and_consume_bounds}
use deal_screening_agent.RateLimiter.Store.{
  BucketKey, Entry, has_bucket, evict_expired, state_or_new, check,
}

length-evict_expired :
    {F : Type 0} (max_keys : ℕ) (buckets : List (Entry F))
    → length (evict_expired max_keys buckets) ≤ max_keys
unfolding evict_expired
length-evict_expired max_keys [] = omega arith
length-evict_expired max_keys (e ∷ buckets) = ground (arith, length-evict_expired max_keys buckets)

evict_expired-All :
    {F : Type 0} (P : Entry F → Type 0) (max_keys : ℕ) (buckets : List (Entry F))
    → All P buckets
    → All P (evict_expired max_keys buckets)
unfolding evict_expired
evict_expired-All P max_keys [] a = tt
evict_expired-All P max_keys (e ∷ buckets) a =
    if-intro (All P) (ltb max_keys (length (e ∷ buckets)))
      (evict_expired-All P max_keys buckets a.1) a

module _ (fl : Float) where
  open fl use {F, of_ℕ, le, le_refl, of_ℕ_mono}

  -- every bucket holds between none and the burst of its own limit
  abbrev pub AllWithin : List (Entry F) → Type 0
  AllWithin = All (λ e. IsWithin fl e.state e.config)

  state_or_new-nonneg :
      (key : BucketKey) (config : BucketConfig F) (now : F) (buckets : List (Entry F))
      → AllWithin buckets
      → le (of_ℕ 0) (state_or_new fl (first (has_bucket key) buckets) config now).tokens ≡ true
  unfolding new_bucket
  state_or_new-nonneg key config now buckets a =
      elim (Option-cases (first (has_bucket key) buckets)) [
        | inl e ↦ rw e (of_ℕ_mono 0 config.burst (omega arith))
        | inr (x, e) ↦
            rw e
              (All-first (λ e. IsWithin fl e.state e.config) (has_bucket key) buckets x a e).nonneg
      ]

  -- A check keeps every bucket of the store between none and the burst of its limit, also when
  -- the limit of the key has changed since, and leaves at most `max_keys` entries, however many
  -- there were.
  pub check-AllWithin :
      (max_keys : ℕ) (key : BucketKey) (config : BucketConfig F) (cost : ℕ) (now : F)
      (buckets : List (Entry F))
      → le (of_ℕ 0) config.refill_rate ≡ true
      → AllWithin buckets
      → AllWithin (check fl max_keys key config cost now buckets).1
        × (length (check fl max_keys key config cost now buckets).1 ≤ max_keys)
  unfolding check
  check-AllWithin max_keys key config cost now buckets r a = (
    evict_expired-All (λ e. IsWithin fl e.state e.config) max_keys _
        (All-append (λ e. IsWithin fl e.state e.config)
          (select (λ e. not (has_bucket key e)) buckets) _
          (All-map (λ e p. p.0) _
            (All-select (λ e. IsWithin fl e.state e.config) (λ e. not (has_bucket key e)) buckets
              a))
          (
            (check_and_consume_bounds fl
                (state_or_new fl (first (has_bucket key) buckets) config now) config cost now r
                (state_or_new-nonneg key config now buckets a)).0,
            tt,
          )),
    length-evict_expired max_keys _,
  )

-- ===== src/Examples/Limits.antt =====
-- The rate limiter.
use deal_screening_agent.Prelude.{
  is_some, length, any, ℕ, ◌≤◌, ◌≡◌, refl, false, none, some, List, [], ◌∷◌,
}
use deal_screening_agent.Float.Fixed.{fixed}
use deal_screening_agent.RateLimiter.Bucket.{BucketState, BucketConfig, refill, check_and_consume}
use deal_screening_agent.RateLimiter.Store.{ip, default_group, BucketKey, Entry, check}
use deal_screening_agent.RateLimiter.Store.Entries.{AllWithin, check-AllWithin}
use deal_screening_agent.RateLimiter.Middleware.{
  resolve_endpoint_group, LimitsTable, scopes, dispatch,
}
use deal_screening_agent.RateLimiter.Middleware.Denials.{
  is_denied, longest_wait, denial_wait, scope_results, dispatch_lem,
}

abbrev five_a_second : BucketConfig ℕ
five_a_second = record { burst = 5; refill_rate = 5120 }

abbrev nearly_empty : BucketState ℕ
nearly_empty = record { tokens = 512; last_refill_at = 10240 }

abbrev one_limit : LimitsTable ℕ
one_limit = ((ip, default_group), five_a_second) ∷ []

abbrev a_key : BucketKey
a_key = record { scope = ip; identity = "10.0.0.1"; group = default_group }

abbrev one_bucket : List (Entry ℕ)
one_bucket = record { key = a_key; state = nearly_empty; config = five_a_second } ∷ []

waits_a_second :
    (check_and_consume fixed nearly_empty five_a_second 1 10240).0.retry_after_seconds ≡ 1
unfolding check_and_consume refill
waits_a_second = refl

check-AllWithin_example :
    AllWithin fixed (check fixed 100 a_key five_a_second 1 11264 one_bucket).1
    × (length (check fixed 100 a_key five_a_second 1 11264 one_bucket).1 ≤ 100)
check-AllWithin_example =
    check-AllWithin fixed 100 a_key five_a_second 1 11264 one_bucket refl
      (record { nonneg = refl; at_most = refl }, tt)

dispatch_lem_example :
    (is_some
        (dispatch fixed
          (λ s p. false)
          100
          one_limit
          "/api/v1/deals"
          "10.0.0.1"
          (some "1")
          none
          10240
          one_bucket).0.most_restrictive_denial
      ≡ any is_denied (
          scope_results fixed 100 one_limit
            (resolve_endpoint_group (λ s p. false) "/api/v1/deals")
            10240
            (scopes "10.0.0.1" (some "1") none)
            one_bucket))
    × (denial_wait
          (dispatch fixed
            (λ s p. false)
            100
            one_limit
            "/api/v1/deals"
            "10.0.0.1"
            (some "1")
            none
            10240
            one_bucket).0.most_restrictive_denial
        ≡ longest_wait (
            scope_results fixed 100 one_limit
              (resolve_endpoint_group (λ s p. false) "/api/v1/deals")
              10240
              (scopes "10.0.0.1" (some "1") none)
              one_bucket))
dispatch_lem_example =
    dispatch_lem fixed (λ s p. false) 100 one_limit "/api/v1/deals" "10.0.0.1" (some "1") none 10240
      one_bucket refl

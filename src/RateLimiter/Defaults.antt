-- ===== src/RateLimiter/Defaults.antt =====
-- The limits of src/app/rate_limiter/config.py that apply if none are configured, and the rates of
-- bucket.py that they are given by.
use deal_screening_agent.Prelude.{if◌then◌else◌, ℕ, ◌&&◌, [], ◌∷◌}
use deal_screening_agent.Float.{Float}
use deal_screening_agent.RateLimiter.Bucket.{BucketConfig}
use deal_screening_agent.RateLimiter.Store.{
  Scope, ip, email, by_user, tenant, EndpointGroup, auth_login, auth_refresh, upload, rescore_group,
  default_group, is_scope, is_group,
}
use deal_screening_agent.RateLimiter.Middleware.{LimitsTable}

module _ (fl : Float) where
  open fl use {F, of_ℕ, div}

  abbrev pub per_minute : ℕ → ℕ → BucketConfig F
  per_minute burst rpm = record { burst = burst; refill_rate = div (of_ℕ rpm) (of_ℕ 60) }

  abbrev pub per_hour : ℕ → ℕ → BucketConfig F
  per_hour burst rph = record { burst = burst; refill_rate = div (of_ℕ rph) (of_ℕ 3600) }

  -- DEFAULT_LIMITS, as the table that `from_defaults` makes of it
  abbrev pub default_limits : LimitsTable F
  default_limits =
      ((ip, auth_login), per_minute 5 5)
      ∷ ((email, auth_login), per_hour 20 20)
      ∷ ((ip, auth_refresh), per_minute 10 10)
      ∷ ((by_user, upload), per_minute 10 10)
      ∷ ((tenant, upload), per_minute 100 100)
      ∷ ((by_user, rescore_group), per_minute 20 20)
      ∷ ((ip, default_group), per_minute 60 60)
      ∷ ((by_user, default_group), per_minute 120 120)
      ∷ ((tenant, default_group), per_minute 600 600)
      ∷ []

  -- `_table[(scope, group)] = config`
  unfoldable pub set_limit : Scope → EndpointGroup → BucketConfig F → LimitsTable F → LimitsTable F
  set_limit scope group config [] = ((scope, group), config) ∷ []
  set_limit scope group config (((s, g), c) ∷ table) =
      let rest = set_limit scope group config table in
      if is_scope s scope && is_group g group then ((s, g), config) ∷ table else ((s, g), c) ∷ rest

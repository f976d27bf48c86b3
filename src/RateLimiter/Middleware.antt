-- ===== src/RateLimiter/Middleware.antt =====
-- The limits of src/app/rate_limiter/config.py, and the checks of `dispatch` in middleware.py on
-- the in-memory store, which raises nothing. One time stands for the clock at all of its checks.
pub mod Denials
use deal_screening_agent.Prelude.{
  ltb, if◌then◌else◌, ℕ, String, Bool, true, ◌&&◌, ◌||◌, Option, none, some, List, [], ◌∷◌, ◌++◌,
  str_eq,
}
use deal_screening_agent.Float.{Float}
use deal_screening_agent.RateLimiter.Bucket.{BucketConfig, CheckResult}
use deal_screening_agent.RateLimiter.Store.{
  Scope, ip, by_user, tenant, EndpointGroup, auth_login, auth_refresh, upload, default_group,
  is_scope, is_group, Entry, check,
}

-- `path.startswith(prefix)` is a parameter.
abbrev is_route : (String → String → Bool) → String → String → String → Bool
is_route starts_with path prefix prefix_slash = str_eq path prefix || starts_with path prefix_slash

unfoldable pub resolve_endpoint_group : (String → String → Bool) → String → EndpointGroup
resolve_endpoint_group starts_with path =
    if is_route starts_with path "/api/v1/auth/login" "/api/v1/auth/login/"
    then auth_login
    else if is_route starts_with path "/api/v1/auth/refresh" "/api/v1/auth/refresh/"
    then auth_refresh
    else if is_route starts_with path "/api/v1/deals/upload" "/api/v1/deals/upload/"
    then upload
    else default_group

abbrev pub LimitsTable : Type 0 → Type 0
LimitsTable F = List ((Scope × EndpointGroup) × BucketConfig F)

unfoldable pub get_limit :
    {F : Type 0} → Scope → EndpointGroup → LimitsTable F → Option (BucketConfig F)
get_limit scope group [] = none
get_limit scope group (((s, g), config) ∷ table) =
    let rest = get_limit scope group table in
    if is_scope s scope && is_group g group then some config else rest

-- `checks.append(…)` for an identity that is there and not empty
abbrev with_identity : Scope → Option String → List (Scope × String)
with_identity scope none = []
with_identity scope (some key) = if str_eq key "" then [] else (scope, key) ∷ []

abbrev pub scopes : String → Option String → Option String → List (Scope × String)
scopes client_ip user_id tenant_id =
    (ip, client_ip) ∷ with_identity by_user user_id ++ with_identity tenant tenant_id

pub record Outcome (F : Type 0) : Type 0 where
  pub most_restrictive_denial : Option (CheckResult F × Scope)
  pub last_allowed : Option (CheckResult F)

module _ {F : Type 0} where
  abbrev pub is_stricter : CheckResult F → Option (CheckResult F × Scope) → Bool
  is_stricter result none = true
  is_stricter result (some (r, s)) = ltb r.retry_after_seconds result.retry_after_seconds

  abbrev pub note_result : CheckResult F → Scope → Outcome F → Outcome F
  note_result result scope o =
      if result.allowed
      then record o { last_allowed = some result }
      else if is_stricter result o.most_restrictive_denial
      then record o { most_restrictive_denial = some (result, scope) }
      else o

module _ (fl : Float) where
  open fl use {F}

  abbrev pub check_scope :
      ℕ
      → Scope
      → String
      → EndpointGroup
      → F
      → Option (BucketConfig F)
      → List (Entry F)
      → Option (CheckResult F) × List (Entry F)
  check_scope max_keys scope key group now none buckets = (none, buckets)
  check_scope max_keys scope key group now (some config) buckets =
      let (result, buckets') =
        check fl max_keys (record { scope = scope; identity = key; group = group }) config 1 now
          buckets in
      (some result, buckets')

  abbrev pub note_option : Option (CheckResult F) → Scope → Outcome F → Outcome F
  note_option none scope o = o
  note_option (some result) scope o = note_result result scope o

  -- The loop over the scopes, each with its limit.
  unfoldable pub check_scopes :
      ℕ
      → LimitsTable F
      → EndpointGroup
      → F
      → List (Scope × String)
      → Outcome F
      → List (Entry F)
      → Outcome F × List (Entry F)
  unfolding get_limit check
  check_scopes max_keys limits group now [] o buckets = (o, buckets)
  check_scopes max_keys limits group now ((scope, key) ∷ checks) o buckets =
      let (result, buckets') =
        check_scope max_keys scope key group now (get_limit scope group limits) buckets in
      check_scopes max_keys limits group now checks (note_option result scope o) buckets'

  abbrev pub no_outcome : Outcome F
  no_outcome = record { most_restrictive_denial = none; last_allowed = none }

  abbrev pub is_unlimited : (String → String → Bool) → String → Bool
  is_unlimited starts_with path =
      starts_with path "/health" || starts_with path "/ready" || starts_with path "/metrics"

  -- What decides whether the request is refused with 429, and the result that the headers show.
  unfoldable pub dispatch :
      (String → String → Bool)
      → ℕ
      → LimitsTable F
      → String
      → String
      → Option String
      → Option String
      → F
      → List (Entry F)
      → Outcome F × List (Entry F)
  unfolding resolve_endpoint_group check_scopes
  dispatch starts_with max_keys limits path client_ip user_id tenant_id now buckets =
      if is_unlimited starts_with path
      then (no_outcome, buckets)
      else check_scopes max_keys limits (resolve_endpoint_group starts_with path) now
          (scopes client_ip user_id tenant_id) no_outcome buckets

-- ===== src/RateLimiter/Middleware/Denials.antt =====
-- When a request is refused, and how long it is told to wait.
use deal_screening_agent.Prelude.{
  if◌then◌else◌, is_some, Option-cases, any, ℕ, max, String, ◌≡◌, refl, ap, ◌∙◌, inl, inr, Bool,
  true, false, not, ◌||◌, Option, none, some, List, [], ◌∷◌, arith,
}
use deal_screening_agent.RateLimiter.Bucket.{CheckResult}
use deal_screening_agent.RateLimiter.Store.{Scope, EndpointGroup, Entry}
use deal_screening_agent.RateLimiter.Middleware.{
  resolve_endpoint_group, LimitsTable, get_limit, scopes, Outcome, note_result, check_scope,
  note_option, check_scopes, no_outcome, is_unlimited, dispatch,
}
use deal_screening_agent.Float.{Float}

or_assoc : (a b c : Bool) → ((a || b) || c) ≡ (a || (b || c))
or_assoc true b c = refl
or_assoc false b c = refl

module _ {F : Type 0} where
  abbrev pub is_denied : CheckResult F → Bool
  is_denied r = not r.allowed

  -- the wait that a result asks for
  abbrev pub wait_of : CheckResult F → ℕ
  wait_of r = if r.allowed then 0 else r.retry_after_seconds

  abbrev pub longest_wait : List (CheckResult F) → ℕ
  longest_wait [] = 0
  longest_wait (r ∷ rs) = max (wait_of r) (longest_wait rs)

  abbrev pub denial_wait : Option (CheckResult F × Scope) → ℕ
  denial_wait none = 0
  denial_wait (some (r, s)) = r.retry_after_seconds

  abbrev pub with_result : Option (CheckResult F) → List (CheckResult F) → List (CheckResult F)
  with_result none rs = rs
  with_result (some r) rs = r ∷ rs

  -- what a final outcome says of an earlier one and the results in between
  pub record Summarizes (o : Outcome F) (rs : List (CheckResult F)) (end : Outcome F) : Type 0 where
    pub denies :
        is_some end.most_restrictive_denial
        ≡ (is_some o.most_restrictive_denial || any is_denied rs)
    pub waits :
        denial_wait end.most_restrictive_denial
        ≡ max (denial_wait o.most_restrictive_denial) (longest_wait rs)

  note_result-denies :
      (r : CheckResult F) (scope : Scope) (o : Outcome F)
      → is_some (note_result r scope o).most_restrictive_denial
        ≡ (is_some o.most_restrictive_denial || is_denied r)
  note_result-denies r scope o = elim (Option-cases o.most_restrictive_denial) [
    | inl e ↦ ground (arith, e)
    | inr (d, e) ↦ ground (arith, e)
  ]

  note_result-waits :
      (r : CheckResult F) (scope : Scope) (o : Outcome F)
      → denial_wait (note_result r scope o).most_restrictive_denial
        ≡ max (denial_wait o.most_restrictive_denial) (wait_of r)
  note_result-waits r scope o = elim (Option-cases o.most_restrictive_denial) [
    | inl e ↦ ground (arith, e)
    | inr (d, e) ↦ ground (arith, e)
  ]

  note_result-Summarizes :
      (r : CheckResult F) (scope : Scope) (o end : Outcome F) (rs : List (CheckResult F))
      → Summarizes (note_result r scope o) rs end
      → Summarizes o (r ∷ rs) end
  note_result-Summarizes r scope o end rs s = record {
    denies =
        s.denies
        ∙ ap (λ b. b || any is_denied rs) (note_result-denies r scope o)
        ∙ or_assoc (is_some o.most_restrictive_denial) (is_denied r) (any is_denied rs);
    waits = omega (arith, s.waits, note_result-waits r scope o);
  }

module _ (fl : Float) where
  open fl use {F}

  -- the results of the checks of the scopes, each on the store that the one before leaves
  unfoldable pub scope_results :
      ℕ
      → LimitsTable F
      → EndpointGroup
      → F
      → List (Scope × String)
      → List (Entry F)
      → List (CheckResult F)
  unfolding get_limit
  scope_results max_keys limits group now [] buckets = []
  scope_results max_keys limits group now ((scope, key) ∷ checks) buckets =
      let (result, buckets') =
        check_scope fl max_keys scope key group now (get_limit scope group limits) buckets in
      with_result result (scope_results max_keys limits group now checks buckets')

  check_scopes-Summarizes :
      (max_keys : ℕ) (limits : LimitsTable F) (group : EndpointGroup) (now : F)
      (checks : List (Scope × String)) (o : Outcome F) (buckets : List (Entry F))
      → Summarizes o
          (scope_results max_keys limits group now checks buckets)
          (check_scopes fl max_keys limits group now checks o buckets).0
  unfolding scope_results check_scopes
  check_scopes-Summarizes max_keys limits group now [] o buckets = record {
    denies = or_false (is_some o.most_restrictive_denial);
    waits = omega arith;
  }
    where
      or_false : (b : Bool) → b ≡ (b || false)
      or_false true = refl
      or_false false = refl
  check_scopes-Summarizes max_keys limits group now ((scope, key) ∷ checks) o buckets =
      go (λ o' b. check_scopes-Summarizes max_keys limits group now checks o' b)
        (check_scope fl max_keys scope key group now (get_limit scope group limits) buckets)
    where
      go :
          ((o' : Outcome F) (b : List (Entry F))
            → Summarizes o'
                (scope_results max_keys limits group now checks b)
                (check_scopes fl max_keys limits group now checks o' b).0)
          → (r : Option (CheckResult F) × List (Entry F))
          → Summarizes o
              (with_result r.0 (scope_results max_keys limits group now checks r.1))
              (check_scopes fl max_keys limits group now checks (note_option fl r.0 scope o) r.1).0
      go rest (none, b) = rest o b
      go rest (some result, b) =
          note_result-Summarizes result scope o _ _ (rest (note_result result scope o) b)

  -- A request on a path that is limited is refused exactly when the bucket of some scope refuses
  -- it, be it the address, the user or the tenant, and it is told the longest of their waits;
  -- every scope is checked, after a refusal too.
  pub dispatch_lem :
      (starts_with : String → String → Bool) (max_keys : ℕ) (limits : LimitsTable F)
      (path client_ip : String) (user_id tenant_id : Option String) (now : F)
      (buckets : List (Entry F))
      → is_unlimited fl starts_with path ≡ false
      → (is_some
            (dispatch fl starts_with max_keys limits path client_ip user_id tenant_id now
              buckets).0.most_restrictive_denial
          ≡ any is_denied (
              scope_results max_keys limits
                (resolve_endpoint_group starts_with path)
                now
                (scopes client_ip user_id tenant_id)
                buckets))
        × (denial_wait
              (dispatch fl starts_with max_keys limits path client_ip user_id tenant_id now
                buckets).0.most_restrictive_denial
            ≡ longest_wait (
                scope_results max_keys limits
                  (resolve_endpoint_group starts_with path)
                  now
                  (scopes client_ip user_id tenant_id)
                  buckets))
  unfolding dispatch
  dispatch_lem starts_with max_keys limits path client_ip user_id tenant_id now buckets h =
      let s =
        check_scopes-Summarizes max_keys limits (resolve_endpoint_group starts_with path) now
          (scopes client_ip user_id tenant_id) (no_outcome fl) buckets in
      rw h (s.denies, s.waits ∙ omega arith)

-- ===== src/RateLimiter/Store.antt =====
-- InMemoryStore of src/app/rate_limiter/store.py. The OrderedDict is a list, the least recently
-- used entry first; a key is the three parts that `_build_key` puts into one text. The lock makes
-- each method one step.
pub mod Entries
use deal_screening_agent.Prelude.{
  ltb, ◌==◌, if◌then◌else◌, length, select, first, update, ℕ, String, Bool, not, ◌&&◌, Option, none,
  some, List, [], ◌∷◌, ◌++◌, str_eq,
}
use deal_screening_agent.Float.{Float}
use deal_screening_agent.RateLimiter.Bucket.{
  BucketState, BucketConfig, CheckResult, check_and_consume, new_bucket,
}

pub data Scope : Type 0 where
  ip email by_user tenant : Scope

pub data EndpointGroup : Type 0 where
  auth_login auth_refresh upload rescore_group default_group : EndpointGroup

abbrev scope_index : Scope → ℕ
scope_index ip = 0
scope_index email = 1
scope_index by_user = 2
scope_index tenant = 3

abbrev group_index : EndpointGroup → ℕ
group_index auth_login = 0
group_index auth_refresh = 1
group_index upload = 2
group_index rescore_group = 3
group_index default_group = 4

abbrev pub is_scope : Scope → Scope → Bool
is_scope a b = scope_index a == scope_index b

abbrev pub is_group : EndpointGroup → EndpointGroup → Bool
is_group a b = group_index a == group_index b

pub record BucketKey : Type 0 where
  pub scope : Scope
  pub identity : String
  pub group : EndpointGroup

abbrev pub same_key : BucketKey → BucketKey → Bool
same_key a b = is_scope a.scope b.scope && str_eq a.identity b.identity && is_group a.group b.group

pub record Entry (F : Type 0) : Type 0 where
  pub key : BucketKey
  pub state : BucketState F
  pub config : BucketConfig F

module _ {F : Type 0} where
  abbrev pub has_bucket : BucketKey → Entry F → Bool
  has_bucket key e = same_key e.key key

  unfoldable pub get_state : BucketKey → List (Entry F) → Option (BucketState F)
  get_state key buckets = elim (first (has_bucket key) buckets) [
    | none ↦ none
    | some e ↦ some e.state
  ]

  -- `while len(self._buckets) > self._max_keys: self._buckets.popitem(last=False)`
  unfoldable pub evict_expired : ℕ → List (Entry F) → List (Entry F)
  evict_expired max_keys [] = []
  evict_expired max_keys (e ∷ buckets) =
      let rest = evict_expired max_keys buckets in
      if ltb max_keys (length (e ∷ buckets)) then rest else e ∷ buckets

module _ (fl : Float) where
  open fl use {F}

  abbrev pub state_or_new : Option (Entry F) → BucketConfig F → F → BucketState F
  state_or_new none config now = new_bucket fl config now
  state_or_new (some e) config now = e.state

  -- the entry is set and moved to the end, and the oldest are evicted
  unfoldable pub check :
      ℕ → BucketKey → BucketConfig F → ℕ → F → List (Entry F) → CheckResult F × List (Entry F)
  unfolding new_bucket check_and_consume evict_expired
  check max_keys key config cost now buckets =
      let (result, new_state) =
        check_and_consume fl (state_or_new (first (has_bucket key) buckets) config now) config cost
          now in
      (
        result,
        evict_expired max_keys (
            select (λ e. not (has_bucket key e)) buckets
            ++ record { key = key; state = new_state; config = config } ∷ []),
      )

  unfoldable pub reset : BucketKey → F → List (Entry F) → List (Entry F)
  unfolding new_bucket
  reset key now = update (has_bucket key) (λ e. record e { state = new_bucket fl e.config now })

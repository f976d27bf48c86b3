-- ===== src/Observability/Scrubber.antt =====
-- src/app/observability/scrubber.py. The substitutions of the patterns, in their order, and
-- `str.lower` are parameters.
use deal_screening_agent.Prelude.{if◌then◌else◌, any, String, Bool, List, [], ◌∷◌, str_eq}
use deal_screening_agent.Prelude.Json.{Value, string, object, Fields, end, field}

-- _BLOCKED_KEYS
abbrev pub blocked_keys : List String
blocked_keys =
    "password" ∷ "token" ∷ "secret" ∷ "authorization" ∷ "cookie" ∷ "api_key" ∷ "apikey"
    ∷ "access_token" ∷ "refresh_token" ∷ "signing_key" ∷ "private_key" ∷ []

abbrev pub redacted : Value
redacted = string "[REDACTED]"

unfoldable pub scrub_value : List (String → String) → String → String
scrub_value [] value = value
scrub_value (sub ∷ patterns) value = scrub_value patterns (sub value)

-- What the scrubber is made of.
pub record Rules : Type 0 where
  pub patterns : List (String → String)
  pub lower : String → String

module _ (rules : Rules) where
  abbrev pub is_blocked_key : String → Bool
  is_blocked_key k = any (str_eq (rules.lower k)) blocked_keys

  -- A list in the fields is left as it is.
  unfoldable pub scrub_fields : Fields → Fields
  unfolding scrub_value
  scrub_fields end = end
  scrub_fields (field k (string s) fs) =
      let rest = scrub_fields fs in
      field k (if is_blocked_key k then redacted else string (scrub_value rules.patterns s)) rest
  scrub_fields (field k (object d) fs) =
      let rest = scrub_fields fs in
      let inner = scrub_fields d in
      field k (if is_blocked_key k then redacted else object inner) rest
  scrub_fields (field k v fs) =
      let rest = scrub_fields fs in field k (if is_blocked_key k then redacted else v) rest

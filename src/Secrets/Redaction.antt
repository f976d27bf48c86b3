-- ===== src/Secrets/Redaction.antt =====
-- src/app/secrets_config/redaction.py. The hash and the operations on texts are parameters.
pub mod Growth
use deal_screening_agent.Prelude.{
  if◌then◌else◌, any, String, Bool, ◌||◌, List, [], ◌∷◌, ◌++◌, str_eq,
}
use deal_screening_agent.Prelude.Json.{string, object, Fields, end, field}

pub record RedactionRegistry : Type 0 where
  pub secret_names : List String
  pub known_values : List String
  pub value_hashes : List String

abbrev pub empty_registry : RedactionRegistry
empty_registry = record { secret_names = []; known_values = []; value_hashes = [] }

-- What the code uses of hashlib and of `str`.
pub record Strings : Type 0 where
  -- `hashlib.sha256(value.encode()).hexdigest()`
  pub sha256 : String → String
  pub lower : String → String
  -- `text.replace(v, placeholder)`, which keeps a text that does not hold v
  pub replace : String → String → String → String

abbrev pub placeholder : String
placeholder = "[REDACTED]"

-- the keys that are always redacted
abbrev pub blocked_names : List String
blocked_names = "password" ∷ "token" ∷ "secret" ∷ "authorization" ∷ "cookie" ∷ "api_key" ∷ []

unfoldable pub register_key : String → RedactionRegistry → RedactionRegistry
register_key name registry = record registry { secret_names = name ∷ registry.secret_names }

module _ (str : Strings) where
  open str use {sha256, lower, replace}

  unfoldable pub register_value : String → RedactionRegistry → RedactionRegistry
  register_value value registry =
      if any (λ h. str_eq h (sha256 value)) registry.value_hashes
      then registry
      else record registry {
        known_values = registry.known_values ++ value ∷ [];
        value_hashes = registry.value_hashes ++ sha256 value ∷ [];
      }

  -- the values replaced one after the other; an empty value is left out
  unfoldable pub redact_values : List String → String → String
  redact_values [] s = s
  redact_values (v ∷ values) s =
      redact_values values (if str_eq v "" then s else replace v placeholder s)

  unfoldable pub redact : RedactionRegistry → String → String
  unfolding redact_values
  redact registry s = redact_values registry.known_values s

  abbrev pub is_blocked : RedactionRegistry → String → Bool
  is_blocked registry k =
      any (str_eq (lower k)) registry.secret_names || any (str_eq (lower k)) blocked_names

  -- The dict with each value redacted; a list in it is left as it is.
  unfoldable pub redact_dict : RedactionRegistry → Fields → Fields
  unfolding redact
  redact_dict registry end = end
  redact_dict registry (field k (string s) fs) =
      let rest = redact_dict registry fs in
      field k (if is_blocked registry k then string placeholder else string (redact registry s))
        rest
  redact_dict registry (field k (object d) fs) =
      let rest = redact_dict registry fs in
      let inner = redact_dict registry d in
      field k (if is_blocked registry k then string placeholder else object inner) rest
  redact_dict registry (field k v fs) =
      let rest = redact_dict registry fs in
      field k (if is_blocked registry k then string placeholder else v) rest

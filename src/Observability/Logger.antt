-- ===== src/Observability/Logger.antt =====
-- src/app/observability/logger.py: the line that a call of a logger writes. The time and the
-- formatting of an exception are not modelled: `exception` is the formatted text, if there is one.
use deal_screening_agent.Prelude.{
  if◌then◌else◌, any, String, Bool, not, Option, none, some, List, [], ◌∷◌, str_eq,
}
use deal_screening_agent.Prelude.Json.{Value, Fields, end, field, find_key, or_null}
use deal_screening_agent.Observability.Scrubber.{scrub_value, Rules, scrub_fields}

-- The context variables.
pub record Context : Type 0 where
  pub request_id : String
  pub tenant_id : String
  pub user_id : String
  pub trace_id : String
  pub span_id : String

abbrev pub no_context : Context
no_context = record {
  request_id = "none";
  tenant_id = "none";
  user_id = "none";
  trace_id = "none";
  span_id = "none";
}

-- _PROTECTED_KEYS
abbrev pub protected_keys : List String
protected_keys =
    "request_id" ∷ "tenant_id" ∷ "user_id" ∷ "trace_id" ∷ "span_id" ∷ "module" ∷ "ts" ∷ "level"
    ∷ "event" ∷ "duration_ms" ∷ []

pub data Level : Type 0 where
  debug info warning error critical : Level

pub record LogRecord : Type 0 where
  pub level : Level
  pub event : String
  pub duration_ms : Option Value
  pub caller_fields : Fields
  pub exception : Option String

pub record Entry : Type 0 where
  pub level : Level
  pub event : String
  pub context : Context
  pub module_name : String
  pub duration_ms : Value
  pub fields : Option Fields
  pub exception : Option String

abbrev pub is_protected : String → Bool
is_protected k = any (str_eq k) protected_keys

-- the fields whose key passes a test
unfoldable pub keep_fields : (String → Bool) → Fields → Fields
keep_fields p end = end
keep_fields p (field k v fs) = let rest = keep_fields p fs in if p k then field k v rest else rest

-- `if caller_fields`
abbrev pub non_empty : Fields → Option Fields
non_empty end = none
non_empty (field k v fs) = some (field k v fs)

-- `format` of the StructuredFormatter
unfoldable pub format : Rules → Context → String → LogRecord → Entry
unfolding keep_fields scrub_fields scrub_value
format rules context module_name r = record {
  level = r.level;
  event = scrub_value rules.patterns r.event;
  context = context;
  module_name = module_name;
  duration_ms = or_null r.duration_ms;
  fields = non_empty (scrub_fields rules (keep_fields (λ k. not (is_protected k)) r.caller_fields));
  exception = r.exception;
}

-- `_log`, with what the handler writes
unfoldable pub log : Rules → Context → String → Level → String → Fields → Entry
unfolding format find_key keep_fields
log rules context module_name level event fields = format rules context module_name (record {
  level = level;
  event = event;
  duration_ms = find_key "duration_ms" fields;
  caller_fields = keep_fields (λ k. not (str_eq k "duration_ms")) fields;
  exception = none;
})

-- ===== src/Examples/Data.antt =====
-- Concrete values for the parameters of the model.
use deal_screening_agent.Prelude.{
  if◌then◌else◌, ℕ, ◌*◌, String, Bool, true, Option, none, some, List, [], ◌∷◌, map, str_eq,
}
use deal_screening_agent.Models.Enums.{DealStatus, found, high, CriterionType, JobState}
use deal_screening_agent.Models.Deal.{Deal, not_available}
use deal_screening_agent.Models.Job.{BackgroundJob}
use deal_screening_agent.Models.User.{User, AuthSession, RefreshToken}
use deal_screening_agent.Jobs.Registry.{Registry}
use deal_screening_agent.Scoring.Evaluator.{Text, CriterionEvalResult}
use deal_screening_agent.Deals.Db.{Db}
use deal_screening_agent.Deals.Ingestion.{Files}
use deal_screening_agent.Deals.Extraction.{FieldData}
use deal_screening_agent.Auth.Tokens.{KeyRing, Claims, Jwt}
use deal_screening_agent.Auth.Tables.{AuthDb, AuthConfig, Crypto, Fresh, Client}

-- A JSON value is a number or a list of numbers here; "5" is the only text of a number.
abbrev parse : String → Option ℕ
parse s = if str_eq s "5" then some (5 * 1024) else none

abbrev number_of : List ℕ → Option ℕ
number_of (n ∷ []) = some (n * 1024)
number_of _ = none

abbrev list_of : List ℕ → Option (List (List ℕ))
list_of (n ∷ []) = none
list_of ns = some (map (λ n. n ∷ []) ns)

abbrev pub text : Text ℕ
text = record {
  Json = List ℕ;
  loads = λ s. if str_eq s "" then none else some (3 ∷ []);
  items = list_of;
  str = λ ns. "3";
  float_of_string = parse;
  float_of_json = number_of;
  strip = λ s. s;
  lower = λ s. s;
  remove = λ old s. s;
  contains = str_eq;
}

abbrev pub eval_result : CriterionType → Bool → Bool → ℕ → CriterionEvalResult ℕ
eval_result criterion_type matched skipped weight = record {
  criterion_label = "sector";
  field_name = "sector";
  criterion_type = criterion_type;
  matched = matched;
  weight = weight * 1024;
  detail = not_available "sector";
  skipped = skipped;
}

abbrev pub registry_of_one : {P : Type 0} → Registry P
registry_of_one = ("extraction", record { validates = λ p. true; max_attempts = 3 }) ∷ []

abbrev pub a_job : JobState → ℕ → BackgroundJob ℕ
a_job state attempts = record {
  job_id = 1;
  job_type = "extraction";
  payload = 7;
  state = state;
  attempts = attempts;
  max_attempts = 3;
  not_before = 0;
  claimed_by = none;
  claim_expires_at = none;
  idempotency_key = none;
  trace_context = none;
  last_error = none;
  tenant_id = none;
  succeeded_at = none;
  dead_lettered_at = none;
}

abbrev pub files : Files String
files = record {
  suffix = λ s. ".pdf";
  stored_path = λ id name. name;
  size = λ c. 10;
  sha256 = λ c. if str_eq c "deck" then 1 else 2;
  extraction_key = λ id. "extraction:1";
  id_text = λ id. "1";
}

abbrev pub a_deal : DealStatus → Deal
a_deal status = record {
  id = 1;
  tenant_id = 1;
  filename = "deck.pdf";
  content_hash = 1;
  file_path = "deck.pdf";
  file_size_bytes = 10;
  source_channel = "upload";
  source_sender = none;
  status = status;
  retry_count = 0;
  created_at = 0;
}

abbrev pub db_of : List Deal → Db ℕ
db_of deals = record {
  deals = deals;
  fields = [];
  scores = [];
  decisions = [];
  audits = [];
  configs = [];
  jobs = [];
}

abbrev pub a_field : FieldData
a_field = record {
  field_name = "sector";
  field_value = some "software";
  field_status = found;
  confidence = high;
}

-- passwords are stored as they are, and the only token texts are "a" and "b"
abbrev pub crypto : Crypto
crypto = record {
  normalize_email = λ s. s;
  hash_password = λ s. s;
  verify_password = str_eq;
  hash_refresh_token = λ s. if str_eq s "a" then 1 else 2;
}

abbrev pub the_claims : Claims
the_claims = record { iss = "agent"; sub = 1; tnt = 1; sid = 1; roles = []; iat = 0; exp = 900 }

abbrev pub jwt : Jwt
jwt = record {
  encode = λ c k. "jwt";
  header_kid = λ t. some none;
  decode = λ t k now leeway. some the_claims;
}

abbrev pub ring : KeyRing
ring = record { current = some (record { kid = "k"; private_key = 1 }); previous = none }

abbrev pub auth_config : AuthConfig
auth_config = record { access_ttl_s = 900; refresh_ttl_s = 1000; issuer = "agent" }

abbrev pub client : Client
client = record { ip_address = none; user_agent = none }

abbrev pub fresh : Fresh
fresh = record { session_id = 2; token_id = 2; opaque = "b" }

abbrev pub a_user : User
a_user = record {
  user_id = 1;
  tenant_id = 1;
  email = "a@b.c";
  password_hash = "secret";
  password_changed_at = 0;
  is_active = true;
}

abbrev pub a_session : Option ℕ → AuthSession
a_session revoked_at = record {
  session_id = 1;
  user_id = 1;
  tenant_id = 1;
  revoked_at = revoked_at;
  revoked_reason = none;
  user_agent = none;
  ip_address = none;
}

abbrev pub a_token : Option ℕ → RefreshToken
a_token consumed_at = record {
  token_id = 1;
  session_id = 1;
  parent_token_id = none;
  token_hash = 1;
  expires_at = 1000;
  consumed_at = consumed_at;
  consumed_by_ip = none;
}

abbrev pub auth_db : Option ℕ → Option ℕ → AuthDb
auth_db revoked_at consumed_at = record {
  users = a_user ∷ [];
  sessions = a_session revoked_at ∷ [];
  tokens = a_token consumed_at ∷ [];
  audits = [];
}

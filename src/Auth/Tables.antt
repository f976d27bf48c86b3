-- ===== src/Auth/Tables.antt =====
-- The tables of src/app/models/user.py as the state of a session, and what the functions of
-- src/app/auth/service.py share: their queries, the writes of changed rows, and the audit rows.
use deal_screening_agent.Prelude.{
  ◌==◌, is_some, first, update, ℕ, String, Bool, not, ◌&&◌, Option, none, some, List, [], ◌∷◌, ◌++◌,
  str_eq,
}
use deal_screening_agent.Models.User.{
  User, AuthSession, RefreshToken, EventType, revoked, Metadata, because, AuthAuditLog,
}

pub record AuthDb : Type 0 where
  pub users : List User
  pub sessions : List AuthSession
  pub tokens : List RefreshToken
  pub audits : List AuthAuditLog

pub record TokenBundle : Type 0 where
  pub access_token : String
  pub refresh_token : String
  pub expires_in : ℕ
  pub refresh_expires_in : ℕ
  pub user_id : ℕ
  pub tenant_id : ℕ
  pub email : String

-- config.auth
pub record AuthConfig : Type 0 where
  pub access_ttl_s : ℕ
  pub refresh_ttl_s : ℕ
  pub issuer : String

-- What the service uses of argon2, hashlib and str.
pub record Crypto : Type 0 where
  -- `email.strip().lower()`
  pub normalize_email : String → String
  pub hash_password : String → String
  pub verify_password : String → String → Bool
  -- `hash_refresh_token`
  pub hash_refresh_token : String → ℕ

-- The random values of a new session and its token.
pub record Fresh : Type 0 where
  pub session_id : ℕ
  pub token_id : ℕ
  pub opaque : String

-- The address and the agent of a request.
pub record Client : Type 0 where
  pub ip_address : Option String
  pub user_agent : Option String

abbrev pub find_user_by_email : String → AuthDb → Option User
find_user_by_email email db = first (λ u. str_eq u.email email) db.users

abbrev pub find_user : ℕ → AuthDb → Option User
find_user user_id db = first (λ u. u.user_id == user_id) db.users

abbrev pub find_session : ℕ → AuthDb → Option AuthSession
find_session session_id db = first (λ s. s.session_id == session_id) db.sessions

abbrev pub find_token : ℕ → AuthDb → Option RefreshToken
find_token token_hash db = first (λ t. t.token_hash == token_hash) db.tokens

abbrev pub write_audit : AuthAuditLog → AuthDb → AuthDb
write_audit row db = record db { audits = db.audits ++ row ∷ [] }

abbrev pub add_token : RefreshToken → AuthDb → AuthDb
add_token t db = record db { tokens = db.tokens ++ t ∷ [] }

-- a row about a session
abbrev pub session_audit : AuthSession → EventType → Option String → Option Metadata → AuthAuditLog
session_audit s event_type ip_address metadata = record {
  user_id = some s.user_id;
  tenant_id = some s.tenant_id;
  session_id = some s.session_id;
  event_type = event_type;
  ip_address = ip_address;
  user_agent = none;
  metadata = metadata;
}

abbrev pub as_revoked : ℕ → String → AuthSession → AuthSession
as_revoked now reason s = record s { revoked_at = some now; revoked_reason = some reason }

abbrev pub revoke_session : ℕ → AuthSession → String → AuthDb → AuthDb
revoke_session now session reason db = record db {
  sessions = update (λ s. s.session_id == session.session_id) (as_revoked now reason) db.sessions;
}

abbrev pub as_consumed : ℕ → Option String → RefreshToken → RefreshToken
as_consumed now ip t = record t { consumed_at = some now; consumed_by_ip = ip }

abbrev pub consume_token : ℕ → Option String → RefreshToken → AuthDb → AuthDb
consume_token now ip rt db = record db {
  tokens = update (λ t. t.token_id == rt.token_id) (as_consumed now ip) db.tokens;
}

abbrev pub is_open : ℕ → AuthSession → Bool
is_open user_id s = s.user_id == user_id && not (is_some s.revoked_at)

abbrev pub revoked_audit : String → AuthSession → AuthAuditLog
revoked_audit why s = session_audit s revoked none (some (because why))

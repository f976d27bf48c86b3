-- ===== src/Models/User.antt =====
-- src/app/models/user.py: users, sessions, refresh tokens and the auth audit log. Ids, token
-- hashes and addresses are only compared, so they are numbers; times are numbers too.
use deal_screening_agent.Prelude.{ℕ, String, Bool, Option}

pub record User : Type 0 where
  pub user_id : ℕ
  pub tenant_id : ℕ
  pub email : String
  pub password_hash : String
  pub password_changed_at : ℕ
  pub is_active : Bool

pub record AuthSession : Type 0 where
  pub session_id : ℕ
  pub user_id : ℕ
  pub tenant_id : ℕ
  pub revoked_at : Option ℕ
  pub revoked_reason : Option String
  pub user_agent : Option String
  pub ip_address : Option String

pub record RefreshToken : Type 0 where
  pub token_id : ℕ
  pub session_id : ℕ
  pub parent_token_id : Option ℕ
  pub token_hash : ℕ
  pub expires_at : ℕ
  pub consumed_at : Option ℕ
  pub consumed_by_ip : Option String

pub data EventType : Type 0 where
  login_failed login_success reuse_detected refresh_revoked_session : EventType
  refreshed logged_out revoked : EventType

pub data Metadata : Type 0 where
  because : String → Metadata
  reused_token_id : ℕ → Metadata

pub record AuthAuditLog : Type 0 where
  pub user_id : Option ℕ
  pub tenant_id : Option ℕ
  pub session_id : Option ℕ
  pub event_type : EventType
  pub ip_address : Option String
  pub user_agent : Option String
  pub metadata : Option Metadata

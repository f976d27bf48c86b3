-- ===== src/Auth/Service.antt =====
-- src/app/auth/service.py. Hashing and the random text of a new token are parameters; new ids and
-- the time are given by the caller. What is written before a raise is still in the session's
-- state: `Routes` has the transaction that may take it back.
use deal_screening_agent.Prelude.{
  ltb, ◌==◌, if◌then◌else◌, is_some, length, select, update, ℕ, ◌+◌, String, true, not, Option,
  none, some, [], ◌∷◌, ◌++◌, map,
}
use deal_screening_agent.Prelude.Exec.{Result, ok, err, Exec}
use deal_screening_agent.Models.User.{
  User, AuthSession, RefreshToken, login_failed, login_success, reuse_detected,
  refresh_revoked_session, refreshed, logged_out, because, reused_token_id, AuthAuditLog,
}
use deal_screening_agent.Auth.Tokens.{
  KeyRing, AuthError, invalid_credentials, invalid_refresh_token, session_revoked, no_result_found,
  Jwt, create_access_token,
}
use deal_screening_agent.Auth.Tables.{
  AuthDb, TokenBundle, AuthConfig, Crypto, Fresh, Client, find_user_by_email, find_user,
  find_session, find_token, write_audit, add_token, session_audit, as_revoked, revoke_session,
  consume_token, is_open, revoked_audit,
}

unfoldable pub revoke_user_sessions : ℕ → ℕ → String → AuthDb → ℕ × AuthDb
revoke_user_sessions now user_id reason db =
    let sessions = select (is_open user_id) db.sessions in
    (
      length sessions,
      record db {
        sessions = update (is_open user_id) (as_revoked now reason) db.sessions;
        audits = db.audits ++ map (revoked_audit reason) sessions;
      },
    )

module _ (crypto : Crypto) where
  open crypto use {normalize_email, hash_password, hash_refresh_token}

  unfoldable pub create_user : ℕ → ℕ → ℕ → String → String → AuthDb → AuthDb
  create_user user_id now tenant_id email password db = record db {
    users =
        db.users
        ++ record {
          user_id = user_id;
          tenant_id = tenant_id;
          email = normalize_email email;
          password_hash = hash_password password;
          password_changed_at = now;
          is_active = true;
        }
          ∷ [];
  }

  abbrev pub logout_session : ℕ → Option AuthSession → AuthDb → AuthDb
  logout_session now none db = db
  logout_session now (some session) db =
      if is_some session.revoked_at
      then db
      else write_audit (session_audit session logged_out none none)
          (revoke_session now session "logout" db)

  abbrev pub logout_token : ℕ → Option RefreshToken → AuthDb → AuthDb
  logout_token now none db = db
  logout_token now (some rt) db = logout_session now (find_session rt.session_id db) db

  unfoldable pub logout : ℕ → String → AuthDb → AuthDb
  logout now refresh_token db =
      logout_token now (find_token (hash_refresh_token refresh_token) db) db

  abbrev pub with_password : ℕ → String → User → User
  with_password now password_hash u = record u {
    password_hash = password_hash;
    password_changed_at = now;
  }

  abbrev pub change_found : ℕ → ℕ → String → Option User → Exec AuthDb AuthError ℕ
  change_found now user_id new_password none db = (err no_result_found, db)
  change_found now user_id new_password (some user) db =
      let (n_revoked, db') = revoke_user_sessions now user_id "password_change" (record db {
        users =
            update (λ u. u.user_id == user.user_id) (with_password now (hash_password new_password))
              db.users;
      }) in
      (ok n_revoked, db')

  unfoldable pub change_password : ℕ → ℕ → String → Exec AuthDb AuthError ℕ
  unfolding revoke_user_sessions
  change_password now user_id new_password db =
      change_found now user_id new_password (find_user user_id db) db

module _ (crypto : Crypto) (jwt : Jwt) (ring : KeyRing) (config : AuthConfig) where
  open crypto use {normalize_email, verify_password, hash_refresh_token}

  abbrev pub token_bundle : String → String → User → TokenBundle
  token_bundle access_token opaque user = record {
    access_token = access_token;
    refresh_token = opaque;
    expires_in = config.access_ttl_s;
    refresh_expires_in = config.refresh_ttl_s;
    user_id = user.user_id;
    tenant_id = user.tenant_id;
    email = user.email;
  }

  abbrev pub new_session : Client → Fresh → User → AuthSession
  new_session client fresh user = record {
    session_id = fresh.session_id;
    user_id = user.user_id;
    tenant_id = user.tenant_id;
    revoked_at = none;
    revoked_reason = none;
    user_agent = client.user_agent;
    ip_address = client.ip_address;
  }

  abbrev pub new_token : ℕ → Fresh → ℕ → Option ℕ → RefreshToken
  new_token now fresh session_id parent_token_id = record {
    token_id = fresh.token_id;
    session_id = session_id;
    parent_token_id = parent_token_id;
    token_hash = hash_refresh_token fresh.opaque;
    expires_at = now + config.refresh_ttl_s;
    consumed_at = none;
    consumed_by_ip = none;
  }

  -- `create_access_token` and what the caller does with its result
  abbrev pub with_bundle :
      Result AuthError String → String → User → AuthAuditLog → Exec AuthDb AuthError TokenBundle
  with_bundle (err e) opaque user row db = (err e, db)
  with_bundle (ok access_token) opaque user row db =
      (ok (token_bundle access_token opaque user), write_audit row db)

  -- The new session, its refresh token, and the access token.
  unfoldable pub create_session_and_tokens :
      ℕ → Client → Fresh → User → Exec AuthDb AuthError String
  unfolding create_access_token
  create_session_and_tokens now client fresh user db = (
    create_access_token jwt ring now config.issuer config.access_ttl_s user fresh.session_id,
    add_token (new_token now fresh fresh.session_id none)
        (record db { sessions = db.sessions ++ new_session client fresh user ∷ [] }),
  )

  -- what a login does once the password is verified
  abbrev pub login_session : ℕ → Client → Fresh → User → Exec AuthDb AuthError TokenBundle
  login_session now client fresh user db =
      let (access_token, db') = create_session_and_tokens now client fresh user db in
      with_bundle access_token fresh.opaque user
        (record (session_audit (new_session client fresh user) login_success client.ip_address
          none) { user_agent = client.user_agent })
        db'

  abbrev login_failure : Option User → Client → String → AuthAuditLog
  login_failure user client why = record {
    user_id = map_to (λ u. u.user_id) user;
    tenant_id = map_to (λ u. u.tenant_id) user;
    session_id = none;
    event_type = login_failed;
    ip_address = client.ip_address;
    user_agent = client.user_agent;
    metadata = some (because why);
  }
    where
      map_to : (User → ℕ) → Option User → Option ℕ
      map_to f none = none
      map_to f (some u) = some (f u)

  abbrev pub refuse_login : Option User → Client → String → Exec AuthDb AuthError TokenBundle
  refuse_login user client why db =
      (err invalid_credentials, write_audit (login_failure user client why) db)

  abbrev pub login_as :
      ℕ → Client → Fresh → String → Option User → Exec AuthDb AuthError TokenBundle
  login_as now client fresh password none db = refuse_login none client "unknown_email" db
  login_as now client fresh password (some user) db =
      if not user.is_active
      then refuse_login (some user) client "inactive_account" db
      else if not (verify_password password user.password_hash)
      then refuse_login (some user) client "wrong_password" db
      else login_session now client fresh user db

  unfoldable pub login : ℕ → Client → Fresh → String → String → Exec AuthDb AuthError TokenBundle
  unfolding create_session_and_tokens
  login now client fresh email password db =
      login_as now client fresh password (find_user_by_email (normalize_email email) db) db

  -- A token that was redeemed before: its session is revoked.
  abbrev pub note_reuse : ℕ → Option String → RefreshToken → AuthSession → AuthDb → AuthDb
  note_reuse now ip rt session db =
      write_audit (session_audit session reuse_detected ip (some (reused_token_id rt.token_id)))
        (if is_some session.revoked_at then db else revoke_session now session "reuse" db)

  abbrev pub rotate_for :
      ℕ → Option String → Fresh → AuthSession → Option User → Exec AuthDb AuthError TokenBundle
  rotate_for now ip fresh session none db = (err no_result_found, db)
  rotate_for now ip fresh session (some user) db =
      with_bundle
        (create_access_token jwt ring now config.issuer config.access_ttl_s user session.session_id)
        fresh.opaque user
        (record (session_audit session refreshed ip none) {
          user_id = some user.user_id;
          tenant_id = some user.tenant_id;
        })
        db

  abbrev pub refresh_in :
      ℕ
      → Option String
      → Fresh
      → RefreshToken
      → Option AuthSession
      → Exec AuthDb AuthError TokenBundle
  refresh_in now ip fresh rt none db = (err invalid_refresh_token, db)
  refresh_in now ip fresh rt (some session) db =
      if is_some rt.consumed_at
      then (err invalid_refresh_token, note_reuse now ip rt session db)
      else if is_some session.revoked_at
      then (
        err session_revoked,
        write_audit (session_audit session refresh_revoked_session ip none) db,
      )
      else if ltb rt.expires_at now
      then (err invalid_refresh_token, db)
      else rotate_for now ip fresh session (find_user session.user_id db) (
          add_token (new_token now fresh session.session_id (some rt.token_id))
            (consume_token now ip rt db))

  abbrev pub refresh_with :
      ℕ → Option String → Fresh → Option RefreshToken → Exec AuthDb AuthError TokenBundle
  refresh_with now ip fresh none db = (err invalid_refresh_token, db)
  refresh_with now ip fresh (some rt) db =
      refresh_in now ip fresh rt (find_session rt.session_id db) db

  unfoldable pub refresh : ℕ → Option String → Fresh → String → Exec AuthDb AuthError TokenBundle
  unfolding create_access_token
  refresh now ip fresh refresh_token db =
      refresh_with now ip fresh (find_token (hash_refresh_token refresh_token) db) db

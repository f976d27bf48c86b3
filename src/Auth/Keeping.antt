-- ===== src/Auth/Keeping.antt =====
-- What each function of the service and of the routes keeps of tokens and sessions.
use deal_screening_agent.Prelude.{
  ltb, ◌==◌, is_some, if-intro, update, ℕ, String, not, Option, none, some, [], ◌∷◌, ◌++◌,
}
use deal_screening_agent.Prelude.Exec.{Result, ok, err, rolled_back}
use deal_screening_agent.Models.User.{User, AuthSession, RefreshToken, AuthAuditLog}
use deal_screening_agent.Auth.Tokens.{KeyRing, AuthError, Jwt, create_access_token}
use deal_screening_agent.Auth.Tables.{
  AuthDb, AuthConfig, Crypto, Fresh, Client, find_user_by_email, find_user, find_session,
  find_token, add_token, consume_token, is_open,
}
use deal_screening_agent.Auth.Service.{
  revoke_user_sessions, logout_session, logout_token, logout, with_password, change_found,
  change_password, new_session, new_token, with_bundle, create_session_and_tokens, login_as, login,
  note_reuse, rotate_for, refresh_in, refresh_with, refresh,
}
use deal_screening_agent.Auth.Routes.{map_error}
use deal_screening_agent.Auth.Sessions.{
  Keeps, Kept, Keeps-refl, Keeps-trans, add_token-Keeps, add_session-Keeps, consume_token-Keeps,
  revoke-Keeps,
}

pub revoke_user_sessions-Keeps :
    (now user_id : ℕ) (reason : String) (db : AuthDb)
    → Keeps db (revoke_user_sessions now user_id reason db).1
unfolding revoke_user_sessions
revoke_user_sessions-Keeps now user_id reason db = revoke-Keeps now reason (is_open user_id) db

module _ (crypto : Crypto) where
  pub change_password-Keeps :
      (now user_id : ℕ) (new_password : String) (db : AuthDb)
      → Keeps db (change_password crypto now user_id new_password db).1
  unfolding change_password
  change_password-Keeps now user_id new_password db = go (find_user user_id db)
    where
      go : (o : Option User) → Keeps db (change_found crypto now user_id new_password o db).1
      go none = Keeps-refl db
      go (some user) = revoke_user_sessions-Keeps now user_id "password_change" (record db {
        users =
            update (λ u. u.user_id == user.user_id)
              (with_password crypto now (crypto.hash_password new_password)) db.users;
      })

  pub logout-Keeps :
      (now : ℕ) (refresh_token : String) (db : AuthDb)
      → Keeps db (logout crypto now refresh_token db)
  unfolding logout
  logout-Keeps now refresh_token db =
      by_token (find_token (crypto.hash_refresh_token refresh_token) db)
    where
      by_session : (o : Option AuthSession) → Keeps db (logout_session crypto now o db)
      by_session none = Keeps-refl db
      by_session (some s) =
          if-intro (Keeps db) (is_some s.revoked_at) (Keeps-refl db)
            (revoke-Keeps now "logout" (λ r. r.session_id == s.session_id) db)

      by_token : (o : Option RefreshToken) → Keeps db (logout_token crypto now o db)
      by_token none = Keeps-refl db
      by_token (some t) = by_session (find_session t.session_id db)

module _ (crypto : Crypto) (jwt : Jwt) (ring : KeyRing) (config : AuthConfig) where
  with_bundle-Keeps :
      (r : Result AuthError String) (opaque : String) (user : User) (row : AuthAuditLog)
      (db db' : AuthDb)
      → Keeps db db'
      → Keeps db (with_bundle crypto jwt ring config r opaque user row db').1
  with_bundle-Keeps (ok t) opaque user row db db' k = k
  with_bundle-Keeps (err e) opaque user row db db' k = k

  create_session_and_tokens-Keeps :
      (now : ℕ) (client : Client) (fresh : Fresh) (user : User) (db : AuthDb)
      → Keeps db (create_session_and_tokens crypto jwt ring config now client fresh user db).1
  unfolding create_session_and_tokens
  create_session_and_tokens-Keeps now client fresh user db =
      let session = new_session crypto jwt ring config client fresh user in
      let with_session : AuthDb = record db { sessions = db.sessions ++ session ∷ [] } in
      let token = new_token crypto jwt ring config now fresh fresh.session_id none in
      Keeps-trans db with_session (add_token token with_session) (add_session-Keeps session db)
        (add_token-Keeps token with_session)

  pub login-Keeps :
      (now : ℕ) (client : Client) (fresh : Fresh) (email password : String) (db : AuthDb)
      → Keeps db (login crypto jwt ring config now client fresh email password db).1
  unfolding login
  login-Keeps now client fresh email password db =
      go (find_user_by_email (crypto.normalize_email email) db)
    where
      go :
          (o : Option User)
          → Keeps db (login_as crypto jwt ring config now client fresh password o db).1
      go none = Keeps-refl db
      go (some user) = if-intro (Kept db) (not user.is_active) (Keeps-refl db) (
          if-intro (Kept db) (not (crypto.verify_password password user.password_hash))
            (Keeps-refl db)
            (with_bundle-Keeps
              (create_session_and_tokens crypto jwt ring config now client fresh user db).0
              fresh.opaque user _ db
              (create_session_and_tokens crypto jwt ring config now client fresh user db).1
              (create_session_and_tokens-Keeps now client fresh user db)))

  note_reuse-Keeps :
      (now : ℕ) (ip : Option String) (rt : RefreshToken) (s : AuthSession) (db : AuthDb)
      → Keeps db (note_reuse crypto jwt ring config now ip rt s db)
  note_reuse-Keeps now ip rt s db =
      if-intro (Keeps db) (is_some s.revoked_at) (Keeps-refl db)
        (revoke-Keeps now "reuse" (λ r. r.session_id == s.session_id) db)

  rotate-Keeps :
      (now : ℕ) (ip : Option String) (fresh : Fresh) (rt : RefreshToken) (s : AuthSession)
      (o : Option User) (db : AuthDb)
      → Keeps db
          (rotate_for crypto jwt ring config now ip fresh s o (
            add_token
              (new_token crypto jwt ring config now fresh s.session_id (some rt.token_id))
              (consume_token now ip rt db))).1
  rotate-Keeps now ip fresh rt s o db = go o
    where
      token : RefreshToken
      token = new_token crypto jwt ring config now fresh s.session_id (some rt.token_id)

      both : Keeps db (add_token token (consume_token now ip rt db))
      both =
          Keeps-trans db (consume_token now ip rt db) (add_token token (consume_token now ip rt db))
            (consume_token-Keeps now ip rt db) (add_token-Keeps token (consume_token now ip rt db))

      go :
          (o : Option User)
          → Keeps db
              (rotate_for crypto jwt ring config now ip fresh s o
                (add_token token (consume_token now ip rt db))).1
      go none = both
      go (some user) =
          with_bundle-Keeps
            (create_access_token jwt ring now config.issuer config.access_ttl_s user s.session_id)
            fresh.opaque user _ db _ both

  pub refresh-Keeps :
      (now : ℕ) (ip : Option String) (fresh : Fresh) (refresh_token : String) (db : AuthDb)
      → Keeps db (refresh crypto jwt ring config now ip fresh refresh_token db).1
  unfolding refresh
  refresh-Keeps now ip fresh refresh_token db =
      by_token (find_token (crypto.hash_refresh_token refresh_token) db)
    where
      by_session :
          (rt : RefreshToken) (o : Option AuthSession)
          → Keeps db (refresh_in crypto jwt ring config now ip fresh rt o db).1
      by_session rt none = Keeps-refl db
      by_session rt (some s) =
          if-intro (Kept db) (is_some rt.consumed_at) (note_reuse-Keeps now ip rt s db) (
            if-intro (Kept db) (is_some s.revoked_at) (Keeps-refl db) (
              if-intro (Kept db) (ltb rt.expires_at now) (Keeps-refl db)
                (rotate-Keeps now ip fresh rt s (find_user s.user_id db) db)))

      by_token :
          (o : Option RefreshToken)
          → Keeps db (refresh_with crypto jwt ring config now ip fresh o db).1
      by_token none = Keeps-refl db
      by_token (some rt) = by_session rt (find_session rt.session_id db)

module _ {A : Type 0} where
  pub rolled_back-Keeps :
      (before : AuthDb) (r : Result AuthError A × AuthDb)
      → Keeps before r.1
      → Keeps before (rolled_back before r).1
  rolled_back-Keeps before (ok a, db) k = k
  rolled_back-Keeps before (err e, db) k = Keeps-refl before

  pub map_error-Keeps :
      (f : AuthError → AuthError) (before : AuthDb) (r : Result AuthError A × AuthDb)
      → Keeps before r.1
      → Keeps before (map_error f r).1
  map_error-Keeps f before (ok a, db) k = k
  map_error-Keeps f before (err e, db) k = k

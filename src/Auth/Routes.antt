-- ===== src/Auth/Routes.antt =====
-- src/app/auth/routes.py and middleware.py, with the transaction of `get_db` in database.py: each
-- request's writes are committed when the handler returns and rolled back when it raises.
use deal_screening_agent.Prelude.{if◌then◌else◌, is_some, ℕ, String, Option, none, some, List}
use deal_screening_agent.Prelude.Exec.{Result, ok, err, Exec, transaction}
use deal_screening_agent.Models.User.{AuthSession}
use deal_screening_agent.Auth.Tokens.{
  KeyRing, Claims, AuthError, invalid_token, invalid_credentials, invalid_refresh_token,
  session_revoked, http_error, Jwt, verify_access_token,
}
use deal_screening_agent.Auth.Tables.{
  AuthDb, TokenBundle, AuthConfig, Crypto, Fresh, Client, find_user_by_email, find_session,
}
use deal_screening_agent.Auth.Service.{create_user, logout, login, refresh}

pub record AuthContext : Type 0 where
  pub user_id : ℕ
  pub tenant_id : ℕ
  pub session_id : ℕ
  pub roles : List String

-- `except InvalidCredentials`, and `except (InvalidRefreshToken, SessionRevoked)`
abbrev pub login_error : AuthError → AuthError
login_error invalid_credentials = http_error 401
login_error e = e

abbrev refresh_error : AuthError → AuthError
refresh_error invalid_refresh_token = http_error 401
refresh_error session_revoked = http_error 401
refresh_error e = e

abbrev pub map_error :
    {A : Type 0}
    → (AuthError → AuthError)
    → Result AuthError A × AuthDb
    → Result AuthError A × AuthDb
map_error f (ok a, db) = (ok a, db)
map_error f (err e, db) = (err (f e), db)

module _ (crypto : Crypto) (jwt : Jwt) (ring : KeyRing) (config : AuthConfig) where
  unfoldable pub login_route :
      ℕ → Client → Fresh → String → String → Exec AuthDb AuthError TokenBundle
  unfolding login
  login_route now client fresh email password = transaction (λ db.
      map_error login_error (login crypto jwt ring config now client fresh email password db))

  unfoldable pub refresh_route :
      ℕ → Option String → Fresh → String → Exec AuthDb AuthError TokenBundle
  unfolding refresh
  refresh_route now ip fresh refresh_token =
      transaction (λ db.
        map_error refresh_error (refresh crypto jwt ring config now ip fresh refresh_token db))

  -- The body's email is normalized by its validator before the handler runs.
  unfoldable pub register_route :
      ℕ → Client → ℕ → ℕ → Fresh → String → String → Exec AuthDb AuthError TokenBundle
  unfolding login create_user
  register_route now client user_id default_tenant_id fresh email password = transaction (λ db.
      if is_some (find_user_by_email email db)
      then (err (http_error 409), db)
      else login crypto jwt ring config now client fresh email password
          (create_user crypto user_id now default_tenant_id email password db))

  abbrev pub bearer_session : Claims → Option AuthSession → Result AuthError AuthContext
  bearer_session claims none = err (http_error 401)
  bearer_session claims (some session) =
      if is_some session.revoked_at
      then err (http_error 401)
      else ok (record {
        user_id = claims.sub;
        tenant_id = claims.tnt;
        session_id = claims.sid;
        roles = claims.roles;
      })

  abbrev bearer_claims : Result AuthError Claims → AuthDb → Result AuthError AuthContext
  bearer_claims (err invalid_token) db = err (http_error 401)
  bearer_claims (err e) db = err e
  bearer_claims (ok claims) db = bearer_session claims (find_session claims.sid db)

  -- `none` stands for a header that is missing or does not start with "Bearer ".
  unfoldable pub require_auth : ℕ → Option String → AuthDb → Result AuthError AuthContext
  unfolding verify_access_token
  require_auth now none db = err (http_error 401)
  require_auth now (some token) db = bearer_claims (verify_access_token jwt ring now token) db

  abbrev pub logout_as : Result AuthError AuthContext → ℕ → String → Exec AuthDb AuthError Unit
  logout_as (err e) now refresh_token db = (err e, db)
  logout_as (ok auth) now refresh_token db = (ok tt, logout crypto now refresh_token db)

  unfoldable pub logout_route : ℕ → Option String → String → Exec AuthDb AuthError Unit
  unfolding require_auth logout
  logout_route now token refresh_token =
      transaction (λ db. logout_as (require_auth now token db) now refresh_token db)

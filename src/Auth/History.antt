-- ===== src/Auth/History.antt =====
-- Any sequence of requests to the auth routes, and of the service's administrative calls.
use deal_screening_agent.Prelude.{if◌then◌else◌, is_some, if-intro, ℕ, String, Option}
use deal_screening_agent.Prelude.Exec.{Result, ok, err, rolled_back}
use deal_screening_agent.Auth.Tokens.{KeyRing, AuthError, http_error, Jwt}
use deal_screening_agent.Auth.Tables.{AuthDb, AuthConfig, Crypto, Fresh, Client, find_user_by_email}
use deal_screening_agent.Auth.Service.{
  revoke_user_sessions, create_user, change_password, login, refresh,
}
use deal_screening_agent.Auth.Routes.{
  AuthContext, login_route, refresh_route, register_route, require_auth, logout_as, logout_route,
}
use deal_screening_agent.Auth.Keeping.{
  revoke_user_sessions-Keeps, change_password-Keeps, logout-Keeps, login-Keeps, refresh-Keeps,
  rolled_back-Keeps, map_error-Keeps,
}
use deal_screening_agent.Auth.Sessions.{Keeps, Kept, Keeps-refl, Keeps-trans}

module _ (crypto : Crypto) (jwt : Jwt) (ring : KeyRing) (config : AuthConfig) where
  pub data Request : AuthDb → AuthDb → Type 0 where
    login_request :
        {db : AuthDb} (now : ℕ) (client : Client) (fresh : Fresh) (email password : String)
        → Request db (login_route crypto jwt ring config now client fresh email password db).1
    register_request :
        {db : AuthDb} (now : ℕ) (client : Client) (user_id tenant_id : ℕ) (fresh : Fresh)
        (email password : String)
        → Request db
            (register_route crypto jwt ring config now client user_id tenant_id fresh email password
              db).1
    refresh_request :
        {db : AuthDb} (now : ℕ) (ip : Option String) (fresh : Fresh) (refresh_token : String)
        → Request db (refresh_route crypto jwt ring config now ip fresh refresh_token db).1
    logout_request :
        {db : AuthDb} (now : ℕ) (token : Option String) (refresh_token : String)
        → Request db (logout_route crypto jwt ring config now token refresh_token db).1
    password_request :
        {db : AuthDb} (now user_id : ℕ) (new_password : String)
        → Request db (change_password crypto now user_id new_password db).1
    revoke_request :
        {db : AuthDb} (now user_id : ℕ) (why : String)
        → Request db (revoke_user_sessions now user_id why db).1

  pub data History : AuthDb → AuthDb → Type 0 where
    start : {db : AuthDb} → History db db
    next : {a b c : AuthDb} → Request a b → History b c → History a c

  register-Keeps :
      (now : ℕ) (client : Client) (user_id tenant_id : ℕ) (fresh : Fresh) (email password : String)
      (db : AuthDb)
      → Keeps db
          (if is_some (find_user_by_email email db)
            then (err (http_error 409), db)
            else login crypto jwt ring config now client fresh email password
                (create_user crypto user_id now tenant_id email password db)).1
  unfolding create_user
  register-Keeps now client user_id tenant_id fresh email password db =
      if-intro (Kept db) (is_some (find_user_by_email email db)) (Keeps-refl db) (
        login-Keeps crypto jwt ring config now client fresh email password
          (create_user crypto user_id now tenant_id email password db))

  logout_route-Keeps :
      (now : ℕ) (token : Option String) (refresh_token : String) (db : AuthDb)
      → Keeps db (logout_route crypto jwt ring config now token refresh_token db).1
  unfolding logout_route
  logout_route-Keeps now token refresh_token db =
      go (require_auth crypto jwt ring config now token db)
    where
      go :
          (r : Result AuthError AuthContext)
          → Keeps db (rolled_back db (logout_as crypto jwt ring config r now refresh_token db)).1
      go (err e) = Keeps-refl db
      go (ok auth) = logout-Keeps crypto now refresh_token db

  Request-Keeps : {a b : AuthDb} → Request a b → Keeps a b
  unfolding login_route register_route refresh_route
  Request-Keeps {a} (login_request now client fresh email password) = rolled_back-Keeps a _ (
      map_error-Keeps _ a (login crypto jwt ring config now client fresh email password a)
        (login-Keeps crypto jwt ring config now client fresh email password a))
  Request-Keeps {a} (register_request now client user_id tenant_id fresh email password) =
      rolled_back-Keeps a _ (register-Keeps now client user_id tenant_id fresh email password a)
  Request-Keeps {a} (refresh_request now ip fresh refresh_token) = rolled_back-Keeps a _ (
      map_error-Keeps _ a (refresh crypto jwt ring config now ip fresh refresh_token a)
        (refresh-Keeps crypto jwt ring config now ip fresh refresh_token a))
  Request-Keeps {a} (logout_request now token refresh_token) =
      logout_route-Keeps now token refresh_token a
  Request-Keeps {a} (password_request now user_id new_password) =
      change_password-Keeps crypto now user_id new_password a
  Request-Keeps {a} (revoke_request now user_id why) = revoke_user_sessions-Keeps now user_id why a

  pub History-Keeps : {a b : AuthDb} → History a b → Keeps a b
  History-Keeps {a} start = Keeps-refl a
  History-Keeps (next {a} {b} {c} r h) = Keeps-trans a b c (Request-Keeps r) (History-Keeps h)

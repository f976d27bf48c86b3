-- ===== src/Examples/Access.antt =====
-- Sessions and refresh tokens.
use deal_screening_agent.Prelude.{
  length, count, ◌+◌, ◌≡◌, refl, true, false, none, some, [], ◌∷◌, arith,
}
use deal_screening_agent.Prelude.Exec.{ok, err}
use deal_screening_agent.Auth.Tokens.{
  SigningKey, http_error, Jwt, create_access_token, try_keys, verify_access_token,
}
use deal_screening_agent.Auth.Tables.{AuthDb, TokenBundle, is_open}
use deal_screening_agent.Auth.Service.{revoke_user_sessions, change_password, login, refresh}
use deal_screening_agent.Auth.Routes.{login_route, refresh_route, require_auth}
use deal_screening_agent.Auth.Sessions.{is_revoked}
use deal_screening_agent.Auth.History.{password_request, start, next}
use deal_screening_agent.Auth.Laws.{refresh_route-once, refresh_route-forgets_reuse}
use deal_screening_agent.Auth.Access.{revoke_user_sessions_lem, login-refused, require_auth-revoked}
use deal_screening_agent.Auth.Login.{claims_of, login-require_auth}
use deal_screening_agent.Examples.Data.{
  crypto, the_claims, jwt, ring, auth_config, client, fresh, a_user, a_session, a_token, auth_db,
}

abbrev refreshed_db : AuthDb
refreshed_db = (refresh_route crypto jwt ring auth_config 10 none fresh "a" (auth_db none none)).1

abbrev after_change : AuthDb
after_change = (change_password crypto 20 1 "other" refreshed_db).1

abbrev refreshed_bundle : TokenBundle
refreshed_bundle = record {
  access_token = "jwt";
  refresh_token = "b";
  expires_in = 900;
  refresh_expires_in = 1000;
  user_id = 1;
  tenant_id = 1;
  email = "a@b.c";
}

refresh_route-once_example :
    refresh_route crypto jwt ring auth_config 30 none fresh "a" after_change
    ≡ (err (http_error 401), after_change)
unfolding refresh_route refresh create_access_token
refresh_route-once_example =
    refresh_route-once crypto jwt ring auth_config 10 30 none none fresh fresh "a"
      (auth_db none none) after_change refreshed_bundle refl
      (next (password_request 20 1 "other") start)

refresh_route-forgets_reuse_example :
    (is_revoked 1 (refresh crypto jwt ring auth_config 10 none fresh "a" (auth_db none (some 5))).1
      ≡ true)
    × (refresh_route crypto jwt ring auth_config 10 none fresh "a" (auth_db none (some 5))
        ≡ (err (http_error 401), auth_db none (some 5)))
    × (is_revoked 1 (auth_db none (some 5)) ≡ false)
refresh_route-forgets_reuse_example =
    refresh_route-forgets_reuse crypto jwt ring auth_config 10 none fresh "a"
      (auth_db none (some 5)) (a_token (some 5)) (a_session none) refl refl refl refl

revoke_user_sessions_lem_example :
    (count (is_open 1) (revoke_user_sessions 20 1 "admin" (auth_db none none)).1.sessions ≡ 0)
    × ((revoke_user_sessions 20 1 "admin" (auth_db none none)).0
        ≡ count (is_open 1) (a_session none ∷ []))
    × (length (revoke_user_sessions 20 1 "admin" (auth_db none none)).1.audits
        ≡ 0 + count (is_open 1) (a_session none ∷ []))
    × (count (is_open 2) (revoke_user_sessions 20 1 "admin" (auth_db none none)).1.sessions
        ≡ count (is_open 2) (a_session none ∷ []))
revoke_user_sessions_lem_example =
    revoke_user_sessions_lem 20 1 2 "admin" (auth_db none none) (λ e. omega (arith, e))

login-refused_example :
    (login_route crypto jwt ring auth_config 10 client fresh "a@b.c" "guess" (auth_db none none)
      ≡ (err (http_error 401), auth_db none none))
    × (length
          (login crypto jwt ring auth_config 10 client fresh "a@b.c" "guess"
            (auth_db none none)).1.audits
        ≡ 0 + 1)
    × ((login crypto jwt ring auth_config 10 client fresh "a@b.c" "guess"
          (auth_db none none)).1.sessions
        ≡ a_session none ∷ [])
    × ((login crypto jwt ring auth_config 10 client fresh "a@b.c" "guess"
          (auth_db none none)).1.tokens
        ≡ a_token none ∷ [])
login-refused_example =
    login-refused crypto jwt ring auth_config 10 client fresh "a@b.c" "guess" (auth_db none none)
      refl

require_auth-revoked_example :
    require_auth crypto jwt ring auth_config 10 (some "jwt") (auth_db (some 5) none)
    ≡ err (http_error 401)
unfolding verify_access_token try_keys
require_auth-revoked_example =
    require_auth-revoked crypto jwt ring auth_config 10 "jwt" the_claims (auth_db (some 5) none)
      (auth_db (some 5) none) refl refl start

abbrev key_k : SigningKey
key_k = record { kid = "k"; private_key = 1 }

-- tokens with a key's id, which are read as the claims of the new session
abbrev issuing : Jwt
issuing = record {
  encode = λ c k. "jwt";
  header_kid = λ t. some (some "k");
  decode = λ t k now leeway. some (claims_of auth_config 10 a_user 2);
}

login-require_auth_example :
    (bundle : TokenBundle) × (db' : AuthDb) × (login crypto issuing ring auth_config 10 client fresh
        "a@b.c" "secret"
        (auth_db none none)
      ≡ (ok bundle, db'))
    × (require_auth crypto issuing ring auth_config 20 (some bundle.access_token) db'
        ≡ ok (record { user_id = 1; tenant_id = 1; session_id = 2; roles = [] }))
login-require_auth_example =
    login-require_auth crypto issuing ring auth_config 10 20 client fresh "a@b.c" "secret"
      (auth_db none none) a_user key_k refl (λ at from until. refl) refl refl refl refl refl
      (omega arith) (omega arith)

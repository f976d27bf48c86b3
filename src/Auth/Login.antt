-- ===== src/Auth/Login.antt =====
-- From a login to the requests that follow it.
use deal_screening_agent.Prelude.{
  ◌==◌, ==_refl, first, first-append, ℕ, ◌+◌, ◌≤◌, ◌<◌, String, ◌≡◌, refl, ◌∙◌, Bool, true, false,
  ◌||◌, none, some, [], ◌∷◌, ◌++◌, str_eq, str_eq_iff,
}
use deal_screening_agent.Prelude.Exec.{ok}
use deal_screening_agent.Models.User.{User}
use deal_screening_agent.Auth.Tokens.{
  SigningKey, KeyRing, Claims, Jwt, create_access_token, try_keys, verify_access_token,
}
use deal_screening_agent.Auth.Tables.{
  AuthDb, TokenBundle, AuthConfig, Crypto, Fresh, Client, find_user_by_email, find_session,
}
use deal_screening_agent.Auth.Service.{
  token_bundle, new_session, create_session_and_tokens, login_session, login,
}
use deal_screening_agent.Auth.Routes.{require_auth}

-- the claims of a session's access token
abbrev pub claims_of : AuthConfig → ℕ → User → ℕ → Claims
claims_of config now user session_id = record {
  iss = config.issuer;
  sub = user.user_id;
  tnt = user.tenant_id;
  sid = session_id;
  roles = [];
  iat = now;
  exp = now + config.access_ttl_s;
}

or_true : (b : Bool) → (b || true) ≡ true
or_true true = refl
or_true false = refl

module _ (crypto : Crypto) (jwt : Jwt) (ring : KeyRing) (config : AuthConfig) where
  verify-current :
      (key : SigningKey) (claims : Claims) (later : ℕ)
      → ring.current ≡ some key
      → jwt.header_kid (jwt.encode claims key) ≡ some (some key.kid)
      → jwt.decode (jwt.encode claims key) key later 30 ≡ some claims
      → verify_access_token jwt ring later (jwt.encode claims key) ≡ ok claims
  unfolding verify_access_token try_keys
  verify-current key claims later c h d =
      rw (c, h, (str_eq_iff key.kid key.kid).1 refl, or_true (str_eq key.kid ""), d) refl

  new_session-found :
      (client : Client) (fresh : Fresh) (user : User) (db : AuthDb)
      → find_session fresh.session_id db ≡ none
      → first
          (λ s. s.session_id == fresh.session_id)
          (db.sessions ++ new_session crypto jwt ring config client fresh user ∷ [])
        ≡ some (new_session crypto jwt ring config client fresh user)
  new_session-found client fresh user db n =
      first-append (λ s. s.session_id == fresh.session_id) db.sessions
        (new_session crypto jwt ring config client fresh user)
      ∙ rw (n, ==_refl fresh.session_id) refl

  -- A login of an active user with the right password succeeds, and until it expires its access
  -- token is accepted with the user's identity and the new session, if the token that is encoded
  -- names its key and is decoded to its claims, and the id of the session is new.
  pub login-require_auth :
      (now later : ℕ) (client : Client) (fresh : Fresh) (email password : String) (db : AuthDb)
      (user : User) (key : SigningKey)
      → let claims = claims_of config now user fresh.session_id in
        (jwt.header_kid (jwt.encode claims key) ≡ some (some key.kid))
        → ((at : ℕ)
            → now ≤ at
            → at < now + config.access_ttl_s
            → jwt.decode (jwt.encode (claims_of config now user fresh.session_id) key) key at 30
              ≡ some (claims_of config now user fresh.session_id))
        → ring.current ≡ some key
        → find_user_by_email (crypto.normalize_email email) db ≡ some user
        → user.is_active ≡ true
        → crypto.verify_password password user.password_hash ≡ true
        → find_session fresh.session_id db ≡ none
        → now ≤ later
        → later < now + config.access_ttl_s
        → (bundle : TokenBundle) × (db' : AuthDb) × (login crypto jwt ring config now client fresh
              email password db
            ≡ (ok bundle, db'))
          × (require_auth crypto jwt ring config later (some bundle.access_token) db'
              ≡ ok (record {
                user_id = user.user_id;
                tenant_id = user.tenant_id;
                session_id = fresh.session_id;
                roles = [];
              }))
  unfolding login require_auth create_session_and_tokens create_access_token
  login-require_auth now later client fresh email password db user key h d c f a p n low_time
        high_time =
      let token = jwt.encode (claims_of config now user fresh.session_id) key in
      (
        token_bundle crypto jwt ring config token fresh.opaque user,
        (login_session crypto jwt ring config now client fresh user db).1,
        rw (f, a, p, c) refl,
        rw
            (
              verify-current key (claims_of config now user fresh.session_id) later c h
                  (d later low_time high_time),
              c,
              new_session-found client fresh user db n,
            )
            refl,
      )

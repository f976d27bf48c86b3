-- ===== src/Auth/Laws.antt =====
-- Redeeming a refresh token, and what a reused one does.
use deal_screening_agent.Prelude.{
  ltb, ◌==◌, is_some, ==_refl, Option-cases, if-intro, first, ℕ, String, ◌≡◌, refl, sym, ap, subst,
  inl, inr, true, false, Option, none, some, arith,
}
use deal_screening_agent.Prelude.Exec.{Result, ok, err, rolled_back}
use deal_screening_agent.Models.User.{User, AuthSession, RefreshToken, AuthAuditLog}
use deal_screening_agent.Auth.Tokens.{
  KeyRing, AuthError, invalid_refresh_token, http_error, Jwt, create_access_token,
}
use deal_screening_agent.Auth.Tables.{
  AuthDb, TokenBundle, AuthConfig, Crypto, Fresh, find_user, find_session, find_token, add_token,
  as_revoked, as_consumed, consume_token,
}
use deal_screening_agent.Auth.Service.{
  new_token, with_bundle, rotate_for, refresh_in, refresh_with, refresh,
}
use deal_screening_agent.Auth.Routes.{map_error, refresh_route}
use deal_screening_agent.Auth.Sessions.{
  holds, holds-append, holds-update_found, was_consumed, was_revoked, is_consumed, is_revoked,
}
use deal_screening_agent.Auth.History.{History, History-Keeps}

refused :
    {A : Type 0} (f : AuthError → AuthError) (e : AuthError) (db : AuthDb)
    (r : Result AuthError A × AuthDb)
    → r.0 ≡ err e
    → rolled_back db (map_error f r) ≡ (err (f e), db)
refused f e db (r, db') h = rw h refl

-- a transaction's reply is a success only with the state of the code inside
accepted :
    {A : Type 0} (f : AuthError → AuthError) (a : A) (db : AuthDb) (r : Result AuthError A × AuthDb)
    → (rolled_back db (map_error f r)).0 ≡ ok a
    → (r.0 ≡ ok a) × (rolled_back db (map_error f r) ≡ (ok a, r.1))
accepted f a db (ok b, db') h = (h, ap (λ x. (x, db')) h)
accepted f a db (err e, db') h = absurd (ground arith)

module _ (crypto : Crypto) (jwt : Jwt) (ring : KeyRing) (config : AuthConfig) where
  open crypto use {hash_refresh_token}

  -- A redeemed token is refused, whatever its session has become.
  refresh_with-consumed :
      (now : ℕ) (ip : Option String) (fresh : Fresh) (o : Option RefreshToken) (db : AuthDb)
      → holds was_consumed o ≡ true
      → (refresh_with crypto jwt ring config now ip fresh o db).0 ≡ err invalid_refresh_token
  refresh_with-consumed now ip fresh none db h = refl
  refresh_with-consumed now ip fresh (some rt) db h = go (find_session rt.session_id db)
    where
      go :
          (o : Option AuthSession)
          → (refresh_in crypto jwt ring config now ip fresh rt o db).0 ≡ err invalid_refresh_token
      go none = refl
      go (some s) = rw h refl

  refresh_route-consumed :
      (now : ℕ) (ip : Option String) (fresh : Fresh) (refresh_token : String) (db : AuthDb)
      → is_consumed (hash_refresh_token refresh_token) db ≡ true
      → (refresh_route crypto jwt ring config now ip fresh refresh_token db)
        ≡ (err (http_error 401), db)
  unfolding refresh_route refresh
  refresh_route-consumed now ip fresh refresh_token db h =
      refused _ invalid_refresh_token db _
        (refresh_with-consumed now ip fresh (find_token (hash_refresh_token refresh_token) db) db h)

  with_bundle-tokens :
      (r : Result AuthError String) (opaque : String) (user : User) (row : AuthAuditLog)
      (db : AuthDb)
      → (with_bundle crypto jwt ring config r opaque user row db).1.tokens ≡ db.tokens
  with_bundle-tokens (ok t) opaque user row db = refl
  with_bundle-tokens (err e) opaque user row db = refl

  rotate_for-tokens :
      (now : ℕ) (ip : Option String) (fresh : Fresh) (s : AuthSession) (o : Option User)
      (db : AuthDb)
      → (rotate_for crypto jwt ring config now ip fresh s o db).1.tokens ≡ db.tokens
  rotate_for-tokens now ip fresh s none db = refl
  rotate_for-tokens now ip fresh s (some user) db =
      with_bundle-tokens
        (create_access_token jwt ring now config.issuer config.access_ttl_s user s.session_id)
        fresh.opaque user _ db

  -- a reply that is a success leaves the token with this hash redeemed
  abbrev Redeems : ℕ → Result AuthError TokenBundle × AuthDb → Type 0
  Redeems h (err e, db) = Unit
  Redeems h (ok bundle, db) = is_consumed h db ≡ true

  Redeems-is_consumed :
      (h : ℕ) (r : Result AuthError TokenBundle × AuthDb) (bundle : TokenBundle)
      → Redeems h r
      → r.0 ≡ ok bundle
      → is_consumed h r.1 ≡ true
  Redeems-is_consumed h (ok b, db) bundle k e = k
  Redeems-is_consumed h (err x, db) bundle k e = absurd (ground arith)

  Redeems-intro :
      (h : ℕ) (r : Result AuthError TokenBundle × AuthDb) → is_consumed h r.1 ≡ true → Redeems h r
  Redeems-intro h (ok b, db) k = k
  Redeems-intro h (err x, db) k = tt

  rotate_for-Redeems :
      (now : ℕ) (ip : Option String) (fresh : Fresh) (rt : RefreshToken) (s : AuthSession)
      (db : AuthDb) (h : ℕ)
      → find_token h db ≡ some rt
      → Redeems h (
          rotate_for crypto jwt ring config now ip fresh s (find_user s.user_id db) (
            add_token
              (new_token crypto jwt ring config now fresh s.session_id (some rt.token_id))
              (consume_token now ip rt db)))
  rotate_for-Redeems now ip fresh rt s db h f = Redeems-intro h _ (
      subst (λ ts. holds was_consumed (first (λ t. t.token_hash == h) ts) ≡ true)
        (sym (
          rotate_for-tokens now ip fresh s (find_user s.user_id db)
            (add_token token (consume_token now ip rt db))))
        (holds-append was_consumed (λ t. t.token_hash == h) (consume_token now ip rt db).tokens
          token
          (holds-update_found was_consumed (λ t. t.token_hash == h) (λ t. t.token_id == rt.token_id)
            (as_consumed now ip) db.tokens rt (λ y. refl) (λ y. refl) (==_refl rt.token_id) f)))
    where
      token : RefreshToken
      token = new_token crypto jwt ring config now fresh s.session_id (some rt.token_id)

  refresh_with-Redeems :
      (now : ℕ) (ip : Option String) (fresh : Fresh) (h : ℕ) (db : AuthDb)
      → Redeems h (refresh_with crypto jwt ring config now ip fresh (find_token h db) db)
  refresh_with-Redeems now ip fresh h db = elim (Option-cases (find_token h db)) [
    | inl e ↦ rw e tt
    | inr (rt, e) ↦ rw e (by_session rt e (find_session rt.session_id db))
  ]
    where
      by_session :
          (rt : RefreshToken)
          → find_token h db ≡ some rt
          → (o : Option AuthSession)
          → Redeems h (refresh_in crypto jwt ring config now ip fresh rt o db)
      by_session rt f none = tt
      by_session rt f (some s) = if-intro (Redeems h) (is_some rt.consumed_at) tt (
          if-intro (Redeems h) (is_some s.revoked_at) tt (
            if-intro (Redeems h) (ltb rt.expires_at now) tt
              (rotate_for-Redeems now ip fresh rt s db h f)))

  redeemed :
      (now : ℕ) (ip : Option String) (fresh : Fresh) (refresh_token : String) (db : AuthDb)
      (bundle : TokenBundle)
      → (refresh_route crypto jwt ring config now ip fresh refresh_token db).0 ≡ ok bundle
      → is_consumed
          (hash_refresh_token refresh_token)
          (refresh_route crypto jwt ring config now ip fresh refresh_token db).1
        ≡ true
  unfolding refresh_route refresh
  redeemed now ip fresh refresh_token db bundle e =
      let h = hash_refresh_token refresh_token in
      let r = refresh_with crypto jwt ring config now ip fresh (find_token h db) db in
      let (a, b) = accepted _ bundle db r e in
      subst (λ s. is_consumed h s.1 ≡ true) (sym b)
        (Redeems-is_consumed h r bundle (refresh_with-Redeems now ip fresh h db) a)

  -- A refresh token is redeemed at most once. After a refresh request that succeeded, and after
  -- any further requests and administrative calls, each request with the same token is answered
  -- with 401 and changes nothing.
  pub refresh_route-once :
      (now now' : ℕ) (ip ip' : Option String) (fresh fresh' : Fresh) (refresh_token : String)
      (db db' : AuthDb) (bundle : TokenBundle)
      → (refresh_route crypto jwt ring config now ip fresh refresh_token db).0 ≡ ok bundle
      → History crypto jwt ring config
          (refresh_route crypto jwt ring config now ip fresh refresh_token db).1
          db'
      → refresh_route crypto jwt ring config now' ip' fresh' refresh_token db'
        ≡ (err (http_error 401), db')
  refresh_route-once now now' ip ip' fresh fresh' refresh_token db db' bundle e h =
      refresh_route-consumed now' ip' fresh' refresh_token db' (
        (History-Keeps crypto jwt ring config h).0 (hash_refresh_token refresh_token)
          (redeemed now ip fresh refresh_token db bundle e))

  -- A token that was redeemed before, presented while its session is open: the service revokes
  -- the session, but the route raises, its transaction is rolled back, and the session that
  -- requests are checked against stays open; the audit row is lost with it.
  pub refresh_route-forgets_reuse :
      (now : ℕ) (ip : Option String) (fresh : Fresh) (refresh_token : String) (db : AuthDb)
      (rt : RefreshToken) (s : AuthSession)
      → find_token (hash_refresh_token refresh_token) db ≡ some rt
      → is_some rt.consumed_at ≡ true
      → find_session rt.session_id db ≡ some s
      → s.revoked_at ≡ none
      → (is_revoked rt.session_id (refresh crypto jwt ring config now ip fresh refresh_token db).1
          ≡ true)
        × (refresh_route crypto jwt ring config now ip fresh refresh_token db
            ≡ (err (http_error 401), db))
        × (is_revoked rt.session_id db ≡ false)
  unfolding refresh
  refresh_route-forgets_reuse now ip fresh refresh_token db rt s f c g o = (
    rw (f, g, c, o)
        (holds-update_found was_revoked (λ r. r.session_id == rt.session_id)
          (λ r. r.session_id == s.session_id) (as_revoked now "reuse") db.sessions s (λ y. refl)
          (λ y. refl) (==_refl s.session_id) g),
    refresh_route-consumed now ip fresh refresh_token db (rw f c),
    rw (g, o) refl,
  )

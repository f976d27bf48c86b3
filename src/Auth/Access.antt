-- ===== src/Auth/Access.antt =====
-- Who gets a session, and when a session's access ends.
use deal_screening_agent.Prelude.{
  ◌==◌, if◌then◌else◌, Bool-cases, length, select, update, count, length-append,
  length-select-count, ℕ, suc, ◌+◌, String, ◌≡◌, refl, sym, ap, ◌∙◌, ◌≢◌, inl, inr, Bool, true,
  false, not, ◌&&◌, Option, none, some, List, [], ◌∷◌, map, arith,
}
use deal_screening_agent.Prelude.Exec.{Result, ok, err, rolled_back}
use deal_screening_agent.Models.User.{User, AuthSession}
use deal_screening_agent.Auth.Tokens.{
  KeyRing, Claims, AuthError, invalid_credentials, http_error, Jwt, verify_access_token,
}
use deal_screening_agent.Auth.Tables.{
  AuthDb, TokenBundle, AuthConfig, Crypto, Fresh, Client, find_user_by_email, find_session,
  as_revoked, is_open, revoked_audit,
}
use deal_screening_agent.Auth.Service.{
  revoke_user_sessions, login_session, refuse_login, login_as, login,
}
use deal_screening_agent.Auth.Routes.{
  login_error, map_error, login_route, bearer_session, require_auth,
}
use deal_screening_agent.Auth.Sessions.{holds, was_revoked, is_revoked}
use deal_screening_agent.Auth.History.{History, History-Keeps}

count-update_off :
    (p : AuthSession → Bool) (f : AuthSession → AuthSession) (xs : List AuthSession)
    → ((x : AuthSession) → p (f x) ≡ false)
    → count p (update p f xs) ≡ 0
count-update_off p f [] off = refl
count-update_off p f (x ∷ xs) off = elim (Bool-cases (p x)) [
  | inl e ↦ rw (e, off x, count-update_off p f xs off) refl
  | inr e ↦ rw (e, e, count-update_off p f xs off) refl
]

count-update_same :
    (q p : AuthSession → Bool) (f : AuthSession → AuthSession) (xs : List AuthSession)
    → ((x : AuthSession) → p x ≡ true → q (f x) ≡ q x)
    → count q (update p f xs) ≡ count q xs
count-update_same q p f [] same = refl
count-update_same q p f (x ∷ xs) same = elim (Bool-cases (p x)) [
  | inl e ↦ rw (e, same x e, count-update_same q p f xs same) refl
  | inr e ↦ rw (e, count-update_same q p f xs same) refl
]

length-map : {A B : Type 0} (f : A → B) (xs : List A) → length (map f xs) ≡ length xs
length-map f [] = refl
length-map f (x ∷ xs) = ap suc (length-map f xs)

and-false : (b : Bool) → (b && false) ≡ false
and-false true = refl
and-false false = refl

is_open-other : (a b : ℕ) (s : AuthSession) → a ≢ b → is_open a s ≡ true → is_open b s ≡ false
is_open-other a b s n e = ground arith

-- Revoking a user's sessions leaves the user no open session, returns how many there were, writes
-- that many audit rows, and leaves each other user as many open sessions as before.
pub revoke_user_sessions_lem :
    (now user_id other_id : ℕ) (reason : String) (db : AuthDb)
    → user_id ≢ other_id
    → (count (is_open user_id) (revoke_user_sessions now user_id reason db).1.sessions ≡ 0)
      × ((revoke_user_sessions now user_id reason db).0 ≡ count (is_open user_id) db.sessions)
      × (length (revoke_user_sessions now user_id reason db).1.audits
          ≡ length db.audits + count (is_open user_id) db.sessions)
      × (count (is_open other_id) (revoke_user_sessions now user_id reason db).1.sessions
          ≡ count (is_open other_id) db.sessions)
unfolding revoke_user_sessions
revoke_user_sessions_lem now user_id other_id reason db n = (
  count-update_off (is_open user_id) (as_revoked now reason) db.sessions
      (λ s. and-false (s.user_id == user_id)),
  length-select-count (is_open user_id) db.sessions,
  omega (
    arith,
    length-append db.audits (map (revoked_audit reason) (select (is_open user_id) db.sessions)),
    length-map (revoked_audit reason) (select (is_open user_id) db.sessions),
    length-select-count (is_open user_id) db.sessions,
  ),
  count-update_same (is_open other_id) (is_open user_id) (as_revoked now reason) db.sessions
      (λ s e. and-false (s.user_id == other_id) ∙ sym (is_open-other user_id other_id s n e)),
)

-- the login's check of a password
abbrev pub is_login : Crypto → String → Option User → Bool
is_login crypto password none = false
is_login crypto password (some user) =
    user.is_active && crypto.verify_password password user.password_hash

module _ (crypto : Crypto) (jwt : Jwt) (ring : KeyRing) (config : AuthConfig) where
  service-refused :
      (now : ℕ) (client : Client) (fresh : Fresh) (email password : String) (db : AuthDb)
      → is_login crypto password (find_user_by_email (crypto.normalize_email email) db) ≡ false
      → ((login crypto jwt ring config now client fresh email password db).0
          ≡ err invalid_credentials)
        × ((login crypto jwt ring config now client fresh email password db).1.sessions
            ≡ db.sessions)
        × ((login crypto jwt ring config now client fresh email password db).1.tokens ≡ db.tokens)
        × (length (login crypto jwt ring config now client fresh email password db).1.audits
            ≡ length db.audits + 1)
  unfolding login
  service-refused now client fresh email password db h =
      go (find_user_by_email (crypto.normalize_email email) db) h
    where
      Refused : Result AuthError TokenBundle × AuthDb → Type 0
      Refused r =
          (r.0 ≡ err invalid_credentials)
          × (r.1.sessions ≡ db.sessions)
          × (r.1.tokens ≡ db.tokens)
          × (length r.1.audits ≡ length db.audits + 1)

      go :
          (o : Option User)
          → is_login crypto password o ≡ false
          → Refused (login_as crypto jwt ring config now client fresh password o db)
      go none h = (refl, refl, refl, length-append db.audits _)
      go (some user) h = by_flag user.is_active h
        where
          by_password :
              (b : Bool)
              → b ≡ false
              → Refused (
                  if not b
                  then refuse_login crypto jwt ring config (some user) client "wrong_password" db
                  else login_session crypto jwt ring config now client fresh user db)
          by_password true h = absurd (ground arith)
          by_password false h = (refl, refl, refl, length-append db.audits _)

          by_flag :
              (b : Bool)
              → (b && crypto.verify_password password user.password_hash) ≡ false
              → Refused (
                  if not b
                  then refuse_login crypto jwt ring config (some user) client "inactive_account" db
                  else if not (crypto.verify_password password user.password_hash)
                  then refuse_login crypto jwt ring config (some user) client "wrong_password" db
                  else login_session crypto jwt ring config now client fresh user db)
          by_flag false h = (refl, refl, refl, length-append db.audits _)
          by_flag true h = by_password (crypto.verify_password password user.password_hash) h

  rolled_back-refused :
      {A : Type 0} (db after : AuthDb) (r : Result AuthError A)
      → r ≡ err invalid_credentials
      → rolled_back db (map_error login_error (r, after)) ≡ (err (http_error 401), db)
  rolled_back-refused db after r e = rw e refl

  -- A login without an account, with an inactive one or with a wrong password gets one and the
  -- same answer, 401, and the request leaves the state as it was: the service writes an audit row
  -- for it, and no session and no token, but the route raises, and its transaction is rolled back.
  pub login-refused :
      (now : ℕ) (client : Client) (fresh : Fresh) (email password : String) (db : AuthDb)
      → is_login crypto password (find_user_by_email (crypto.normalize_email email) db) ≡ false
      → (login_route crypto jwt ring config now client fresh email password db
          ≡ (err (http_error 401), db))
        × (length (login crypto jwt ring config now client fresh email password db).1.audits
            ≡ length db.audits + 1)
        × ((login crypto jwt ring config now client fresh email password db).1.sessions
            ≡ db.sessions)
        × ((login crypto jwt ring config now client fresh email password db).1.tokens ≡ db.tokens)
  unfolding login_route
  login-refused now client fresh email password db h =
      let (e, sessions, tokens, audits) = service-refused now client fresh email password db h in
      (rolled_back-refused db _ _ e, audits, sessions, tokens)

  -- An access token of a revoked session is refused, after any further requests too, however
  -- long the token itself is still valid.
  pub require_auth-revoked :
      (now : ℕ) (token : String) (claims : Claims) (db db' : AuthDb)
      → is_revoked claims.sid db ≡ true
      → verify_access_token jwt ring now token ≡ ok claims
      → History crypto jwt ring config db db'
      → require_auth crypto jwt ring config now (some token) db' ≡ err (http_error 401)
  unfolding require_auth
  require_auth-revoked now token claims db db' r v h =
      rw v
        (go (find_session claims.sid db') ((History-Keeps crypto jwt ring config h).1 claims.sid r))
    where
      go :
          (o : Option AuthSession)
          → holds was_revoked o ≡ true
          → bearer_session crypto jwt ring config claims o ≡ err (http_error 401)
      go none k = refl
      go (some s) k = rw k refl

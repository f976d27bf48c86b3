-- ===== src/Auth/Sessions.antt =====
-- What no request undoes: a redeemed refresh token stays redeemed, a revoked session stays revoked.
use deal_screening_agent.Prelude.{
  ◌==◌, is_some, Bool-cases, first, update, ℕ, String, ◌≡◌, refl, sym, subst, inl, inr, Bool, true,
  false, Option, none, some, List, [], ◌∷◌, ◌++◌, arith,
}
use deal_screening_agent.Models.User.{AuthSession, RefreshToken}
use deal_screening_agent.Auth.Tokens.{AuthError}
use deal_screening_agent.Auth.Tables.{
  AuthDb, TokenBundle, find_session, find_token, add_token, as_revoked, as_consumed, consume_token,
}
use deal_screening_agent.Prelude.Exec.{Result}

module _ {A : Type 0} (flag : A → Bool) where
  abbrev pub holds : Option A → Bool
  holds none = false
  holds (some x) = flag x

  pub holds-append :
      (q : A → Bool) (xs : List A) (y : A)
      → holds (first q xs) ≡ true
      → holds (first q (xs ++ y ∷ [])) ≡ true
  holds-append q [] y h = absurd (ground arith)
  holds-append q (x ∷ xs) y h = elim (Bool-cases (q x)) [
    | inl e ↦ rw e (ground arith)
    | inr e ↦ rw e (holds-append q xs y (ground arith))
  ]

  pub holds-update :
      (q p : A → Bool) (f : A → A) (xs : List A)
      → ((x : A) → q (f x) ≡ q x)
      → ((x : A) → flag x ≡ true → flag (f x) ≡ true)
      → holds (first q xs) ≡ true
      → holds (first q (update p f xs)) ≡ true
  holds-update q p f [] same keep h = absurd (ground arith)
  holds-update q p f (x ∷ xs) same keep h = elim (Bool-cases (p x)) [
    | inl a ↦ elim (Bool-cases (q x)) [
      | inl e ↦ rw (a, same x, e) (keep x (ground arith))
      | inr e ↦ rw (a, same x, e) (holds-update q p f xs same keep (ground arith))
    ]
    | inr a ↦ elim (Bool-cases (q x)) [
      | inl e ↦ rw (a, e) (ground arith)
      | inr e ↦ rw (a, e) (holds-update q p f xs same keep (ground arith))
    ]
  ]

module _ {A : Type 0} (flag : A → Bool) where
  -- The row that a query finds is changed.
  pub holds-update_found :
      (q p : A → Bool) (f : A → A) (xs : List A) (x : A)
      → ((y : A) → q (f y) ≡ q y)
      → ((y : A) → flag (f y) ≡ true)
      → p x ≡ true
      → first q xs ≡ some x
      → holds flag (first q (update p f xs)) ≡ true
  holds-update_found q p f [] x same on px e = absurd (ground arith)
  holds-update_found q p f (y ∷ xs) x same on px e = elim (Bool-cases (q y)) [
    | inl h ↦
        let found : y ≡ x = ground arith in
        rw (subst (λ z. p z ≡ true) (sym found) px, same y, h) (on y)
    | inr h ↦ elim (Bool-cases (p y)) [
      | inl k ↦ rw (k, same y, h) (holds-update_found q p f xs x same on px (ground arith))
      | inr k ↦ rw (k, h) (holds-update_found q p f xs x same on px (ground arith))
    ]
  ]

abbrev pub was_consumed : RefreshToken → Bool
was_consumed t = is_some t.consumed_at

abbrev pub was_revoked : AuthSession → Bool
was_revoked s = is_some s.revoked_at

-- The token with a hash has been redeemed.
abbrev pub is_consumed : ℕ → AuthDb → Bool
is_consumed token_hash db = holds was_consumed (find_token token_hash db)

abbrev pub is_revoked : ℕ → AuthDb → Bool
is_revoked session_id db = holds was_revoked (find_session session_id db)

abbrev pub Keeps : AuthDb → AuthDb → Type 0
Keeps db db' =
    ((h : ℕ) → is_consumed h db ≡ true → is_consumed h db' ≡ true)
    × ((id : ℕ) → is_revoked id db ≡ true → is_revoked id db' ≡ true)

-- What a reply's state keeps of the state before.
abbrev pub Kept : AuthDb → Result AuthError TokenBundle × AuthDb → Type 0
Kept db r = Keeps db r.1

pub Keeps-refl : (db : AuthDb) → Keeps db db
Keeps-refl db = (λ h e. e, λ id e. e)

pub Keeps-trans : (a b c : AuthDb) → Keeps a b → Keeps b c → Keeps a c
Keeps-trans a b c k l = (λ h e. l.0 h (k.0 h e), λ id e. l.1 id (k.1 id e))

pub add_token-Keeps : (t : RefreshToken) (db : AuthDb) → Keeps db (add_token t db)
add_token-Keeps t db =
    (λ h. holds-append was_consumed (λ t. t.token_hash == h) db.tokens t, λ id e. e)

pub add_session-Keeps :
    (s : AuthSession) (db : AuthDb) → Keeps db (record db { sessions = db.sessions ++ s ∷ [] })
add_session-Keeps s db =
    (λ h e. e, λ id. holds-append was_revoked (λ s. s.session_id == id) db.sessions s)

pub consume_token-Keeps :
    (now : ℕ) (ip : Option String) (t : RefreshToken) (db : AuthDb)
    → Keeps db (consume_token now ip t db)
consume_token-Keeps now ip t db = (
  λ h.
      holds-update was_consumed (λ t. t.token_hash == h) (λ r. r.token_id == t.token_id)
        (as_consumed now ip) db.tokens (λ x. refl) (λ x e. refl),
  λ id e. e,
)

pub revoke-Keeps :
    (now : ℕ) (reason : String) (p : AuthSession → Bool) (db : AuthDb)
    → Keeps db (record db { sessions = update p (as_revoked now reason) db.sessions })
revoke-Keeps now reason p db = (
  λ h e. e,
  λ id.
      holds-update was_revoked (λ s. s.session_id == id) p (as_revoked now reason) db.sessions
        (λ x. refl) (λ x e. refl),
)

-- ===== src/Auth/Tokens/Rotation.antt =====
-- Access tokens across a rotation of the signing key.
use deal_screening_agent.Prelude.{ℕ, String, ◌≡◌, refl, true, false, some, str_eq, str_eq_iff}
use deal_screening_agent.Prelude.Exec.{ok, err}
use deal_screening_agent.Auth.Tokens.{
  SigningKey, KeyRing, Claims, invalid_token, Jwt, try_keys, verify_access_token,
}

-- the ring after a new key is put in front of the current one
abbrev pub rotated : SigningKey → SigningKey → KeyRing
rotated new old = record { current = some new; previous = some old }

-- A token that was signed by the current key is still verified, with the claims it was made of,
-- when that key has become the previous one, and no longer when a second rotation has dropped it.
-- The keys have ids of their own; PyJWT puts the id into the header and decodes with the right key.
pub verify_access_token-rotated :
    (jwt : Jwt) (key new newest : SigningKey) (now : ℕ) (token : String) (claims : Claims)
    → jwt.header_kid token ≡ some (some key.kid)
    → jwt.decode token key now 30 ≡ some claims
    → str_eq key.kid "" ≡ false
    → str_eq new.kid key.kid ≡ false
    → str_eq newest.kid key.kid ≡ false
    → (verify_access_token jwt (rotated new key) now token ≡ ok claims)
      × (verify_access_token jwt (rotated newest new) now token ≡ err invalid_token)
unfolding verify_access_token try_keys
verify_access_token-rotated jwt key new newest now token claims h d e n m =
    (rw (h, e, n, d, same key.kid) refl, rw (h, e, n, m) refl)
  where
    same : (s : String) → str_eq s s ≡ true
    same s = (str_eq_iff s s).1 refl

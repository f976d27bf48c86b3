-- ===== src/Auth/Tokens.antt =====
-- src/app/auth/tokens.py. PyJWT and the key pairs are a parameter; a token is a text, a key is
-- known by its id and its pair, which is only compared.
pub mod Rotation
use deal_screening_agent.Prelude.{
  if◌then◌else◌, ℕ, ◌+◌, String, Bool, true, ◌||◌, Option, none, some, List, [], ◌∷◌, ◌++◌, str_eq,
}
use deal_screening_agent.Prelude.Exec.{Result, ok, err}
use deal_screening_agent.Models.User.{User}

pub record SigningKey : Type 0 where
  pub kid : String
  pub private_key : ℕ

pub record KeyRing : Type 0 where
  pub current : Option SigningKey
  pub previous : Option SigningKey

pub record Claims : Type 0 where
  pub iss : String
  pub sub : ℕ
  pub tnt : ℕ
  pub sid : ℕ
  pub roles : List String
  pub iat : ℕ
  pub exp : ℕ

pub data AuthError : Type 0 where
  signing_keys_missing invalid_token : AuthError
  invalid_credentials invalid_refresh_token session_revoked no_result_found : AuthError
  http_error : ℕ → AuthError

-- What the module uses of PyJWT.
pub record Jwt : Type 0 where
  -- `jwt.encode(claims, key.private_key, …, headers={"kid": key.kid})`
  pub encode : Claims → SigningKey → String
  -- `jwt.get_unverified_header(token)`, and its "kid"
  pub header_kid : String → Option (Option String)
  -- `jwt.decode(token, key.public_key, …)` at a time, with a leeway in seconds
  pub decode : String → SigningKey → ℕ → ℕ → Option Claims

abbrev pub all_keys : KeyRing → List SigningKey
all_keys ring = present ring.current ++ present ring.previous
  where
    present : Option SigningKey → List SigningKey
    present none = []
    present (some k) = k ∷ []

-- a header without an id, or with an empty one, is tried with each key
abbrev pub may_verify : Option String → SigningKey → Bool
may_verify none key = true
may_verify (some k) key = str_eq k "" || str_eq key.kid k

module _ (jwt : Jwt) where
  open jwt use {encode, header_kid, decode}

  unfoldable pub create_access_token : KeyRing → ℕ → String → ℕ → User → ℕ → Result AuthError String
  create_access_token ring now issuer ttl_seconds user session_id = elim ring.current [
    | none ↦ err signing_keys_missing
    | some key ↦ ok (
        encode
          (record {
            iss = issuer;
            sub = user.user_id;
            tnt = user.tenant_id;
            sid = session_id;
            roles = [];
            iat = now;
            exp = now + ttl_seconds;
          })
          key)
  ]

  abbrev or_next : Option Claims → Result AuthError Claims → Result AuthError Claims
  or_next (some c) rest = ok c
  or_next none rest = rest

  -- The loop over the keys.
  unfoldable pub try_keys : String → Option String → ℕ → List SigningKey → Result AuthError Claims
  try_keys token token_kid now [] = err invalid_token
  try_keys token token_kid now (key ∷ keys) =
      let rest = try_keys token token_kid now keys in
      if may_verify token_kid key then or_next (decode token key now 30) rest else rest

  abbrev try_header :
      String → ℕ → List SigningKey → Option (Option String) → Result AuthError Claims
  try_header token now keys none = err invalid_token
  try_header token now keys (some token_kid) = try_keys token token_kid now keys

  abbrev verify_with : String → ℕ → List SigningKey → Result AuthError Claims
  verify_with token now [] = err signing_keys_missing
  verify_with token now (key ∷ keys) = try_header token now (key ∷ keys) (header_kid token)

  unfoldable pub verify_access_token : KeyRing → ℕ → String → Result AuthError Claims
  unfolding try_keys
  verify_access_token ring now token = verify_with token now (all_keys ring)

-- ===== src/Secrets.antt =====
-- src/app/secrets_config: the types, and below them the providers, the redaction of logs, the
-- client that holds the secrets, and the bootstrap.
pub mod Redaction
pub mod Providers
pub mod Client
pub mod Bootstrap
use deal_screening_agent.Prelude.{any, ℕ, String, Bool, true, false, List, [], ◌∷◌, str_eq}

pub data Environment : Type 0 where
  dev staging prod test : Environment

pub data SecretsProvider : Type 0 where
  aws_secrets_manager flyio_secrets env_file memory : SecretsProvider

pub data KmsProviderType : Type 0 where
  aws_kms local_aes no_kms : KmsProviderType

-- PROVIDER_ENV_MATRIX
unfoldable pub is_valid_provider : Environment → SecretsProvider → Bool
is_valid_provider prod memory = false
is_valid_provider prod _ = true
is_valid_provider staging aws_secrets_manager = true
is_valid_provider staging flyio_secrets = true
is_valid_provider staging _ = false
is_valid_provider dev memory = false
is_valid_provider dev _ = true
is_valid_provider test env_file = true
is_valid_provider test memory = true
is_valid_provider test _ = false

abbrev pub canonical_secret_names : List String
canonical_secret_names =
    "openai_api_key" ∷ "database_password" ∷ "auth_signing_key_current"
    ∷ "auth_signing_key_previous" ∷ "rate_limit_store_password" ∷ "auth_min_iat_watermark" ∷ []

abbrev pub is_canonical : String → Bool
is_canonical name = any (str_eq name) canonical_secret_names

pub data SecretsError : Type 0 where
  bootstrap_error bootstrap_not_run unknown_secret : SecretsError
  value_error : SecretsError

-- A secret's bytes are the text that they encode.
pub record SecretValue : Type 0 where
  pub name : String
  pub version : String
  pub value : String
  pub loaded_at : ℕ

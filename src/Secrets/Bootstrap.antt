-- ===== src/Secrets/Bootstrap.antt =====
-- src/app/secrets_config/bootstrap.py: which provider a process gets its secrets from. The
-- environment variables are those that the code reads; the other fields of the configuration, the
-- audit line on stderr and the log are not modelled.
pub mod Allowed
use deal_screening_agent.Prelude.{
  if◌then◌else◌, or_default, String, Bool, true, false, not, Option, none, some, str_eq,
}
use deal_screening_agent.Prelude.Exec.{Result, ok, err}
use deal_screening_agent.Prelude.Results.{◌>>=◌}
use deal_screening_agent.Prelude.Dict.{Dict}
use deal_screening_agent.Secrets.{
  Environment, dev, staging, prod, test, SecretsProvider, aws_secrets_manager, flyio_secrets,
  env_file, memory, KmsProviderType, aws_kms, local_aes, no_kms, is_valid_provider, SecretsError,
  bootstrap_error, value_error, SecretValue,
}
use deal_screening_agent.Secrets.Redaction.{empty_registry, Strings}
use deal_screening_agent.Secrets.Client.{
  SecretsClient, new_client, start_refresher, stop_refresher, load_initial,
}

-- APP_ENV, SECRETS_PROVIDER and KMS_PROVIDER; none where a variable is not set.
pub record Variables : Type 0 where
  pub app_env : Option String
  pub secrets_provider : Option String
  pub kms_provider : Option String

-- the provider objects that the code can make, and an injected one
pub data ProviderKind : Type 0 where
  env_file_provider memory_provider overriding : ProviderKind

pub data KmsClient : Type 0 where
  none_kms_client local_aes_client : KmsClient

-- `Environment(env_str)`, or a BootstrapError
unfoldable pub environment_of : String → Result SecretsError Environment
environment_of s =
    if str_eq s "dev"
    then ok dev
    else if str_eq s "staging"
    then ok staging
    else if str_eq s "prod"
    then ok prod
    else if str_eq s "test"
    then ok test
    else err bootstrap_error

-- `SecretsProvider(name)`, whose ValueError nothing catches
unfoldable pub provider_named : String → Result SecretsError SecretsProvider
provider_named s =
    if str_eq s "aws_secrets_manager"
    then ok aws_secrets_manager
    else if str_eq s "flyio_secrets"
    then ok flyio_secrets
    else if str_eq s "env_file"
    then ok env_file
    else if str_eq s "memory"
    then ok memory
    else err value_error

unfoldable pub kms_named : String → Result SecretsError KmsProviderType
kms_named s =
    if str_eq s "aws_kms"
    then ok aws_kms
    else if str_eq s "local_aes"
    then ok local_aes
    else if str_eq s "none"
    then ok no_kms
    else err bootstrap_error

-- the provider that is taken if none is named
unfoldable pub default_provider : Environment → SecretsProvider
default_provider dev = env_file
default_provider test = memory
default_provider staging = aws_secrets_manager
default_provider prod = aws_secrets_manager

abbrev pub implemented : SecretsProvider → Result SecretsError ProviderKind
implemented env_file = ok env_file_provider
implemented memory = ok memory_provider
implemented _ = err bootstrap_error

unfoldable pub resolve_provider : Environment → SecretsProvider → Result SecretsError ProviderKind
unfolding is_valid_provider
resolve_provider env name =
    if not (is_valid_provider env name) then err bootstrap_error else implemented name

unfoldable pub resolve_kms : KmsProviderType → Result SecretsError KmsClient
resolve_kms no_kms = ok none_kms_client
resolve_kms local_aes = ok local_aes_client
resolve_kms aws_kms = err bootstrap_error

abbrev pub name_of : Environment → String → Result SecretsError SecretsProvider
name_of env s = if str_eq s "" then ok (default_provider env) else provider_named s

-- What a bootstrap settles before it loads the secrets.
pub record Choice : Type 0 where
  pub env : Environment
  pub provider_name : SecretsProvider
  pub provider : ProviderKind
  pub kms : KmsClient

-- the environment, from an injected configuration if there is one
abbrev pub env_of : Option Environment → Variables → Result SecretsError Environment
env_of (some env) vars = ok env
env_of none vars = environment_of (or_default vars.app_env "dev")

abbrev pub provider_of : Bool → Environment → SecretsProvider → Result SecretsError ProviderKind
provider_of true env name = ok overriding
provider_of false env name = resolve_provider env name

unfoldable pub choose : Bool → Option Environment → Variables → Result SecretsError Choice
unfolding environment_of provider_named kms_named default_provider resolve_provider resolve_kms
choose overridden config_override vars = do
  env ← env_of config_override vars
  name ← name_of env (or_default vars.secrets_provider "")
  provider ← provider_of overridden env name
  kms_type ← kms_named (or_default vars.kms_provider "none")
  kms ← resolve_kms kms_type
  ok (record { env = env; provider_name = name; provider = provider; kms = kms })

-- The module's globals after a bootstrap that went through.
pub record Process : Type 0 where
  pub client : Option SecretsClient
  pub choice : Option Choice
  pub bootstrapped : Bool

abbrev pub fresh_process : Process
fresh_process = record { client = none; choice = none; bootstrapped = false }

abbrev map_client : Option SecretsClient → Option SecretsClient
unfolding stop_refresher
map_client none = none
map_client (some client) = some (stop_refresher client)

module _ (str : Strings) (load_all : ProviderKind → Dict SecretValue) where
  abbrev pub loaded : Choice → Process
  loaded c = record {
    client =
        some
          (start_refresher (load_initial str (load_all c.provider) (new_client empty_registry)).1);
    choice = some c;
    bootstrapped = true;
  }

  abbrev pub finish : Process → Result SecretsError Choice → Result SecretsError Process
  finish process (err e) = err e
  finish process (ok c) = ok (loaded c)

  -- A process that is bootstrapped already is left alone.
  unfoldable pub bootstrap :
      Bool → Option Environment → Variables → Process → Result SecretsError Process
  unfolding choose load_initial start_refresher
  bootstrap overridden config_override vars process =
      if process.bootstrapped
      then ok process
      else finish process (choose overridden config_override vars)

-- The refresher is stopped, and a further bootstrap starts anew.
unfoldable pub shutdown : Process → Process
unfolding stop_refresher
shutdown process = record process { client = map_client process.client; bootstrapped = false }

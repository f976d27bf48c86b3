-- ===== src/Secrets/Providers.antt =====
-- src/app/secrets_config/providers.py: what a provider gives, the .env file and the dict of tests.
-- The file and the environment are parameters, as are the operations on texts.
use deal_screening_agent.Prelude.{
  if◌then◌else◌, is_some, or_default, ℕ, String, Bool, not, ◌||◌, Option, none, some, List, [], ◌∷◌,
  str_eq,
}
use deal_screening_agent.Prelude.Dict.{Dict, find_item, put_item}
use deal_screening_agent.Secrets.{canonical_secret_names, is_canonical, SecretValue}

-- What a call of `fetch` does: it raises, or returns a value or None.
pub data Fetched : Type 0 where
  raised : Fetched
  returned : Option SecretValue → Fetched

-- SecretsProviderProtocol at one time
pub record Provider : Type 0 where
  pub load_all : Dict SecretValue
  pub fetch : String → Fetched

-- ENV_FILE_KEY_MAP
abbrev pub env_file_key_map : List (String × String)
env_file_key_map =
    ("openai_api_key", "OPENAI_API_KEY")
    ∷ ("database_password", "DATABASE_PASSWORD")
    ∷ ("auth_signing_key_current", "AUTH_SIGNING_KEY_CURRENT")
    ∷ ("auth_signing_key_previous", "AUTH_SIGNING_KEY_PREVIOUS")
    ∷ ("rate_limit_store_password", "RATE_LIMIT_STORE_PASSWORD")
    ∷ ("auth_min_iat_watermark", "AUTH_MIN_IAT_WATERMARK")
    ∷ []

-- What the code uses of `str`: `partition` at the first "=" is none if there is none.
pub record Lines : Type 0 where
  pub strip : String → String
  pub is_comment : String → Bool
  pub partition : String → Option (String × String)
  pub upper : String → String

-- The file's lines, none if there is no file, and the process's environment.
pub record Host : Type 0 where
  pub file_lines : Option (List String)
  pub environ : Dict String

module _ (str : Lines) where
  open str use {strip, is_comment, partition, upper}

  abbrev pub put_pair : Option (String × String) → Dict String → Dict String
  put_pair none values = values
  put_pair (some (key, value)) values = put_item (strip key) (strip value) values

  abbrev pub read_line : String → Dict String → Dict String
  read_line line values =
      if str_eq line "" || is_comment line then values else put_pair (partition line) values

  unfoldable pub read_lines : List String → Dict String → Dict String
  unfolding put_item
  read_lines [] values = values
  read_lines (line ∷ lines) values = read_lines lines (read_line (strip line) values)

  abbrev pub put_missing : String → Option String → Dict String → Dict String
  put_missing key none values = values
  put_missing key (some value) values =
      if is_some (find_item key values) then values else put_item key value values

  -- the fall back to the environment
  unfoldable pub fall_back : List (String × String) → Dict String → Dict String → Dict String
  unfolding find_item put_item
  fall_back [] environ values = values
  fall_back ((_, env_key) ∷ rest) environ values =
      fall_back rest environ (put_missing env_key (find_item env_key environ) values)

  abbrev pub read_file : Option (List String) → Dict String → Dict String
  read_file none values = values
  read_file (some lines) values = read_lines lines values

  -- `_load_file`, on the values that the provider has
  unfoldable pub load_file : Host → Dict String → Dict String
  unfolding read_lines fall_back
  load_file host values = fall_back env_file_key_map host.environ (read_file host.file_lines values)

  abbrev pub env_key_of : String → String
  env_key_of name = or_default (find_item name env_file_key_map) (upper name)

  -- a value that is there and not empty
  abbrev pub secret_of : ℕ → String → Option String → Option SecretValue
  secret_of now name none = none
  secret_of now name (some raw) =
      if str_eq raw ""
      then none
      else some (record { name = name; version = "env-v1"; value = raw; loaded_at = now })

  abbrev pub read_secret : ℕ → String → Dict String → Option SecretValue
  read_secret now name values = secret_of now name (find_item (env_key_of name) values)

  abbrev pub put_secret : String → Option SecretValue → Dict SecretValue → Dict SecretValue
  put_secret name none result = result
  put_secret name (some sv) result = put_item name sv result

  unfoldable pub load_names : ℕ → Dict String → List String → Dict SecretValue → Dict SecretValue
  unfolding find_item put_item
  load_names now values [] result = result
  load_names now values (name ∷ names) result =
      load_names now values names (put_secret name (read_secret now name values) result)

  unfoldable pub env_file_load_all : ℕ → Dict String → Dict SecretValue
  unfolding load_names
  env_file_load_all now values = load_names now values canonical_secret_names []

  -- The reply, and the values that the provider has from then on.
  unfoldable pub env_file_fetch : Host → ℕ → Dict String → String → Fetched × Dict String
  unfolding load_file find_item
  env_file_fetch host now values name =
      let values' = load_file host values in
      if not (is_canonical name)
      then (raised, values)
      else (returned (read_secret now name values'), values')

-- MemoryProvider: values with versions
abbrev pub Store : Type 0
Store = Dict (String × String)

unfoldable pub set : String → String → String → Store → Store
unfolding put_item
set name value version store = put_item name (value, version) store

abbrev pub memory_value : ℕ → String → String × String → SecretValue
memory_value now name (value, version) = record {
  name = name;
  version = version;
  value = value;
  loaded_at = now;
}

unfoldable pub memory_load_all : ℕ → Store → Dict SecretValue
memory_load_all now [] = []
memory_load_all now ((name, entry) ∷ store) =
    (name, memory_value now name entry) ∷ memory_load_all now store

abbrev pub memory_fetched : ℕ → String → Option (String × String) → Fetched
memory_fetched now name none = returned none
memory_fetched now name (some entry) = returned (some (memory_value now name entry))

unfoldable pub memory_fetch : ℕ → Store → String → Fetched
unfolding find_item
memory_fetch now store name = memory_fetched now name (find_item name store)

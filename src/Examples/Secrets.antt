-- ===== src/Examples/Secrets.antt =====
-- Secrets and the process's start.
use mathlib.Core.List.{Memᴰ}
use deal_screening_agent.Prelude.{
  if◌then◌else◌, Bool-cases, String, ◌≡◌, refl, sym, inl, inr, Bool, true, false, not, none, some,
  List, [], ◌∷◌, str_eq,
}
use deal_screening_agent.Secrets.Providers.{
  Fetched, raised, returned, Lines, Host, env_file_load_all, env_file_fetch, set, memory_load_all,
  memory_fetch,
}
use deal_screening_agent.Secrets.Redaction.{empty_registry, Strings, placeholder, redact}
use deal_screening_agent.Prelude.Exec.{ok}
use deal_screening_agent.Prelude.Dict.{Dict}
use deal_screening_agent.Secrets.{dev, env_file, is_valid_provider, SecretValue}
use deal_screening_agent.Secrets.Client.{
  new_client, get, start_refresher, load_initial, refresh_round,
}
use deal_screening_agent.Secrets.Client.Registered.{after_rounds, Replaces, refreshed-redacted}
use deal_screening_agent.Secrets.Client.Rotation.{refresh_round-env_file, get-set}
use deal_screening_agent.Secrets.Bootstrap.{
  Variables, env_file_provider, none_kms_client, environment_of, kms_named, default_provider,
  resolve_provider, resolve_kms, choose, Process, bootstrap,
}
use deal_screening_agent.Secrets.Bootstrap.Allowed.{
  begins, starts, RunsOnAllowed, bootstrap-IsStarted,
}

abbrev lines : Lines
lines = record {
  strip = λ s. s;
  is_comment = λ s. false;
  partition = λ s. if str_eq s "OPENAI_API_KEY=b" then some ("OPENAI_API_KEY", "b") else none;
  upper = λ s. s;
}

-- the environment holds a key, and by now the file another one
abbrev host : Host
host = record {
  file_lines = some ("OPENAI_API_KEY=b" ∷ []);
  environ = ("OPENAI_API_KEY", "a") ∷ [];
}

abbrev strings : Strings
strings = record {
  sha256 = λ s. s;
  lower = λ s. s;
  replace = λ old new s. if str_eq s old then new else s;
}

abbrev secret : String → SecretValue
secret value = record { name = "openai_api_key"; version = value; value = value; loaded_at = 0 }

abbrev first_load : Dict SecretValue
first_load = ("openai_api_key", secret "a") ∷ []

-- two rounds: a new value, and then an error
abbrev two_rounds : List (String → Fetched)
two_rounds = (λ name. returned (some (secret "b"))) ∷ (λ name. raised) ∷ []

-- a text holds only itself
abbrev holds : String → String → Bool
holds s v = str_eq s v

abbrev is_apart : String → Bool
is_apart v = not (str_eq placeholder v)

not-false : (b : Bool) → not b ≡ true → b ≡ false
not-false true e = sym e
not-false false e = refl

strings-Replaces : Replaces strings holds is_apart
strings-Replaces = record {
  removes = λ v s n a. elim (Bool-cases (str_eq s v)) [
    | inl e ↦ rw e (not-false (str_eq placeholder v) a)
    | inr e ↦ rw (e, e) refl
  ];
  keeps = λ v w s a h. elim (Bool-cases (str_eq s w)) [
    | inl e ↦ rw e (not-false (str_eq placeholder v) a)
    | inr e ↦ rw e h
  ];
}

refreshed-redacted_example :
    holds
      (redact strings
        (after_rounds strings two_rounds
          (load_initial strings first_load (new_client empty_registry)).1).registry
        "a")
      "a"
    ≡ false
unfolding load_initial refresh_round
refreshed-redacted_example =
    refreshed-redacted strings holds is_apart strings-Replaces first_load two_rounds
      "openai_api_key" (secret "a") "a" (inr (Memᴰ.head refl)) refl refl (λ e. e, (λ e. e, tt))

refresh_round-env_file_example :
    refresh_round strings
      (λ name. (env_file_fetch lines host 9 [] name).0)
      (load_initial strings
        (env_file_load_all lines 1 (("OPENAI_API_KEY", "a") ∷ []))
        (new_client empty_registry)).1
    ≡ (load_initial strings
        (env_file_load_all lines 1 (("OPENAI_API_KEY", "a") ∷ []))
        (new_client empty_registry)).1
refresh_round-env_file_example =
    refresh_round-env_file strings lines host 1 9 (("OPENAI_API_KEY", "a") ∷ []) []
      (new_client empty_registry)

get-set_example :
    (get "openai_api_key"
        (load_initial strings
          (memory_load_all 3 (set "openai_api_key" "a" "v2" []))
          (new_client empty_registry)).1
      ≡ ok (record { name = "openai_api_key"; version = "v2"; value = "a"; loaded_at = 3 }))
    × (memory_fetch 3 (set "openai_api_key" "a" "v2" []) "openai_api_key"
        ≡ returned
            (some (record { name = "openai_api_key"; version = "v2"; value = "a"; loaded_at = 3 })))
get-set_example = get-set strings 3 "openai_api_key" "a" "v2" [] (new_client empty_registry) refl

abbrev dev_variables : Variables
dev_variables = record { app_env = some "dev"; secrets_provider = none; kms_provider = none }

abbrev started : Process
started = record {
  client = some (start_refresher (load_initial strings first_load (new_client empty_registry)).1);
  choice = some (record {
    env = dev;
    provider_name = env_file;
    provider = env_file_provider;
    kms = none_kms_client;
  });
  bootstrapped = true;
}

bootstrap-IsStarted_example :
    RunsOnAllowed strings (λ p. first_load) started
    × (bootstrap strings (λ p. first_load) true none dev_variables started ≡ ok started)
unfolding bootstrap choose environment_of default_provider resolve_provider is_valid_provider
    kms_named resolve_kms
bootstrap-IsStarted_example =
    bootstrap-IsStarted strings (λ p. first_load) (starts none dev_variables begins refl) refl true
      none dev_variables

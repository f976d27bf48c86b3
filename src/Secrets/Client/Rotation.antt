-- ===== src/Secrets/Client/Rotation.antt =====
-- What reaches the client of a change in a provider.
use deal_screening_agent.Prelude.{
  Bool-cases, if-intro, All, ℕ, String, ◌≡◌, refl, ap, ◌∙◌, inl, inr, true, not, Option, none, some,
  List, [], ◌∷◌, str_eq, str_eq_iff,
}
use deal_screening_agent.Prelude.Exec.{ok}
use deal_screening_agent.Prelude.Dict.{
  Dict, find_item, put_item, All-put_item, find_item-put_item, IsAt, All-keys,
}
use deal_screening_agent.Secrets.{canonical_secret_names, is_canonical, SecretValue}
use deal_screening_agent.Secrets.Redaction.{Strings}
use deal_screening_agent.Secrets.Providers.{
  Fetched, raised, returned, Lines, Host, load_file, env_key_of, secret_of, read_secret, put_secret,
  load_names, env_file_load_all, env_file_fetch, Store, set, memory_value, memory_load_all,
  memory_fetch,
}
use deal_screening_agent.Secrets.Client.{
  SecretsClient, get, load_initial, take_fetched, refresh_names, refresh_round,
}

abbrev HasEnvVersion : SecretValue → Type 0
HasEnvVersion sv = sv.version ≡ "env-v1"

abbrev HasEnvVersionIf : Option SecretValue → Type 0
HasEnvVersionIf none = Unit
HasEnvVersionIf (some sv) = HasEnvVersion sv

-- what the provider may return
abbrev IsEnvFetched : Fetched → Type 0
IsEnvFetched raised = Unit
IsEnvFetched (returned o) = HasEnvVersionIf o

module _ (lines : Lines) where
  secret_of-version :
      (now : ℕ) (name : String) (o : Option String) → HasEnvVersionIf (secret_of lines now name o)
  secret_of-version now name none = tt
  secret_of-version now name (some raw) = if-intro HasEnvVersionIf (str_eq raw "") tt refl

  load_names-version :
      (now : ℕ) (values : Dict String) (names : List String) (result : Dict SecretValue)
      → All (λ (p : String × SecretValue). HasEnvVersion p.1) result
      → All
          (λ (p : String × SecretValue). HasEnvVersion p.1)
          (load_names lines now values names result)
  unfolding load_names
  load_names-version now values [] result h = h
  load_names-version now values (name ∷ names) result h = load_names-version now values names _ (
      put_secret-version (read_secret lines now name values)
        (secret_of-version now name (find_item (env_key_of lines name) values)))
    where
      put_secret-version :
          (o : Option SecretValue)
          → HasEnvVersionIf o
          → All (λ (p : String × SecretValue). HasEnvVersion p.1) (put_secret lines name o result)
      put_secret-version none e = h
      put_secret-version (some sv) e = All-put_item HasEnvVersion name sv result e h

  env_file_fetch-version :
      (host : Host) (now : ℕ) (values : Dict String) (name : String)
      → IsEnvFetched (env_file_fetch lines host now values name).0
  unfolding env_file_fetch
  env_file_fetch-version host now values name =
      if-intro (λ (p : Fetched × Dict String). IsEnvFetched p.0) (not (is_canonical name)) tt
        (secret_of-version now name
          (find_item (env_key_of lines name) (load_file lines host values)))

module _ (str : Strings) where
  take_fetched-same :
      (name : String) (f : Fetched) (client : SecretsClient)
      → IsEnvFetched f
      → IsAt HasEnvVersion client.secrets name
      → take_fetched str name f client ≡ client
  take_fetched-same name raised client f i = refl
  take_fetched-same name (returned none) client f i = refl
  take_fetched-same name (returned (some new_sv)) client f (old_sv, e, v) = rw (e, v, f) refl

  refresh_names-same :
      (fetch : String → Fetched) (names : List String) (client : SecretsClient)
      → ((name : String) → IsEnvFetched (fetch name))
      → All (IsAt HasEnvVersion client.secrets) names
      → refresh_names str fetch names client ≡ client
  unfolding refresh_names
  refresh_names-same fetch [] client f h = refl
  refresh_names-same fetch (name ∷ names) client f h =
      ap (refresh_names str fetch names) (take_fetched-same name (fetch name) client (f name) h.0)
      ∙ refresh_names-same fetch names client f h.1

  -- A client that was loaded from the .env file stays as it is in a round of refreshing, whatever
  -- the file and the environment hold by then: no secret changes, and no subscriber is called.
  pub refresh_round-env_file :
      (lines : Lines) (host : Host) (now now' : ℕ) (values values' : Dict String)
      (client : SecretsClient)
      → refresh_round str
          (λ name. (env_file_fetch lines host now' values' name).0)
          (load_initial str (env_file_load_all lines now values) client).1
        ≡ (load_initial str (env_file_load_all lines now values) client).1
  unfolding refresh_round load_initial env_file_load_all
  refresh_round-env_file lines host now now' values values' client =
      refresh_names-same (λ name. (env_file_fetch lines host now' values' name).0) _ _
        (env_file_fetch-version lines host now' values')
        (All-keys HasEnvVersion _
          (load_names-version lines now values canonical_secret_names [] tt))

  abbrev map_value : ℕ → String → Option (String × String) → Option SecretValue
  map_value now name none = none
  map_value now name (some entry) = some (memory_value now name entry)

  find_item-memory_load_all :
      (now : ℕ) (name : String) (store : Store)
      → find_item name (memory_load_all now store) ≡ map_value now name (find_item name store)
  unfolding find_item memory_load_all
  find_item-memory_load_all now name [] = refl
  find_item-memory_load_all now name ((k, entry) ∷ store) = elim (Bool-cases (str_eq k name)) [
    | inl e ↦ rw e (ap (λ n. some (memory_value now n entry)) ((str_eq_iff k name).0 e))
    | inr e ↦ rw e (find_item-memory_load_all now name store)
  ]

  -- A value that is set in the provider of the tests, under the name of a secret, is what the client
  -- gives once it has loaded, and what the provider's `fetch` returns.
  pub get-set :
      (now : ℕ) (name value version : String) (store : Store) (client : SecretsClient)
      → is_canonical name ≡ true
      → (get name (load_initial str (memory_load_all now (set name value version store)) client).1
          ≡ ok (record { name = name; version = version; value = value; loaded_at = now }))
        × (memory_fetch now (set name value version store) name
            ≡ returned
                (some (record { name = name; version = version; value = value; loaded_at = now })))
  unfolding get load_initial set memory_fetch
  get-set now name value version store client c = (
    rw
        (
          c,
          find_item-memory_load_all now name (put_item name (value, version) store),
          find_item-put_item name (value, version) store,
        )
        refl,
    rw (find_item-put_item name (value, version) store) refl,
  )

-- ===== src/Secrets/Client.antt =====
-- src/app/secrets_config/client.py: the secrets in memory, their subscribers, and the refresher. A
-- callback's errors and timeouts are only logged, so a call of it is all that the state records.
pub mod Registered
pub mod Rotation
use deal_screening_agent.Prelude.{
  if◌then◌else◌, select, ℕ, String, Bool, true, false, not, Option, none, some, List, [], ◌∷◌, ◌++◌,
  map, str_eq,
}
use deal_screening_agent.Prelude.Exec.{Result, ok, err, Exec}
use deal_screening_agent.Prelude.Dict.{Dict, find_item, put_item, keys}
use deal_screening_agent.Secrets.{is_canonical, SecretsError, unknown_secret, SecretValue}
use deal_screening_agent.Secrets.Redaction.{
  RedactionRegistry, Strings, register_key, register_value,
}
use deal_screening_agent.Secrets.Providers.{Fetched, raised, returned}

pub record SubscriptionHandle : Type 0 where
  pub name : String
  pub id : ℕ

-- The client and the registry that it fills; `calls` are the callbacks called so far.
pub record SecretsClient : Type 0 where
  pub secrets : Dict SecretValue
  pub subscriptions : List SubscriptionHandle
  pub registry : RedactionRegistry
  pub calls : List (ℕ × SecretValue)
  pub is_refreshing : Bool

abbrev pub new_client : RedactionRegistry → SecretsClient
new_client registry = record {
  secrets = [];
  subscriptions = [];
  registry = registry;
  calls = [];
  is_refreshing = false;
}

abbrev or_unknown : Option SecretValue → Result SecretsError SecretValue
or_unknown none = err unknown_secret
or_unknown (some sv) = ok sv

unfoldable pub get : String → SecretsClient → Result SecretsError SecretValue
unfolding find_item
get name client =
    if not (is_canonical name)
    then err unknown_secret
    else or_unknown (find_item name client.secrets)

unfoldable pub get_optional : String → SecretsClient → Result SecretsError (Option SecretValue)
unfolding find_item
get_optional name client =
    if not (is_canonical name) then err unknown_secret else ok (find_item name client.secrets)

unfoldable pub subscribe : String → ℕ → Exec SecretsClient SecretsError SubscriptionHandle
subscribe name id client =
    let handle : SubscriptionHandle = record { name = name; id = id } in
    if not (is_canonical name)
    then (err unknown_secret, client)
    else (ok handle, record client { subscriptions = client.subscriptions ++ handle ∷ [] })

unfoldable pub start_refresher : SecretsClient → SecretsClient
start_refresher client = record client { is_refreshing = true }

unfoldable pub stop_refresher : SecretsClient → SecretsClient
stop_refresher client = record client { is_refreshing = false }

module _ (str : Strings) where
  unfoldable pub register_all : Dict SecretValue → RedactionRegistry → RedactionRegistry
  unfolding register_key register_value
  register_all [] registry = registry
  register_all ((_, sv) ∷ secrets) registry =
      register_all secrets (register_value str sv.value (register_key sv.name registry))

  unfoldable pub load_initial : Dict SecretValue → SecretsClient → List String × SecretsClient
  unfolding register_all
  load_initial loaded client = (
    keys loaded,
    record client { secrets = loaded; registry = register_all loaded client.registry },
  )

  unfoldable pub notify_subscribers : String → SecretValue → SecretsClient → SecretsClient
  notify_subscribers name new_sv client = record client {
    calls =
        client.calls
        ++ map (λ (h : SubscriptionHandle). (h.id, new_sv))
            (select (λ (h : SubscriptionHandle). str_eq h.name name) client.subscriptions);
  }

  abbrev pub is_current : Option SecretValue → SecretValue → Bool
  is_current none new_sv = false
  is_current (some old_sv) new_sv = str_eq old_sv.version new_sv.version

  -- the new value of a name
  unfoldable pub replace_secret : String → SecretValue → SecretsClient → SecretsClient
  unfolding put_item register_value notify_subscribers
  replace_secret name new_sv client = notify_subscribers name new_sv (record client {
    secrets = put_item name new_sv client.secrets;
    registry = register_value str new_sv.value client.registry;
  })

  abbrev pub take_fetched : String → Fetched → SecretsClient → SecretsClient
  take_fetched name raised client = client
  take_fetched name (returned none) client = client
  take_fetched name (returned (some new_sv)) client =
      if is_current (find_item name client.secrets) new_sv
      then client
      else replace_secret name new_sv client

  unfoldable pub refresh_names : (String → Fetched) → List String → SecretsClient → SecretsClient
  unfolding find_item replace_secret
  refresh_names fetch [] client = client
  refresh_names fetch (name ∷ names) client =
      refresh_names fetch names (take_fetched name (fetch name) client)

  -- One round of the refresh loop.
  unfoldable pub refresh_round : (String → Fetched) → SecretsClient → SecretsClient
  unfolding refresh_names
  refresh_round fetch client = refresh_names fetch (keys client.secrets) client

-- ===== src/Secrets/Client/Registered.antt =====
-- Every secret that the client holds or has held is one that the registry redacts.
use mathlib.Core.List.{Memᴰ}
use deal_screening_agent.Prelude.{
  if◌then◌else◌, Bool-cases, if-intro, any, All, All-mem, String, ◌≡◌, refl, subst, ◌⊎◌, inl, inr,
  Bool, true, false, none, some, List, [], ◌∷◌, map, arith, str_eq, str_eq_iff,
}
use deal_screening_agent.Prelude.Dict.{Dict, find_item, keys, All-put_item}
use deal_screening_agent.Secrets.{SecretValue}
use deal_screening_agent.Secrets.Redaction.{
  empty_registry, Strings, placeholder, register_value, redact_values, redact,
}
use deal_screening_agent.Secrets.Providers.{Fetched, raised, returned}
use deal_screening_agent.Secrets.Client.{
  SecretsClient, new_client, load_initial, notify_subscribers, is_current, replace_secret,
  take_fetched, refresh_names, refresh_round,
}
use deal_screening_agent.Secrets.Redaction.Growth.{
  has_hash, Grows, Grows-refl, Grows-trans, register_value-Grows, Registered, Registered-Grows,
  register_all-Registered,
}

module _ (str : Strings) where
  -- what a refresh does to a client whose secrets are registered
  abbrev Refreshes : SecretsClient → SecretsClient → Type 0
  Refreshes before after =
      Grows str before.registry after.registry
      × (Registered str before.registry before.secrets
          → Registered str after.registry after.secrets)

  take_fetched-Refreshes :
      (name : String) (f : Fetched) (client : SecretsClient)
      → Refreshes client (take_fetched str name f client)
  unfolding replace_secret notify_subscribers
  take_fetched-Refreshes name raised client = (Grows-refl str client.registry, λ r. r)
  take_fetched-Refreshes name (returned none) client = (Grows-refl str client.registry, λ r. r)
  take_fetched-Refreshes name (returned (some new_sv)) client =
      if-intro (Refreshes client) (is_current str (find_item name client.secrets) new_sv)
        (Grows-refl str client.registry, λ r. r) replaced
    where
      replaced : Refreshes client (replace_secret str name new_sv client)
      replaced = (
        (register_value-Grows str new_sv.value client.registry).0,
        λ r.
            All-put_item
              (λ (sv : SecretValue).
                has_hash str (str.sha256 sv.value) (register_value str new_sv.value client.registry)
                ≡ true)
              name new_sv client.secrets (register_value-Grows str new_sv.value client.registry).1
              (Registered-Grows str client.registry
                (register_value str new_sv.value client.registry) client.secrets
                (register_value-Grows str new_sv.value client.registry).0 r),
      )

  refresh_names-Refreshes :
      (fetch : String → Fetched) (names : List String) (client : SecretsClient)
      → Refreshes client (refresh_names str fetch names client)
  unfolding refresh_names
  refresh_names-Refreshes fetch [] client = (Grows-refl str client.registry, λ r. r)
  refresh_names-Refreshes fetch (name ∷ names) client =
      let next = take_fetched str name (fetch name) client in
      let (g, keep) = take_fetched-Refreshes name (fetch name) client in
      let (g', keep') = refresh_names-Refreshes fetch names next in
      (Grows-trans str client.registry next.registry _ g g', λ r. keep' (keep r))

  -- rounds of the refresh loop, in their order
  abbrev pub after_rounds : List (String → Fetched) → SecretsClient → SecretsClient
  after_rounds [] client = client
  after_rounds (fetch ∷ rounds) client = after_rounds rounds (refresh_round str fetch client)

  after_rounds-Refreshes :
      (rounds : List (String → Fetched)) (client : SecretsClient)
      → Refreshes client (after_rounds rounds client)
  unfolding refresh_round
  after_rounds-Refreshes [] client = (Grows-refl str client.registry, λ r. r)
  after_rounds-Refreshes (fetch ∷ rounds) client =
      let next = refresh_round str fetch client in
      let (g, keep) = refresh_names-Refreshes fetch (keys client.secrets) client in
      let (g', keep') = after_rounds-Refreshes rounds next in
      (Grows-trans str client.registry next.registry _ g g', λ r. keep' (keep r))

  -- What `str` does with the values: `contains text v` is `v in text`. A value that is apart from the
  -- placeholder overlaps with it nowhere: neither is in the other, and no beginning of one is an
  -- end of the other.
  pub record Replaces (contains : String → String → Bool) (is_apart : String → Bool) : Type 0 where
    -- no occurrence is left, nor does one arise around a placeholder
    pub removes :
        (v s : String)
        → str_eq v "" ≡ false
        → is_apart v ≡ true
        → contains (str.replace v placeholder s) v ≡ false
    pub keeps :
        (v w s : String)
        → is_apart v ≡ true
        → contains s v ≡ false
        → contains (str.replace w placeholder s) v ≡ false

  module _ (contains : String → String → Bool) (is_apart : String → Bool)
      (laws : Replaces contains is_apart) where
    redact_values-keeps :
        (values : List String) (v s : String)
        → is_apart v ≡ true
        → contains s v ≡ false
        → contains (redact_values str values s) v ≡ false
    unfolding redact_values
    redact_values-keeps [] v s a h = h
    redact_values-keeps (w ∷ values) v s a h = elim (Bool-cases (str_eq w "")) [
      | inl e ↦ rw e (redact_values-keeps values v s a h)
      | inr e ↦
          rw e (redact_values-keeps values v (str.replace w placeholder s) a (laws.keeps v w s a h))
    ]

    redact_values-removes :
        (values : List String) (v s : String)
        → str_eq v "" ≡ false
        → is_apart v ≡ true
        → All (λ k. str.sha256 k ≡ str.sha256 v → k ≡ v) values
        → any (λ k. str_eq k (str.sha256 v)) (map str.sha256 values) ≡ true
        → contains (redact_values str values s) v ≡ false
    unfolding redact_values
    redact_values-removes [] v s n a c e = absurd (ground arith)
    redact_values-removes (w ∷ values) v s n a c e =
        elim (Bool-cases (str_eq (str.sha256 w) (str.sha256 v))) [
          | inl h ↦ here (c.0 ((str_eq_iff (str.sha256 w) (str.sha256 v)).0 h))
          | inr h ↦ elim (Bool-cases (str_eq w "")) [
            | inl k ↦ rw k (redact_values-removes values v s n a c.1 (ground arith))
            | inr k ↦ rw k (
                redact_values-removes values v (str.replace w placeholder s) n a c.1 (ground arith))
          ]
        ]
      where
        here :
            w ≡ v
            → contains
                (redact_values str values (if str_eq w "" then s else str.replace w placeholder s))
                v
              ≡ false
        here same =
            let kept : str_eq w "" ≡ false = rw same n in
            rw (kept, same)
              (redact_values-keeps values v (str.replace v placeholder s) a (laws.removes v s n a))

    -- After the first load and any rounds of refreshing, whatever the provider gives, `redact` leaves
    -- no text in which the value of a secret is found that the client holds or that was loaded first,
    -- if the value is not empty, if it overlaps with the placeholder nowhere, and if no other
    -- registered value has the same hash.
    pub refreshed-redacted :
        (loaded : Dict SecretValue) (rounds : List (String → Fetched)) (name : String)
        (sv : SecretValue) (text : String)
        → let client =
            after_rounds rounds (load_initial str loaded (new_client empty_registry)).1 in
          Memᴰ (name, sv) client.secrets ⊎ Memᴰ (name, sv) loaded
          → str_eq sv.value "" ≡ false
          → is_apart sv.value ≡ true
          → All
              (λ k. str.sha256 k ≡ str.sha256 sv.value → k ≡ sv.value)
              client.registry.known_values
          → contains (redact str client.registry text) sv.value ≡ false
    unfolding load_initial redact
    refreshed-redacted loaded rounds name sv text member not_empty apart no_collision =
        let first_client = (load_initial str loaded (new_client empty_registry)).1 in
        let client = after_rounds rounds first_client in
        let (g, loaded_in) = register_all-Registered str loaded empty_registry in
        let (g', keep) = after_rounds-Refreshes rounds first_client in
        let linked = g'.linked (g.linked refl) in
        let registered : has_hash str (str.sha256 sv.value) client.registry ≡ true = elim member [
          | inl m ↦ All-mem _ (name, sv) client.secrets (keep loaded_in) m
          | inr m ↦
              All-mem _ (name, sv) loaded
                (Registered-Grows str first_client.registry client.registry loaded g' loaded_in) m
        ] in
        redact_values-removes client.registry.known_values sv.value text not_empty apart
          no_collision
          (subst (λ hs. any (λ k. str_eq k (str.sha256 sv.value)) hs ≡ true) linked registered)

-- ===== src/Secrets/Redaction/Growth.antt =====
-- A registry only grows.
use deal_screening_agent.Prelude.{
  if◌then◌else◌, any, All, any-append, String, ◌≡◌, refl, sym, ap, ◌∙◌, Bool, true, false, ◌||◌,
  List, [], ◌∷◌, ◌++◌, map, arith, str_eq, str_eq_iff,
}
use deal_screening_agent.Prelude.Dict.{Dict}
use deal_screening_agent.Secrets.{SecretValue}
use deal_screening_agent.Secrets.Redaction.{
  RedactionRegistry, Strings, register_key, register_value,
}
use deal_screening_agent.Secrets.Client.{register_all}

module _ (str : Strings) where
  abbrev pub has_hash : String → RedactionRegistry → Bool
  has_hash h registry = any (λ k. str_eq k h) registry.value_hashes

  -- the hashes are those of the values
  abbrev pub IsLinked : RedactionRegistry → Type 0
  IsLinked registry = registry.value_hashes ≡ map str.sha256 registry.known_values

  -- nothing is taken out
  pub record Grows (before after : RedactionRegistry) : Type 0 where
    pub linked : IsLinked before → IsLinked after
    pub kept : (h : String) → has_hash h before ≡ true → has_hash h after ≡ true

  pub Grows-refl : (r : RedactionRegistry) → Grows r r
  Grows-refl r = record { linked = λ l. l; kept = λ h e. e }

  pub Grows-trans : (a b c : RedactionRegistry) → Grows a b → Grows b c → Grows a c
  Grows-trans a b c f g = record {
    linked = λ l. g.linked (f.linked l);
    kept = λ h e. g.kept h (f.kept h e);
  }

  map-snoc :
      (values : List String) (v : String)
      → map str.sha256 (values ++ v ∷ []) ≡ map str.sha256 values ++ str.sha256 v ∷ []
  map-snoc [] v = refl
  map-snoc (x ∷ values) v = ap (λ hs. str.sha256 x ∷ hs) (map-snoc values v)

  pub or-true : (b : Bool) → b ≡ true → (c : Bool) → (b || c) ≡ true
  or-true b e c = ground arith

  pub or-true' : (b c : Bool) → c ≡ true → (b || c) ≡ true
  or-true' b c e = ground arith

  pub register_value-Grows :
      (v : String) (r : RedactionRegistry)
      → Grows r (register_value str v r) × (has_hash (str.sha256 v) (register_value str v r) ≡ true)
  unfolding register_value
  register_value-Grows v r = by_test (has_hash (str.sha256 v) r) refl
    where
      added : RedactionRegistry
      added = record r {
        known_values = r.known_values ++ v ∷ [];
        value_hashes = r.value_hashes ++ str.sha256 v ∷ [];
      }

      by_test :
          (b : Bool)
          → has_hash (str.sha256 v) r ≡ b
          → Grows r (if b then r else added)
            × (has_hash (str.sha256 v) (if b then r else added) ≡ true)
      by_test true e = (Grows-refl r, e)
      by_test false e = (
        record {
          linked = λ l. ap (λ hs. hs ++ str.sha256 v ∷ []) l ∙ sym (map-snoc r.known_values v);
          kept = λ h k.
              any-append (λ k. str_eq k h) r.value_hashes (str.sha256 v ∷ [])
              ∙ or-true (has_hash h r) k _;
        },
        any-append (λ k. str_eq k (str.sha256 v)) r.value_hashes (str.sha256 v ∷ [])
            ∙ or-true' (has_hash (str.sha256 v) r) _ (
                or-true (str_eq (str.sha256 v) (str.sha256 v))
                  ((str_eq_iff (str.sha256 v) (str.sha256 v)).1 refl) false),
      )

  -- the secrets of a dict have their hashes in the registry
  abbrev pub Registered : RedactionRegistry → Dict SecretValue → Type 0
  Registered r = All (λ (p : String × SecretValue). has_hash (str.sha256 p.1.value) r ≡ true)

  pub Registered-Grows :
      (a b : RedactionRegistry) (d : Dict SecretValue) → Grows a b → Registered a d → Registered b d
  Registered-Grows a b [] g h = tt
  Registered-Grows a b ((k, sv) ∷ d) g h =
      (g.kept (str.sha256 sv.value) h.0, Registered-Grows a b d g h.1)

  pub register_all-Registered :
      (d : Dict SecretValue) (r : RedactionRegistry)
      → Grows r (register_all str d r) × Registered (register_all str d r) d
  unfolding register_all register_key
  register_all-Registered [] r = (Grows-refl r, tt)
  register_all-Registered ((k, sv) ∷ d) r =
      let r' = register_value str sv.value (register_key sv.name r) in
      let (g, own) = register_value-Grows sv.value (register_key sv.name r) in
      let (rest, all_rest) = register_all-Registered d r' in
      (
        record { linked = λ l. rest.linked (g.linked l); kept = λ h e. rest.kept h (g.kept h e) },
        (rest.kept (str.sha256 sv.value) own, all_rest),
      )

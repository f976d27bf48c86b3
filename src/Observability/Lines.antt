-- ===== src/Observability/Lines.antt =====
-- What a log line can hold.
use deal_screening_agent.Prelude.{
  if◌then◌else◌, Bool-cases, String, ◌≡◌, refl, ap, ◌∙◌, inl, inr, Bool, true, false, not, ◌&&◌,
  ◌||◌, Option, none, some, str_eq,
}
use deal_screening_agent.Prelude.Json.{
  Value, null, boolean, number, string, array, object, Fields, end, field,
}
use deal_screening_agent.Observability.Scrubber.{
  redacted, scrub_value, Rules, is_blocked_key, scrub_fields,
}
use deal_screening_agent.Observability.Logger.{
  Context, Level, is_protected, keep_fields, non_empty, format, log,
}

-- a value that is the placeholder
abbrev is_redacted : Value → Bool
is_redacted (string s) = str_eq s "[REDACTED]"
is_redacted _ = false

module _ (rules : Rules) where
  -- At each depth of dicts in dicts, a blocked key has the placeholder.
  unfoldable pub is_clean : Fields → Bool
  is_clean end = true
  is_clean (field k (object d) fs) =
      let rest = is_clean fs in
      let inner = is_clean d in not (is_blocked_key rules k) && (inner && rest)
  is_clean (field k v fs) =
      let rest = is_clean fs in (not (is_blocked_key rules k) || is_redacted v) && rest

  clean-if :
      (k : String) (v : Value) (fs : Fields)
      → is_clean fs ≡ true
      → (is_blocked_key rules k ≡ false → is_clean (field k v fs) ≡ true)
      → is_clean (field k (if is_blocked_key rules k then redacted else v) fs) ≡ true
  unfolding is_clean
  clean-if k v fs c h = go (is_blocked_key rules k) refl
    where
      go :
          (b : Bool)
          → is_blocked_key rules k ≡ b
          → is_clean (field k (if b then redacted else v) fs) ≡ true
      go true e = rw (e, c) refl
      go false e = h e

  scrub_fields-is_clean : (fs : Fields) → is_clean (scrub_fields rules fs) ≡ true
  unfolding scrub_fields is_clean
  scrub_fields-is_clean end = refl
  scrub_fields-is_clean (field k (object d) fs) =
      clean-if k (object (scrub_fields rules d)) (scrub_fields rules fs) (scrub_fields-is_clean fs)
        λ e. rw (e, scrub_fields-is_clean d, scrub_fields-is_clean fs) refl
  scrub_fields-is_clean (field k (string s) fs) =
      clean-if k (string (scrub_value rules.patterns s)) (scrub_fields rules fs)
        (scrub_fields-is_clean fs) λ e. rw (e, scrub_fields-is_clean fs) refl
  scrub_fields-is_clean (field k null fs) =
      clean-if k null (scrub_fields rules fs) (scrub_fields-is_clean fs)
        λ e. rw (e, scrub_fields-is_clean fs) refl
  scrub_fields-is_clean (field k (boolean b) fs) =
      clean-if k (boolean b) (scrub_fields rules fs) (scrub_fields-is_clean fs)
        λ e. rw (e, scrub_fields-is_clean fs) refl
  scrub_fields-is_clean (field k (number n) fs) =
      clean-if k (number n) (scrub_fields rules fs) (scrub_fields-is_clean fs)
        λ e. rw (e, scrub_fields-is_clean fs) refl
  scrub_fields-is_clean (field k (array items) fs) =
      clean-if k (array items) (scrub_fields rules fs) (scrub_fields-is_clean fs)
        λ e. rw (e, scrub_fields-is_clean fs) refl

  -- no key passes the test
  abbrev pub lacks : (String → Bool) → Fields → Bool
  lacks p end = true
  lacks p (field k v fs) = let rest = lacks p fs in not (p k) && rest

  lacks-scrub_fields :
      (p : String → Bool) (fs : Fields) → lacks p (scrub_fields rules fs) ≡ lacks p fs
  unfolding scrub_fields
  lacks-scrub_fields p end = refl
  lacks-scrub_fields p (field k (string s) fs) = ap (λ b. not (p k) && b) (lacks-scrub_fields p fs)
  lacks-scrub_fields p (field k (object d) fs) = ap (λ b. not (p k) && b) (lacks-scrub_fields p fs)
  lacks-scrub_fields p (field k null fs) = ap (λ b. not (p k) && b) (lacks-scrub_fields p fs)
  lacks-scrub_fields p (field k (boolean _) fs) = ap (λ b. not (p k) && b) (lacks-scrub_fields p fs)
  lacks-scrub_fields p (field k (number _) fs) = ap (λ b. not (p k) && b) (lacks-scrub_fields p fs)
  lacks-scrub_fields p (field k (array _) fs) = ap (λ b. not (p k) && b) (lacks-scrub_fields p fs)

  lacks-keep_fields :
      (p : String → Bool) (fs : Fields) → lacks p (keep_fields (λ k. not (p k)) fs) ≡ true
  unfolding keep_fields
  lacks-keep_fields p end = refl
  lacks-keep_fields p (field k v fs) = elim (Bool-cases (p k)) [
    | inl e ↦ rw e (lacks-keep_fields p fs)
    | inr e ↦ rw (e, e) (lacks-keep_fields p fs)
  ]

  -- what holds of the fields of a line, if it has any
  abbrev pub OfFields : (Fields → Type 0) → Option Fields → Type 0
  OfFields P none = Unit
  OfFields P (some fs) = P fs

  OfFields-non_empty : (P : Fields → Type 0) (fs : Fields) → P fs → OfFields P (non_empty fs)
  OfFields-non_empty P end h = tt
  OfFields-non_empty P (field k v fs) h = h

  -- Whatever a caller logs, the line has the identifiers of the request's context, its fields have
  -- none of the protected keys, and at each depth of dicts in dicts a blocked key has only the
  -- placeholder.
  pub log-IsClean :
      (context : Context) (module_name event : String) (level : Level) (fields : Fields)
      → let line = log rules context module_name level event fields in
        (line.context ≡ context)
        × OfFields (λ fs. (is_clean fs ≡ true) × (lacks is_protected fs ≡ true)) line.fields
  unfolding log format
  log-IsClean context module_name event level fields =
      let kept =
        keep_fields (λ k. not (is_protected k))
          (keep_fields (λ k. not (str_eq k "duration_ms")) fields) in
      (
        refl,
        OfFields-non_empty (λ fs. (is_clean fs ≡ true) × (lacks is_protected fs ≡ true))
            (scrub_fields rules kept)
            (
              scrub_fields-is_clean kept,
              lacks-scrub_fields is_protected kept
                  ∙ lacks-keep_fields is_protected
                      (keep_fields (λ k. not (str_eq k "duration_ms")) fields),
            ),
      )

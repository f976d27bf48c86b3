-- ===== src/Pipeline/Llm/Entries.antt =====
-- What the checks of the entries ensure, one after the other.
use text.Mathlib.Text.{find?}
use deal_screening_agent.Prelude.{
  if◌then◌else◌, is_some, Bool-cases, if-intro, count, any, all, All, ℕ, ◌+◌, String, ◌≡◌, refl,
  sym, subst, inl, inr, Bool, true, false, not, Option, none, some, List, [], ◌∷◌, arith, str_eq,
  str_eq_iff,
}
use deal_screening_agent.Prelude.Exec.{ok, err}
use deal_screening_agent.Prelude.Results.{guard, Ensures, Ensures-bind, Ensures-any}
use deal_screening_agent.Prelude.Json.{
  Value, null, boolean, number, string, array, object, Items, nil, cons, Fields, find_key, get_key,
}
use deal_screening_agent.Models.Enums.{
  FieldExtractionStatus, found, inferred, missing, is_missing, core_extraction_fields,
}
use deal_screening_agent.Deals.Extraction.{FieldData}
use deal_screening_agent.Pipeline.Llm.{
  llm_extraction_error, as_text, as_name, as_status, as_confidence, fits_status, holds_text,
  stored_value, check_field, check_fields, check_list, validate_extraction_response,
}

Ensures-guard : {E : Type 0} (b : Bool) (e : E) → Ensures (λ u. b ≡ true) (guard b e)
Ensures-guard true e = refl
Ensures-guard false e = tt

-- one of the six names, and a value exactly if the field is not missing
pub record IsEntry (f : FieldData) : Type 0 where
  pub known : any (str_eq f.field_name) core_extraction_fields ≡ true
  pub valued : is_some f.field_value ≡ not (is_missing f.field_status)

Ensures-if :
    {E A : Type 0} (P : A → Type 0) (b : Bool) (a : A) (e : E)
    → (b ≡ true → P a)
    → Ensures P (if b then ok a else err e)
Ensures-if P true a e k = k refl
Ensures-if P false a e k = tt

fits_status-valued :
    (column_text : Value → String) (status : FieldExtractionStatus) (v : Value)
    → fits_status status v ≡ true
    → is_some (stored_value column_text v) ≡ not (is_missing status)
fits_status-valued column_text found null e = absurd (ground arith)
fits_status-valued column_text found (string s) e = refl
fits_status-valued column_text found (boolean b) e = refl
fits_status-valued column_text found (number n) e = refl
fits_status-valued column_text found (array xs) e = refl
fits_status-valued column_text found (object fs) e = refl
fits_status-valued column_text inferred null e = absurd (ground arith)
fits_status-valued column_text inferred (string s) e = refl
fits_status-valued column_text inferred (boolean b) e = refl
fits_status-valued column_text inferred (number n) e = refl
fits_status-valued column_text inferred (array xs) e = refl
fits_status-valued column_text inferred (object fs) e = refl
fits_status-valued column_text missing null e = refl
fits_status-valued column_text missing (string s) e = absurd (ground arith)
fits_status-valued column_text missing (boolean b) e = absurd (ground arith)
fits_status-valued column_text missing (number n) e = absurd (ground arith)
fits_status-valued column_text missing (array xs) e = absurd (ground arith)
fits_status-valued column_text missing (object fs) e = absurd (ground arith)

module _ (column_text : Value → String) where
  -- an entry under a name that was not seen before
  abbrev IsFirst : List String → FieldData → Type 0
  IsFirst seen f = IsEntry f × (any (str_eq f.field_name) seen ≡ false)

  check_object-Ensures :
      (seen : List String) (fs : Fields)
      → Ensures (IsFirst seen) (check_field column_text seen (object fs))
  unfolding check_field
  check_object-Ensures seen fs =
      Ensures-bind _ _ (as_text (get_key "field_name" fs)) _
        (Ensures-any (as_text (get_key "field_name" fs)))
        λ s _.
          Ensures-bind (λ n. any (str_eq n) core_extraction_fields ≡ true) _ (as_name s) _
            (Ensures-if _ (any (str_eq s) core_extraction_fields) s _ (λ e. e))
            λ name known.
              Ensures-bind (λ u. not (any (str_eq name) seen) ≡ true) _
                (guard (not (any (str_eq name) seen)) llm_extraction_error) _
                (Ensures-guard (not (any (str_eq name) seen)) llm_extraction_error)
                λ _ new.
                  Ensures-bind _ _ (as_text (get_key "field_status" fs)) _
                    (Ensures-any (as_text (get_key "field_status" fs)))
                    λ t _. Ensures-bind _ _ (as_status t) _ (Ensures-any (as_status t)) λ status _.
                      Ensures-bind _ _ (as_text (get_key "confidence" fs)) _
                        (Ensures-any (as_text (get_key "confidence" fs)))
                        λ c _.
                          Ensures-bind _ _ (as_confidence c) _ (Ensures-any (as_confidence c))
                            λ confidence _.
                              Ensures-if (IsFirst seen)
                                (fits_status status (get_key "field_value" fs)) _ _
                                λ fits. (
                                  record {
                                    known = known;
                                    valued =
                                        fits_status-valued column_text status
                                          (get_key "field_value" fs) fits;
                                  },
                                  ground arith,
                                )

  check_field-Ensures :
      (seen : List String) (v : Value) → Ensures (IsFirst seen) (check_field column_text seen v)
  unfolding check_field
  check_field-Ensures seen null = tt
  check_field-Ensures seen (boolean b) = tt
  check_field-Ensures seen (number n) = tt
  check_field-Ensures seen (string s) = tt
  check_field-Ensures seen (array xs) = tt
  check_field-Ensures seen (object fs) = check_object-Ensures seen fs

  -- The entries that are left hold each of the names once that was not seen.
  pub record Completes (seen : List String) (fs : List FieldData) : Type 0 where
    pub entries : All IsEntry fs
    pub once :
        (name : String)
        → any (str_eq name) core_extraction_fields ≡ true
        → count (λ f. str_eq f.field_name name) fs + (if any (str_eq name) seen then 1 else 0) ≡ 1

  all-any :
      (names seen : List String) (name : String)
      → all (λ n. any (str_eq n) seen) names ≡ true
      → any (str_eq name) names ≡ true
      → any (str_eq name) seen ≡ true
  all-any [] seen name a m = absurd (ground arith)
  all-any (n ∷ names) seen name a m = elim (Bool-cases (str_eq name n)) [
    | inl e ↦ subst (λ x. any (str_eq x) seen ≡ true) (sym ((str_eq_iff name n).0 e)) (ground arith)
    | inr e ↦ all-any names seen name (ground arith) (ground arith)
  ]

  once-cons :
      (f : FieldData) (name : String) (seen : List String) (k : ℕ)
      → any (str_eq f.field_name) seen ≡ false
      → k + (if any (str_eq name) (f.field_name ∷ seen) then 1 else 0) ≡ 1
      → (if str_eq f.field_name name then 1 else 0) + k + (if any (str_eq name) seen then 1 else 0)
        ≡ 1
  once-cons f name seen k new e = elim (Bool-cases (str_eq f.field_name name)) [
    | inl s ↦
        let same : f.field_name ≡ name = (str_eq_iff f.field_name name).0 s in
        let unseen : any (str_eq name) seen ≡ false =
          subst (λ x. any (str_eq x) seen ≡ false) same new in
        let twin : str_eq name f.field_name ≡ true = (str_eq_iff name f.field_name).1 (sym same) in
        ground (arith, s, unseen, twin)
    | inr s ↦ ground (arith, str_eq_iff name f.field_name, str_eq_iff f.field_name name)
  ]

  check_fields-Ensures :
      (seen : List String) (values : Items)
      → Ensures (Completes seen) (check_fields column_text seen values)
  unfolding check_fields
  check_fields-Ensures seen nil =
      Ensures-bind (λ u. all (λ name. any (str_eq name) seen) core_extraction_fields ≡ true) _
        (guard (all (λ name. any (str_eq name) seen) core_extraction_fields) llm_extraction_error) _
        (Ensures-guard (all (λ name. any (str_eq name) seen) core_extraction_fields)
          llm_extraction_error)
        λ _ a. record {
          entries = tt;
          once = λ name m. rw (all-any core_extraction_fields seen name a m) refl;
        }
  check_fields-Ensures seen (cons value values) =
      Ensures-bind (IsFirst seen) _ (check_field column_text seen value) _
        (check_field-Ensures seen value)
        λ f first_one.
          Ensures-bind (Completes (f.field_name ∷ seen)) _
            (check_fields column_text (f.field_name ∷ seen) values) _
            (check_fields-Ensures (f.field_name ∷ seen) values)
            λ fs c. record {
              entries = (first_one.0, c.entries);
              once = λ name m. omega (
                arith,
                once-cons f name seen (count (λ f. str_eq f.field_name name) fs) first_one.1
                    (c.once name m),
              );
            }

  pub validate-Ensures :
      (parsed : Value) → Ensures (Completes []) (validate_extraction_response column_text parsed)
  unfolding validate_extraction_response
  validate-Ensures null = tt
  validate-Ensures (boolean b) = tt
  validate-Ensures (number n) = tt
  validate-Ensures (string s) = if-intro (Ensures (Completes [])) (is_some (find? s "fields")) tt tt
  validate-Ensures (array xs) = if-intro (Ensures (Completes [])) (holds_text "fields" xs) tt tt
  validate-Ensures (object fs) = go (find_key "fields" fs)
    where
      go : (o : Option Value) → Ensures (Completes []) (check_list column_text o)
      go none = tt
      go (some null) = tt
      go (some (boolean b)) = tt
      go (some (number n)) = tt
      go (some (string s)) = tt
      go (some (array values)) = check_fields-Ensures [] values
      go (some (object fields)) = tt

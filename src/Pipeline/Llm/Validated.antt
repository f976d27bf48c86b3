-- ===== src/Pipeline/Llm/Validated.antt =====
-- What a validated response is sure to hold.
use deal_screening_agent.Prelude.{
  Bool-cases, length, count, any, All, ℕ, ◌+◌, String, ◌≡◌, refl, sym, subst, inl, inr, true, false,
  List, [], ◌∷◌, arith, str_eq, str_eq_iff,
}
use deal_screening_agent.Prelude.Exec.{ok}
use deal_screening_agent.Prelude.Results.{Ensures-ok}
use deal_screening_agent.Prelude.Json.{Value}
use deal_screening_agent.Models.Enums.{core_extraction_fields}
use deal_screening_agent.Deals.Extraction.{FieldData}
use deal_screening_agent.Pipeline.Llm.{validate_extraction_response}
use deal_screening_agent.Pipeline.Llm.Entries.{IsEntry, Completes, validate-Ensures}

-- A text is equal to exactly one of the six names if to any.
one_name :
    (s : String)
    → any (str_eq s) core_extraction_fields ≡ true
    → count (str_eq s) core_extraction_fields ≡ 1
one_name s m = at "sector" refl (λ a. at "revenue" refl (λ b. at "ebitda" refl (λ c.
    at "geography" refl
      (λ d. at "ask_price" refl (λ e. at "deal_type" refl (λ f. absurd (ground arith)))))))
  where
    at :
        (name : String)
        → count (str_eq name) core_extraction_fields ≡ 1
        → (str_eq s name ≡ false → count (str_eq s) core_extraction_fields ≡ 1)
        → count (str_eq s) core_extraction_fields ≡ 1
    at name here other = elim (Bool-cases (str_eq s name)) [
      | inl e ↦
          subst (λ x. count (str_eq x) core_extraction_fields ≡ 1) (sym ((str_eq_iff s name).0 e))
            here
      | inr e ↦ other e
    ]

abbrev entries_for : List FieldData → List String → ℕ
entries_for fs [] = 0
entries_for fs (n ∷ names) = count (λ f. str_eq f.field_name n) fs + entries_for fs names

entries_for-cons :
    (f : FieldData) (fs : List FieldData) (names : List String)
    → entries_for (f ∷ fs) names ≡ count (str_eq f.field_name) names + entries_for fs names
entries_for-cons f fs [] = omega arith
entries_for-cons f fs (n ∷ names) = omega (arith, entries_for-cons f fs names)

entries_for-nil : (names : List String) → entries_for [] names ≡ 0
entries_for-nil [] = refl
entries_for-nil (n ∷ names) = omega (arith, entries_for-nil names)

length-eq-entries_for :
    (fs : List FieldData) → All IsEntry fs → length fs ≡ entries_for fs core_extraction_fields
length-eq-entries_for [] a = omega arith
length-eq-entries_for (f ∷ fs) a = omega (
  arith,
  entries_for-cons f fs core_extraction_fields,
  one_name f.field_name a.0.known,
  length-eq-entries_for fs a.1,
)

-- The fields of a response that passes the validation are six entries, one for each of the six
-- names, each with a value exactly if its status is not MISSING.
pub validate_extraction_response_lem :
    (column_text : Value → String) (parsed : Value) (fields : List FieldData) (name : String)
    → validate_extraction_response column_text parsed ≡ ok fields
    → any (str_eq name) core_extraction_fields ≡ true
    → (length fields ≡ 6) × (count (λ f. str_eq f.field_name name) fields ≡ 1) × All IsEntry fields
validate_extraction_response_lem column_text parsed fields name v m =
    let c =
      Ensures-ok (Completes column_text []) _ fields (validate-Ensures column_text parsed) v in
    (
      omega (
        arith,
        length-eq-entries_for fields c.entries,
        c.once "sector" refl,
        c.once "revenue" refl,
        c.once "ebitda" refl,
        c.once "geography" refl,
        c.once "ask_price" refl,
        c.once "deal_type" refl,
      ),
      omega (arith, c.once name m),
      c.entries,
    )

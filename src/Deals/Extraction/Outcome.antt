-- ===== src/Deals/Extraction/Outcome.antt =====
-- What an extraction leaves for the scoring engine.
use deal_screening_agent.Prelude.{
  leb, ◌==◌, le→leb, Bool-cases, Option-cases, first, update, first_sound, ℕ, ◌≤◌, ◌<◌, String, ◌≡◌,
  refl, ap, subst, ◌↔◌, inl, inr, Bool, true, false, ◌&&◌, some, List, [], ◌∷◌, arith,
}
use deal_screening_agent.Prelude.Exec.{Result, ok, err}
use deal_screening_agent.Models.Enums.{
  extracted, failed, validate_transition, none_level, min_fields_for_extraction,
}
use deal_screening_agent.Models.Deal.{Deal, extraction_started}
use deal_screening_agent.Deals.Db.{Db, DealError, is_deal, with_status, find_deal}
use deal_screening_agent.Deals.Extraction.{
  FieldData, ExtractionResult, found_count, compute_overall_confidence, is_extractable,
  load_and_verify_deal, log_audit, mark_deal_failed, process_extraction_result, run_pipeline,
  extract_deal,
}

-- A FAILED deal whose document gives three fields or more becomes EXTRACTED at once, although the
-- table of valid transitions has only FAILED → UPLOADED.
pub extract_deal-from_failed :
    {F : Type 0} (pipeline : String → Result String (List FieldData)) (deal_id tenant_id : ℕ)
    (deal : Deal) (fields : List FieldData) (db : Db F)
    → find_deal deal_id tenant_id db ≡ some deal
    → deal.status ≡ failed
    → pipeline deal.file_path ≡ ok fields
    → min_fields_for_extraction ≤ found_count fields
    → ((extract_deal pipeline deal_id tenant_id db).1.deals
        ≡ update (λ d. d.id == deal.id) (λ _. with_status extracted deal) db.deals)
      × (validate_transition failed extracted
          ≡ err (record { from_status = failed; to_status = extracted }))
unfolding extract_deal validate_transition
extract_deal-from_failed pipeline deal_id tenant_id deal fields db e s p n =
    (rw (e, s, p, le→leb min_fields_for_extraction (found_count fields) n) refl, refl)

-- the pipeline's outcome as it is stored
abbrev pub IsExtracted : {F : Type 0} → ℕ → ℕ → Db F → Type 0
IsExtracted deal_id tenant_id db =
    (deal : Deal) × (find_deal deal_id tenant_id db ≡ some deal) × (deal.status ≡ extracted)

first-replace :
    {A : Type 0} (q p : A → Bool) (new old : A) (xs : List A)
    → ((x : A) → q x ≡ true → p x ≡ true)
    → q new ≡ true
    → first q xs ≡ some old
    → first q (update p (λ _. new) xs) ≡ some new
first-replace q p new old [] sub n e = absurd (ground arith)
first-replace q p new old (x ∷ xs) sub n e = elim (Bool-cases (p x)) [
  | inl h ↦ rw (h, n) refl
  | inr h ↦
      let other : q x ≡ false = elim (Bool-cases (q x)) [
        | inl k ↦ absurd (ground (arith, sub x k))
        | inr k ↦ k
      ] in
      rw (h, other) (first-replace q p new old xs sub n (rw other at e))
]

same_id :
    (deal_id tenant_id : ℕ) (a b : Deal)
    → (a.id == deal_id && a.tenant_id == tenant_id) ≡ true
    → (b.id == deal_id && b.tenant_id == tenant_id) ≡ true
    → (a.id == b.id) ≡ true
same_id deal_id tenant_id a b h k = ground arith

abbrev answered : {F : Type 0} → ExtractionResult × Db F → Result DealError ExtractionResult × Db F
answered (result, db) = (ok result, db)

-- An extraction that reports success leaves the deal EXTRACTED.
pub extract_deal-IsExtracted :
    {F : Type 0} (pipeline : String → Result String (List FieldData)) (deal_id tenant_id : ℕ)
    (db after : Db F) (result : ExtractionResult)
    → extract_deal pipeline deal_id tenant_id db ≡ (ok result, after)
    → result.success ≡ true
    → IsExtracted deal_id tenant_id after
unfolding extract_deal load_and_verify_deal run_pipeline mark_deal_failed process_extraction_result
    log_audit
extract_deal-IsExtracted {F} pipeline deal_id tenant_id db after result h success =
    elim (Option-cases (find_deal deal_id tenant_id db)) [
      | inl e ↦ absurd (ground arith)
      | inr (deal, e) ↦ elim (Bool-cases (is_extractable deal.status)) [
        | inr k ↦ absurd (ground arith)
        | inl k ↦ by_outcome deal e (pipeline deal.file_path) (rw (e, k) at h)
      ]
    ]
  where
    own :
        (deal : Deal)
        → find_deal deal_id tenant_id db ≡ some deal
        → is_deal deal_id tenant_id deal ≡ true
    own deal e = first_sound (is_deal deal_id tenant_id) db.deals deal e

    by_outcome :
        (deal : Deal)
        → find_deal deal_id tenant_id db ≡ some deal
        → (r : Result String (List FieldData))
        → answered
            (run_pipeline deal r (log_audit deal extraction_started deal.status deal.status db))
          ≡ (ok result, after)
        → IsExtracted deal_id tenant_id after
    by_outcome deal e (err error) g = absurd (ground arith)
    by_outcome deal e (ok fields) g =
        elim (Bool-cases (leb min_fields_for_extraction (found_count fields))) [
          | inr k ↦ absurd (ground arith)
          | inl k ↦
              subst (λ d. IsExtracted deal_id tenant_id d) (ap (λ r. r.1) (rw k at g))
                (
                  with_status extracted deal,
                  first-replace (is_deal deal_id tenant_id) (λ d. d.id == deal.id)
                      (with_status extracted deal) deal db.deals
                      (λ d t. same_id deal_id tenant_id d deal t (own deal e)) (own deal e) e,
                  refl,
                )
        ]

confidence_bounds :
    (fields : List FieldData) (n : ℕ)
    → (compute_overall_confidence fields n ≡ none_level) ↔ (n < min_fields_for_extraction)
unfolding compute_overall_confidence
confidence_bounds fields n = ground arith

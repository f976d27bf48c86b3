-- ===== src/Deals/Extraction.antt =====
-- src/app/services/extraction_service.py. The pipeline from the stored file to the fields (PDF
-- text, scrubbing, the language model: Pipeline/Document.antt) is a parameter that returns fields
-- or an error's text.
pub mod Outcome
use deal_screening_agent.Prelude.{
  ltb, leb, ◌==◌, if◌then◌else◌, length, count, ℕ, ◌+◌, String, Bool, true, false, not, ◌&&◌, ◌||◌,
  Option, none, some, List, [], ◌∷◌, ◌++◌, map,
}
use deal_screening_agent.Prelude.Exec.{Result, ok, err, Exec}
use deal_screening_agent.Models.Enums.{
  DealStatus, uploaded, extracted, failed, FieldExtractionStatus, is_missing, ConfidenceLevel, high,
  medium, low, none_level, is_high, is_medium, core_extraction_fields, min_fields_for_extraction,
}
use deal_screening_agent.Models.Deal.{
  Deal, ExtractedField, Action, extraction_started, extraction_completed, extraction_failed, worker,
}
use deal_screening_agent.Deals.Db.{
  Db, DealError, deal_not_found, wrong_status, with_status, audit_row, save_deal, add_audit,
  find_deal,
}

-- One validated entry of the model's answer, its strings read as the members that they name.
pub record FieldData : Type 0 where
  pub field_name : String
  pub field_value : Option String
  pub field_status : FieldExtractionStatus
  pub confidence : ConfidenceLevel

pub record ExtractionResult : Type 0 where
  pub success : Bool
  pub deal_id : ℕ
  pub fields_found : ℕ
  pub overall_confidence : ConfidenceLevel
  pub error : Option String

-- FOUND or INFERRED
abbrev pub has_value : FieldData → Bool
has_value f = not (is_missing f.field_status)

abbrev pub found_count : List FieldData → ℕ
found_count = count has_value

unfoldable pub compute_overall_confidence : List FieldData → ℕ → ConfidenceLevel
compute_overall_confidence fields n_found =
    let high_count = count (λ f. has_value f && is_high f.confidence) fields in
    let medium_or_better =
      count (λ f. has_value f && (is_high f.confidence || is_medium f.confidence)) fields in
    if ltb n_found min_fields_for_extraction
    then none_level
    else if n_found == length core_extraction_fields && high_count == n_found
    then high
    else if leb 4 medium_or_better
    then medium
    else low

-- The rows of one run; the first carries the overall confidence.
abbrev pub field_row : ℕ → ℕ → Option ConfidenceLevel → FieldData → ExtractedField
field_row deal_id extraction_run overall f = record {
  deal_id = deal_id;
  extraction_run = extraction_run;
  field_name = f.field_name;
  field_value = f.field_value;
  field_status = f.field_status;
  confidence = f.confidence;
  overall_confidence = overall;
}

unfoldable pub field_rows : ℕ → ℕ → ConfidenceLevel → List FieldData → List ExtractedField
field_rows deal_id extraction_run overall [] = []
field_rows deal_id extraction_run overall (f ∷ fs) =
    field_row deal_id extraction_run (some overall) f
    ∷ map (field_row deal_id extraction_run none) fs

-- may a deal of this status be extracted
abbrev pub is_extractable : DealStatus → Bool
is_extractable uploaded = true
is_extractable failed = true
is_extractable _ = false

abbrev pub failed_deal : Deal → Deal
failed_deal deal = record deal { status = failed; retry_count = deal.retry_count + 1 }

module _ {F : Type 0} where
  abbrev pub verified : Option Deal → Exec (Db F) DealError Deal
  verified none db = (err deal_not_found, db)
  verified (some deal) db =
      if is_extractable deal.status then (ok deal, db) else (err wrong_status, db)

  unfoldable pub load_and_verify_deal : ℕ → ℕ → Exec (Db F) DealError Deal
  load_and_verify_deal deal_id tenant_id db = verified (find_deal deal_id tenant_id db) db

  unfoldable pub log_audit : Deal → Action → DealStatus → DealStatus → Db F → Db F
  log_audit deal action from_status to_status =
      add_audit (audit_row deal worker none action (some from_status) (some to_status))

  unfoldable pub mark_deal_failed : Deal → String → Db F → ExtractionResult × Db F
  unfolding log_audit
  mark_deal_failed deal error_detail db = (
    record {
      success = false;
      deal_id = deal.id;
      fields_found = 0;
      overall_confidence = none_level;
      error = some error_detail;
    },
    log_audit (failed_deal deal) extraction_failed deal.status failed
        (save_deal (failed_deal deal) db),
  )

  abbrev pub add_fields : List ExtractedField → Db F → Db F
  add_fields rows db = record db { fields = db.fields ++ rows }

  unfoldable pub process_extraction_result : Deal → List FieldData → Db F → ExtractionResult × Db F
  unfolding log_audit mark_deal_failed compute_overall_confidence field_rows
  process_extraction_result deal fields db =
      let n_found = found_count fields in
      let overall = compute_overall_confidence fields n_found in
      let db' = add_fields (field_rows deal.id (deal.retry_count + 1) overall fields) db in
      if leb min_fields_for_extraction n_found
      then (
        record {
          success = true;
          deal_id = deal.id;
          fields_found = n_found;
          overall_confidence = overall;
          error = none;
        },
        log_audit (with_status extracted deal) extraction_completed deal.status extracted
            (save_deal (with_status extracted deal) db'),
      )
      else mark_deal_failed deal "too few fields extracted" db'

  -- The `try` block and its handlers, which mark the deal failed whatever was raised.
  unfoldable pub run_pipeline :
      Deal → Result String (List FieldData) → Db F → ExtractionResult × Db F
  unfolding process_extraction_result mark_deal_failed
  run_pipeline deal (ok fields) db = process_extraction_result deal fields db
  run_pipeline deal (err error) db = mark_deal_failed deal error db

  abbrev pub extract_loaded :
      (String → Result String (List FieldData))
      → Result DealError Deal × Db F
      → Result DealError ExtractionResult × Db F
  extract_loaded pipeline (err e, db) = (err e, db)
  extract_loaded pipeline (ok deal, db) =
      let (result, db') =
        run_pipeline deal (pipeline deal.file_path)
          (log_audit deal extraction_started deal.status deal.status db) in
      (ok result, db')

  unfoldable pub extract_deal :
      (String → Result String (List FieldData)) → ℕ → ℕ → Exec (Db F) DealError ExtractionResult
  unfolding load_and_verify_deal run_pipeline log_audit
  extract_deal pipeline deal_id tenant_id db =
      extract_loaded pipeline (load_and_verify_deal deal_id tenant_id db)

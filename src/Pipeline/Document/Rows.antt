-- ===== src/Pipeline/Document/Rows.antt =====
-- What an extraction over a document writes.
use mathlib.Core.List.{append-nil}
use deal_screening_agent.Prelude.{
  leb, if◌then◌else◌, if-intro, length, count, any, ℕ, suc, ◌+◌, String, ◌≡◌, refl, sym, ap, ◌∙◌,
  subst, ◌⊎◌, inl, inr, true, Option, none, some, List, [], ◌∷◌, ◌++◌, map, str_eq,
}
use deal_screening_agent.Prelude.Results.{Ensures}
use deal_screening_agent.Prelude.Exec.{Result, ok, err}
use deal_screening_agent.Prelude.Json.{Value}
use deal_screening_agent.Models.Enums.{
  ConfidenceLevel, core_extraction_fields, min_fields_for_extraction,
}
use deal_screening_agent.Deals.Extraction.{
  FieldData, ExtractionResult, found_count, compute_overall_confidence, field_row, field_rows,
  is_extractable, verified, load_and_verify_deal, log_audit, mark_deal_failed,
  process_extraction_result, run_pipeline, extract_loaded, extract_deal,
}
use deal_screening_agent.Pipeline.Llm.{
  LlmError, Message, build_extraction_messages, validate_extraction_response, Answer, api_error,
  other_exception, replied, checked, judge,
}
use deal_screening_agent.Pipeline.Llm.Attempts.{first_verdict, extract_fields_via_llm_lem}
use deal_screening_agent.Pipeline.Llm.Validated.{validate_extraction_response_lem}
use deal_screening_agent.Models.Deal.{Deal, ExtractedField}
use deal_screening_agent.Deals.Db.{Db, DealError, deal_not_found, wrong_status, find_deal}
use deal_screening_agent.Pipeline.Pdf.{PdfLibrary, PdfError, extract_text_from_pdf}
use deal_screening_agent.Pipeline.Document.{Details, ask, llm_outcome, outcome, read_document}
use deal_screening_agent.Pipeline.Pii.{Regex, scrub_pii}

-- the six fields, each once
abbrev pub AllSix : List FieldData → Type 0
AllSix fields =
    (length fields ≡ 6)
    × ((name : String)
        → any (str_eq name) core_extraction_fields ≡ true
        → count (λ f. str_eq f.field_name name) fields ≡ 1)

validate-AllSix :
    (column_text : Value → String) (parsed : Value)
    → Ensures AllSix (validate_extraction_response column_text parsed)
validate-AllSix column_text parsed = go (validate_extraction_response column_text parsed) refl
  where
    go :
        (r : Result LlmError (List FieldData))
        → validate_extraction_response column_text parsed ≡ r
        → Ensures AllSix r
    go (err e) h = tt
    go (ok fields) h = (
      (validate_extraction_response_lem column_text parsed fields "sector" h refl).0,
      λ name m. (validate_extraction_response_lem column_text parsed fields name h m).1,
    )

module _ (loads : String → Option Value) (column_text : Value → String) where
  judge-AllSix : (answer : Answer) → Ensures AllSix (judge loads column_text answer)
  judge-AllSix api_error = tt
  judge-AllSix other_exception = tt
  judge-AllSix (replied none) = tt
  judge-AllSix (replied (some raw)) =
      if-intro (Ensures AllSix) (str_eq raw "") tt (by_value (loads raw))
    where
      by_value : (o : Option Value) → Ensures AllSix (checked loads column_text o)
      by_value none = tt
      by_value (some parsed) = validate-AllSix column_text parsed

  first_verdict-AllSix :
      (answers : List Answer) → Ensures AllSix (first_verdict loads column_text answers)
  first_verdict-AllSix [] = tt
  first_verdict-AllSix (api_error ∷ answers) = first_verdict-AllSix answers
  first_verdict-AllSix (other_exception ∷ answers) = judge-AllSix other_exception
  first_verdict-AllSix (replied content ∷ answers) = judge-AllSix (replied content)

count-rows :
    (id run : ℕ) (o : Option ConfidenceLevel) (name : String) (fs : List FieldData)
    → (length (map (field_row id run o) fs) ≡ length fs)
      × (count (λ (r : ExtractedField). str_eq r.field_name name) (map (field_row id run o) fs)
          ≡ count (λ (f : FieldData). str_eq f.field_name name) fs)
count-rows id run o name [] = (refl, refl)
count-rows id run o name (f ∷ fs) =
    let (l, c) = count-rows id run o name fs in
    (ap suc l, ap (λ n. (if str_eq f.field_name name then 1 else 0) + n) c)

count-field_rows :
    (id run : ℕ) (o : ConfidenceLevel) (name : String) (fs : List FieldData)
    → (length (field_rows id run o fs) ≡ length fs)
      × (count (λ (r : ExtractedField). str_eq r.field_name name) (field_rows id run o fs)
          ≡ count (λ (f : FieldData). str_eq f.field_name name) fs)
unfolding field_rows
count-field_rows id run o name [] = (refl, refl)
count-field_rows id run o name (f ∷ fs) =
    let (l, c) = count-rows id run none name fs in
    (ap suc l, ap (λ n. (if str_eq f.field_name name then 1 else 0) + n) c)

-- the rows of a run
unfoldable pub IsRun : List ExtractedField → Type 0
IsRun rows =
    (rows ≡ [])
    ⊎ ((length rows ≡ 6)
        × ((name : String)
            → any (str_eq name) core_extraction_fields ≡ true
            → count (λ (r : ExtractedField). str_eq r.field_name name) rows ≡ 1))

AllSix-IsRun :
    (id run : ℕ) (o : ConfidenceLevel) (fs : List FieldData)
    → AllSix fs
    → IsRun (field_rows id run o fs)
unfolding IsRun
AllSix-IsRun id run o fs (l, c) = inr (
  (count-field_rows id run o "" fs).0 ∙ l,
  λ name m. (count-field_rows id run o name fs).1 ∙ c name m,
)

-- an extraction's effect on the stored fields
unfoldable pub AddsRun : {F : Type 0} → Db F → Db F → Type 0
AddsRun db db' = (rows : List ExtractedField) × (db'.fields ≡ db.fields ++ rows) × IsRun rows

AddsRun-none : {F : Type 0} (db db' : Db F) → db'.fields ≡ db.fields → AddsRun db db'
unfolding AddsRun IsRun
AddsRun-none db db' e = ([], e ∙ sym (append-nil db.fields), inl refl)

module _ {F : Type 0} where
  run_pipeline-AddsRun :
      (deal : Deal) (r : Result String (List FieldData)) (db : Db F)
      → Ensures AllSix r
      → AddsRun db (run_pipeline deal r db).1
  unfolding AddsRun run_pipeline process_extraction_result mark_deal_failed log_audit
  run_pipeline-AddsRun deal (err e) db h = AddsRun-none db (mark_deal_failed deal e db).1 refl
  run_pipeline-AddsRun deal (ok fs) db h = (
    field_rows deal.id (deal.retry_count + 1) (compute_overall_confidence fs (found_count fs)) fs,
    if-intro
        (λ (p : ExtractionResult × Db F).
          p.1.fields
          ≡ db.fields
            ++ field_rows deal.id (deal.retry_count + 1)
                (compute_overall_confidence fs (found_count fs)) fs)
        (leb min_fields_for_extraction (found_count fs)) refl refl,
    AllSix-IsRun deal.id (deal.retry_count + 1) (compute_overall_confidence fs (found_count fs)) fs
        h,
  )

  extract_loaded-AddsRun :
      (pipeline : String → Result String (List FieldData))
      → ((file_path : String) → Ensures AllSix (pipeline file_path))
      → (r : Result DealError Deal) (db : Db F) → AddsRun db (extract_loaded pipeline (r, db)).1
  unfolding AddsRun log_audit
  extract_loaded-AddsRun pipeline six (err e) db = AddsRun-none db db refl
  extract_loaded-AddsRun pipeline six (ok deal) db =
      run_pipeline-AddsRun deal (pipeline deal.file_path) _ (six deal.file_path)

module _ (lib : PdfLibrary) (re : Regex) (loads : String → Option Value)
    (column_text : Value → String) (details : Details) (call : List Message → ℕ → Answer) where
  llm_outcome-AllSix :
      (r : Result LlmError (List FieldData))
      → Ensures AllSix r
      → Ensures AllSix (llm_outcome lib re loads column_text details call r)
  llm_outcome-AllSix (ok fields) h = h
  llm_outcome-AllSix (err e) h = tt

  outcome-AllSix :
      (raw : Result PdfError String)
      → Ensures AllSix (
          outcome lib re loads column_text details call raw
            (ask lib re loads column_text details call raw))
  outcome-AllSix (err e) = tt
  outcome-AllSix (ok raw) =
      let l = extract_fields_via_llm_lem loads column_text call (scrub_pii re raw) in
      let answer = call (build_extraction_messages (scrub_pii re raw)) in
      by_verdict _ (answer 0 ∷ answer 1 ∷ answer 2 ∷ []) l.0
    where
      by_verdict :
          (r : Result LlmError (List FieldData)) (answers : List Answer)
          → r ≡ first_verdict loads column_text answers
          → Ensures AllSix (llm_outcome lib re loads column_text details call r)
      by_verdict r answers e =
          llm_outcome-AllSix r
            (subst (Ensures AllSix) (sym e) (first_verdict-AllSix loads column_text answers))

  read_document-AllSix :
      (file_path : String)
      → Ensures AllSix (read_document lib re loads column_text details call file_path)
  unfolding read_document
  read_document-AllSix file_path = outcome-AllSix (extract_text_from_pdf lib file_path)

  -- Whatever the language model answers, an extraction adds to the stored fields nothing at all
  -- or six rows among which each core field has one, and keeps all the earlier rows before them.
  pub extract_document_rows :
      {F : Type 0} (deal_id tenant_id : ℕ) (db : Db F)
      → AddsRun db
          (extract_deal
            (read_document lib re loads column_text details call)
            deal_id
            tenant_id
            db).1
  unfolding extract_deal load_and_verify_deal
  extract_document_rows {F = F} deal_id tenant_id db = go (find_deal deal_id tenant_id db)
    where
      pipeline : String → Result String (List FieldData)
      pipeline = read_document lib re loads column_text details call

      go :
          (found_deal : Option Deal)
          → AddsRun db (extract_loaded pipeline (verified found_deal db)).1
      go none = extract_loaded-AddsRun pipeline read_document-AllSix (err deal_not_found) db
      go (some deal) =
          if-intro (λ (p : Result DealError Deal × Db F). AddsRun db (extract_loaded pipeline p).1)
            (is_extractable deal.status)
            (extract_loaded-AddsRun pipeline read_document-AllSix (ok deal) db)
            (extract_loaded-AddsRun pipeline read_document-AllSix (err wrong_status) db)

-- ===== src/Deals/Upload.antt =====
-- The route upload_deal of src/app/api/deals.py: the checks of the input, then the ingestion.
pub mod Screened
use deal_screening_agent.Prelude.{if◌then◌else◌, ℕ, String, Option, none, some, List, str_eq}
use deal_screening_agent.Prelude.Exec.{Result, ok, err, Exec}
use deal_screening_agent.Jobs.Registry.{Registry}
use deal_screening_agent.Deals.Db.{
  ExtractionJob, Db, DealError, unhandled_error, invalid_file_type, invalid_content_type,
  file_too_large, file_empty, http_error,
}
use deal_screening_agent.Deals.Ingestion.{Files, IngestionResult, ingest_deal}
use deal_screening_agent.Validation.{ValidationFailure, http_status, ValidatedFile}
use deal_screening_agent.Validation.Files.{max_content_bytes, validate_file}
use deal_screening_agent.Validation.Pdfs.{
  Reader, Checked, accepted, refused, uncaught, validate_pdf,
}

-- `except IngestionError`
abbrev as_http_error : DealError → DealError
as_http_error invalid_file_type = http_error 400
as_http_error invalid_content_type = http_error 400
as_http_error file_too_large = http_error 400
as_http_error file_empty = http_error 400
as_http_error e = e

-- `value or default`, for a text that may be None
abbrev or_text : Option String → String → String
or_text none default = default
or_text (some s) default = if str_eq s "" then default else s

-- What the route is given beside the request: the libraries, the registry and the new ids.
pub record Uploads : Type 0 where
  pub lower_strip : String → String
  pub read_pdf : List ℕ → Result String Reader
  pub file_library : Files (List ℕ)
  pub registry : Registry ExtractionJob
  pub deal_id : ℕ
  pub job_id : ℕ
  pub now : ℕ

module _ (env : Uploads) {F : Type 0} where
  abbrev pub ingested :
      Result DealError IngestionResult × Db F → Result DealError IngestionResult × Db F
  ingested (ok result, db) = (ok result, db)
  ingested (err e, db) = (err (as_http_error e), db)

  abbrev pub ingest :
      ℕ → Option String → Option String → List ℕ → Exec (Db F) DealError IngestionResult
  ingest tenant_id filename content_type content db = ingested (
      ingest_deal env.file_library env.registry env.deal_id env.job_id env.now tenant_id
        (or_text filename "unknown.pdf") content content_type "upload" none db)

  abbrev pub after_pdf_check :
      Checked → Exec (Db F) DealError IngestionResult → Exec (Db F) DealError IngestionResult
  after_pdf_check (accepted file) next db = next db
  after_pdf_check (refused failure) next db = (err (http_error (http_status failure)), db)
  after_pdf_check uncaught next db = (err unhandled_error, db)

  abbrev pub after_file_check :
      Result ValidationFailure ValidatedFile
      → Exec (Db F) DealError IngestionResult
      → Exec (Db F) DealError IngestionResult
  after_file_check (err failure) next db = (err (http_error (http_status failure)), db)
  after_file_check (ok file) next db = after_pdf_check (validate_pdf env.read_pdf file) next db

  unfoldable pub upload_deal :
      ℕ → Option String → Option String → List ℕ → Exec (Db F) DealError IngestionResult
  unfolding validate_file validate_pdf ingest_deal http_status
  upload_deal tenant_id filename content_type content db =
      after_file_check (validate_file env.lower_strip content content_type max_content_bytes)
        (ingest tenant_id filename content_type content) db

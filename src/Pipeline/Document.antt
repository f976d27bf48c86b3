-- ===== src/Pipeline/Document.antt =====
-- The `try` block of extract_deal in src/app/services/extraction_service.py: the text of the file,
-- scrubbed, goes to the model.
pub mod Scrubbed
pub mod Rows
use deal_screening_agent.Prelude.{ℕ, String, Option, List, []}
use deal_screening_agent.Prelude.Exec.{Result, ok, err}
use deal_screening_agent.Prelude.Json.{Value}
use deal_screening_agent.Deals.Extraction.{FieldData}
use deal_screening_agent.Pipeline.Pdf.{PdfLibrary, PdfError, extract_text_from_pdf}
use deal_screening_agent.Pipeline.Pii.{Regex, scrub_pii}
use deal_screening_agent.Pipeline.Llm.{
  LlmError, unexpected_error, Message, Answer, LlmRun, extract_fields_via_llm,
}

-- What the service's handlers make of the two kinds of exception: the text that is stored.
pub record Details : Type 0 where
  pub pdf_text : PdfError → String
  pub llm_text : LlmError → String

module _ (lib : PdfLibrary) (re : Regex) (loads : String → Option Value)
    (column_text : Value → String) (details : Details) (call : List Message → ℕ → Answer) where
  -- The run of the model for a text that was read, and none otherwise.
  abbrev pub ask : Result PdfError String → LlmRun
  ask (err e) = record { requests = []; sleeps = []; result = err unexpected_error }
  ask (ok raw_text) = extract_fields_via_llm loads column_text call (scrub_pii re raw_text)

  abbrev pub llm_outcome : Result LlmError (List FieldData) → Result String (List FieldData)
  llm_outcome (ok fields) = ok fields
  llm_outcome (err e) = err (details.llm_text e)

  abbrev pub outcome : Result PdfError String → LlmRun → Result String (List FieldData)
  outcome (err e) run = err (details.pdf_text e)
  outcome (ok _) run = llm_outcome run.result

  unfoldable pub requests_for : String → List (List Message)
  unfolding extract_text_from_pdf scrub_pii extract_fields_via_llm
  requests_for file_path = (ask (extract_text_from_pdf lib file_path)).requests

  -- the pipeline of the extraction service
  unfoldable pub read_document : String → Result String (List FieldData)
  unfolding extract_text_from_pdf scrub_pii extract_fields_via_llm
  read_document file_path =
      let raw_text = extract_text_from_pdf lib file_path in outcome raw_text (ask raw_text)

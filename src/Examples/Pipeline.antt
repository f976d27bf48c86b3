-- ===== src/Examples/Pipeline.antt =====
-- From an upload to the fields of a document.
use deal_screening_agent.Prelude.{
  ◌==◌, if◌then◌else◌, length, ℕ, String, ◌≡◌, refl, ◌⊎◌, false, Option, none, some, List, [], ◌∷◌,
  str_eq,
}
use deal_screening_agent.Prelude.Exec.{ok, err}
use deal_screening_agent.Prelude.Json.{Value, string, array, object, Items, nil, cons, end, field}
use deal_screening_agent.Models.Enums.{uploaded, core_extraction_fields}
use deal_screening_agent.Deals.Db.{Db, DealError}
use deal_screening_agent.Deals.Ingestion.{Files}
use deal_screening_agent.Deals.Extraction.{extract_deal}
use deal_screening_agent.Deals.Upload.{Uploads, ingest, upload_deal}
use deal_screening_agent.Deals.Upload.Screened.{IsScreened, upload_deal-IsScreened}
use deal_screening_agent.Pipeline.Pdf.{PdfLibrary}
use deal_screening_agent.Pipeline.Llm.{Message, Answer, api_error, replied}
use deal_screening_agent.Pipeline.Pii.{Pattern, ssn, email, phone, card, labelled_name, Regex}
use deal_screening_agent.Pipeline.Document.{Details, requests_for, read_document}
use deal_screening_agent.Pipeline.Document.Rows.{AddsRun, extract_document_rows}
use deal_screening_agent.Validation.Pdfs.{
  dictionary, indirect, other, no_entries, item, Reader, lookup, check_dict_for_keys,
  has_dangerous_actions,
}
use deal_screening_agent.Validation.Dangerous.{is_dangerous}
use deal_screening_agent.Validation.Safe.{has_dangerous_actions-is_dangerous}
use deal_screening_agent.Examples.Data.{registry_of_one, a_deal, db_of}
use deal_screening_agent.Models.Deal.{item}

-- a PDF library with one file of one page
abbrev pdf_library : PdfLibrary
pdf_library = record {
  exists = λ path. str_eq path "deck.pdf";
  suffix = λ path. ".pdf";
  open_pages = λ path. some (some "a deck" ∷ []);
  join = λ pages. "a deck";
  strip = λ s. s;
  size = λ s. 60;
}

-- expressions that match one text each, which is all of the text
abbrev sample : Pattern → String
sample ssn = "123-45-6789"
sample email = "a@b.co"
sample phone = "212-555-1234"
sample card = "4111-1111-1111-1"
sample labelled_name = "from A B"

abbrev re : Regex
re = record {
  is_found = λ p s. str_eq s (sample p);
  sub = λ p replacement s. if str_eq s (sample p) then replacement else s;
  sub_group = λ p replacement s. if str_eq s (sample p) then replacement else s;
}

abbrev entry_of : String → Value
entry_of name = object (
    field "field_name" (string name) (
      field "field_value" (string "x")
        (field "field_status" (string "FOUND") (field "confidence" (string "HIGH") end))))

abbrev entries : List String → Items
entries [] = nil
entries (name ∷ names) = cons (entry_of name) (entries names)

abbrev answer_value : Value
answer_value = object (field "fields" (array (entries core_extraction_fields)) end)

abbrev loads : String → Option Value
loads raw = if str_eq raw "answer" then some answer_value else none

abbrev shown : Value → String
shown v = "5"

-- the model is overloaded once, and then answers
abbrev call : List Message → ℕ → Answer
call messages n = if n == 0 then api_error else replied (some "answer")

abbrev details : Details
details = record { pdf_text = λ e. "no text"; llm_text = λ e. "no fields" }

abbrev requests : List (List Message)
requests = requests_for pdf_library re loads shown details call "deck.pdf"

abbrev before : Db ℕ
before = db_of (a_deal uploaded ∷ [])

extract_document_rows_example :
    AddsRun before
      (extract_deal (read_document pdf_library re loads shown details call) 1 1 before).1
extract_document_rows_example =
    extract_document_rows pdf_library re loads shown details call 1 1 before

-- a document with a script behind a reference, as the action on opening
abbrev scripted : Reader
scripted = record {
  is_encrypted = false;
  page_count = some 1;
  trailer = item "/Root" (dictionary (item "/OpenAction" (indirect 7) no_entries)) no_entries;
  pages = ok (dictionary no_entries) ∷ [];
  referenced = λ n. ok (dictionary (item "/JS" other no_entries));
}

has_dangerous_actions-is_dangerous_example : has_dangerous_actions scripted ≡ is_dangerous scripted
unfolding lookup check_dict_for_keys
has_dangerous_actions-is_dangerous_example = has_dangerous_actions-is_dangerous scripted refl

abbrev harmless_reader : Reader
harmless_reader = record {
  is_encrypted = false;
  page_count = some 1;
  trailer = no_entries;
  pages = [];
  referenced = λ n. ok other;
}

abbrev byte_files : Files (List ℕ)
byte_files = record {
  suffix = λ s. ".pdf";
  stored_path = λ id name. name;
  size = length;
  sha256 = length;
  extraction_key = λ id. "extraction:1";
  id_text = λ id. "1";
}

abbrev uploads : Uploads
uploads = record {
  lower_strip = λ s. s;
  read_pdf = λ content. ok harmless_reader;
  file_library = byte_files;
  registry = registry_of_one;
  deal_id = 9;
  job_id = 1;
  now = 5;
}

abbrev pdf_bytes : List ℕ
pdf_bytes = 37 ∷ 80 ∷ 68 ∷ 70 ∷ 45 ∷ 49 ∷ []

upload_deal-IsScreened_example :
    (IsScreened uploads pdf_bytes
      × (upload_deal uploads 1 (some "deck.pdf") (some "application/pdf") pdf_bytes before
          ≡ ingest uploads 1 (some "deck.pdf") (some "application/pdf") pdf_bytes before))
    ⊎ ((e : DealError) × (upload_deal uploads 1
            (some "deck.pdf")
            (some "application/pdf")
            pdf_bytes
            before
          ≡ (err e, before)))
upload_deal-IsScreened_example =
    upload_deal-IsScreened uploads 1 (some "deck.pdf") (some "application/pdf") pdf_bytes before

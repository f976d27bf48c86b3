-- ===== src/Deals/Upload/Screened.antt =====
-- Which uploads reach the ingestion.
use deal_screening_agent.Prelude.{
  ltb, if◌then◌else◌, or_default, Bool-cases, length, ℕ, ◌≤◌, String, ◌≡◌, refl, sym, ap, ◌⊎◌, inl,
  inr, Bool, true, false, not, ◌||◌, Option, none, some, List, arith, str_eq,
}
use deal_screening_agent.Prelude.Exec.{Result, ok, err, Exec}
use deal_screening_agent.Prelude.Results.{Ensures, Ensures-else}
use deal_screening_agent.Deals.Db.{Db, DealError, unhandled_error, http_error}
use deal_screening_agent.Deals.Ingestion.{IngestionResult}
use deal_screening_agent.Validation.{pdf_encrypted, ValidationFailure, ValidatedFile}
use deal_screening_agent.Validation.Files.{
  starts_with, pdf_signature, max_content_bytes, check_magic_bytes, is_accepted_mime, with_detected,
  validate_file,
}
use deal_screening_agent.Validation.Pdfs.{
  Reader, max_pdf_pages, has_dangerous_actions, refusal, check_counted, check_opened, validate_pdf,
}
use deal_screening_agent.Deals.Upload.{
  Uploads, ingest, after_pdf_check, after_file_check, upload_deal,
}

-- what a file is that passes the first check
record IsPdfFile (content : List ℕ) (file : ValidatedFile) : Type 0 where
  pub same : file.content ≡ content
  pub bounded : length content ≤ max_content_bytes
  pub signed : starts_with pdf_signature content ≡ true

with_detected-IsPdfFile :
    (content : List ℕ) (mime detected : String) (is_signed : Bool)
    → length content ≤ max_content_bytes
    → is_signed ≡ starts_with pdf_signature content
    → Ensures
        (IsPdfFile content)
        (with_detected content mime (if is_signed || false then some detected else none))
with_detected-IsPdfFile content mime detected false n e = tt
with_detected-IsPdfFile content mime detected true n e =
    Ensures-else (IsPdfFile content) (not (str_eq detected mime)) _ _
      λ h. record { same = refl; bounded = n; signed = sym e }

validate_file-IsPdfFile :
    (lower_strip : String → String) (content : List ℕ) (declared_mime : Option String)
    → Ensures
        (IsPdfFile content)
        (validate_file lower_strip content declared_mime max_content_bytes)
unfolding validate_file check_magic_bytes
validate_file-IsPdfFile lower_strip content declared_mime =
    Ensures-else (IsPdfFile content) (ltb max_content_bytes (length content)) _ _ λ large.
      Ensures-else (IsPdfFile content)
        (not (is_accepted_mime (lower_strip (or_default declared_mime "")))) _ _
        λ h.
          with_detected-IsPdfFile content _ "application/pdf" (starts_with pdf_signature content)
            (ground arith) refl

module _ (env : Uploads) where
  -- A content within the size, that starts like a PDF and is read as a document without a
  -- password, of at most 500 pages, in which the walk finds nothing dangerous.
  pub record IsScreened (content : List ℕ) : Type 0 where
    pub bounded : length content ≤ max_content_bytes
    pub signed : starts_with pdf_signature content ≡ true
    pub reader : Reader
    pub readable : env.read_pdf content ≡ ok reader
    pub not_encrypted : reader.is_encrypted ≡ false
    pub page_count : ℕ
    pub counted : reader.page_count ≡ some page_count
    pub few_pages : page_count ≤ max_pdf_pages
    pub harmless : has_dangerous_actions reader ≡ false

  -- what is known of an upload's outcome
  abbrev Outcome :
      {F : Type 0}
      → List ℕ
      → Db F
      → Exec (Db F) DealError IngestionResult
      → Result DealError IngestionResult × Db F
      → Type 0
  Outcome content db next reply =
      (IsScreened content × (reply ≡ next db)) ⊎ ((e : DealError) × (reply ≡ (err e, db)))

  module _ {F : Type 0} (content : List ℕ) (db : Db F)
      (next : Exec (Db F) DealError IngestionResult) (file : ValidatedFile)
      (checked : IsPdfFile content file) where
    counted-Outcome :
        (reader : Reader) (page_count : Option ℕ)
        → env.read_pdf content ≡ ok reader
        → reader.is_encrypted ≡ false
        → reader.page_count ≡ page_count
        → Outcome content db next
            (after_pdf_check env (check_counted env.read_pdf file reader page_count) next db)
    counted-Outcome reader none r n c = inr (unhandled_error, refl)
    counted-Outcome reader (some pages) r n c = elim (Bool-cases (ltb max_pdf_pages pages)) [
      | inl e ↦ rw e (inr (http_error _, refl))
      | inr e ↦ rw e (elim (Bool-cases (has_dangerous_actions reader)) [
        | inl d ↦ rw d (inr (http_error _, refl))
        | inr d ↦ rw d (
            inl (
              record {
                bounded = checked.bounded;
                signed = checked.signed;
                reader = reader;
                readable = r;
                not_encrypted = n;
                page_count = pages;
                counted = c;
                few_pages = ground arith;
                harmless = d;
              },
              refl,
            ))
      ])
    ]

    locked-Outcome :
        (reader : Reader) (is_locked : Bool)
        → env.read_pdf content ≡ ok reader
        → reader.is_encrypted ≡ is_locked
        → Outcome content db next (
            after_pdf_check env
              (if is_locked
                then refusal pdf_encrypted none
                else check_counted env.read_pdf file reader reader.page_count)
              next
              db)
    locked-Outcome reader true r n = inr (http_error _, refl)
    locked-Outcome reader false r n = counted-Outcome reader reader.page_count r n refl

    opened-Outcome :
        (r : Result String Reader)
        → env.read_pdf content ≡ r
        → Outcome content db next (after_pdf_check env (check_opened env.read_pdf file r) next db)
    opened-Outcome (err exc) e = inr (http_error _, refl)
    opened-Outcome (ok reader) e = locked-Outcome reader reader.is_encrypted e refl

    pdf-Outcome :
        Outcome content db next (after_pdf_check env (validate_pdf env.read_pdf file) next db)
    unfolding validate_pdf
    pdf-Outcome = opened-Outcome (env.read_pdf file.content) (ap env.read_pdf (sym checked.same))

  file-Outcome :
      {F : Type 0} (content : List ℕ) (db : Db F) (next : Exec (Db F) DealError IngestionResult)
      (r : Result ValidationFailure ValidatedFile)
      → Ensures (IsPdfFile content) r
      → Outcome content db next (after_file_check env r next db)
  file-Outcome content db next (err failure) h = inr (http_error _, refl)
  file-Outcome content db next (ok file) h = pdf-Outcome content db next file h

  -- An upload is ingested only if its content is within the size, starts like a PDF and is read as
  -- a document that is not encrypted, has at most 500 pages and in which the walk finds nothing
  -- dangerous; any other upload is answered with an error, and changes nothing.
  pub upload_deal-IsScreened :
      {F : Type 0} (tenant_id : ℕ) (filename content_type : Option String) (content : List ℕ)
      (db : Db F)
      → (IsScreened content
          × (upload_deal env tenant_id filename content_type content db
              ≡ ingest env tenant_id filename content_type content db))
        ⊎ ((e : DealError) × (upload_deal env tenant_id filename content_type content db
              ≡ (err e, db)))
  unfolding upload_deal
  upload_deal-IsScreened tenant_id filename content_type content db =
      file-Outcome content db (ingest env tenant_id filename content_type content) _
        (validate_file-IsPdfFile env.lower_strip content content_type)

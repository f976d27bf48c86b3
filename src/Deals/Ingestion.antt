-- ===== src/Deals/Ingestion.antt =====
-- src/app/services/ingestion_service.py. Paths, the hash and the size of the content are a
-- parameter; the write of the file to disk is not modelled, only the path that the deal records.
pub mod Duplicates
use deal_screening_agent.Prelude.{
  ltb, ◌==◌, if◌then◌else◌, first, ℕ, ◌*◌, String, Bool, true, false, not, ◌&&◌, ◌||◌, Option, none,
  some, List, [], ◌∷◌, ◌++◌, str_eq,
}
use deal_screening_agent.Prelude.Exec.{Result, ok, err, Exec}
use deal_screening_agent.Models.Enums.{DealStatus, uploaded}
use deal_screening_agent.Models.Deal.{Deal, deal_uploaded, system}
use deal_screening_agent.Models.Job.{BackgroundJob}
use deal_screening_agent.Jobs.Registry.{JobError, Registry}
use deal_screening_agent.Jobs.Queue.{enqueue}
use deal_screening_agent.Deals.Db.{
  ExtractionJob, Db, DealError, invalid_file_type, invalid_content_type, file_too_large, file_empty,
  enqueue_failed, audit_row, add_audit,
}

-- What the service uses of pathlib and hashlib, on a content of type C.
pub record Files (C : Type 0) : Type 0 where
  -- `Path(filename).suffix.lower()`
  pub suffix : String → String
  -- `upload_dir / str(deal_id) / Path(filename).name`
  pub stored_path : ℕ → String → String
  pub size : C → ℕ
  -- `hashlib.sha256(content).hexdigest()`, as a number
  pub sha256 : C → ℕ
  -- `f"extraction:{deal_id}"` and `str(tenant_id)`
  pub extraction_key : ℕ → String
  pub id_text : ℕ → String

abbrev pub max_file_size_bytes : ℕ
max_file_size_bytes = 50 * 1024 * 1024

pub record IngestionResult : Type 0 where
  pub deal_id : ℕ
  pub status : DealStatus
  pub is_duplicate : Bool

-- the content type, if it is given and not empty, is application/pdf
abbrev is_accepted_content_type : Option String → Bool
is_accepted_content_type none = true
is_accepted_content_type (some t) = str_eq t "" || str_eq t "application/pdf"

abbrev pub duplicate_result : Deal → IngestionResult
duplicate_result existing = record {
  deal_id = existing.id;
  status = existing.status;
  is_duplicate = true;
}

module _ {C : Type 0} (fs : Files C) where
  open fs use {suffix, stored_path, size, sha256, extraction_key, id_text}

  unfoldable pub validate_file_type : String → Option String → Option DealError
  validate_file_type filename content_type =
      if not (str_eq (suffix filename) ".pdf")
      then some invalid_file_type
      else if not (is_accepted_content_type content_type)
      then some invalid_content_type
      else none

  -- steps 1 and 2: what the upload is refused for
  unfoldable pub validate_upload : String → Option String → C → Option DealError
  unfolding validate_file_type
  validate_upload filename content_type content = elim (validate_file_type filename content_type) [
    | some e ↦ some e
    | none ↦
        if ltb max_file_size_bytes (size content)
        then some file_too_large
        else if size content == 0
        then some file_empty
        else none
  ]

  abbrev pub has_content : ℕ → ℕ → Deal → Bool
  has_content tenant_id content_hash d = d.tenant_id == tenant_id && d.content_hash == content_hash

  abbrev pub new_deal : ℕ → ℕ → ℕ → String → C → String → Option String → Deal
  new_deal deal_id now tenant_id filename content source_channel source_sender = record {
    id = deal_id;
    tenant_id = tenant_id;
    filename = filename;
    content_hash = sha256 content;
    file_path = stored_path deal_id filename;
    file_size_bytes = size content;
    source_channel = source_channel;
    source_sender = source_sender;
    status = uploaded;
    retry_count = 0;
    created_at = now;
  }

  module _ {F : Type 0} where
    -- steps 6 and 7
    unfoldable pub add_deal : Deal → Db F → Db F
    add_deal deal db =
        add_audit (audit_row deal system none deal_uploaded none (some uploaded))
          (record db { deals = db.deals ++ deal ∷ [] })

    abbrev pub queued :
        Deal
        → Db F
        → Result JobError ℕ × List (BackgroundJob ExtractionJob)
        → Result DealError IngestionResult × Db F
    queued deal db (err _, jobs) = (err enqueue_failed, db)
    queued deal db (ok _, jobs) = (
      ok (record { deal_id = deal.id; status = uploaded; is_duplicate = false }),
      record db { jobs = jobs },
    )

    -- steps 5 to 8, for a content that the tenant has not uploaded before
    unfoldable pub store_deal :
        Registry ExtractionJob → ℕ → Deal → Db F → Result DealError IngestionResult × Db F
    unfolding add_deal enqueue
    store_deal registry job_id deal db =
        let db' = add_deal deal db in
        queued deal db' (
          enqueue registry (λ p. some (id_text p.tenant_id)) job_id deal.created_at "extraction"
            (record { deal_id = deal.id; tenant_id = deal.tenant_id })
            (some (extraction_key deal.id)) none none (some (id_text deal.tenant_id)) db'.jobs)

    unfoldable pub check_duplicate : ℕ → ℕ → Db F → Option Deal
    check_duplicate tenant_id content_hash db = first (has_content tenant_id content_hash) db.deals

    abbrev pub ingest_checked :
        Option DealError
        → Option Deal
        → Registry ExtractionJob
        → ℕ
        → Deal
        → Exec (Db F) DealError IngestionResult
    ingest_checked (some e) duplicate registry job_id deal db = (err e, db)
    ingest_checked none (some existing) registry job_id deal db =
        (ok (duplicate_result existing), db)
    ingest_checked none none registry job_id deal db = store_deal registry job_id deal db

    -- `deal_id` and `job_id` are the new ids that `uuid4` gives.
    unfoldable pub ingest_deal :
        Registry ExtractionJob
        → ℕ
        → ℕ
        → ℕ
        → ℕ
        → String
        → C
        → Option String
        → String
        → Option String
        → Exec (Db F) DealError IngestionResult
    unfolding validate_upload check_duplicate store_deal
    ingest_deal registry deal_id job_id now tenant_id filename content content_type source_channel
          source_sender db =
        ingest_checked (validate_upload filename content_type content)
          (check_duplicate tenant_id (sha256 content) db) registry job_id
          (new_deal deal_id now tenant_id filename content source_channel source_sender) db

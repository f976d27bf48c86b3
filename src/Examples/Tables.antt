-- ===== src/Examples/Tables.antt =====
-- The deal tables.
use mathlib.Core.List.{Permᴰ}
use mathlib.Core.List.Permᴰ
use deal_screening_agent.Prelude.{
  count, ℕ, ◌≤◌, String, ◌≡◌, refl, true, none, some, List, [], ◌∷◌, arith,
}
use deal_screening_agent.Prelude.Exec.{Result, ok, err}
use deal_screening_agent.Float.Fixed.{fixed}
use deal_screening_agent.Models.Enums.{uploaded, scored, must_have}
use deal_screening_agent.Models.Criteria.{CriteriaConfig}
use deal_screening_agent.Deals.Db.{ExtractionJob, Db, json_decode_error}
use deal_screening_agent.Deals.Ingestion.{
  duplicate_result, validate_file_type, validate_upload, has_content, new_deal, check_duplicate,
  ingest_deal,
}
use deal_screening_agent.Deals.Ingestion.Duplicates.{ingest_deal-once, ingest_deal-again}
use deal_screening_agent.Deals.Extraction.{FieldData, extract_deal}
use deal_screening_agent.Deals.Scores.{score_deal}
use deal_screening_agent.Jobs.Worker.{JobContext}
use deal_screening_agent.Deals.Handlers.{handle_extraction, handle_extraction-stuck}
use deal_screening_agent.Deals.Audit.{IsAudited}
use deal_screening_agent.Deals.Audit.Lifecycle.{ingests, extracts, here, next, Reach-IsAudited}
use deal_screening_agent.Deals.Listing.{Query}
use deal_screening_agent.Examples.Data.{text, registry_of_one, files, a_deal, db_of, a_field}
use deal_screening_agent.Jobs.Registry.{other_error}
use deal_screening_agent.Models.Deal.{Deal}

abbrev pipeline : String → Result String (List FieldData)
pipeline path = ok (a_field ∷ a_field ∷ a_field ∷ [])

abbrev uploaded_db : Db ℕ
uploaded_db =
    (ingest_deal files registry_of_one 1 1 10 1 "deck.pdf" "deck" none "upload" none (db_of [])).1

abbrev extracted_db : Db ℕ
extracted_db = (extract_deal pipeline 1 1 uploaded_db).1

Reach-IsAudited_example : IsAudited extracted_db
Reach-IsAudited_example =
    Reach-IsAudited fixed text files registry_of_one pipeline {start = db_of []}
      (record { agrees = tt; moves = tt })
      (next (next here (ingests (db_of []) 1 1 10 1 "deck.pdf" "deck" none "upload" none tt))
        (extracts uploaded_db 1 1))

ingest_deal-once_example :
    count
      (has_content files 1 1)
      (ingest_deal files registry_of_one 2 2 20 1 "again.pdf" "deck" none "upload" none
        (db_of (a_deal uploaded ∷ []))).1.deals
    ≤ 1
ingest_deal-once_example =
    ingest_deal-once files registry_of_one 2 2 20 1 "again.pdf" "deck" none "upload" none
      (db_of (a_deal uploaded ∷ [])) 1 1 (omega arith)

ingest_deal-again_example :
    ingest_deal files registry_of_one 2 2 20 1 "again.pdf" "deck" none "upload" none uploaded_db
    ≡ (ok (duplicate_result (new_deal files 1 10 1 "deck.pdf" "deck" "upload" none)), uploaded_db)
unfolding validate_upload validate_file_type check_duplicate
ingest_deal-again_example =
    ingest_deal-again files registry_of_one 1 2 1 2 10 20 1 "deck.pdf" "again.pdf" "deck" none none
      "upload" none (db_of []) refl refl refl

abbrev first_config : CriteriaConfig ℕ
first_config = record {
  id = 1;
  tenant_id = 1;
  version = 1;
  is_active = true;
  name = "first";
  criteria = [];
}

abbrev a_context : JobContext
a_context = record {
  job_id = 1;
  job_type = "extraction";
  attempt = 1;
  trace_context = none;
  tenant_id = some "1";
}

abbrev a_payload : ExtractionJob
a_payload = record { deal_id = 1; tenant_id = 1 }

-- a config with one criterion, whose target is no JSON
abbrev broken_config : CriteriaConfig ℕ
broken_config = record first_config {
  criteria =
      record {
        field_name = a_field.field_name;
        criterion_type = must_have;
        operator = "eq";
        target_value = "";
        weight = 1024;
        label = "sector";
      }
      ∷ [];
}

abbrev before_job : Db ℕ
before_job = record (db_of (a_deal uploaded ∷ [])) { configs = broken_config ∷ [] }

abbrev after_job : Db ℕ
after_job = (extract_deal pipeline 1 1 before_job).1

handle_extraction-stuck_example :
    (handle_extraction fixed text pipeline
        (λ n. "1")
        (λ e. "error")
        1
        20
        a_payload
        a_context
        before_job
      ≡ (err (other_error "error"), after_job))
    × (handle_extraction fixed text pipeline
          (λ n. "1")
          (λ e. "error")
          2
          30
          a_payload
          a_context
          after_job
        ≡ (err (other_error "error"), after_job))
unfolding extract_deal score_deal
handle_extraction-stuck_example =
    handle_extraction-stuck fixed text pipeline (λ n. "1") (λ e. "error") 1 20 2 30 a_payload
      a_context a_context before_job after_job _ json_decode_error refl refl refl refl refl

abbrev by_score : Query
by_score = record { status_filter = none; sort_by = "score"; sort_order = "desc" }

abbrev two_deals : Db ℕ
two_deals = db_of (a_deal uploaded ∷ record (a_deal scored) { id = 2 } ∷ [])

-- the other order of two rows, which a database may read them in
abbrev swapped : List Deal → List Deal
swapped (a ∷ b ∷ deals) = b ∷ a ∷ deals
swapped deals = deals

-- by the time of the upload, in which the two deals differ
abbrev by_time : Query
by_time = record { status_filter = none; sort_by = "created_at"; sort_order = "desc" }

abbrev older : Deal
older = a_deal uploaded

abbrev newer : Deal
newer = record (a_deal scored) { id = 2; created_at = 99 }

-- ===== src/Deals/Audit/Operations.antt =====
-- Each service keeps the audit trail, on every branch.
use deal_screening_agent.Prelude.{
  leb, ◌==◌, Bool-cases, Option-cases, All, All-append, ℕ, ◌+◌, String, ◌≡◌, refl, sym, ap, inl,
  inr, true, false, Option, none, some, List, [], ◌∷◌, arith,
}
use deal_screening_agent.Prelude.Exec.{Result, ok, err}
use deal_screening_agent.Models.Enums.{
  uploaded, extracted, scored, decided, is_status, min_fields_for_extraction,
}
use deal_screening_agent.Models.Deal.{Deal, extraction_started, worker, DealAuditLog}
use deal_screening_agent.Deals.Db.{
  ExtractionJob, Db, DealError, with_status, audit_row, save_deal, add_audit, find_deal,
}
use deal_screening_agent.Deals.Extraction.{
  FieldData, found_count, compute_overall_confidence, field_rows, is_extractable, failed_deal,
  mark_deal_failed, add_fields, process_extraction_result, run_pipeline, extract_deal,
}
use deal_screening_agent.Deals.Audit.{
  except, except-append, save-Audited, add-Audited, records_move, Moves, IsAudited, AuditedExcept,
}
use deal_screening_agent.Models.Job.{BackgroundJob}
use deal_screening_agent.Jobs.Registry.{JobError, Registry}
use deal_screening_agent.Deals.Ingestion.{
  Files, validate_upload, new_deal, add_deal, queued, store_deal, check_duplicate, ingest_checked,
  ingest_deal,
}
use deal_screening_agent.Deals.Decisions.{DealDecisionRequest, persist_decision, decide_deal}

module _ {F : Type 0} where
  -- a change of one deal, with its row of the audit log
  pub move-IsAudited :
      (deal : Deal) (a : DealAuditLog) (db : Db F)
      → a.deal_id ≡ deal.id
      → a.after_state ≡ some deal.status
      → records_move a.before_state a.after_state ≡ true
      → AuditedExcept deal.id db.deals db.audits
      → Moves db.audits
      → IsAudited (add_audit a (save_deal deal db))
  move-IsAudited deal a db e s m h k = record {
    agrees = save-Audited deal db.deals db.audits a e s h;
    moves = All-append _ db.audits (a ∷ []) k (m, tt);
  }

  mark_deal_failed-IsAudited :
      (deal : Deal) (error : String) (db : Db F)
      → is_extractable deal.status ≡ true
      → AuditedExcept deal.id db.deals db.audits
      → Moves db.audits
      → IsAudited (mark_deal_failed deal error db).1
  unfolding mark_deal_failed
  mark_deal_failed-IsAudited deal error db x h k =
      move-IsAudited (failed_deal deal) _ db refl refl (ground arith) h k

  process-IsAudited :
      (deal : Deal) (fields : List FieldData) (db : Db F)
      → is_extractable deal.status ≡ true
      → AuditedExcept deal.id db.deals db.audits
      → Moves db.audits
      → IsAudited (process_extraction_result deal fields db).1
  unfolding process_extraction_result
  process-IsAudited deal fields db x h k =
      let rows =
        field_rows deal.id (deal.retry_count + 1)
          (compute_overall_confidence fields (found_count fields)) fields in
      elim (Bool-cases (leb min_fields_for_extraction (found_count fields))) [
        | inl e ↦ rw e (
            move-IsAudited (with_status extracted deal) _ (add_fields rows db) refl refl
              (ground arith) h k)
        | inr e ↦
            rw e (
              mark_deal_failed-IsAudited deal "too few fields extracted" (add_fields rows db) x h k)
      ]

  run_pipeline-IsAudited :
      (deal : Deal) (r : Result String (List FieldData)) (db : Db F)
      → is_extractable deal.status ≡ true
      → AuditedExcept deal.id db.deals db.audits
      → Moves db.audits
      → IsAudited (run_pipeline deal r db).1
  unfolding run_pipeline
  run_pipeline-IsAudited deal (ok fields) = process-IsAudited deal fields
  run_pipeline-IsAudited deal (err error) = mark_deal_failed-IsAudited deal error

  pub extract_deal-IsAudited :
      (pipeline : String → Result String (List FieldData)) (deal_id tenant_id : ℕ) (db : Db F)
      → IsAudited db
      → IsAudited (extract_deal pipeline deal_id tenant_id db).1
  unfolding extract_deal
  extract_deal-IsAudited pipeline deal_id tenant_id db v =
      elim (Option-cases (find_deal deal_id tenant_id db)) [
        | inl e ↦ rw (e, extract_deal) v
        | inr (deal, e) ↦ elim (Bool-cases (is_extractable deal.status)) [
          | inr x ↦ rw (e, extract_deal) (rw x v)
          | inl x ↦
              let row =
                audit_row deal worker none extraction_started (some deal.status)
                  (some deal.status) in
              rw (e, extract_deal)
                (rw x (
                  run_pipeline-IsAudited deal (pipeline deal.file_path) (add_audit row db) x
                    (except-append deal.id db.deals db.audits row refl
                      (except deal.id db.deals db.audits v.agrees))
                    (All-append _ db.audits (row ∷ []) v.moves (ground arith, tt))))
        ]
      ]

  persist_decision-IsAudited :
      (now user_id : ℕ) (deal : Deal) (body : DealDecisionRequest) (db : Db F)
      → is_status deal.status scored ≡ true
      → IsAudited db
      → IsAudited (persist_decision now user_id deal body db)
  unfolding persist_decision
  persist_decision-IsAudited now user_id deal body db x v =
      move-IsAudited (with_status decided deal) _ (record db { decisions = _ }) refl refl
        (ground arith) (except deal.id db.deals db.audits v.agrees) v.moves

  pub decide_deal-IsAudited :
      (now user_id deal_id tenant_id : ℕ) (body : DealDecisionRequest) (db : Db F)
      → IsAudited db
      → IsAudited (decide_deal now user_id deal_id tenant_id body db).1
  unfolding decide_deal
  decide_deal-IsAudited now user_id deal_id tenant_id body db v =
      elim (Option-cases (find_deal deal_id tenant_id db)) [
        | inl e ↦ rw (e, decide_deal) v
        | inr (deal, e) ↦ elim (Bool-cases (is_status deal.status scored)) [
          | inr x ↦ rw (e, decide_deal) (rw x v)
          | inl x ↦
              rw (e, decide_deal) (rw x (persist_decision-IsAudited now user_id deal body db x v))
        ]
      ]

  -- No deal has the id yet.
  abbrev pub IsNewId : ℕ → Db F → Type 0
  IsNewId deal_id db = All (λ d. (d.id == deal_id) ≡ false) db.deals

  add_deal-IsAudited :
      {C : Type 0} (fs : Files C) (deal : Deal) (db : Db F)
      → deal.status ≡ uploaded
      → IsNewId deal.id db
      → IsAudited db
      → IsAudited (add_deal fs deal db)
  unfolding add_deal
  add_deal-IsAudited fs deal db s n v = record {
    agrees = add-Audited deal db.deals db.audits _ refl (ap some (sym s)) n v.agrees;
    moves = All-append _ db.audits (_ ∷ []) v.moves (refl, tt);
  }

  ingest_deal-queued :
      {C : Type 0} (fs : Files C) (deal : Deal) (db : Db F)
      (r : Result JobError ℕ × List (BackgroundJob ExtractionJob))
      → IsAudited db
      → IsAudited (queued fs deal db r).1
  ingest_deal-queued fs deal db (err e, jobs) v = v
  ingest_deal-queued fs deal db (ok id, jobs) v = record { agrees = v.agrees; moves = v.moves }

  module _ {C : Type 0} (fs : Files C) (registry : Registry ExtractionJob)
      (deal_id job_id now tenant_id : ℕ) (filename : String) (content : C)
      (content_type : Option String) (source_channel : String) (source_sender : Option String)
      (db : Db F) where
    abbrev pub deal : Deal
    deal = new_deal fs deal_id now tenant_id filename content source_channel source_sender

    ingest_checked-IsAudited :
        (refusal : Option DealError) (duplicate : Option Deal)
        → IsNewId deal_id db
        → IsAudited db
        → IsAudited (ingest_checked fs refusal duplicate registry job_id deal db).1
    unfolding store_deal
    ingest_checked-IsAudited (some e) duplicate n v = v
    ingest_checked-IsAudited none (some existing) n v = v
    ingest_checked-IsAudited none none n v =
        ingest_deal-queued fs deal (add_deal fs deal db) _ (add_deal-IsAudited fs deal db refl n v)

    pub ingest_deal-IsAudited :
        IsNewId deal_id db
        → IsAudited db
        → IsAudited
            (ingest_deal fs registry deal_id job_id now tenant_id filename content content_type
              source_channel source_sender db).1
    unfolding ingest_deal
    ingest_deal-IsAudited =
        ingest_checked-IsAudited (validate_upload fs filename content_type content)
          (check_duplicate fs tenant_id (fs.sha256 content) db)

-- ===== src/Deals/Handlers.antt =====
-- src/app/background_jobs/handlers.py: the job that extracts a deal and scores it, in a transaction
-- each. `id_text` is the text of a tenant's id, `text_of` that of an exception; new ids and the
-- time are given.
use deal_screening_agent.Prelude.{
  if◌then◌else◌, if-intro, ℕ, String, ◌≡◌, refl, Bool, true, false, not, ◌&&◌, Option, none, some,
  List, arith, str_eq,
}
use deal_screening_agent.Prelude.Exec.{Result, ok, err, Exec, rolled_back, transaction}
use deal_screening_agent.Float.{Float}
use deal_screening_agent.Jobs.Registry.{JobError, tenant_mismatch, other_error}
use deal_screening_agent.Jobs.Worker.{JobContext}
use deal_screening_agent.Scoring.Evaluator.{Text}
use deal_screening_agent.Deals.Db.{ExtractionJob, Db, DealError, wrong_status}
use deal_screening_agent.Deals.Extraction.{
  FieldData, ExtractionResult, load_and_verify_deal, extract_deal,
}
use deal_screening_agent.Deals.Extraction.Outcome.{IsExtracted, extract_deal-IsExtracted}
use deal_screening_agent.Deals.Scores.{ScoringResult, score_deal}
use deal_screening_agent.Deals.Audit.{IsAudited}
use deal_screening_agent.Deals.Audit.Scoring.{score_deal-IsAudited}
use deal_screening_agent.Deals.Audit.Operations.{extract_deal-IsAudited, deal}

-- `ctx.tenant_id and ctx.tenant_id != job.tenant_id`
abbrev is_mismatch : Option String → String → Bool
is_mismatch none own = false
is_mismatch (some t) own = not (str_eq t "") && not (str_eq t own)

module _ (fl : Float) (tx : Text fl.F) (pipeline : String → Result String (List FieldData))
    (id_text : ℕ → String) (text_of : DealError → String) where
  open fl use {F}

  abbrev after_scoring : Result DealError (ScoringResult F) × Db F → Result JobError Unit × Db F
  after_scoring (err e, db) = (err (other_error (text_of e)), db)
  after_scoring (ok _, db) = (ok tt, db)

  abbrev after_extraction :
      ℕ → ℕ → ExtractionJob → Result DealError ExtractionResult × Db F → Result JobError Unit × Db F
  after_extraction score_id now job (err e, db) = (err (other_error (text_of e)), db)
  after_extraction score_id now job (ok result, db) =
      if result.success
      then after_scoring (transaction (score_deal fl tx score_id now job.deal_id job.tenant_id) db)
      else (ok tt, db)

  unfoldable pub handle_extraction : ℕ → ℕ → ExtractionJob → JobContext → Exec (Db F) JobError Unit
  unfolding extract_deal score_deal
  handle_extraction score_id now job ctx db =
      if is_mismatch ctx.tenant_id (id_text job.tenant_id)
      then (err tenant_mismatch, db)
      else after_extraction score_id now job
          (transaction (extract_deal pipeline job.deal_id job.tenant_id) db)

  rolled_back-IsAudited :
      {A : Type 0} (db : Db F) (r : Result DealError A × Db F)
      → IsAudited db
      → IsAudited r.1
      → IsAudited (rolled_back db r).1
  rolled_back-IsAudited db (ok a, db') v w = w
  rolled_back-IsAudited db (err e, db') v w = v

  after_scoring-IsAudited :
      (r : Result DealError (ScoringResult F) × Db F)
      → IsAudited r.1
      → IsAudited (after_scoring r).1
  after_scoring-IsAudited (ok a, db) w = w
  after_scoring-IsAudited (err e, db) w = w

  after_extraction-IsAudited :
      (score_id now : ℕ) (job : ExtractionJob) (r : Result DealError ExtractionResult × Db F)
      → IsAudited r.1
      → IsAudited (after_extraction score_id now job r).1
  after_extraction-IsAudited score_id now job (err e, db) w = w
  after_extraction-IsAudited score_id now job (ok result, db) w =
      if-intro (λ (r : Result JobError Unit × Db F). IsAudited r.1) result.success
        (after_scoring-IsAudited
          (transaction (score_deal fl tx score_id now job.deal_id job.tenant_id) db)
          (rolled_back-IsAudited db (score_deal fl tx score_id now job.deal_id job.tenant_id db) w
            (score_deal-IsAudited fl tx score_id now job.deal_id job.tenant_id db w)))
        w

  -- The job of extracting and scoring keeps the audit trail in agreement with the deals, whichever
  -- of its two transactions is rolled back.
  pub handle_extraction-IsAudited :
      (score_id now : ℕ) (job : ExtractionJob) (ctx : JobContext) (db : Db F)
      → IsAudited db
      → IsAudited (handle_extraction score_id now job ctx db).1
  unfolding handle_extraction
  handle_extraction-IsAudited score_id now job ctx db v =
      if-intro (λ (r : Result JobError Unit × Db F). IsAudited r.1)
        (is_mismatch ctx.tenant_id (id_text job.tenant_id)) v
        (after_extraction-IsAudited score_id now job
          (transaction (extract_deal pipeline job.deal_id job.tenant_id) db)
          (rolled_back-IsAudited db (extract_deal pipeline job.deal_id job.tenant_id db) v
            (extract_deal-IsAudited pipeline job.deal_id job.tenant_id db v)))

  handle_extraction-extracted :
      (score_id now : ℕ) (job : ExtractionJob) (ctx : JobContext) (db : Db F)
      → is_mismatch ctx.tenant_id (id_text job.tenant_id) ≡ false
      → IsExtracted job.deal_id job.tenant_id db
      → handle_extraction score_id now job ctx db ≡ (err (other_error (text_of wrong_status)), db)
  unfolding handle_extraction extract_deal load_and_verify_deal
  handle_extraction-extracted score_id now job ctx db m (deal, e, s) = rw (m, e, s) refl

  after_scoring-raised :
      (db : Db F) (r : Result DealError (ScoringResult F) × Db F) (e : DealError)
      → r.0 ≡ err e
      → after_scoring (rolled_back db r) ≡ (err (other_error (text_of e)), db)
  after_scoring-raised db (ok a, after) e h = absurd (ground arith)
  after_scoring-raised db (err x, after) e h = let same : x ≡ e = ground arith in rw same refl

  -- A run of the job in which the extraction succeeds and the scoring raises keeps what the
  -- extraction wrote, and raises. Each further run of the job on that state, whatever scoring would
  -- do by then, raises at the extraction and changes nothing: the retries are spent in vain.
  pub handle_extraction-stuck :
      (score_id now score_id' now' : ℕ) (job : ExtractionJob) (ctx ctx' : JobContext)
      (db after : Db F) (result : ExtractionResult) (e : DealError)
      → is_mismatch ctx.tenant_id (id_text job.tenant_id) ≡ false
      → is_mismatch ctx'.tenant_id (id_text job.tenant_id) ≡ false
      → extract_deal pipeline job.deal_id job.tenant_id db ≡ (ok result, after)
      → result.success ≡ true
      → (score_deal fl tx score_id now job.deal_id job.tenant_id after).0 ≡ err e
      → (handle_extraction score_id now job ctx db ≡ (err (other_error (text_of e)), after))
        × (handle_extraction score_id' now' job ctx' after
            ≡ (err (other_error (text_of wrong_status)), after))
  unfolding handle_extraction
  handle_extraction-stuck score_id now score_id' now' job ctx ctx' db after result e m m' x success
        raised =
      (
        rw (m, x, success) (after_scoring-raised after _ e raised),
        handle_extraction-extracted score_id' now' job ctx' after m'
            (extract_deal-IsExtracted pipeline job.deal_id job.tenant_id db after result x success),
      )

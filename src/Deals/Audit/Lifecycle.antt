-- ===== src/Deals/Audit/Lifecycle.antt =====
-- The services as steps on the deal tables, in any order.
use deal_screening_agent.Prelude.{ℕ, String, Option, List}
use deal_screening_agent.Prelude.Exec.{Result}
use deal_screening_agent.Float.{Float}
use deal_screening_agent.Models.Criteria.{Criterion}
use deal_screening_agent.Jobs.Registry.{Registry}
use deal_screening_agent.Scoring.Evaluator.{Text}
use deal_screening_agent.Deals.Db.{ExtractionJob, Db}
use deal_screening_agent.Deals.Extraction.{FieldData, extract_deal}
use deal_screening_agent.Deals.Scores.{score_deal}
use deal_screening_agent.Deals.Ingestion.{Files, ingest_deal}
use deal_screening_agent.Deals.Decisions.{DealDecisionRequest, decide_deal}
use deal_screening_agent.Deals.Configs.{create_criteria_config}
use deal_screening_agent.Deals.Audit.{IsAudited}
use deal_screening_agent.Deals.Audit.Scoring.{
  score_deal-IsAudited, create_criteria_config-IsAudited,
}
use deal_screening_agent.Deals.Audit.Operations.{
  extract_deal-IsAudited, decide_deal-IsAudited, IsNewId, ingest_deal-IsAudited,
}

module _ (fl : Float) (tx : Text fl.F) {C : Type 0} (fs : Files C)
    (registry : Registry ExtractionJob) (pipeline : String → Result String (List FieldData)) where
  open fl use {F}

  -- A call of one service, returned or raised, whose changes are kept.
  pub data Step : Db F → Db F → Type 0 where
    ingests :
        (db : Db F) (deal_id job_id now tenant_id : ℕ) (filename : String) (content : C)
        (content_type : Option String) (source_channel : String) (source_sender : Option String)
        → IsNewId deal_id db
        → Step db
            (ingest_deal fs registry deal_id job_id now tenant_id filename content content_type
              source_channel source_sender db).1
    extracts :
        (db : Db F) (deal_id tenant_id : ℕ) → Step db (extract_deal pipeline deal_id tenant_id db).1
    scores :
        (db : Db F) (score_id now deal_id tenant_id : ℕ)
        → Step db (score_deal fl tx score_id now deal_id tenant_id db).1
    decides :
        (db : Db F) (now user_id deal_id tenant_id : ℕ) (body : DealDecisionRequest)
        → Step db (decide_deal now user_id deal_id tenant_id body db).1
    configures :
        (db : Db F) (config_id : ℕ) (score_id : ℕ → ℕ) (now tenant_id : ℕ) (name : String)
        (criteria : List (Criterion F))
        → Step db (create_criteria_config fl tx config_id score_id now tenant_id name criteria db)

  pub data Reach (start : Db F) : Db F → Type 0 where
    here : Reach start start
    next : {db db' : Db F} → Reach start db → Step db db' → Reach start db'

  Step-IsAudited : {db db' : Db F} → Step db db' → IsAudited db → IsAudited db'
  Step-IsAudited
        (ingests db deal_id job_id now tenant_id filename content content_type channel sender n) v =
      ingest_deal-IsAudited fs registry deal_id job_id now tenant_id filename content content_type
        channel sender db n v
  Step-IsAudited (extracts db deal_id tenant_id) v =
      extract_deal-IsAudited pipeline deal_id tenant_id db v
  Step-IsAudited (scores db score_id now deal_id tenant_id) v =
      score_deal-IsAudited fl tx score_id now deal_id tenant_id db v
  Step-IsAudited (decides db now user_id deal_id tenant_id body) v =
      decide_deal-IsAudited now user_id deal_id tenant_id body db v
  Step-IsAudited (configures db config_id score_id now tenant_id name criteria) v =
      create_criteria_config-IsAudited fl tx config_id score_id now tenant_id name criteria db v

  -- After any calls of the services on audited tables, in any order, the last audit row of every
  -- deal records its status, and every row records one of the services' moves: none leads out of
  -- DECIDED, and none from another status into UPLOADED.
  pub Reach-IsAudited : {start db : Db F} → IsAudited start → Reach start db → IsAudited db
  Reach-IsAudited v here = v
  Reach-IsAudited v (next r st) = Step-IsAudited st (Reach-IsAudited v r)

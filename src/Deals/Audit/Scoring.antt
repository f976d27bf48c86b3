-- ===== src/Deals/Audit/Scoring.antt =====
-- Scoring and configs keep the audit trail.
use deal_screening_agent.Prelude.{
  Bool-cases, Option-cases, ℕ, String, ◌≡◌, refl, inl, inr, true, Option, none, some, List, [], ◌∷◌,
  ◌++◌, arith,
}
use deal_screening_agent.Prelude.Exec.{Result, ok, err}
use deal_screening_agent.Models.Enums.{extracted, scored, is_status}
use deal_screening_agent.Models.Deal.{Deal, DealScore}
use deal_screening_agent.Deals.Db.{Db, with_status, find_deal}
use deal_screening_agent.Deals.Audit.{except, IsAudited}
use deal_screening_agent.Float.{Float}
use deal_screening_agent.Models.Criteria.{Criterion, CriteriaConfig}
use deal_screening_agent.Scoring.Evaluator.{Text, CriterionEvalResult, EvalError}
use deal_screening_agent.Deals.Scores.{
  load_extracted_fields, load_active_config, evaluate_all_criteria, persist_score, score_evaluated,
  score_configured, score_deal,
}
use deal_screening_agent.Deals.Configs.{rescored_ids, rescore, create_criteria_config}
use deal_screening_agent.Deals.Audit.Operations.{move-IsAudited, deal}

module _ (fl : Float) (tx : Text fl.F) where
  open fl use {F}

  persist_score-IsAudited :
      (deal : Deal) (s : DealScore F) (db : Db F)
      → is_status deal.status extracted ≡ true
      → IsAudited db
      → IsAudited (persist_score fl tx deal s db)
  unfolding persist_score
  persist_score-IsAudited deal s db x v =
      move-IsAudited (with_status scored deal) _ (record db { scores = db.scores ++ s ∷ [] }) refl
        refl (ground arith) (except deal.id db.deals db.audits v.agrees) v.moves

  score_configured-IsAudited :
      (score_id now : ℕ) (deal : Deal) (config : Option (CriteriaConfig F)) (db : Db F)
      → is_status deal.status extracted ≡ true
      → IsAudited db
      → IsAudited (score_configured fl tx score_id now deal config db).1
  score_configured-IsAudited score_id now d none db x v = v
  score_configured-IsAudited score_id now d (some config) db x v =
      go (evaluate_all_criteria fl tx config.criteria (load_extracted_fields d.id db.fields))
    where
      go :
          (r : Result EvalError (List (CriterionEvalResult F)))
          → IsAudited
              (score_evaluated fl tx score_id now d config.id
                (load_extracted_fields d.id db.fields)
                r
                db).1
      go (err e) = v
      go (ok rs) = persist_score-IsAudited d _ db x v

  pub score_deal-IsAudited :
      (score_id now deal_id tenant_id : ℕ) (db : Db F)
      → IsAudited db
      → IsAudited (score_deal fl tx score_id now deal_id tenant_id db).1
  unfolding score_deal
  score_deal-IsAudited score_id now deal_id tenant_id db v =
      elim (Option-cases (find_deal deal_id tenant_id db)) [
        | inl e ↦ rw (e, score_deal) v
        | inr (deal, e) ↦ elim (Bool-cases (is_status deal.status extracted)) [
          | inr x ↦ rw (e, score_deal) (rw x v)
          | inl x ↦
              rw (e, score_deal)
                (rw x (
                  score_configured-IsAudited score_id now deal
                    (load_active_config tenant_id db.configs) db x v))
        ]
      ]

  rescore-IsAudited :
      (score_id : ℕ → ℕ) (now tenant_id : ℕ) (ids : List ℕ) (db : Db F)
      → IsAudited db
      → IsAudited (rescore fl tx score_id now tenant_id ids db)
  unfolding rescore
  rescore-IsAudited score_id now tenant_id [] db v = v
  rescore-IsAudited score_id now tenant_id (id ∷ ids) db v =
      rescore-IsAudited score_id now tenant_id ids _
        (score_deal-IsAudited (score_id id) now id tenant_id db v)

  pub create_criteria_config-IsAudited :
      (config_id : ℕ) (score_id : ℕ → ℕ) (now tenant_id : ℕ) (name : String)
      (criteria : List (Criterion F)) (db : Db F)
      → IsAudited db
      → IsAudited (create_criteria_config fl tx config_id score_id now tenant_id name criteria db)
  unfolding create_criteria_config
  create_criteria_config-IsAudited config_id score_id now tenant_id name criteria db v =
      rescore-IsAudited score_id now tenant_id (rescored_ids tenant_id db.deals) _
        (record { agrees = v.agrees; moves = v.moves })

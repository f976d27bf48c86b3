-- ===== src/Deals/Scores.antt =====
-- src/app/services/scoring_service.py: the service around the scoring engine. Ids and the time are
-- given by the caller.
pub mod Dealbreaker
use deal_screening_agent.Prelude.{
  ◌==◌, if◌then◌else◌, select, latest, ℕ, max, String, Bool, true, false, ◌&&◌, Option, none, some,
  List, [], ◌∷◌, ◌++◌, map, str_eq,
}
use deal_screening_agent.Prelude.Exec.{Result, ok, err, Exec}
use deal_screening_agent.Float.{Float}
use deal_screening_agent.Models.Enums.{extracted, scored, is_status, ConfidenceLevel, none_level}
use deal_screening_agent.Models.Deal.{
  Deal, ExtractedField, not_available, Line, CriterionResult, DealScore, scoring_completed, worker,
}
use deal_screening_agent.Models.Criteria.{Criterion, CriteriaConfig}
use deal_screening_agent.Scoring.Evaluator.{
  Text, CriterionEvalResult, EvalError, json_decode_error, evaluate_criterion,
}
use deal_screening_agent.Scoring.Compute.{compute_score, compute_scoring_confidence}
use deal_screening_agent.Scoring.Rationale.{generate_rationale}
use deal_screening_agent.Deals.Db.{
  Db, DealError, deal_not_found, wrong_status, json_decode_error, with_status, audit_row, save_deal,
  add_audit, find_deal,
}

pub record ScoringResult (F : Type 0) : Type 0 where
  pub success : Bool
  pub deal_id : ℕ
  pub score : ℕ
  pub confidence : ConfidenceLevel
  pub rationale : List Line
  pub criterion_results : List (CriterionResult F)
  pub error : Option String

-- `d[k] = v` and `d.get(k)` of a dict in insertion order
unfoldable pub put :
    String → ExtractedField → List (String × ExtractedField) → List (String × ExtractedField)
put k v [] = (k, v) ∷ []
put k v ((j, w) ∷ rest) = if str_eq j k then (k, v) ∷ rest else (j, w) ∷ put k v rest

unfoldable pub get : String → List (String × ExtractedField) → Option ExtractedField
get k [] = none
get k ((j, v) ∷ rest) = if str_eq j k then some v else get k rest

-- `max(f.extraction_run for f in all_fields)`
unfoldable pub latest_run : List ExtractedField → ℕ
latest_run [] = 0
latest_run (f ∷ fs) = max f.extraction_run (latest_run fs)

-- `{f.field_name: f for f in fields}`, onto a dict
unfoldable pub fields_dict :
    List (String × ExtractedField) → List ExtractedField → List (String × ExtractedField)
fields_dict d [] = d
fields_dict d (f ∷ fs) = fields_dict (put f.field_name f d) fs

-- `dict.values()`
abbrev pub values : List (String × ExtractedField) → List ExtractedField
values = map (λ e. e.1)

-- the rows of the latest extraction run of a deal
unfoldable pub latest_fields : ℕ → List ExtractedField → List ExtractedField
unfolding latest_run
latest_fields deal_id rows =
    let all_fields = select (λ f. f.deal_id == deal_id) rows in
    select (λ f. f.extraction_run == latest_run all_fields) all_fields

unfoldable pub load_extracted_fields : ℕ → List ExtractedField → List (String × ExtractedField)
unfolding latest_fields fields_dict put
load_extracted_fields deal_id rows = fields_dict [] (latest_fields deal_id rows)

module _ {F : Type 0} where
  abbrev scorable : Option Deal → Exec (Db F) DealError Deal
  scorable none db = (err deal_not_found, db)
  scorable (some deal) db =
      if is_status deal.status extracted then (ok deal, db) else (err wrong_status, db)

  unfoldable pub load_deal : ℕ → ℕ → Exec (Db F) DealError Deal
  load_deal deal_id tenant_id db = scorable (find_deal deal_id tenant_id db) db

  -- WHERE tenant_id = … AND is_active ORDER BY version DESC LIMIT 1
  unfoldable pub load_active_config : ℕ → List (CriteriaConfig F) → Option (CriteriaConfig F)
  load_active_config tenant_id configs =
      latest (λ c. c.version) (select (λ c. c.tenant_id == tenant_id && c.is_active) configs)

  abbrev pub criterion_result : CriterionEvalResult F → CriterionResult F
  criterion_result r = record {
    criterion_label = r.criterion_label;
    field_name = r.field_name;
    matched = r.matched;
    detail = r.detail;
    weight = r.weight;
    skipped = r.skipped;
  }

  abbrev no_config : ℕ → ScoringResult F
  no_config deal_id = record {
    success = false;
    deal_id = deal_id;
    score = 0;
    confidence = none_level;
    rationale = [];
    criterion_results = [];
    error = some "No active criteria config found for tenant";
  }

module _ (fl : Float) (tx : Text fl.F) where
  open fl use {F}

  -- A criterion whose field is not among the fields counts as skipped.
  unfoldable pub evaluate_one :
      Criterion F → Option ExtractedField → Result EvalError (CriterionEvalResult F)
  unfolding evaluate_criterion
  evaluate_one c none = ok (record {
    criterion_label = c.label;
    field_name = c.field_name;
    criterion_type = c.criterion_type;
    matched = false;
    weight = c.weight;
    detail = not_available c.field_name;
    skipped = true;
  })
  evaluate_one c (some field) =
      evaluate_criterion fl tx c.field_name field.field_value field.field_status c.operator
        c.target_value c.criterion_type c.weight c.label

  abbrev pub push_result :
      Result EvalError (CriterionEvalResult F)
      → Result EvalError (List (CriterionEvalResult F))
      → Result EvalError (List (CriterionEvalResult F))
  push_result (err e) rest = err e
  push_result (ok r) (err e) = err e
  push_result (ok r) (ok rs) = ok (r ∷ rs)

  unfoldable pub evaluate_all_criteria :
      List (Criterion F)
      → List (String × ExtractedField)
      → Result EvalError (List (CriterionEvalResult F))
  unfolding evaluate_one get
  evaluate_all_criteria [] fields_map = ok []
  evaluate_all_criteria (c ∷ cs) fields_map =
      push_result (evaluate_one c (get c.field_name fields_map))
        (evaluate_all_criteria cs fields_map)

  -- steps 5 to 9: the score's row
  unfoldable pub score_row :
      ℕ → ℕ → ℕ → ℕ → List (CriterionEvalResult F) → List (String × ExtractedField) → DealScore F
  unfolding compute_score compute_scoring_confidence generate_rationale
  score_row score_id now deal_id config_id eval_results fields_map =
      let score = compute_score fl eval_results in
      let confidence = compute_scoring_confidence fl eval_results (values fields_map) in
      record {
        id = score_id;
        deal_id = deal_id;
        criteria_config_id = config_id;
        score = score;
        confidence = confidence;
        rationale = generate_rationale eval_results score confidence;
        criterion_results = map criterion_result eval_results;
        created_at = now;
      }

  -- steps 9 and 10: the new score, the status and the audit row
  unfoldable pub persist_score : Deal → DealScore F → Db F → Db F
  persist_score deal s db =
      add_audit (audit_row deal worker none scoring_completed (some deal.status) (some scored))
        (save_deal (with_status scored deal) (record db { scores = db.scores ++ s ∷ [] }))

  abbrev scoring_result : DealScore F → ScoringResult F
  scoring_result s = record {
    success = true;
    deal_id = s.deal_id;
    score = s.score;
    confidence = s.confidence;
    rationale = s.rationale;
    criterion_results = s.criterion_results;
    error = none;
  }

  abbrev pub score_evaluated :
      ℕ
      → ℕ
      → Deal
      → ℕ
      → List (String × ExtractedField)
      → Result EvalError (List (CriterionEvalResult F))
      → Exec (Db F) DealError (ScoringResult F)
  score_evaluated score_id now deal config_id fields_map (err _) db = (err json_decode_error, db)
  score_evaluated score_id now deal config_id fields_map (ok eval_results) db =
      let s = score_row score_id now deal.id config_id eval_results fields_map in
      (ok (scoring_result s), persist_score deal s db)

  abbrev pub score_configured :
      ℕ → ℕ → Deal → Option (CriteriaConfig F) → Exec (Db F) DealError (ScoringResult F)
  score_configured score_id now deal none db = (ok (no_config deal.id), db)
  score_configured score_id now deal (some config) db =
      let fields_map = load_extracted_fields deal.id db.fields in
      score_evaluated score_id now deal config.id fields_map
        (evaluate_all_criteria config.criteria fields_map) db

  abbrev pub score_loaded :
      ℕ → ℕ → ℕ → Result DealError Deal × Db F → Result DealError (ScoringResult F) × Db F
  score_loaded score_id now tenant_id (err e, db) = (err e, db)
  score_loaded score_id now tenant_id (ok deal, db) =
      score_configured score_id now deal (load_active_config tenant_id db.configs) db

  unfoldable pub score_deal : ℕ → ℕ → ℕ → ℕ → Exec (Db F) DealError (ScoringResult F)
  unfolding load_deal load_active_config load_extracted_fields evaluate_all_criteria score_row
      persist_score
  score_deal score_id now deal_id tenant_id db =
      score_loaded score_id now tenant_id (load_deal deal_id tenant_id db)

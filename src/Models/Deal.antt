-- ===== src/Models/Deal.antt =====
-- src/app/models/deal.py. Ids, tenants and content hashes are only compared, so they are numbers.
-- Left out are columns that no code reads: the ids of rows other than deals and scores, and
-- `updated_at`. Times are numbers that the caller of each operation gives.
use deal_screening_agent.Prelude.{ℕ, String, Bool, Option, List}
use deal_screening_agent.Models.Enums.{
  DealStatus, DecisionType, FieldExtractionStatus, ConfidenceLevel,
}

pub record Deal : Type 0 where
  pub id : ℕ
  pub tenant_id : ℕ
  pub filename : String
  pub content_hash : ℕ
  pub file_path : String
  pub file_size_bytes : ℕ
  pub source_channel : String
  pub source_sender : Option String
  pub status : DealStatus
  pub retry_count : ℕ
  pub created_at : ℕ

pub record ExtractedField : Type 0 where
  pub deal_id : ℕ
  pub extraction_run : ℕ
  pub field_name : String
  pub field_value : Option String
  pub field_status : FieldExtractionStatus
  pub confidence : ConfidenceLevel
  pub overall_confidence : Option ConfidenceLevel

-- The reasons that a criterion's evaluation gives: the f-strings of evaluate_criterion and
-- _evaluate_all_criteria, as data.
pub data Detail : Type 0 where
  not_available : String → Detail
  field_missing : String → Detail
  matched_detail : String → String → String → String → Detail
  unmatched_detail : String → String → String → String → String → Detail

-- A line of the rationale.
pub data Line : Type 0 where
  no_criteria : Line
  headline : ℕ → ConfidenceLevel → Line
  caption : String → Line
  item : String → Detail → Line
  blank : Line

-- One entry of `criterion_results`, by the results' index type of weights.
pub record CriterionResult (F : Type 0) : Type 0 where
  pub criterion_label : String
  pub field_name : String
  pub matched : Bool
  pub detail : Detail
  pub weight : F
  pub skipped : Bool

pub record DealScore (F : Type 0) : Type 0 where
  pub id : ℕ
  pub deal_id : ℕ
  pub criteria_config_id : ℕ
  pub score : ℕ
  pub confidence : ConfidenceLevel
  pub rationale : List Line
  pub criterion_results : List (CriterionResult F)
  pub created_at : ℕ

pub record DealDecision : Type 0 where
  pub deal_id : ℕ
  pub user_id : ℕ
  pub decision : DecisionType
  pub notes : Option String
  pub score_id : Option ℕ
  pub created_at : ℕ

pub data Action : Type 0 where
  deal_uploaded extraction_started extraction_completed extraction_failed : Action
  scoring_completed decision_made : Action

pub data ActorType : Type 0 where
  system worker user : ActorType

-- `metadata_` is left out: nothing reads it.
pub record DealAuditLog : Type 0 where
  pub deal_id : ℕ
  pub tenant_id : ℕ
  pub actor_type : ActorType
  pub actor_id : Option ℕ
  pub action : Action
  pub before_state : Option DealStatus
  pub after_state : Option DealStatus

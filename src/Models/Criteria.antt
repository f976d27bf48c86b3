-- ===== src/Models/Criteria.antt =====
-- src/app/models/criteria.py. A config holds its criteria, which the program always loads with it.
use deal_screening_agent.Prelude.{ℕ, String, Bool, List}
use deal_screening_agent.Models.Enums.{CriterionType}

pub record Criterion (F : Type 0) : Type 0 where
  pub field_name : String
  pub criterion_type : CriterionType
  pub operator : String
  pub target_value : String
  pub weight : F
  pub label : String

pub record CriteriaConfig (F : Type 0) : Type 0 where
  pub id : ℕ
  pub tenant_id : ℕ
  pub version : ℕ
  pub is_active : Bool
  pub name : String
  pub criteria : List (Criterion F)

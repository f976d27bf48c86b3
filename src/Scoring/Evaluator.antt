-- ===== src/Scoring/Evaluator.antt =====
-- src/app/services/criteria_evaluator.py: one criterion against one extracted field.
pub mod Operators
use deal_screening_agent.Prelude.{
  if◌then◌else◌, any, String, Bool, true, false, not, ◌||◌, Option, none, some, List, str_eq,
}
use deal_screening_agent.Prelude.Exec.{Result, ok, err}
use deal_screening_agent.Float.{Float, lt}
use deal_screening_agent.Models.Enums.{FieldExtractionStatus, is_missing, CriterionType}
use deal_screening_agent.Models.Deal.{Detail, field_missing, matched_detail, unmatched_detail}

-- Python's text, JSON and number parsing, which the evaluator calls: a parameter.
pub record Text (F : Type 0) : Type 1 where
  pub Json : Type 0
  -- `json.loads`; `none` where it raises JSONDecodeError
  pub loads : String → Option Json
  -- the items, if `isinstance(target, list)`
  pub items : Json → Option (List Json)
  -- `str(target)`
  pub str : Json → String
  -- `float(s)` and `float(target)`; `none` where they raise ValueError or TypeError
  pub float_of_string : String → Option F
  pub float_of_json : Json → Option F
  pub strip : String → String
  pub lower : String → String
  -- `s.replace(old, "")`
  pub remove : String → String → String
  -- `needle in s`
  pub contains : String → String → Bool

pub record CriterionEvalResult (F : Type 0) : Type 0 where
  pub criterion_label : String
  pub field_name : String
  pub criterion_type : CriterionType
  pub matched : Bool
  pub weight : F
  pub detail : Detail
  pub skipped : Bool

-- A raise of JSONDecodeError on the stored target.
pub data EvalError : Type 0 where
  json_decode_error : EvalError

module _ (fl : Float) (tx : Text fl.F) where
  open fl use {F, le}
  open tx use {
    Json, loads, items, str, float_of_string, float_of_json, strip, lower, remove, contains,
  }

  unfoldable pub str_normalize : String → String
  str_normalize s = lower (strip s)

  -- the final `return False` is for an operator that is none of the four
  unfoldable pub compare_numbers : String → F → F → Bool
  compare_numbers operator field_num target_num =
      if str_eq operator "gt"
      then lt fl target_num field_num
      else if str_eq operator "lt"
      then lt fl field_num target_num
      else if str_eq operator "gte"
      then le target_num field_num
      else if str_eq operator "lte"
      then le field_num target_num
      else false

  abbrev compare_parsed : String → Option F → Option F → Bool
  compare_parsed operator (some field_num) (some target_num) =
      compare_numbers operator field_num target_num
  compare_parsed operator _ _ = false

  unfoldable pub numeric_compare : String → String → Json → Bool
  unfolding compare_numbers
  numeric_compare field_value operator target =
      compare_parsed operator (float_of_string (strip (remove "$" (remove "," field_value))))
        (float_of_json target)

  abbrev is_numeric_operator : String → Bool
  is_numeric_operator operator =
      str_eq operator "gt" || str_eq operator "lt" || str_eq operator "gte" || str_eq operator "lte"

  -- `_str_normalize(field_value) in [_str_normalize(str(t)) for t in target]`
  unfoldable pub in_targets : String → List Json → Bool
  unfolding str_normalize
  in_targets field_value targets =
      any (λ t. str_eq (str_normalize field_value) (str_normalize (str t))) targets

  abbrev in_list : (Bool → Bool) → String → Option (List Json) → Bool
  in_list result field_value none = false
  in_list result field_value (some targets) = result (in_targets field_value targets)

  unfoldable pub apply_operator : String → String → Json → Bool
  unfolding numeric_compare str_normalize in_targets
  apply_operator field_value operator target =
      if is_numeric_operator operator
      then numeric_compare field_value operator target
      else if str_eq operator "eq"
      then str_eq (str_normalize field_value) (str_normalize (str target))
      else if str_eq operator "ne"
      then not (str_eq (str_normalize field_value) (str_normalize (str target)))
      else if str_eq operator "in"
      then in_list (λ b. b) field_value (items target)
      else if str_eq operator "not_in"
      then in_list not field_value (items target)
      else if str_eq operator "contains"
      then contains (str_normalize (str target)) (str_normalize field_value)
      else false

  -- the result for a field that has a value and a target that was decoded
  abbrev pub evaluated :
      String → String → String → Json → CriterionType → F → String → CriterionEvalResult F
  evaluated field_name field_value operator target criterion_type weight label =
      let matched = apply_operator field_value operator target in
      record {
        criterion_label = label;
        field_name = field_name;
        criterion_type = criterion_type;
        matched = matched;
        weight = weight;
        detail =
            if matched
            then matched_detail label field_name operator (str target)
            else unmatched_detail label field_name field_value operator (str target);
        skipped = false;
      }

  abbrev skipped_result : String → CriterionType → F → String → Detail → CriterionEvalResult F
  skipped_result field_name criterion_type weight label detail = record {
    criterion_label = label;
    field_name = field_name;
    criterion_type = criterion_type;
    matched = false;
    weight = weight;
    detail = detail;
    skipped = true;
  }

  abbrev evaluate_loaded :
      String
      → String
      → String
      → Option Json
      → CriterionType
      → F
      → String
      → Result EvalError (CriterionEvalResult F)
  evaluate_loaded field_name field_value operator none criterion_type weight label =
      err json_decode_error
  evaluate_loaded field_name field_value operator (some target) criterion_type weight label =
      ok (evaluated field_name field_value operator target criterion_type weight label)

  abbrev evaluate_value :
      String
      → Option String
      → Bool
      → String
      → String
      → CriterionType
      → F
      → String
      → Result EvalError (CriterionEvalResult F)
  evaluate_value field_name (some v) false operator target_value criterion_type weight label =
      evaluate_loaded field_name v operator (loads target_value) criterion_type weight label
  evaluate_value field_name _ _ operator target_value criterion_type weight label =
      ok (skipped_result field_name criterion_type weight label (field_missing field_name))

  unfoldable pub evaluate_criterion :
      String
      → Option String
      → FieldExtractionStatus
      → String
      → String
      → CriterionType
      → F
      → String
      → Result EvalError (CriterionEvalResult F)
  unfolding apply_operator
  evaluate_criterion field_name field_value field_status operator target_value =
      evaluate_value field_name field_value (is_missing field_status) operator target_value

-- ===== src/Scoring/Compute.antt =====
-- src/app/services/scoring_service.py: _compute_score and _compute_scoring_confidence.
pub mod Score
pub mod Monotone
pub mod Confidence
use deal_screening_agent.Prelude.{
  ◌==◌, if◌then◌else◌, length, count, any, all, ℕ, ◌-◌, Bool, not, ◌&&◌, ◌||◌, List, [], ◌∷◌,
}
use deal_screening_agent.Float.{Float, eq}
use deal_screening_agent.Models.Enums.{
  is_missing, ConfidenceLevel, high, medium, low, none_level, is_high, is_dealbreaker,
}
use deal_screening_agent.Models.Deal.{ExtractedField}
use deal_screening_agent.Scoring.Evaluator.{CriterionEvalResult, evaluated}

-- the test of the first loop of _compute_score
abbrev pub fails_dealbreaker : {F : Type 0} → CriterionEvalResult F → Bool
fails_dealbreaker r = is_dealbreaker r.criterion_type && not r.matched && not r.skipped

-- `all(f.confidence == HIGH for f in fields if f.field_status != MISSING)`
abbrev pub all_high : List ExtractedField → Bool
all_high = all (λ f. is_missing f.field_status || is_high f.confidence)

module _ (fl : Float) where
  open fl use {F, of_ℕ, three_quarters, half, add, mul, div, le, round}

  -- One round of the second loop, on (total_weight, matched_weight).
  unfoldable pub add_weight : F × F → CriterionEvalResult F → F × F
  add_weight (total_weight, matched_weight) r =
      if r.skipped then (total_weight, matched_weight) else (
        add total_weight r.weight,
        (if r.matched then add matched_weight r.weight else matched_weight),
      )

  unfoldable pub weights : List (CriterionEvalResult F) → F × F → F × F
  weights [] acc = acc
  weights (r ∷ rs) acc = weights rs (add_weight acc r)

  abbrev percentage : F × F → ℕ
  percentage (total_weight, matched_weight) =
      if eq fl total_weight (of_ℕ 0)
      then 0
      else round (mul (div matched_weight total_weight) (of_ℕ 100))

  -- `if not eval_results: return 0` is the case of no failure and no weight.
  unfoldable pub compute_score : List (CriterionEvalResult F) → ℕ
  compute_score [] = 0
  compute_score (r ∷ rs) =
      if any fails_dealbreaker (r ∷ rs) then 0 else percentage (weights (r ∷ rs) (of_ℕ 0, of_ℕ 0))

  unfoldable pub compute_scoring_confidence :
      List (CriterionEvalResult F) → List ExtractedField → ConfidenceLevel
  compute_scoring_confidence eval_results fields =
      let total = length eval_results in
      let evaluated = total - count (λ r. r.skipped) eval_results in
      let eval_ratio = div (of_ℕ evaluated) (of_ℕ total) in
      if total == 0
      then none_level
      else if evaluated == 0
      then none_level
      else if eq fl eval_ratio (of_ℕ 1)
      then (if all_high fields then high else medium)
      else if le three_quarters eval_ratio
      then medium
      else if le half eval_ratio
      then low
      else none_level

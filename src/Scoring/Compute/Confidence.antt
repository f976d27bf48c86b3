-- ===== src/Scoring/Compute/Confidence.antt =====
-- The confidence by whole-number counts.
use deal_screening_agent.Prelude.{
  leb, ◌==◌, if◌then◌else◌, length, count, ℕ, suc, ◌-◌, ◌*◌, ◌^◌, ◌≤◌, ◌<◌, ◌≡◌, Bool, true, false,
  List, [], ◌∷◌, arith,
}
use deal_screening_agent.Float.{Float, eq}
use deal_screening_agent.Models.Enums.{ConfidenceLevel, high, medium, low, none_level}
use deal_screening_agent.Models.Deal.{ExtractedField}
use deal_screening_agent.Scoring.Evaluator.{CriterionEvalResult, evaluated}
use deal_screening_agent.Scoring.Compute.{all_high, compute_scoring_confidence}

-- The documented rules, over the number of criteria and of those that were evaluated.
unfoldable pub confidence_rule : ℕ → ℕ → Bool → ConfidenceLevel
confidence_rule total evaluated high_fields =
    if evaluated == 0
    then none_level
    else if evaluated == total
    then (if high_fields then high else medium)
    else if leb (3 * total) (4 * evaluated)
    then medium
    else if leb total (2 * evaluated)
    then low
    else none_level

suc_not_zero : (n : ℕ) → (suc n == 0) ≡ false
suc_not_zero n = ground arith

module _ (fl : Float) where
  open fl use {
    F, of_ℕ, three_quarters, half, div, le, of_ℕ_mono, of_ℕ_lt, div_mono, div_self, ratio-one,
    ratio-three_quarters, ratio-half,
  }

  -- With the number of criteria as a variable.
  rule_by_ratio :
      (total evaluated : ℕ) (high_fields : Bool)
      → 0 < total
      → total < 2 ^ 50
      → evaluated ≤ total
      → (if evaluated == 0
          then none_level
          else if eq fl (div (of_ℕ evaluated) (of_ℕ total)) (of_ℕ 1)
          then (if high_fields then high else medium)
          else if le three_quarters (div (of_ℕ evaluated) (of_ℕ total))
          then medium
          else if le half (div (of_ℕ evaluated) (of_ℕ total))
          then low
          else none_level)
        ≡ confidence_rule total evaluated high_fields
  unfolding confidence_rule
  rule_by_ratio total evaluated high_fields p q h =
      let positive : le (of_ℕ total) (of_ℕ 0) ≡ false = of_ℕ_lt 0 total p q in
      let below : le (div (of_ℕ evaluated) (of_ℕ total)) (of_ℕ 1) ≡ true =
        rw (div_self (of_ℕ total) positive) at (
          div_mono (of_ℕ evaluated) (of_ℕ total) (of_ℕ total) positive
            (of_ℕ_mono evaluated total h)) in
      rw
        (
          below,
          ratio-one evaluated total p q h,
          ratio-three_quarters evaluated total p q h,
          ratio-half evaluated total p q h,
        )
        (ground arith)

  -- Up to 2 ^ 50 criteria, the confidence is HIGH or MEDIUM when all were evaluated (by whether the
  -- fields are all HIGH), MEDIUM from three quarters, LOW from a half, and else NONE.
  pub confidence-eq-rule :
      (rs : List (CriterionEvalResult F)) (fields : List ExtractedField)
      → length rs < 2 ^ 50
      → compute_scoring_confidence fl rs fields
        ≡ confidence_rule (length rs) (length rs - count (λ r. r.skipped) rs) (all_high fields)
  unfolding compute_scoring_confidence confidence_rule
  confidence-eq-rule [] fields h = ground arith
  confidence-eq-rule (r ∷ rs) fields h = rw (suc_not_zero (length rs)) (
      rule_by_ratio (length (r ∷ rs)) (length (r ∷ rs) - count (λ x. x.skipped) (r ∷ rs))
        (all_high fields) (omega arith) h (omega arith))

-- ===== src/Scoring/Rationale.antt =====
-- src/app/services/scoring_service.py: _generate_rationale, as a list of lines. `"\n".join` and
-- the texts of the lines are not modelled.
pub mod Citations
use deal_screening_agent.Prelude.{select, ℕ, String, Bool, not, ◌&&◌, List, [], ◌∷◌, ◌++◌, map}
use deal_screening_agent.Models.Enums.{ConfidenceLevel, is_dealbreaker}
use deal_screening_agent.Models.Deal.{Line, no_criteria, headline, caption, item, blank}
use deal_screening_agent.Scoring.Evaluator.{CriterionEvalResult}
use deal_screening_agent.Scoring.Compute.{fails_dealbreaker}

module _ {F : Type 0} where
  -- A caption, an item for each result and a blank line, if there is a result.
  unfoldable pub section : String → String → List (CriterionEvalResult F) → List Line
  section title mark [] = []
  section title mark (r ∷ rs) =
      caption title ∷ (map (λ x. item mark x.detail) (r ∷ rs) ++ blank ∷ [])

  abbrev is_unmatched : CriterionEvalResult F → Bool
  is_unmatched r = not r.matched && not r.skipped && not (is_dealbreaker r.criterion_type)

  abbrev dealbreaker_lines : List (CriterionEvalResult F) → List Line
  dealbreaker_lines rs = section "DEALBREAKER TRIGGERED:" "-" (select fails_dealbreaker rs)

  abbrev matched_lines : List (CriterionEvalResult F) → List Line
  matched_lines rs = section "Criteria met:" "+" (select (λ r. r.matched) rs)

  abbrev unmatched_lines : List (CriterionEvalResult F) → List Line
  unmatched_lines rs = section "Criteria not met:" "-" (select is_unmatched rs)

  abbrev skipped_lines : List (CriterionEvalResult F) → List Line
  skipped_lines rs = section "Could not evaluate (missing data):" "?" (select (λ r. r.skipped) rs)

  unfoldable pub generate_rationale : List (CriterionEvalResult F) → ℕ → ConfidenceLevel → List Line
  generate_rationale [] score confidence = no_criteria ∷ []
  generate_rationale (r ∷ rs) score confidence =
      headline score confidence
      ∷ (dealbreaker_lines (r ∷ rs)
          ++ (matched_lines (r ∷ rs) ++ (unmatched_lines (r ∷ rs) ++ skipped_lines (r ∷ rs))))

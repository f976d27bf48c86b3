-- ===== src/Examples/Scores.antt =====
-- Scoring, evaluation and the rationale.
use mathlib.Core.List.{Memᴰ}
use deal_screening_agent.Prelude.{ℕ, ◌≤◌, ◌≡◌, refl, true, false, none, some, List, [], ◌∷◌}
use deal_screening_agent.Float.Fixed.{fixed}
use deal_screening_agent.Models.Enums.{found, high, medium, must_have, nice_to_have, dealbreaker}
use deal_screening_agent.Models.Deal.{ExtractedField, not_available, item}
use deal_screening_agent.Scoring.Evaluator.{
  CriterionEvalResult, numeric_compare, apply_operator, evaluated, evaluate_criterion,
}
use deal_screening_agent.Scoring.Compute.{add_weight, weights, compute_score}
use deal_screening_agent.Scoring.Rationale.{generate_rationale}
use deal_screening_agent.Scoring.Compute.Score.{compute_score-le-hundred}
use deal_screening_agent.Scoring.Compute.Monotone.{compute_score_mono}
use deal_screening_agent.Deals.Scores.{get, evaluate_one, evaluate_all_criteria}
use deal_screening_agent.Deals.Scores.Dealbreaker.{failed_dealbreaker-zero}
use deal_screening_agent.Models.Criteria.{Criterion}
use deal_screening_agent.Scoring.Rationale.Citations.{mark_of, generate_rationale-cites}
use deal_screening_agent.Examples.Data.{text, eval_result}

abbrev results : List (CriterionEvalResult ℕ)
results = eval_result must_have true false 2 ∷ eval_result nice_to_have false false 1 ∷ []

abbrev better_results : List (CriterionEvalResult ℕ)
better_results = eval_result must_have true false 2 ∷ eval_result nice_to_have true false 1 ∷ []

score_of_two : compute_score fixed results ≡ 67
unfolding compute_score weights add_weight
score_of_two = refl

compute_score_mono_example : compute_score fixed results ≤ compute_score fixed better_results
compute_score_mono_example =
    compute_score_mono fixed results better_results
      (
        record { same_type = refl; same_weight = refl; same_skipped = refl; kept = λ e. e },
        (
          record { same_type = refl; same_weight = refl; same_skipped = refl; kept = λ e. refl },
          tt,
        ),
      )
      (refl, (refl, tt))

-- a dealbreaker on a field of three that asks for more than ten
abbrev a_dealbreaker : Criterion ℕ
a_dealbreaker = record {
  field_name = "sector";
  criterion_type = dealbreaker;
  operator = "gt";
  target_value = "3";
  weight = 1024;
  label = "sector";
}

abbrev a_row : ExtractedField
a_row = record {
  deal_id = 1;
  extraction_run = 1;
  field_name = "sector";
  field_value = some "2";
  field_status = found;
  confidence = high;
  overall_confidence = none;
}

failed_dealbreaker-zero_example :
    compute_score fixed
      (evaluated fixed text "sector" "2" "gt" (3 ∷ []) dealbreaker 1024 "sector" ∷ [])
    ≡ 0
unfolding evaluate_all_criteria evaluate_one evaluate_criterion apply_operator numeric_compare get
failed_dealbreaker-zero_example =
    failed_dealbreaker-zero fixed text a_dealbreaker a_row "2" (3 ∷ []) (("sector", a_row) ∷ [])
      (record {
        present = refl;
        has_value = refl;
        not_missing = refl;
        decoded = refl;
        answers_no = refl;
      })
      refl (a_dealbreaker ∷ []) _ (Memᴰ.head refl) refl

compute_score-le-hundred_example : compute_score fixed results ≤ 100
compute_score-le-hundred_example = compute_score-le-hundred fixed results (refl, (refl, tt))

generate_rationale-cites_example :
    Memᴰ
      (item (mark_of (eval_result must_have true false 2)) (not_available "sector"))
      (generate_rationale results 67 medium)
generate_rationale-cites_example =
    generate_rationale-cites (eval_result must_have true false 2) results 67 medium (Memᴰ.head refl)

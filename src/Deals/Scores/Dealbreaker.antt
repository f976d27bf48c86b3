-- ===== src/Deals/Scores/Dealbreaker.antt =====
-- From a dealbreaker that a deal fails to the deal's score.
use mathlib.Core.List.{Memᴰ}
use deal_screening_agent.Prelude.{
  any, String, ◌≡◌, refl, subst, true, false, some, List, [], ◌∷◌, arith,
}
use deal_screening_agent.Prelude.Exec.{Result, ok, err}
use deal_screening_agent.Float.{Float}
use deal_screening_agent.Models.Enums.{is_missing, dealbreaker}
use deal_screening_agent.Models.Criteria.{Criterion}
use deal_screening_agent.Models.Deal.{ExtractedField}
use deal_screening_agent.Scoring.Evaluator.{
  Text, CriterionEvalResult, EvalError, apply_operator, evaluated, evaluate_criterion,
}
use deal_screening_agent.Scoring.Compute.{fails_dealbreaker, compute_score}
use deal_screening_agent.Scoring.Compute.Score.{compute_score-dealbreaker}
use deal_screening_agent.Deals.Scores.{get, evaluate_one, push_result, evaluate_all_criteria}

module _ (fl : Float) (tx : Text fl.F) where
  open fl use {F}

  module _ (c : Criterion F) (field : ExtractedField) (v : String) (target : tx.Json)
      (fields_map : List (String × ExtractedField)) where
    -- The field of the criterion is there with a value, on which its operator answers no.
    pub record IsFailed : Type 0 where
      pub present : get c.field_name fields_map ≡ some field
      pub has_value : field.field_value ≡ some v
      pub not_missing : is_missing field.field_status ≡ false
      pub decoded : tx.loads c.target_value ≡ some target
      pub answers_no : apply_operator fl tx v c.operator target ≡ false

    abbrev result_of : CriterionEvalResult F
    result_of = evaluated fl tx c.field_name v c.operator target c.criterion_type c.weight c.label

    evaluate_one-failed :
        IsFailed → evaluate_one fl tx c (get c.field_name fields_map) ≡ ok result_of
    unfolding evaluate_one evaluate_criterion
    evaluate_one-failed h = rw (h.present, h.has_value, h.not_missing, h.decoded) refl

    fails-result_of : IsFailed → c.criterion_type ≡ dealbreaker → fails_dealbreaker result_of ≡ true
    fails-result_of h d = rw (d, h.answers_no) refl

    any-first :
        (r : CriterionEvalResult F) (rs : List (CriterionEvalResult F))
        → fails_dealbreaker r ≡ true
        → any fails_dealbreaker (r ∷ rs) ≡ true
    any-first r rs e = rw e refl

    any-later :
        (r : CriterionEvalResult F) (rs : List (CriterionEvalResult F))
        → any fails_dealbreaker rs ≡ true
        → any fails_dealbreaker (r ∷ rs) ≡ true
    any-later r rs e = ground arith

    any-failed :
        IsFailed
        → c.criterion_type ≡ dealbreaker
        → (cs : List (Criterion F)) (rs : List (CriterionEvalResult F)) → Memᴰ c cs
        → evaluate_all_criteria fl tx cs fields_map ≡ ok rs
        → any fails_dealbreaker rs ≡ true
    unfolding evaluate_all_criteria
    any-failed h d [] rs m e = elim m [ ]
    any-failed h d (x ∷ cs) rs (Memᴰ.head same) e =
        by_rest (evaluate_all_criteria fl tx cs fields_map) (
          subst (λ r. push_result fl tx r (evaluate_all_criteria fl tx cs fields_map) ≡ ok rs)
            (subst (λ y. evaluate_one fl tx y (get y.field_name fields_map) ≡ ok result_of) same
              (evaluate_one-failed h))
            e)
      where
        by_rest :
            (rest : Result EvalError (List (CriterionEvalResult F)))
            → push_result fl tx (ok result_of) rest ≡ ok rs
            → any fails_dealbreaker rs ≡ true
        by_rest (err x) k = absurd (ground arith)
        by_rest (ok rest) k =
            let whole : result_of ∷ rest ≡ rs = ground arith in
            subst (λ l. any fails_dealbreaker l ≡ true) whole
              (any-first result_of rest (fails-result_of h d))
    any-failed h d (x ∷ cs) rs (Memᴰ.tail m) e =
        by_parts (evaluate_one fl tx x (get x.field_name fields_map))
          (evaluate_all_criteria fl tx cs fields_map) (any-failed h d cs) e
      where
        by_parts :
            (one : Result EvalError (CriterionEvalResult F))
            (rest : Result EvalError (List (CriterionEvalResult F)))
            → ((l : List (CriterionEvalResult F))
                → Memᴰ c cs
                → rest ≡ ok l
                → any fails_dealbreaker l ≡ true)
            → push_result fl tx one rest ≡ ok rs
            → any fails_dealbreaker rs ≡ true
        by_parts (err a) rest ih k = absurd (ground arith)
        by_parts (ok a) (err b) ih k = absurd (ground arith)
        by_parts (ok a) (ok l) ih k =
            let whole : a ∷ l ≡ rs = ground arith in
            subst (λ l. any fails_dealbreaker l ≡ true) whole (any-later a l (ih l m refl))

    -- If one of a config's criteria is a dealbreaker, the field that it names has a value, and its
    -- operator answers no on that value and the decoded target, then the score of the deal is 0,
    -- whatever the other criteria, their weights and the other fields are, if all the criteria can
    -- be evaluated.
    pub failed_dealbreaker-zero :
        IsFailed
        → c.criterion_type ≡ dealbreaker
        → (cs : List (Criterion F)) (rs : List (CriterionEvalResult F)) → Memᴰ c cs
        → evaluate_all_criteria fl tx cs fields_map ≡ ok rs
        → compute_score fl rs ≡ 0
    failed_dealbreaker-zero h d cs rs m e =
        compute_score-dealbreaker fl rs (any-failed h d cs rs m e)

-- ===== src/Scoring/Compute/Monotone.antt =====
-- More matches never lower the score.
use deal_screening_agent.Prelude.{
  Bool-cases, any, ◌≤◌, ◌≡◌, refl, subst, inl, inr, true, false, List, [], ◌∷◌, arith,
}
use deal_screening_agent.Float.{Float, eq}
use deal_screening_agent.Scoring.Evaluator.{CriterionEvalResult}
use deal_screening_agent.Scoring.Compute.{
  fails_dealbreaker, add_weight, weights, compute_score, percentage,
}
use deal_screening_agent.Scoring.Compute.Score.{
  NonNegative, Ordered, weights-Ordered, not_zero-positive, zero_Ordered, score_of,
  compute_score-eq-score_of,
}

module _ (fl : Float) where
  open fl use {
    F, of_ℕ, le, add, mul, div, round, le_refl, le_trans, of_ℕ_mono, add_mono, le_add, mul_mono,
    div_mono, round_mono, div_self, one_mul, round-of_ℕ,
  }

  -- the same criterion, matched at least where it was matched before
  pub record Improves (r s : CriterionEvalResult F) : Type 0 where
    pub same_type : r.criterion_type ≡ s.criterion_type
    pub same_weight : r.weight ≡ s.weight
    pub same_skipped : r.skipped ≡ s.skipped
    pub kept : r.matched ≡ true → s.matched ≡ true

  abbrev pub AllImprove : List (CriterionEvalResult F) → List (CriterionEvalResult F) → Type 0
  AllImprove [] [] = Unit
  AllImprove (r ∷ rs) (s ∷ ss) = Improves r s × AllImprove rs ss
  AllImprove _ _ = ⊥

  -- the same total, and no less matched
  abbrev Below : F × F → F × F → Type 0
  Below (t, m) (u, n) = (t ≡ u) × (le m n ≡ true)

  add_weight_mono :
      (r s : CriterionEvalResult F) (t m u n : F)
      → Improves r s
      → le (of_ℕ 0) r.weight ≡ true
      → Below (t, m) (u, n)
      → Below (add_weight fl (t, m) r) (add_weight fl (u, n) s)
  unfolding add_weight
  add_weight_mono r s t m u n i w b = ground (
    arith,
    add_mono m n r.weight r.weight,
    le_refl r.weight,
    le_add n r.weight,
    le_trans m n (add n r.weight),
  )

  weights_mono :
      (rs ss : List (CriterionEvalResult F)) (p q : F × F)
      → AllImprove rs ss
      → NonNegative fl rs
      → Below p q
      → Below (weights fl rs p) (weights fl ss q)
  unfolding weights
  weights_mono [] [] p q a h b = b
  weights_mono [] (s ∷ ss) p q a h b = elim a [ ]
  weights_mono (r ∷ rs) [] p q a h b = elim a [ ]
  weights_mono (r ∷ rs) (s ∷ ss) (t, m) (u, n) a h b =
      weights_mono rs ss (add_weight fl (t, m) r) (add_weight fl (u, n) s) a.1 h.1
        (add_weight_mono r s t m u n a.0 h.0 b)

  fails_mono :
      (rs ss : List (CriterionEvalResult F))
      → AllImprove rs ss
      → any fails_dealbreaker rs ≡ false
      → any fails_dealbreaker ss ≡ false
  fails_mono [] [] a h = refl
  fails_mono [] (s ∷ ss) a h = elim a [ ]
  fails_mono (r ∷ rs) [] a h = elim a [ ]
  fails_mono (r ∷ rs) (s ∷ ss) (i, a) h =
      let rest = fails_mono rs ss a in ground (arith, i.same_type, i.same_skipped, i.kept, rest)

  percentage_mono :
      (t m n : F)
      → le (of_ℕ 0) t ≡ true
      → le m n ≡ true
      → percentage fl (t, m) ≤ percentage fl (t, n)
  percentage_mono t m n z h = elim (Bool-cases (eq fl t (of_ℕ 0))) [
    | inl e ↦ rw e (omega arith)
    | inr e ↦
        let d = div_mono m n t (not_zero-positive fl t z e) h in
        rw e (
          round_mono _ _
            (mul_mono (div m t) (div n t) (of_ℕ 100) (of_ℕ_mono 0 100 (omega arith)) d))
  ]

  percentage-Below : (p q : F × F) → Ordered fl p → Below p q → percentage fl p ≤ percentage fl q
  percentage-Below (t, m) (u, n) o b =
      subst (λ v. percentage fl (t, m) ≤ percentage fl (v, n)) b.0
        (percentage_mono t m n (le_trans (of_ℕ 0) m t o.0 o.1) b.1)

  score_of_mono :
      (rs ss : List (CriterionEvalResult F))
      → AllImprove rs ss
      → NonNegative fl rs
      → score_of fl rs ≤ score_of fl ss
  unfolding score_of
  score_of_mono rs ss a h = elim (Bool-cases (any fails_dealbreaker rs)) [
    | inl fails ↦ rw fails (omega arith)
    | inr passes ↦
        rw (passes, fails_mono rs ss a passes)
          (percentage-Below (weights fl rs (of_ℕ 0, of_ℕ 0)) (weights fl ss (of_ℕ 0, of_ℕ 0))
            (weights-Ordered fl rs _ h (zero_Ordered fl))
            (weights_mono rs ss _ _ a h (refl, le_refl (of_ℕ 0))))
  ]

  -- Matching more of the same criteria never lowers the score, when no weight is negative.
  pub compute_score_mono :
      (rs ss : List (CriterionEvalResult F))
      → AllImprove rs ss
      → NonNegative fl rs
      → compute_score fl rs ≤ compute_score fl ss
  compute_score_mono rs ss a h =
      rw (compute_score-eq-score_of fl rs, compute_score-eq-score_of fl ss)
        (score_of_mono rs ss a h)

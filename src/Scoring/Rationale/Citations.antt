-- ===== src/Scoring/Rationale/Citations.antt =====
-- The rationale cites every criterion.
use mathlib.Core.List.{Memᴰ}
use mathlib.Core.List.Memᴰ
use deal_screening_agent.Prelude.{
  if◌then◌else◌, Bool-cases, select, ℕ, String, ◌≡◌, refl, ap, inl, inr, Bool, true, List, [], ◌∷◌,
  ◌++◌, map,
}
use deal_screening_agent.Models.Enums.{ConfidenceLevel, is_dealbreaker}
use deal_screening_agent.Models.Deal.{item, blank}
use deal_screening_agent.Scoring.Evaluator.{CriterionEvalResult}
use deal_screening_agent.Scoring.Compute.{fails_dealbreaker}
use deal_screening_agent.Scoring.Rationale.{
  section, generate_rationale, is_unmatched, dealbreaker_lines, matched_lines, unmatched_lines,
  skipped_lines,
}

mem-select {ℓ} :
    {A : Type ℓ} (p : A → Bool) (x : A) (xs : List A)
    → Memᴰ x xs
    → p x ≡ true
    → Memᴰ x (select p xs)
mem-select p x [] m h = elim m [ ]
mem-select p x (y ∷ ys) (Memᴰ.head e) h = rw (← e) (rw h (Memᴰ.head refl))
mem-select p x (y ∷ ys) (Memᴰ.tail m) h = elim (Bool-cases (p y)) [
  | inl k ↦ rw k (Memᴰ.tail (mem-select p x ys m h))
  | inr k ↦ rw k (mem-select p x ys m h)
]

mem-map {ℓ κ} :
    {A : Type ℓ} {B : Type κ} (f : A → B) (x : A) (xs : List A) → Memᴰ x xs → Memᴰ (f x) (map f xs)
mem-map f x [] m = elim m [ ]
mem-map f x (y ∷ ys) (Memᴰ.head e) = Memᴰ.head (ap f e)
mem-map f x (y ∷ ys) (Memᴰ.tail m) = Memᴰ.tail (mem-map f x ys m)

module _ {ℓ} {A : Type ℓ} {x y : A} (a b c d : List A) where
  in_first : Memᴰ x a → Memᴰ x (y ∷ (a ++ (b ++ (c ++ d))))
  in_first m = Memᴰ.tail (Memᴰ.append_left (b ++ (c ++ d)) m)

  in_second : Memᴰ x b → Memᴰ x (y ∷ (a ++ (b ++ (c ++ d))))
  in_second m = Memᴰ.tail (Memᴰ.append_right a (Memᴰ.append_left (c ++ d) m))

  in_third : Memᴰ x c → Memᴰ x (y ∷ (a ++ (b ++ (c ++ d))))
  in_third m = Memᴰ.tail (Memᴰ.append_right a (Memᴰ.append_right b (Memᴰ.append_left d m)))

  in_fourth : Memᴰ x d → Memᴰ x (y ∷ (a ++ (b ++ (c ++ d))))
  in_fourth m = Memᴰ.tail (Memᴰ.append_right a (Memᴰ.append_right b (Memᴰ.append_right c m)))

module _ {F : Type 0} (r : CriterionEvalResult F) where
  mem-section :
      (title mark : String) (rs : List (CriterionEvalResult F))
      → Memᴰ r rs
      → Memᴰ (item mark r.detail) (section title mark rs)
  unfolding section
  mem-section title mark [] m = elim m [ ]
  mem-section title mark (s ∷ rs) m =
      Memᴰ.tail (Memᴰ.append_left (blank ∷ []) (mem-map (λ x. item mark x.detail) r (s ∷ rs) m))

  -- The sign before a result's line, by how the evaluation ended.
  abbrev pub mark_of : String
  mark_of = if r.matched then "+" else if r.skipped then "?" else "-"

  -- Every result of the evaluation is cited in the rationale, with the mark of how it ended: met,
  -- not met (a dealbreaker or not) or not evaluated.
  pub generate_rationale-cites :
      (rs : List (CriterionEvalResult F)) (score : ℕ) (confidence : ConfidenceLevel)
      → Memᴰ r rs
      → Memᴰ (item mark_of r.detail) (generate_rationale rs score confidence)
  unfolding generate_rationale
  generate_rationale-cites [] score confidence m = elim m [ ]
  generate_rationale-cites (s ∷ rs) score confidence m =
      let results = s ∷ rs in
      let a = dealbreaker_lines results in
      let b = matched_lines results in
      let c = unmatched_lines results in
      let d = skipped_lines results in
      elim (Bool-cases r.matched) [
        | inl k ↦
            rw k
              (in_second a b c d (mem-section _ "+" _ (mem-select (λ x. x.matched) r results m k)))
        | inr k ↦ rw k (elim (Bool-cases r.skipped) [
          | inl z ↦
              rw z (
                in_fourth a b c d (mem-section _ "?" _ (mem-select (λ x. x.skipped) r results m z)))
          | inr z ↦ rw z (elim (Bool-cases (is_dealbreaker r.criterion_type)) [
            | inl e ↦
                in_first a b c d
                  (mem-section _ "-" _ (mem-select fails_dealbreaker r results m (rw (k, z, e))))
            | inr e ↦
                in_third a b c d
                  (mem-section _ "-" _ (mem-select is_unmatched r results m (rw (k, z, e))))
          ])
        ])
      ]

-- ===== src/Scoring/Evaluator/Operators.antt =====
-- The operators against one another.
use deal_screening_agent.Prelude.{
  is_some, Option-cases, any, String, ◌≡◌, refl, ◌⊎◌, inl, inr, false, not, ◌&&◌, none, some, [],
  ◌∷◌,
}
use deal_screening_agent.Float.{Float, eq}
use deal_screening_agent.Scoring.Evaluator.{Text, apply_operator}

module _ (fl : Float) (tx : Text fl.F) where
  open fl use {F, le}
  open tx use {Json, loads, items, float_of_string, float_of_json, strip, remove}

  -- `ne` is the negation of `eq` on every value and target; `not_in` is that of `in` when the target
  -- is a list, and false on any other target.
  pub apply_operator-membership :
      (v : String) (t : Json)
      → (apply_operator fl tx v "ne" t ≡ not (apply_operator fl tx v "eq" t))
        × (apply_operator fl tx v "not_in" t
            ≡ (is_some (items t) && not (apply_operator fl tx v "in" t)))
  unfolding apply_operator
  apply_operator-membership v t = elim (Option-cases (items t)) [
    | inl e ↦ (refl, rw e)
    | inr (ts, e) ↦ (refl, rw e)
  ]

  -- Where the value and the target are numbers, `gt` is the negation of `lte` and `lt` that of
  -- `gte`; `gte` and `lte` hold together exactly when the numbers compare equal.
  pub apply_operator-order :
      (v : String) (t : Json) (x y : F)
      → float_of_string (strip (remove "$" (remove "," v))) ≡ some x
      → float_of_json t ≡ some y
      → (apply_operator fl tx v "gt" t ≡ not (apply_operator fl tx v "lte" t))
        × (apply_operator fl tx v "lt" t ≡ not (apply_operator fl tx v "gte" t))
        × ((apply_operator fl tx v "lte" t && apply_operator fl tx v "gte" t) ≡ eq fl x y)
  unfolding apply_operator
  apply_operator-order v t x y e k = rw (e, k) (refl, refl, refl)

  -- A value or a target that is no number fails all four order operators.
  pub apply_operator-not_number :
      (v : String) (t : Json)
      → (float_of_string (strip (remove "$" (remove "," v))) ≡ none) ⊎ (float_of_json t ≡ none)
      → any (λ operator. apply_operator fl tx v operator t) ("gt" ∷ "lt" ∷ "gte" ∷ "lte" ∷ [])
        ≡ false
  unfolding apply_operator
  apply_operator-not_number v t (inl e) = rw e
  apply_operator-not_number v t (inr e) =
      elim (Option-cases (float_of_string (strip (remove "$" (remove "," v))))) [
        | inl n ↦ rw n
        | inr (x, k) ↦ rw (k, e)
      ]

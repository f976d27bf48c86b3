-- ===== src/Prelude/Dict.antt =====
-- Dicts with texts as keys, in the order of insertion.
use mathlib.Core.Path.{◌≡◌, refl}
use mathlib.Core.Logic.{inl, inr}
use mathlib.Core.Option.{Option, none, some}
use mathlib.Core.List.{List, [], ◌∷◌}
use Prim.Native.String.{String}
use text.Mathlib.TextEquality.{eq_iff as str_eq_iff}
use text.Mathlib.Text.{◌==◌ as str_eq}
use deal_screening_agent.Prelude.Tests.{if◌then◌else◌, Bool-cases, if-intro}
use deal_screening_agent.Prelude.Lists.{All, All-map}

abbrev pub Dict : Type 0 → Type 0
Dict A = List (String × A)

module _ {A : Type 0} where
  -- `d.get(key)`
  unfoldable pub find_item : String → Dict A → Option A
  find_item key [] = none
  find_item key ((k, a) ∷ d) = let rest = find_item key d in if str_eq k key then some a else rest

  -- `d[key] = a`
  unfoldable pub put_item : String → A → Dict A → Dict A
  put_item key a [] = (key, a) ∷ []
  put_item key a ((k, b) ∷ d) =
      let rest = put_item key a d in if str_eq k key then (k, a) ∷ d else (k, b) ∷ rest

  abbrev pub keys : Dict A → List String
  keys [] = []
  keys ((k, _) ∷ d) = k ∷ keys d

  pub All-put_item :
      (P : A → Type 0) (key : String) (a : A) (d : Dict A)
      → P a
      → All (λ (p : String × A). P p.1) d
      → All (λ (p : String × A). P p.1) (put_item key a d)
  unfolding put_item
  All-put_item P key a [] h t = (h, tt)
  All-put_item P key a ((k, b) ∷ d) h t =
      if-intro (All (λ (p : String × A). P p.1)) (str_eq k key) (h, t.1)
        (t.0, All-put_item P key a d h t.1)

  pub find_item-put_item :
      (key : String) (a : A) (d : Dict A) → find_item key (put_item key a d) ≡ some a
  unfolding find_item put_item
  find_item-put_item key a [] = rw ((str_eq_iff key key).1 refl) refl
  find_item-put_item key a ((k, b) ∷ d) = elim (Bool-cases (str_eq k key)) [
    | inl h ↦ rw (h, h) refl
    | inr h ↦ rw (h, h) (find_item-put_item key a d)
  ]

  -- a key's value is one of those in the dict
  abbrev pub IsAt : (A → Type 0) → Dict A → String → Type 0
  IsAt P d key = (a : A) × (find_item key d ≡ some a) × P a

  pub All-keys :
      (P : A → Type 0) (d : Dict A) → All (λ (p : String × A). P p.1) d → All (IsAt P d) (keys d)
  unfolding find_item
  All-keys P [] h = tt
  All-keys P ((k, b) ∷ d) h = (
    (b, rw ((str_eq_iff k k).1 refl) refl, h.0),
    All-map
        (λ key (i : IsAt P d key). elim (Bool-cases (str_eq k key)) [
          | inl e ↦ (b, rw e refl, h.0)
          | inr e ↦ (i.0, rw e i.1, i.2)
        ])
        (keys d) (All-keys P d h.1),
  )

-- ===== src/Prelude/Members.antt =====
-- Members of a list.
use mathlib.Core.List.{Memᴰ}
use deal_screening_agent.Prelude.Lists.{first, any, All, All-map}
use mathlib.Core.Path.{◌≡◌, refl, sym, subst}
use deal_screening_agent.Prelude.Tests.{Bool-cases}
use mathlib.Core.Bool.{Bool, true, false}
use mathlib.Core.Logic.{inl, inr}
use mathlib.Core.Option.{some}
use native.Mathlib.Omega.{arith}
use mathlib.Core.List.{List, [], ◌∷◌}

pub All-mem {ℓ κ} : {A : Type ℓ} (Q : A → Type κ) (x : A) (xs : List A) → All Q xs → Memᴰ x xs → Q x
All-mem Q x [] a m = elim m [ ]
All-mem Q x (y ∷ ys) a (Memᴰ.head e) = subst Q (sym e) a.0
All-mem Q x (y ∷ ys) a (Memᴰ.tail m) = All-mem Q x ys a.1 m

pub All-members {ℓ} : {A : Type ℓ} (xs : List A) → All (λ x. Memᴰ x xs) xs
All-members [] = tt
All-members (x ∷ xs) = (Memᴰ.head refl, All-map (λ y m. Memᴰ.tail m) xs (All-members xs))

-- A query finds a row if there is one.
pub first-mem {ℓ} :
    {A : Type ℓ} (p : A → Bool) (x : A) (xs : List A)
    → Memᴰ x xs
    → p x ≡ true
    → (y : A) × (first p xs ≡ some y)
first-mem p x [] m h = elim m [ ]
first-mem p x (y ∷ ys) m h = elim (Bool-cases (p y)) [
  | inl e ↦ (y, rw e refl)
  | inr e ↦ rw e (first-mem p x ys (later m e) h)
]
  where
    later : Memᴰ x (y ∷ ys) → p y ≡ false → Memᴰ x ys
    later (Memᴰ.head same) e = absurd (ground (arith, h, subst (λ z. p z ≡ false) (sym same) e))
    later (Memᴰ.tail k) e = k

pub any-mem {ℓ} :
    {A : Type ℓ} (p : A → Bool) (x : A) (xs : List A) → Memᴰ x xs → p x ≡ true → any p xs ≡ true
any-mem p x [] m h = elim m [ ]
any-mem p x (y ∷ ys) (Memᴰ.head e) h = rw (subst (λ z. p z ≡ true) e h) refl
any-mem p x (y ∷ ys) (Memᴰ.tail m) h = elim (Bool-cases (p y)) [
  | inl e ↦ rw e refl
  | inr e ↦ rw e (any-mem p x ys m h)
]

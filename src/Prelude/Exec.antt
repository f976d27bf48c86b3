-- ===== src/Prelude/Exec.antt =====
-- Code that changes a state and may raise. What was written before a raise stays written until a
-- transaction is rolled back, so the state comes back beside the error too.
use mathlib.Core.Bool.{Bool}
use mathlib.Core.Option.{Option, none, some}
use deal_screening_agent.Prelude.Tests.{if◌then◌else◌}

pub data Result {ℓ} (E A : Type ℓ) : Type ℓ where
  ok : A → Result E A
  err : E → Result E A

abbrev pub Exec {ℓ} : Type ℓ → Type ℓ → Type ℓ → Type ℓ
Exec S E A = S → Result E A × S

module _ {ℓ} {S E A : Type ℓ} where
  abbrev pub pure : A → Exec S E A
  pure a s = (ok a, s)

  abbrev pub raise : E → Exec S E A
  raise e s = (err e, s)

  abbrev pub gets : (S → A) → Exec S E A
  gets f s = (ok (f s), s)

  abbrev pub or_raise : Option A → E → Exec S E A
  or_raise none e = raise e
  or_raise (some a) e = pure a

  -- `async with session.begin()` and `get_db`: commit on success, roll back on a raise.
  abbrev pub rolled_back : S → Result E A × S → Result E A × S
  rolled_back before (ok a, s) = (ok a, s)
  rolled_back before (err e, s) = (err e, before)

  abbrev pub transaction : Exec S E A → Exec S E A
  transaction m s = rolled_back s (m s)

module _ {S E : Type 0} where
  abbrev pub modify : (S → S) → Exec S E Unit
  modify f s = (ok tt, f s)

  abbrev pub raise_if : Bool → E → Exec S E Unit
  raise_if c e s = (if c then err e else ok tt, s)

infixl 5 ◌>>=◌ ◌>>◌
abbrev pub ◌>>=◌ : {S E A B : Type 0} → Exec S E A → (A → Exec S E B) → Exec S E B
◌>>=◌ m f s = let (r, s') = m s in elim r [ ok a ↦ f a s' | err e ↦ raise e s' ]

abbrev pub ◌>>◌ : {S E A B : Type 0} → Exec S E A → Exec S E B → Exec S E B
m >> k = m >>= λ _. k

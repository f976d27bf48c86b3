-- ===== src/Prelude/Results.antt =====
-- Chains of fallible steps in do blocks, and tests that raise.
use mathlib.Core.Path.{◌≡◌, refl, subst}
use native.Mathlib.Omega.{arith}
use mathlib.Core.Bool.{Bool, true, false}
use deal_screening_agent.Prelude.Tests.{if◌then◌else◌}
use deal_screening_agent.Prelude.Exec.{Result, ok, err}

infixl 5 ◌>>=◌ ◌>>◌
abbrev pub ◌>>=◌ : {E A B : Type 0} → Result E A → (A → Result E B) → Result E B
ok a >>= f = f a
err e >>= f = err e

abbrev pub ◌>>◌ : {E A B : Type 0} → Result E A → Result E B → Result E B
m >> k = m >>= λ _. k

abbrev pub guard : {E : Type 0} → Bool → E → Result E (Unit {0})
guard true e = ok tt
guard false e = err e

abbrev pub is_ok : {E A : Type 0} → Result E A → Bool
is_ok (ok a) = true
is_ok (err e) = false

-- What holds of the value of a result that is no error.
abbrev pub Ensures : {E A : Type 0} → (A → Type 0) → Result E A → Type 0
Ensures P (ok a) = P a
Ensures P (err e) = Unit

pub Ensures-bind :
    {E A B : Type 0} (Q : A → Type 0) (P : B → Type 0) (m : Result E A) (f : A → Result E B)
    → Ensures Q m
    → ((a : A) → Q a → Ensures P (f a))
    → Ensures P (m >>= f)
Ensures-bind Q P (ok a) f q k = k a q
Ensures-bind Q P (err e) f q k = tt

pub Ensures-any : {E A : Type 0} (r : Result E A) → Ensures (λ a. Unit) r
Ensures-any (ok a) = tt
Ensures-any (err e) = tt

pub Ensures-ok :
    {E A : Type 0} (P : A → Type 0) (r : Result E A) (a : A) → Ensures P r → r ≡ ok a → P a
Ensures-ok P (ok b) a p e = subst P (ground arith) p
Ensures-ok P (err x) a p e = absurd (ground arith)

-- an early error
pub Ensures-else :
    {E A : Type 0} (P : A → Type 0) (b : Bool) (e : E) (r : Result E A)
    → (b ≡ false → Ensures P r)
    → Ensures P (if b then err e else r)
Ensures-else P true e r k = tt
Ensures-else P false e r k = k refl

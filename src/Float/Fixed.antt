-- ===== src/Float/Fixed.antt =====
-- Fixed-point numbers with 1024 steps to the unit: a concrete value of the interface, in which the
-- examples run.
use native.Mathlib.Nat.{le-div_iff_mul-le, mul-div-mul_right, mul-div_cancel_left}
use deal_screening_agent.Float.{Float}
use deal_screening_agent.Prelude.{
  leb, leb→le, le→leb, Bool-cases, ℕ, ◌+◌, ◌-◌, ◌*◌, ◌/◌, ◌^◌, ◌≤◌, ◌<◌, ◌≡◌, sym, ◌∙◌, inl, inr,
  true, false, arith,
}

leb-eq_of_iff : (a b c d : ℕ) → (a ≤ b → c ≤ d) → (c ≤ d → a ≤ b) → leb a b ≡ leb c d
leb-eq_of_iff a b c d f g = elim (Bool-cases (leb a b)) [
  | inl h ↦ rw h (sym (le→leb c d (f (leb→le a b h))))
  | inr h ↦ elim (Bool-cases (leb c d)) [
    | inl k ↦ absurd (ground (arith, g (leb→le c d k)))
    | inr k ↦ rw (h, k)
  ]
]

module _ (a b : ℕ) where
  pub of_ℕ_mono_fixed : a ≤ b → leb (a * 1024) (b * 1024) ≡ true
  of_ℕ_mono_fixed h = ground arith

  pub of_ℕ_lt_fixed : a < b → b < 2 ^ 50 → leb (b * 1024) (a * 1024) ≡ false
  of_ℕ_lt_fixed h _ = ground arith

  pub add_mono_fixed : (c d : ℕ) → leb a b ≡ true → leb c d ≡ true → leb (a + c) (b + d) ≡ true
  add_mono_fixed c d h k = ground arith

  pub mul_mono_fixed :
      (c : ℕ) → leb 0 c ≡ true → leb a b ≡ true → leb (a * c / 1024) (b * c / 1024) ≡ true
  mul_mono_fixed c _ h =
      let p : a * c ≤ b * c = grind (arith, leb→le a b h) in le→leb _ _ (omega arith)

  div_le : (c : ℕ) → 0 < c → a ≤ b → a / c ≤ b / c
  div_le c p h =
      let q : a / c * c ≤ a = (le-div_iff_mul-le {y = a} p).0 (omega arith) in
      (le-div_iff_mul-le {y = b} p).1 (omega arith)

  ratio_fixed :
      (k m : ℕ)
      → 0 < b
      → (k * b ≤ a * 1024 → m ≤ 4 * a)
      → (m ≤ 4 * a → k * b ≤ a * 1024)
      → leb k (a * 1024 * 1024 / (b * 1024)) ≡ leb m (4 * a)
  ratio_fixed k m p f g = rw (mul-div-mul_right {m = 1024} (a * 1024) b (omega arith)) (
      leb-eq_of_iff _ _ _ _ (λ h. f ((le-div_iff_mul-le p).0 h))
        (λ h. (le-div_iff_mul-le p).1 (g h)))

module _ (a b : ℕ) where
  pub div_mono_fixed :
      (c : ℕ) → leb c 0 ≡ false → leb a b ≡ true → leb (a * 1024 / c) (b * 1024 / c) ≡ true
  div_mono_fixed c z h = le→leb _ _ (div_le (a * 1024) (b * 1024) c (ground arith) (ground arith))

  pub ratio-one_fixed :
      0 < b → b < 2 ^ 50 → a ≤ b → leb 1024 (a * 1024 * 1024 / (b * 1024)) ≡ leb b a
  ratio-one_fixed p _ _ =
      ratio_fixed a b 1024 (4 * b) p (λ h. omega arith) (λ h. omega arith) ∙ ground arith

  pub ratio-three_quarters_fixed :
      0 < b → b < 2 ^ 50 → a ≤ b → leb 768 (a * 1024 * 1024 / (b * 1024)) ≡ leb (3 * b) (4 * a)
  ratio-three_quarters_fixed p _ _ =
      ratio_fixed a b 768 (3 * b) p (λ h. omega arith) (λ h. omega arith)

  pub ratio-half_fixed :
      0 < b → b < 2 ^ 50 → a ≤ b → leb 512 (a * 1024 * 1024 / (b * 1024)) ≡ leb b (2 * a)
  ratio-half_fixed p _ _ =
      ratio_fixed a b 512 (2 * b) p (λ h. omega arith) (λ h. omega arith) ∙ ground arith

pub div_self_fixed : (a : ℕ) → leb a 0 ≡ false → a * 1024 / a ≡ 1024
div_self_fixed a h = let p : 0 < a = ground arith in mul-div_cancel_left 1024 p

pub round_mono_fixed : (a b : ℕ) → leb a b ≡ true → (a + 512) / 1024 ≤ (b + 512) / 1024
round_mono_fixed a b h = let p : a ≤ b = leb→le a b h in omega arith

module _ (a b : ℕ) where
  pub le_total_fixed : leb a b ≡ false → leb b a ≡ true
  le_total_fixed h = ground arith

  pub le_trans_fixed : (c : ℕ) → leb a b ≡ true → leb b c ≡ true → leb a c ≡ true
  le_trans_fixed c h k = ground arith

  pub le_add_fixed : leb 0 b ≡ true → leb a (a + b) ≡ true
  le_add_fixed h = ground arith

  pub sub_le_fixed : leb 0 b ≡ true → leb (a - b) a ≡ true
  sub_le_fixed h = ground arith

pub nonneg_fixed : (a : ℕ) → leb 0 a ≡ true
nonneg_fixed a = ground arith

pub le_refl_fixed : (a : ℕ) → leb a a ≡ true
le_refl_fixed a = ground arith

pub one_mul_fixed : (n : ℕ) → 1024 * (n * 1024) / 1024 ≡ n * 1024
one_mul_fixed n = omega arith

pub round_fixed : (n : ℕ) → n < 2 ^ 50 → (n * 1024 + 512) / 1024 ≡ n
round_fixed n _ = omega arith

-- Division and multiplication drop what is below a step; `round` rounds half up.
abbrev pub fixed : Float
fixed = record {
  F = ℕ;
  of_ℕ = λ n. n * 1024;
  three_quarters = 768;
  half = 512;
  just_below_one = 1022;
  add = λ a b. a + b;
  sub = λ a b. a - b;
  mul = λ a b. a * b / 1024;
  div = λ a b. a * 1024 / b;
  le = leb;
  round = λ a. (a + 512) / 1024;
  trunc = λ a. a / 1024;
  le_refl = le_refl_fixed;
  le_trans = le_trans_fixed;
  le_total = le_total_fixed;
  of_ℕ_mono = of_ℕ_mono_fixed;
  of_ℕ_lt = of_ℕ_lt_fixed;
  add_mono = add_mono_fixed;
  le_add = le_add_fixed;
  sub_nonneg = λ a b _. nonneg_fixed (a - b);
  sub_le = sub_le_fixed;
  mul_nonneg = λ a b _ _. nonneg_fixed (a * b / 1024);
  mul_mono = mul_mono_fixed;
  one_mul = one_mul_fixed;
  div_mono = div_mono_fixed;
  div_self = div_self_fixed;
  round_mono = round_mono_fixed;
  round-of_ℕ = round_fixed;
  ratio-one = ratio-one_fixed;
  ratio-three_quarters = ratio-three_quarters_fixed;
  ratio-half = ratio-half_fixed;
}

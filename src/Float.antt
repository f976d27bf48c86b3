-- ===== src/Float.antt =====
-- The floating-point numbers of the program (criterion weights, tokens, seconds): a parameter of
-- the model, with facts about IEEE 754 arithmetic on finite numbers that the theorems rely on.

pub mod Fixed
use deal_screening_agent.Prelude.{
  leb, if◌then◌else◌, ℕ, ◌*◌, ◌^◌, ◌≤◌, ◌<◌, ◌≡◌, Bool, true, false, not, ◌&&◌,
}

-- Rounding to nearest is monotone and exact on representable values; every law below follows.
pub record Float : Type 1 where
  pub F : Type 0
  pub of_ℕ : ℕ → F
  pub three_quarters : F
  pub half : F
  -- 0.999
  pub just_below_one : F
  pub add : F → F → F
  pub sub : F → F → F
  pub mul : F → F → F
  pub div : F → F → F
  -- `a <= b`
  pub le : F → F → Bool
  -- `round`, half to even, on a number that is not negative
  pub round : F → ℕ
  -- `int`, on a number that is not negative
  pub trunc : F → ℕ
  pub le_refl : (a : F) → le a a ≡ true
  pub le_trans : (a b c : F) → le a b ≡ true → le b c ≡ true → le a c ≡ true
  pub le_total : (a b : F) → le a b ≡ false → le b a ≡ true
  -- rounding keeps the order, and is exact far below 2 ^ 53
  pub of_ℕ_mono : (m n : ℕ) → m ≤ n → le (of_ℕ m) (of_ℕ n) ≡ true
  pub of_ℕ_lt : (m n : ℕ) → m < n → n < 2 ^ 50 → le (of_ℕ n) (of_ℕ m) ≡ false
  pub add_mono : (a b c d : F) → le a b ≡ true → le c d ≡ true → le (add a c) (add b d) ≡ true
  -- adding a number that is not negative does not lower a sum
  pub le_add : (a b : F) → le (of_ℕ 0) b ≡ true → le a (add a b) ≡ true
  pub sub_nonneg : (a b : F) → le b a ≡ true → le (of_ℕ 0) (sub a b) ≡ true
  pub sub_le : (a b : F) → le (of_ℕ 0) b ≡ true → le (sub a b) a ≡ true
  pub mul_nonneg :
      (a b : F) → le (of_ℕ 0) a ≡ true → le (of_ℕ 0) b ≡ true → le (of_ℕ 0) (mul a b) ≡ true
  pub mul_mono : (a b c : F) → le (of_ℕ 0) c ≡ true → le a b ≡ true → le (mul a c) (mul b c) ≡ true
  -- `1.0 * n`
  pub one_mul : (n : ℕ) → mul (of_ℕ 1) (of_ℕ n) ≡ of_ℕ n
  pub div_mono : (a b c : F) → le c (of_ℕ 0) ≡ false → le a b ≡ true → le (div a c) (div b c) ≡ true
  pub div_self : (a : F) → le a (of_ℕ 0) ≡ false → div a a ≡ of_ℕ 1
  pub round_mono : (a b : F) → le a b ≡ true → round a ≤ round b
  pub round-of_ℕ : (n : ℕ) → n < 2 ^ 50 → round (of_ℕ n) ≡ n
  -- quotients of integers that are far below 2 ^ 53 compare with these three constants as the
  -- exact ratios do
  pub ratio-one :
      (a b : ℕ) → 0 < b → b < 2 ^ 50 → a ≤ b → le (of_ℕ 1) (div (of_ℕ a) (of_ℕ b)) ≡ leb b a
  pub ratio-three_quarters :
      (a b : ℕ)
      → 0 < b
      → b < 2 ^ 50
      → a ≤ b
      → le three_quarters (div (of_ℕ a) (of_ℕ b)) ≡ leb (3 * b) (4 * a)
  pub ratio-half :
      (a b : ℕ) → 0 < b → b < 2 ^ 50 → a ≤ b → le half (div (of_ℕ a) (of_ℕ b)) ≡ leb b (2 * a)

module _ (fl : Float) where
  open fl use {F, le}

  -- `a < b`
  abbrev pub lt : F → F → Bool
  lt a b = not (le b a)

  -- `a == b`
  abbrev pub eq : F → F → Bool
  eq a b = le a b && le b a

  -- Python's `max(a, b)` and `min(a, b)`: the first argument unless the second is past it.
  abbrev pub fmax : F → F → F
  fmax a b = if lt a b then b else a

  abbrev pub fmin : F → F → F
  fmin a b = if lt b a then b else a

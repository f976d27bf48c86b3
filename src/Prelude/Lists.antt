-- ===== src/Prelude/Lists.antt =====
-- Tables as lists of rows: the queries and updates of the program, and lists measured by native
-- numbers. A query on a unique key, or one with `limit(1)`, reads the first row that fits.
use Prim.Native.Nat.{ℕ, suc, ◌+◌, ◌≤◌}
use mathlib.Core.Path.{◌≡◌, refl, ap, subst}
use mathlib.Core.Logic.{inl, inr}
use mathlib.Core.Bool.{Bool, true, false, ◌&&◌, ◌||◌}
use mathlib.Core.Option.{Option, none, some}
use mathlib.Core.List.{List, [], ◌∷◌, ◌++◌}
use native.Mathlib.Omega.{arith}
use native.Mathlib.Nat.{le_refl}
use deal_screening_agent.Prelude.Tests.{
  ltb, if◌then◌else◌, is_some, ltb→lt, Bool-cases, Option-cases,
}

module _ {ℓ} {A : Type ℓ} where
  abbrev pub length : List A → ℕ
  length [] = 0
  length (x ∷ xs) = suc (length xs)

  -- the rows that pass the test, in order
  abbrev pub select : (A → Bool) → List A → List A
  select p [] = []
  select p (x ∷ xs) = let rest = select p xs in if p x then x ∷ rest else rest

  -- the first row that passes the test
  abbrev pub first : (A → Bool) → List A → Option A
  first p [] = none
  first p (x ∷ xs) = let rest = first p xs in if p x then some x else rest

  -- UPDATE … WHERE: every row that passes the test is changed
  abbrev pub update : (A → Bool) → (A → A) → List A → List A
  update p f [] = []
  update p f (x ∷ xs) = (if p x then f x else x) ∷ update p f xs

  abbrev pub count : (A → Bool) → List A → ℕ
  count p [] = 0
  count p (x ∷ xs) = (if p x then 1 else 0) + count p xs

  abbrev pub any : (A → Bool) → List A → Bool
  any p [] = false
  any p (x ∷ xs) = p x || any p xs

  abbrev pub all : (A → Bool) → List A → Bool
  all p [] = true
  all p (x ∷ xs) = p x && all p xs

  -- A proposition about every row.
  abbrev pub All {κ} : (A → Type κ) → List A → Type κ
  All P [] = Unit
  All P (x ∷ xs) = P x × All P xs

  abbrev pub better : (A → ℕ) → A → Option A → Option A
  better key x none = some x
  better key x (some y) = if ltb (key x) (key y) then some y else some x

  -- ORDER BY key DESC LIMIT 1; of equal keys the first row.
  abbrev pub latest : (A → ℕ) → List A → Option A
  latest key [] = none
  latest key (x ∷ xs) = better key x (latest key xs)

  abbrev smaller : (A → ℕ) → A → Option A → Option A
  smaller key x none = some x
  smaller key x (some y) = if ltb (key y) (key x) then some y else some x

  -- ORDER BY key ASC LIMIT 1; of equal keys the first row.
  abbrev pub earliest : (A → ℕ) → List A → Option A
  earliest key [] = none
  earliest key (x ∷ xs) = smaller key x (earliest key xs)

module _ {ℓ} {A : Type ℓ} where
  pub length-append : (xs ys : List A) → length (xs ++ ys) ≡ length xs + length ys
  length-append [] ys = omega arith
  length-append (x ∷ xs) ys = omega (arith, length-append xs ys)

  pub length-update : (p : A → Bool) (f : A → A) (xs : List A) → length (update p f xs) ≡ length xs
  length-update p f [] = refl
  length-update p f (x ∷ xs) = ap suc (length-update p f xs)

  pub length-select-le : (p : A → Bool) (xs : List A) → length (select p xs) ≤ length xs
  length-select-le p [] = omega arith
  length-select-le p (x ∷ xs) = ground (arith, length-select-le p xs)

  pub count-le-length : (p : A → Bool) (xs : List A) → count p xs ≤ length xs
  count-le-length p [] = omega arith
  count-le-length p (x ∷ xs) = ground (arith, count-le-length p xs)

  pub length-select-count : (p : A → Bool) (xs : List A) → length (select p xs) ≡ count p xs
  length-select-count p [] = refl
  length-select-count p (x ∷ xs) = ground (arith, length-select-count p xs)

  pub count-append : (p : A → Bool) (xs ys : List A) → count p (xs ++ ys) ≡ count p xs + count p ys
  count-append p [] ys = omega arith
  count-append p (x ∷ xs) ys = omega (arith, count-append p xs ys)

  pub first_sound : (p : A → Bool) (xs : List A) (x : A) → first p xs ≡ some x → p x ≡ true
  first_sound p [] x h = ground arith
  first_sound p (y ∷ xs) x h = ground (arith, first_sound p xs x)

  pub first-append :
      (p : A → Bool) (xs : List A) (y : A)
      → first p (xs ++ y ∷ [])
        ≡ (if is_some (first p xs) then first p xs else if p y then some y else none)
  first-append p [] y = refl
  first-append p (x ∷ xs) y = ground (arith, first-append p xs y)

module _ {ℓ κ} {A : Type ℓ} (P : A → Type κ) where
  pub All-append : (xs ys : List A) → All P xs → All P ys → All P (xs ++ ys)
  All-append [] ys hx hy = hy
  All-append (x ∷ xs) ys hx hy = (hx.0, All-append xs ys hx.1 hy)

  pub All-update :
      (p : A → Bool) (f : A → A) (xs : List A)
      → ((x : A) → p x ≡ true → P x → P (f x))
      → All P xs
      → All P (update p f xs)
  All-update p f [] h a = tt
  All-update p f (x ∷ xs) h a = (ground (arith, h x), All-update p f xs h a.1)

  pub All-first : (p : A → Bool) (xs : List A) (x : A) → All P xs → first p xs ≡ some x → P x
  All-first p [] x a e = absurd (ground arith)
  All-first p (y ∷ xs) x a e = elim (Bool-cases (p y)) [
    | inl h ↦ subst P (ground arith) a.0
    | inr h ↦ All-first p xs x a.1 (ground arith)
  ]

module _ {ℓ κ} {A : Type ℓ} (P : A → Type κ) where
  pub All-select :
      (p : A → Bool) (xs : List A) → All P xs → All (λ x. P x × (p x ≡ true)) (select p xs)
  All-select p [] a = tt
  All-select p (x ∷ xs) a = elim (Bool-cases (p x)) [
    | inl h ↦ rw h ((a.0, h), All-select p xs a.1)
    | inr h ↦ rw h (All-select p xs a.1)
  ]

  better-All :
      (key : A → ℕ) (x y : A) (o : Option A)
      → P x
      → ((z : A) → o ≡ some z → P z)
      → better key x o ≡ some y
      → P y
  better-All key x y none px po e = subst P (ground arith) px
  better-All key x y (some z) px po e = elim (Bool-cases (ltb (key x) (key z))) [
    | inl h ↦ subst P (ground arith) (po z refl)
    | inr h ↦ subst P (ground arith) px
  ]

  pub All-latest : (key : A → ℕ) (xs : List A) (y : A) → All P xs → latest key xs ≡ some y → P y
  All-latest key [] y a e = absurd (ground arith)
  All-latest key (x ∷ xs) y a e =
      better-All key x y (latest key xs) a.0 (λ z. All-latest key xs z a.1) e

  smaller-All :
      (key : A → ℕ) (x y : A) (o : Option A)
      → P x
      → ((z : A) → o ≡ some z → P z)
      → smaller key x o ≡ some y
      → P y
  smaller-All key x y none px po e = subst P (ground arith) px
  smaller-All key x y (some z) px po e = elim (Bool-cases (ltb (key z) (key x))) [
    | inl h ↦ subst P (ground arith) (po z refl)
    | inr h ↦ subst P (ground arith) px
  ]

  pub All-earliest : (key : A → ℕ) (xs : List A) (y : A) → All P xs → earliest key xs ≡ some y → P y
  All-earliest key [] y a e = absurd (ground arith)
  All-earliest key (x ∷ xs) y a e =
      smaller-All key x y (earliest key xs) a.0 (λ z. All-earliest key xs z a.1) e

module _ {ℓ} {A : Type ℓ} where
  pub All-map {κ μ} :
      {P : A → Type κ} {Q : A → Type μ} (f : (x : A) → P x → Q x) (xs : List A)
      → All P xs
      → All Q xs
  All-map f [] a = tt
  All-map f (x ∷ xs) a = (f x a.0, All-map f xs a.1)

  pub All-intro {κ} : {P : A → Type κ} (f : (x : A) → P x) (xs : List A) → All P xs
  All-intro f [] = tt
  All-intro f (x ∷ xs) = (f x, All-intro f xs)

  pub earliest-none {κ} :
      (P : A → Type κ) (key : A → ℕ) (xs : List A) → earliest key xs ≡ none → All P xs
  earliest-none P key [] e = tt
  earliest-none P key (x ∷ xs) e = elim (Option-cases (earliest key xs)) [
    | inl n ↦ absurd (ground arith)
    | inr (z, k) ↦ absurd (ground arith)
  ]

  -- The earliest row is no later than any other.
  pub earliest-le :
      (key : A → ℕ) (xs : List A) (y : A) → earliest key xs ≡ some y → All (λ x. key y ≤ key x) xs
  earliest-le key [] y e = tt
  earliest-le key (x ∷ xs) y e = elim (Option-cases (earliest key xs)) [
    | inl n ↦ (
      subst (λ z. key z ≤ key x) (ground arith) (le_refl (key x)),
      earliest-none (λ w. key y ≤ key w) key xs n,
    )
    | inr (z, k) ↦ elim (Bool-cases (ltb (key z) (key x))) [
      | inl h ↦
          let same : z ≡ y = ground arith in
          subst (λ v. All (λ w. key v ≤ key w) (x ∷ xs)) same
            (omega (arith, ltb→lt (key z) (key x) h), earliest-le key xs z k)
      | inr h ↦
          let same : x ≡ y = ground arith in
          subst (λ v. All (λ w. key v ≤ key w) (x ∷ xs)) same
            (
              le_refl (key x),
              All-map (λ w (q : key z ≤ key w). below h q) xs (earliest-le key xs z k),
            )
    ]
  ]
    where
      below : {a b c : ℕ} → ltb a b ≡ false → a ≤ c → b ≤ c
      below {a} {b} {c} h q = ground arith

  abbrev pub map_option : (A → A) → Option A → Option A
  map_option f none = none
  map_option f (some x) = some (f x)

  pub first-update :
      (p : A → Bool) (f : A → A) (xs : List A)
      → ((x : A) → p x ≡ true → p (f x) ≡ true)
      → first p (update p f xs) ≡ map_option f (first p xs)
  first-update p f [] same = refl
  first-update p f (x ∷ xs) same = elim (Bool-cases (p x)) [
    | inl e ↦ rw (e, same x e)
    | inr e ↦ rw (e, e) (first-update p f xs same)
  ]

  -- An update elsewhere does not show in a query.
  pub first-update_other :
      (q p : A → Bool) (f : A → A) (xs : List A)
      → ((x : A) → p x ≡ true → q (f x) ≡ false)
      → ((x : A) → p x ≡ true → q x ≡ false)
      → first q (update p f xs) ≡ first q xs
  first-update_other q p f [] h k = refl
  first-update_other q p f (x ∷ xs) h k = elim (Bool-cases (p x)) [
    | inl e ↦ rw (e, h x e, k x e) (first-update_other q p f xs h k)
    | inr e ↦ rw (e, first-update_other q p f xs h k)
  ]

-- ===== src/Deals/Listing/Order.antt =====
-- Sorted lists, and parts of lists.
use deal_screening_agent.Prelude.{
  if◌then◌else◌, Bool-cases, if-intro, count, All, All-map, ℕ, zero, suc, ◌+◌, ◌≡◌, refl, ap, ◌∙◌,
  inl, inr, Bool, true, false, Option, none, some, List, [], ◌∷◌, ◌++◌, map, arith,
}
use deal_screening_agent.Deals.Listing.{precedes, insert, ordered, drop, limited}

module _ {A : Type 0} (before : A → A → Bool) where
  -- each row may come before all the later ones
  abbrev pub IsOrdered : List A → Type 0
  IsOrdered [] = Unit
  IsOrdered (x ∷ xs) = All (λ y. before x y ≡ true) xs × IsOrdered xs

  count-insert :
      (p : A → Bool) (x : A) (xs : List A) → count p (insert before x xs) ≡ count p (x ∷ xs)
  unfolding insert
  count-insert p x [] = refl
  count-insert p x (y ∷ ys) = elim (Bool-cases (before x y)) [
    | inl e ↦ rw e refl
    | inr e ↦ rw e (omega (arith, count-insert p x ys))
  ]

  pub count-ordered : (p : A → Bool) (xs : List A) → count p (ordered before xs) ≡ count p xs
  unfolding ordered
  count-ordered p [] = refl
  count-ordered p (x ∷ xs) =
      count-insert p x (ordered before xs)
      ∙ ap (λ n. (if p x then 1 else 0) + n) (count-ordered p xs)

  All-insert : (P : A → Type 0) (x : A) (xs : List A) → P x → All P xs → All P (insert before x xs)
  unfolding insert
  All-insert P x [] h a = (h, tt)
  All-insert P x (y ∷ ys) h a = if-intro (All P) (before x y) (h, a) (a.0, All-insert P x ys h a.1)

  module _ (total : (x y : A) → before x y ≡ false → before y x ≡ true)
      (trans : (x y z : A) → before x y ≡ true → before y z ≡ true → before x z ≡ true) where
    insert-IsOrdered : (x : A) (xs : List A) → IsOrdered xs → IsOrdered (insert before x xs)
    unfolding insert
    insert-IsOrdered x [] o = (tt, tt)
    insert-IsOrdered x (y ∷ ys) o = elim (Bool-cases (before x y)) [
      | inl e ↦ rw e ((e, All-map (λ z h. trans x y z e h) ys o.0), o)
      | inr e ↦
          rw e
            (All-insert (λ z. before y z ≡ true) x ys (total x y e) o.0, insert-IsOrdered x ys o.1)
    ]

    pub ordered-IsOrdered : (xs : List A) → IsOrdered (ordered before xs)
    unfolding ordered
    ordered-IsOrdered [] = tt
    ordered-IsOrdered (x ∷ xs) = insert-IsOrdered x (ordered before xs) (ordered-IsOrdered xs)

pub limited-limited :
    {A : Type 0} (n m : ℕ) (xs : List A)
    → limited (n + m) xs ≡ limited n xs ++ limited m (drop n xs)
unfolding limited drop
limited-limited zero m xs = let e : zero + m ≡ m = omega arith in rw e refl
limited-limited (suc n) zero [] = let e : suc n + zero ≡ suc n = omega arith in rw e refl
limited-limited (suc n) (suc m) [] =
    let e : suc n + suc m ≡ suc (n + suc m) = omega arith in rw e refl
limited-limited (suc n) m (x ∷ xs) =
    let e : suc n + m ≡ suc (n + m) = omega arith in
    rw e (ap (λ ys. x ∷ ys) (limited-limited n m xs))

pub drop-drop : {A : Type 0} (n m : ℕ) (xs : List A) → drop (n + m) xs ≡ drop m (drop n xs)
unfolding drop
drop-drop zero m xs = let e : zero + m ≡ m = omega arith in rw e refl
drop-drop (suc n) zero [] = let e : suc n + zero ≡ suc n = omega arith in rw e refl
drop-drop (suc n) (suc m) [] = let e : suc n + suc m ≡ suc (n + suc m) = omega arith in rw e refl
drop-drop (suc n) m (x ∷ xs) =
    let e : suc n + m ≡ suc (n + m) = omega arith in rw e (drop-drop n m xs)

pub map-append :
    {A B : Type 0} (f : A → B) (xs ys : List A) → map f (xs ++ ys) ≡ map f xs ++ map f ys
map-append f [] ys = refl
map-append f (x ∷ xs) ys = ap (λ zs. f x ∷ zs) (map-append f xs ys)

pub precedes_total :
    (ascending : Bool) (a b : Option ℕ)
    → precedes ascending a b ≡ false
    → precedes ascending b a ≡ true
unfolding precedes
precedes_total ascending none none e = absurd (ground arith)
precedes_total ascending none (some b) e = refl
precedes_total ascending (some a) none e = absurd (ground arith)
precedes_total true (some a) (some b) e = ground arith
precedes_total false (some a) (some b) e = ground arith

pub precedes_trans :
    (ascending : Bool) (a b c : Option ℕ)
    → precedes ascending a b ≡ true
    → precedes ascending b c ≡ true
    → precedes ascending a c ≡ true
unfolding precedes
precedes_trans ascending a b none e f = refl
precedes_trans ascending none none (some c) e f = f
precedes_trans ascending none (some b) (some c) e f = absurd (ground arith)
precedes_trans ascending (some a) none (some c) e f = absurd (ground arith)
precedes_trans true (some a) (some b) (some c) e f = ground arith
precedes_trans false (some a) (some b) (some c) e f = ground arith

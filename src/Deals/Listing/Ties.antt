-- ===== src/Deals/Listing/Ties.antt =====
-- Sorting does not depend on the order of the rows that are read, if no two of them have equal keys.
use mathlib.Core.List.{Memᴰ, Permᴰ}
use deal_screening_agent.Prelude.{
  Bool-cases, count, All, All-members, ◌≡◌, refl, sym, ap, ◌∙◌, subst, inl, inr, Bool, true, false,
  List, [], ◌∷◌, arith,
}
use deal_screening_agent.Deals.Listing.{insert, ordered}

pub count-Perm :
    {A : Type 0} (p : A → Bool) {xs ys : List A} → Permᴰ xs ys → count p xs ≡ count p ys
count-Perm p Permᴰ.nil = refl
count-Perm p (Permᴰ.cons e d) = rw (e, count-Perm p d) refl
count-Perm p (Permᴰ.swap e f) = rw (e, f) (omega arith)
count-Perm p (Permᴰ.trans d e) = count-Perm p d ∙ count-Perm p e

module _ {A : Type 0} (before : A → A → Bool)
    (total : (x y : A) → before x y ≡ false → before y x ≡ true)
    (trans : (x y z : A) → before x y ≡ true → before y z ≡ true → before x z ≡ true) where
  insert-insert :
      (x y : A) (zs : List A)
      → (before x y ≡ true → before y x ≡ true → x ≡ y)
      → insert before x (insert before y zs) ≡ insert before y (insert before x zs)
  unfolding insert
  insert-insert x y [] same = elim (Bool-cases (before x y)) [
    | inl h ↦ elim (Bool-cases (before y x)) [
      | inl k ↦ rw (h, k, same h k) refl
      | inr k ↦ rw (h, k) refl
    ]
    | inr h ↦ rw (h, total x y h) refl
  ]
  insert-insert x y (z ∷ zs) same = elim (Bool-cases (before x z)) [
    | inl xz ↦ elim (Bool-cases (before y z)) [
      | inl yz ↦ elim (Bool-cases (before x y)) [
        | inl h ↦ elim (Bool-cases (before y x)) [
          | inl k ↦ rw (xz, yz, h, k, same h k) refl
          | inr k ↦ rw (xz, yz, h, k) refl
        ]
        | inr h ↦ rw (xz, yz, h, total x y h, xz) refl
      ]
      | inr yz ↦
          let later : before y x ≡ false = elim (Bool-cases (before y x)) [
            | inl k ↦ absurd (ground (arith, trans y x z k xz))
            | inr k ↦ k
          ] in
          rw (xz, yz, xz, later) refl
    ]
    | inr xz ↦ elim (Bool-cases (before y z)) [
      | inl yz ↦
          let later : before x y ≡ false = elim (Bool-cases (before x y)) [
            | inl k ↦ absurd (ground (arith, trans x y z k yz))
            | inr k ↦ k
          ] in
          rw (xz, yz, later, xz) refl
      | inr yz ↦ rw (xz, yz, xz) (ap (λ l. z ∷ l) (insert-insert x y zs same))
    ]
  ]

  module _ (rows : List A)
      (no_ties : (a b : A)
        → Memᴰ a rows
        → Memᴰ b rows
        → before a b ≡ true
        → before b a ≡ true
        → a ≡ b) where
    ordered-Perm :
        {xs ys : List A}
        → Permᴰ xs ys
        → All (λ a. Memᴰ a rows) xs
        → (ordered before xs ≡ ordered before ys) × All (λ a. Memᴰ a rows) ys
    unfolding ordered
    ordered-Perm Permᴰ.nil m = (refl, tt)
    ordered-Perm (Permᴰ.cons {a} {b} e d) m =
        let (same, m') = ordered-Perm d m.1 in
        (rw (e, same) refl, (subst (λ z. Memᴰ z rows) e m.0, m'))
    ordered-Perm (Permᴰ.swap {a' = a'} {b' = b'} {l = l} e f) m =
        let mb = subst (λ z. Memᴰ z rows) e m.0 in
        let ma = subst (λ z. Memᴰ z rows) f m.1.0 in
        (
          rw (e, f) (insert-insert b' a' (ordered before l) (no_ties b' a' mb ma)),
          (ma, (mb, m.1.1)),
        )
    ordered-Perm (Permᴰ.trans d e) m =
        let (same, m') = ordered-Perm d m in
        let (same', m'') = ordered-Perm e m' in (same ∙ same', m'')

    -- Two readings of the rows are sorted alike.
    pub ordered-readings :
        (xs ys : List A) → Permᴰ rows xs → Permᴰ rows ys → ordered before xs ≡ ordered before ys
    ordered-readings xs ys d e =
        sym (ordered-Perm d (All-members rows)).0 ∙ (ordered-Perm e (All-members rows)).0

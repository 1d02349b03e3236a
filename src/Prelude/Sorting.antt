-- ===== src/Prelude/Sorting.antt =====
-- What an `ORDER BY` establishes of the pairs of the sorted rows.
use mathlib.Core.Path.{◌≡◌, refl, subst}
use mathlib.Core.Bool.{Bool, true, false}
use mathlib.Core.Logic.{inl, inr}
use mathlib.Core.List.{List, [], ◌∷◌}
use harbor_shield.Prelude.Logic.{Bool-cases}
use harbor_shield.Prelude.Lists.{insert_by, order_by}
use harbor_shield.Prelude.Preds.{All, AllPairs, All-imp}
use harbor_shield.Prelude.Members.{In}

module _ {ℓ} {A : Type ℓ} (P : A → Type 0) (le : A → A → Bool) where
  All-insert_by : (x : A) (ys : List A) → P x → All P ys → All P (insert_by le x ys)
  unfolding insert_by
  All-insert_by x [] p h = (p, tt)
  All-insert_by x (y ∷ ys) p h = elim (Bool-cases (le x y)) [
    | inl first ↦ rw first (p, h)
    | inr later ↦ rw later (h.0, All-insert_by x ys p h.1)
  ]

  pub All-order_by : (xs : List A) → All P xs → All P (order_by le xs)
  unfolding order_by
  All-order_by [] h = tt
  All-order_by (x ∷ xs) h = All-insert_by x (order_by le xs) h.0 (All-order_by xs h.1)

module _ {ℓ} {A : Type ℓ} (R : A → A → Type 0) (le : A → A → Bool)
    (up : (x y : A) → le x y ≡ true → R x y) (down : (x y : A) → le x y ≡ false → R y x)
    (chain : (x y z : A) → R x y → R y z → R x z) where
  AllPairs-insert_by : (x : A) (ys : List A) → AllPairs R ys → AllPairs R (insert_by le x ys)
  unfolding insert_by
  AllPairs-insert_by x [] h = (tt, tt)
  AllPairs-insert_by x (y ∷ ys) h = elim (Bool-cases (le x y)) [
    | inl first ↦
        rw first
          ((up x y first, All-imp (R y) (R x) ys (λ z r. chain x y z (up x y first) r) h.0), h)
    | inr later ↦
        rw later (All-insert_by (R y) le x ys (down x y later) h.0, AllPairs-insert_by x ys h.1)
  ]

  -- Every earlier row of the result is related to every later one.
  pub AllPairs-order_by : (xs : List A) → AllPairs R (order_by le xs)
  unfolding order_by
  AllPairs-order_by [] = tt
  AllPairs-order_by (x ∷ xs) = AllPairs-insert_by x (order_by le xs) (AllPairs-order_by xs)

module _ {A : Type 0} (le : A → A → Bool) where
  In-insert_by_self : (x : A) (ys : List A) → In x (insert_by le x ys)
  unfolding insert_by
  In-insert_by_self x [] = inl refl
  In-insert_by_self x (y ∷ ys) = elim (Bool-cases (le x y)) [
    | inl first ↦ rw first (inl refl)
    | inr later ↦ rw later (inr (In-insert_by_self x ys))
  ]

  In-insert_by : (z x : A) (ys : List A) → In z ys → In z (insert_by le x ys)
  unfolding insert_by
  In-insert_by z x [] i = inr i
  In-insert_by z x (y ∷ ys) i = elim (Bool-cases (le x y)) [
    | inl first ↦ rw first (inr i)
    | inr later ↦ rw later (elim i [ inl e ↦ inl e | inr j ↦ inr (In-insert_by z x ys j) ])
  ]

  pub In-order_by : (z : A) (xs : List A) → In z xs → In z (order_by le xs)
  unfolding order_by
  In-order_by z [] i = i
  In-order_by z (x ∷ xs) (inl e) =
      subst (λ y. In z (insert_by le y (order_by le xs))) e (In-insert_by_self z (order_by le xs))
  In-order_by z (x ∷ xs) (inr i) = In-insert_by z x (order_by le xs) (In-order_by z xs i)

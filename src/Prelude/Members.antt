-- ===== src/Prelude/Members.antt =====
-- Membership, and what a filter's members are.
use mathlib.Core.Path.{◌≡◌, refl, sym, subst}
use mathlib.Core.Bool.{Bool, true}
use mathlib.Core.Logic.{◌⊎◌, inl, inr}
use mathlib.Core.List.{List, [], ◌∷◌}
use harbor_shield.Prelude.Logic.{Bool-cases}
use harbor_shield.Prelude.Lists.{keep}
use harbor_shield.Prelude.Preds.{All, All-imp}

module _ {A : Type 0} where
  abbrev pub In : A → List A → Type 0
  In x [] = ⊥
  In x (y ∷ ys) = (x ≡ y) ⊎ In x ys

  pub All-In : (xs : List A) → All (λ x. In x xs) xs
  All-In [] = tt
  All-In (x ∷ xs) =
      (inl refl, All-imp (λ y. In y xs) (λ y. In y (x ∷ xs)) xs (λ y. inr) (All-In xs))

  pub All-at : (P : A → Type 0) (x : A) (xs : List A) → All P xs → In x xs → P x
  All-at P x [] h i = elim i [ ]
  All-at P x (y ∷ ys) h (inl e) = subst P (sym e) h.0
  All-at P x (y ∷ ys) h (inr i) = All-at P x ys h.1 i

  pub In-keep : (q : A → Bool) (x : A) (xs : List A) → In x xs → q x ≡ true → In x (keep q xs)
  In-keep q x [] i h = i
  In-keep q x (y ∷ ys) (inl e) h =
      let here : q y ≡ true = subst (λ z. q z ≡ true) e h in rw here (inl e)
  In-keep q x (y ∷ ys) (inr i) h = elim (Bool-cases (q y)) [
    | inl here ↦ rw here (inr (In-keep q x ys i h))
    | inr there ↦ rw there (In-keep q x ys i h)
  ]

module _ {A : Type 0} (P : A → Type 0) (q : A → Bool) where
  -- What holds of the rows that are kept, and their test.
  pub All-keep_test : (xs : List A) → All P xs → All (λ x. P x × (q x ≡ true)) (keep q xs)
  All-keep_test [] h = tt
  All-keep_test (x ∷ xs) h = elim (Bool-cases (q x)) [
    | inl here ↦ rw here ((h.0, here), All-keep_test xs h.1)
    | inr there ↦ rw there (All-keep_test xs h.1)
  ]

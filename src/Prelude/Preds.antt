-- ===== src/Prelude/Preds.antt =====
-- Predicates on the members of a list and on its pairs, and what filters and updates keep of them.
use mathlib.Core.Path.{◌≡◌, refl, subst}
use mathlib.Core.Bool.{Bool, true, false}
use mathlib.Core.Option.{some}
use mathlib.Core.List.{List, [], ◌∷◌, ◌++◌}
use native.Mathlib.Omega.{arith}
use harbor_shield.Prelude.Tests.{if◌then◌else◌}
use mathlib.Core.Logic.{inl, inr}
use harbor_shield.Prelude.Logic.{Bool-cases}
use harbor_shield.Prelude.Lists.{any, keep, find, first_of, update}

module _ {ℓ κ} {A : Type ℓ} where
  abbrev pub All : (A → Type κ) → List A → Type κ
  All P [] = Unit
  All P (x ∷ xs) = P x × All P xs

  abbrev pub AllPairs : (A → A → Type κ) → List A → Type κ
  AllPairs R [] = Unit
  AllPairs R (x ∷ xs) = All (R x) xs × AllPairs R xs

module _ {ℓ κ} {A : Type ℓ} (P : A → Type κ) where
  pub All-snoc : (xs : List A) (x : A) → All P xs → P x → All P (xs ++ x ∷ [])
  All-snoc [] x h p = (p, tt)
  All-snoc (y ∷ xs) x h p = (h.0, All-snoc xs x h.1 p)

  All-if : (b : Bool) (x : A) (xs : List A) → P x → All P xs → All P (if b then x ∷ xs else xs)
  All-if true x xs p h = (p, h)
  All-if false x xs p h = h

  pub All-keep : (q : A → Bool) (xs : List A) → All P xs → All P (keep q xs)
  All-keep q [] h = tt
  All-keep q (x ∷ xs) h = All-if (q x) x (keep q xs) h.0 (All-keep q xs h.1)

  pub All-of_All : (xs : List A) → ((x : A) → P x) → All P xs
  All-of_All [] f = tt
  All-of_All (x ∷ xs) f = (f x, All-of_All xs f)

  pub All-find : (q : A → Bool) (xs : List A) (x : A) → All P xs → find q xs ≡ some x → P x
  All-find q [] x h e = absurd (cc)
  All-find q (y ∷ xs) x h e = elim (Bool-cases (q y)) [
    | inl here ↦ let same : y ≡ x = ground arith in subst P same h.0
    | inr later ↦ All-find q xs x h.1 (ground arith)
  ]

module _ {ℓ κ} {A : Type ℓ} (P : A → Type κ) where
  pub All-first_of : (xs : List A) (x : A) → All P xs → first_of xs ≡ some x → P x
  All-first_of [] x h e = absurd (cc)
  All-first_of (y ∷ xs) x h e = let same : y ≡ x = cc in subst P same h.0

module _ {ℓ κ μ} {A : Type ℓ} (P : A → Type κ) (Q : A → Type μ) where
  pub All-imp : (xs : List A) → ((x : A) → P x → Q x) → All P xs → All Q xs
  All-imp [] f h = tt
  All-imp (x ∷ xs) f h = (f x h.0, All-imp xs f h.1)

  pub All-zip : (xs : List A) → All P xs → All Q xs → All (λ x. P x × Q x) xs
  All-zip [] h k = tt
  All-zip (x ∷ xs) h k = ((h.0, k.0), All-zip xs h.1 k.1)

module _ {ℓ} {A : Type ℓ} (p : A → Bool) where
  pub find-test : (xs : List A) (x : A) → find p xs ≡ some x → p x ≡ true
  find-test [] x e = cc
  find-test (y ∷ xs) x e = elim (Bool-cases (p y)) [
    | inl here ↦ ground arith
    | inr later ↦ find-test xs x (ground arith)
  ]

  -- A test that no member passes.
  pub All-of_not_any : (xs : List A) → any p xs ≡ false → All (λ x. p x ≡ false) xs
  unfolding any
  All-of_not_any [] h = tt
  All-of_not_any (x ∷ xs) h = (ground arith, All-of_not_any xs (ground arith))

module _ {ℓ} {A : Type ℓ} (P : A → Type 0) where
  pub All-update :
      (p : A → Bool) (f : A → A) (xs : List A)
      → ((x : A) → P x → P (if p x then f x else x))
      → All P xs
      → All P (update p f xs)
  All-update p f [] k h = tt
  All-update p f (x ∷ xs) k h = (k x h.0, All-update p f xs k h.1)

  -- What holds of every row after the update, whatever the row was.
  pub All-update_any :
      (p : A → Bool) (f : A → A) (xs : List A)
      → ((x : A) → P (if p x then f x else x))
      → All P (update p f xs)
  All-update_any p f [] k = tt
  All-update_any p f (x ∷ xs) k = (k x, All-update_any p f xs k)

module _ {ℓ} {A : Type ℓ} (R : A → A → Type 0) where
  pub AllPairs-snoc :
      (xs : List A) (x : A) → AllPairs R xs → All (λ y. R y x) xs → AllPairs R (xs ++ x ∷ [])
  AllPairs-snoc [] x h k = (tt, tt)
  AllPairs-snoc (y ∷ xs) x h k = (All-snoc (R y) xs x h.0 k.0, AllPairs-snoc xs x h.1 k.1)

  AllPairs-if :
      (b : Bool) (x : A) (xs : List A)
      → All (R x) xs
      → AllPairs R xs
      → AllPairs R (if b then x ∷ xs else xs)
  AllPairs-if true x xs p h = (p, h)
  AllPairs-if false x xs p h = h

  pub AllPairs-keep : (q : A → Bool) (xs : List A) → AllPairs R xs → AllPairs R (keep q xs)
  AllPairs-keep q [] h = tt
  AllPairs-keep q (x ∷ xs) h =
      AllPairs-if (q x) x (keep q xs) (All-keep (R x) q xs h.0) (AllPairs-keep q xs h.1)

module _ {ℓ} {A : Type ℓ} (P : A → Type 0) (R : A → A → Type 0) where
  All-update_pair :
      (p : A → Bool) (f : A → A) (x : A) (xs : List A)
      → ((y : A) → P y → R x y → R (if p x then f x else x) (if p y then f y else y))
      → All P xs
      → All (R x) xs
      → All (R (if p x then f x else x)) (update p f xs)
  All-update_pair p f x [] k g h = tt
  All-update_pair p f x (y ∷ xs) k g h = (k y g.0 h.0, All-update_pair p f x xs k g.1 h.1)

  -- Pairs stay related under an update, where the members are known to be `P`.
  pub AllPairs-update :
      (p : A → Bool) (f : A → A) (xs : List A)
      → ((x y : A) → P x → P y → R x y → R (if p x then f x else x) (if p y then f y else y))
      → All P xs
      → AllPairs R xs
      → AllPairs R (update p f xs)
  AllPairs-update p f [] k g h = tt
  AllPairs-update p f (x ∷ xs) k g h = (
    All-update_pair p f x xs (λ y py r. k x y g.0 py r) g.1 h.0,
    AllPairs-update p f xs k g.1 h.1,
  )

module _ {ℓ} {A : Type ℓ} (q : A → Bool) where
  -- A filter does not see an update of rows that it drops before and after.
  pub keep-update :
      (p : A → Bool) (f : A → A) (xs : List A)
      → All (λ x. p x ≡ true → (q x ≡ false) × (q (f x) ≡ false)) xs
      → keep q (update p f xs) ≡ keep q xs
  keep-update p f [] h = refl
  keep-update p f (x ∷ xs) h = ground (arith, keep-update p f xs h.1)

  -- Nor a deletion of rows that it drops.
  pub keep-keep :
      (p : A → Bool) (xs : List A)
      → All (λ x. p x ≡ false → q x ≡ false) xs
      → keep q (keep p xs) ≡ keep q xs
  keep-keep p [] h = refl
  keep-keep p (x ∷ xs) h = ground (arith, keep-keep p xs h.1)

  pub keep-snoc : (xs : List A) (x : A) → q x ≡ false → keep q (xs ++ x ∷ []) ≡ keep q xs
  keep-snoc [] x h = ground arith
  keep-snoc (y ∷ xs) x h = ground (arith, keep-snoc xs x h)

module _ {ℓ} {A : Type ℓ} (R S : A → A → Type 0) where
  pub AllPairs-zip :
      (xs : List A) → AllPairs R xs → AllPairs S xs → AllPairs (λ x y. R x y × S x y) xs
  AllPairs-zip [] h k = tt
  AllPairs-zip (x ∷ xs) h k = (All-zip (R x) (S x) xs h.0 k.0, AllPairs-zip xs h.1 k.1)

  pub AllPairs-imp : (xs : List A) → ((x y : A) → R x y → S x y) → AllPairs R xs → AllPairs S xs
  AllPairs-imp [] f h = tt
  AllPairs-imp (x ∷ xs) f h = (All-imp (R x) (S x) xs (f x) h.0, AllPairs-imp xs f h.1)

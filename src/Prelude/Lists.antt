-- ===== src/Prelude/Lists.antt =====
-- Lists over the native numbers: length, quantified tests, filters, and `ORDER BY`.
use Prim.Native.Nat.{ℕ, suc, ◌+◌}
use mathlib.Core.Path.{◌≡◌, refl, ap, ◌∙◌}
use mathlib.Core.Bool.{Bool, true, false, ◌&&◌, ◌||◌}
use mathlib.Core.Option.{Option, none, some}
use mathlib.Core.Bool.{Bool-set}
use mathlib.Core.Logic.{∥∥₁_elim}
use mathlib.Core.List.{List, [], ◌∷◌, ◌++◌, Perm, Permᴰ}
use native.Mathlib.Omega.{arith}
use harbor_shield.Prelude.Tests.{if◌then◌else◌}

module _ {ℓ} {A : Type ℓ} where
  abbrev pub length : List A → ℕ
  length [] = 0
  length (x ∷ xs) = suc (length xs)

  abbrev pub is_empty : List A → Bool
  is_empty [] = true
  is_empty (x ∷ xs) = false

  unfoldable pub any : (A → Bool) → List A → Bool
  any p [] = false
  any p (x ∷ xs) = p x || any p xs

  unfoldable pub all : (A → Bool) → List A → Bool
  all p [] = true
  all p (x ∷ xs) = p x && all p xs

  -- The rows that a `WHERE` keeps.
  abbrev pub keep : (A → Bool) → List A → List A
  keep p [] = []
  keep p (x ∷ xs) = let rest = keep p xs in if p x then x ∷ rest else rest

  -- The first row of a result, as `QueryRow` scans it.
  abbrev pub find : (A → Bool) → List A → Option A
  find p [] = none
  find p (x ∷ xs) = if p x then some x else find p xs

  -- `LIMIT 1`
  abbrev pub first_of : List A → Option A
  first_of [] = none
  first_of (x ∷ xs) = some x

  -- `UPDATE … WHERE`: the rows that pass the test are changed in place.
  abbrev pub update : (A → Bool) → (A → A) → List A → List A
  update p f [] = []
  update p f (x ∷ xs) = (if p x then f x else x) ∷ update p f xs

  unfoldable pub insert_by : (A → A → Bool) → A → List A → List A
  insert_by le x [] = x ∷ []
  insert_by le x (y ∷ ys) = if le x y then x ∷ y ∷ ys else y ∷ insert_by le x ys

  -- `ORDER BY`: a stable sort.
  unfoldable pub order_by : (A → A → Bool) → List A → List A
  unfolding insert_by
  order_by le [] = []
  order_by le (x ∷ xs) = insert_by le x (order_by le xs)

module _ {ℓ} {A : Type ℓ} (p : A → Bool) where
  pub any-insert_by :
      (le : A → A → Bool) (x : A) (xs : List A) → any p (insert_by le x xs) ≡ (p x || any p xs)
  unfolding any insert_by
  any-insert_by le x [] = refl
  any-insert_by le x (y ∷ ys) = ground (arith, any-insert_by le x ys)

  pub any-order_by : (le : A → A → Bool) (xs : List A) → any p (order_by le xs) ≡ any p xs
  unfolding any order_by
  any-order_by le [] = refl
  any-order_by le (x ∷ xs) =
      any-insert_by le x (order_by le xs) ∙ ap (λ b. p x || b) (any-order_by le xs)

  any-permᴰ : {xs ys : List A} → Permᴰ xs ys → any p xs ≡ any p ys
  unfolding any
  any-permᴰ Permᴰ.nil = refl
  any-permᴰ (Permᴰ.cons {a} {b} e q) = ground (arith, ap p e, any-permᴰ q)
  any-permᴰ (Permᴰ.swap e k) = ground (arith, ap p e, ap p k)
  any-permᴰ (Permᴰ.trans q r) = any-permᴰ q ∙ any-permᴰ r

  pub any-perm : (xs ys : List A) → Perm xs ys → any p xs ≡ any p ys
  any-perm xs ys q = ∥∥₁_elim q (Bool-set _ _) any-permᴰ

  pub any-append : (xs ys : List A) → any p (xs ++ ys) ≡ (any p xs || any p ys)
  unfolding any
  any-append [] ys = refl
  any-append (x ∷ xs) ys = ground (arith, any-append xs ys)

pub length-append {ℓ} : {A : Type ℓ} (xs ys : List A) → length (xs ++ ys) ≡ length xs + length ys
length-append [] ys = omega arith
length-append (x ∷ xs) ys = omega (arith, length-append xs ys)

-- ===== src/Prelude/Upsert.antt =====
-- `INSERT … ON CONFLICT DO UPDATE` on a unique key, and what a look-up finds after it.
use mathlib.Core.Path.{◌≡◌, refl}
use mathlib.Core.Logic.{inl, inr}
use mathlib.Core.Bool.{Bool, true, false}
use mathlib.Core.Option.{Option, none, some}
use mathlib.Core.List.{List, [], ◌∷◌, ◌++◌}
use native.Mathlib.Omega.{arith}
use harbor_shield.Prelude.Tests.{if◌then◌else◌}
use harbor_shield.Prelude.Logic.{Bool-cases}
use harbor_shield.Prelude.Lists.{any, find, update}

module _ {ℓ} {A : Type ℓ} where
  -- A row with the key is changed, or else the fresh row is added.
  unfoldable pub upsert_row : (A → Bool) → (A → A) → A → List A → List A
  unfolding any
  upsert_row test change fresh rows =
      if any test rows then update test change rows else rows ++ fresh ∷ []

  abbrev pub changed : (A → A) → A → Option A → A
  changed change fresh none = fresh
  changed change fresh (some x) = change x

  module _ (p : A → Bool) (f : A → A) (fresh : A) where
    find-update_same :
        ((x : A) → p (f x) ≡ p x)
        → (rows : List A) → any p rows ≡ true
        → find p (update p f rows) ≡ some (changed f fresh (find p rows))
    unfolding any
    find-update_same k [] h = cc
    find-update_same k (x ∷ rows) h = elim (Bool-cases (p x)) [
      | inl here ↦ ground (arith, k x)
      | inr there ↦ ground (arith, find-update_same k rows (ground arith))
    ]

    find-snoc_same :
        p fresh ≡ true
        → (rows : List A) → any p rows ≡ false
        → find p (rows ++ fresh ∷ []) ≡ some (changed f fresh (find p rows))
    unfolding any
    find-snoc_same k [] h = rw k
    find-snoc_same k (x ∷ rows) h = ground (arith, find-snoc_same k rows (ground arith))

    -- With its own key, the row that was there is found changed, and else the fresh one.
    pub find-upsert_row :
        ((x : A) → p (f x) ≡ p x)
        → p fresh ≡ true
        → (rows : List A)
        → find p (upsert_row p f fresh rows) ≡ some (changed f fresh (find p rows))
    unfolding upsert_row
    find-upsert_row k n rows = elim (Bool-cases (any p rows)) [
      | inl there ↦ rw there (find-update_same k rows there)
      | inr absent ↦ rw absent (find-snoc_same n rows absent)
    ]

    module _ (q : A → Bool) where
      find-update_other :
          ((x : A) → p x ≡ true → (q x ≡ false) × (q (f x) ≡ false))
          → (rows : List A) → find q (update p f rows) ≡ find q rows
      find-update_other k [] = refl
      find-update_other k (x ∷ rows) = elim (Bool-cases (p x)) [
        | inl here ↦ let (before, after) = k x here in ground (arith, find-update_other k rows)
        | inr there ↦ ground (arith, find-update_other k rows)
      ]

      find-snoc_other :
          q fresh ≡ false → (rows : List A) → find q (rows ++ fresh ∷ []) ≡ find q rows
      find-snoc_other k [] = rw k
      find-snoc_other k (x ∷ rows) = ground (arith, find-snoc_other k rows)

      -- With another key, what was there is found.
      pub find-upsert_row_other :
          ((x : A) → p x ≡ true → (q x ≡ false) × (q (f x) ≡ false))
          → q fresh ≡ false
          → (rows : List A) → find q (upsert_row p f fresh rows) ≡ find q rows
      unfolding upsert_row
      find-upsert_row_other k n rows = elim (Bool-cases (any p rows)) [
        | inl there ↦ rw there (find-update_other k rows)
        | inr absent ↦ rw absent (find-snoc_other n rows)
      ]

-- ===== src/Jobs/Claims.antt =====
-- What ClaimDue claims.
use mathlib.Core.Path.{subst}
use harbor_shield.Prelude.{
  ◌≡◌, inl, inr, ℕ, true, false, none, some, List, [], ◌∷◌, arith, All, AllPairs, All-order_by,
  AllPairs-order_by, In-order_by, first_of, keep, order_by, Bool-cases,
}
use harbor_shield.Prelude.Members.{In, All-In, All-at, In-keep, All-keep_test}
use harbor_shield.Jobs.{JobRow, is_due, is_before, candidate}

-- A due row that no other due row has to go before.
pub record IsNext (now : ℕ) (jobs : List JobRow) (c : JobRow) : Type 0 where
  pub stored : In c jobs
  pub due : is_due now c ≡ true
  pub first : (j : JobRow) → In j jobs → is_due now j ≡ true → is_before c j ≡ true

is_before_total : (i j : JobRow) → is_before i j ≡ false → is_before j i ≡ true
unfolding is_before
is_before_total i j h = ground arith

is_before_refl : (i : JobRow) → is_before i i ≡ true
unfolding is_before
is_before_refl i = ground arith

is_before_trans :
    (i j k : JobRow) → is_before i j ≡ true → is_before j k ≡ true → is_before i k ≡ true
unfolding is_before
is_before_trans i j k g h = ground arith

module _ (now : ℕ) (jobs : List JobRow) where
  abbrev sorted : List JobRow
  sorted = order_by is_before (keep (is_due now) jobs)

  head-IsNext :
      (rows : List JobRow) (c : JobRow)
      → AllPairs (λ i j. is_before i j ≡ true) (c ∷ rows)
      → All (λ j. In j jobs × (is_due now j ≡ true)) (c ∷ rows)
      → ((j : JobRow) → In j jobs → is_due now j ≡ true → In j (c ∷ rows))
      → IsNext now jobs c
  head-IsNext rows c pairs members complete = record {
    stored = members.0.0;
    due = members.0.1;
    first = λ j i d.
        All-at (λ k. is_before c k ≡ true) j (c ∷ rows) (is_before_refl c, pairs.0)
          (complete j i d);
  }

  first_of-IsNext :
      (rows : List JobRow) (c : JobRow)
      → AllPairs (λ i j. is_before i j ≡ true) rows
      → All (λ j. In j jobs × (is_due now j ≡ true)) rows
      → ((j : JobRow) → In j jobs → is_due now j ≡ true → In j rows)
      → first_of rows ≡ some c
      → IsNext now jobs c
  first_of-IsNext [] c pairs members complete h = absurd (cc)
  first_of-IsNext (d ∷ rows) c pairs members complete h =
      let same : d ≡ c = cc in
      subst (IsNext now jobs) same (head-IsNext rows d pairs members complete)

  pub candidate-IsNext : (c : JobRow) → candidate now jobs ≡ some c → IsNext now jobs c
  unfolding candidate
  candidate-IsNext c =
      first_of-IsNext (order_by is_before (keep (is_due now) jobs)) c
        (AllPairs-order_by (λ i j. is_before i j ≡ true) is_before (λ i j h. h) is_before_total
          is_before_trans (keep (is_due now) jobs))
        (All-order_by (λ j. In j jobs × (is_due now j ≡ true)) is_before (keep (is_due now) jobs)
          (All-keep_test (λ j. In j jobs) (is_due now) jobs (All-In jobs)))
        (λ j i d.
          In-order_by is_before j (keep (is_due now) jobs) (In-keep (is_due now) j jobs i d))

  first_of-none : (rows : List JobRow) (j : JobRow) → first_of rows ≡ none → In j rows → ⊥
  first_of-none [] j h i = i
  first_of-none (k ∷ rows) j h i = absurd (cc)

  pub candidate-none : candidate now jobs ≡ none → (j : JobRow) → In j jobs → is_due now j ≡ false
  unfolding candidate
  candidate-none h j i = elim (Bool-cases (is_due now j)) [
    | inl due ↦ absurd (
        first_of-none (order_by is_before (keep (is_due now) jobs)) j h
          (In-order_by is_before j (keep (is_due now) jobs) (In-keep (is_due now) j jobs i due)))
    | inr not_due ↦ not_due
  ]

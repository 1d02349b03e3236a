-- ===== src/Jobs/Exclusive.antt =====
-- A claimed job is no one else's until it is completed, fails, or is stale.
use mathlib.Core.Path.{subst}
use harbor_shield.Prelude.{
  ◌≡◌, refl, sym, ap, inl, inr, ℕ, ◌+◌, ◌<◌, true, false, Option, none, some, List, [], ◌∷◌, Text,
  arith, All, All-update, All-snoc, All-update_any, ◌∙◌, any, text_eq, ◌==◌, Bool-cases,
}
use harbor_shield.Prelude.Members.{All-at}
use harbor_shield.Prelude.Upsert.{upsert_row}
use harbor_shield.Db.{World, Action, statement, attempt, lift}
use harbor_shield.Db.Errors.{Result, ok, err}
use harbor_shield.Db.Triples.{Triple, Triple-statement, Triple-attempt-lift}
use harbor_shield.Jobs.{
  running, JobRow, Job, is_stale, reset_rows, reset_stale_running, ensure_rows, ensure_recurring,
  is_due, claimed_row, claim_due, settle_rows, complete, fail,
}
use harbor_shield.Jobs.Progress.{Claimed, claim_due-Claimed}

-- A call of the service by any worker, with the time at which it runs.
pub data Call : Type 0 where
  reset : (now stale_after : ℕ) → Call
  ensure : (now fresh_id : ℕ) → Text → (interval : ℕ) → List (Text × Text) → Call
  claim : (now : ℕ) → Call
  finish : (now id next_run_at : ℕ) → Call
  give_up : (now id next_run_at : ℕ) → Text → Call

abbrev claimed_id : Result Job → Result (Option ℕ)
claimed_id (ok job) = ok (some job.id)
claimed_id (err e) = err e

abbrev nothing : Result (Unit {0}) → Result (Option ℕ)
nothing (ok u) = ok none
nothing (err e) = err e

-- The call, and the id of the job that it claimed.
unfoldable pub perform : Call → Action (List JobRow) (Option ℕ)
perform (reset now stale_after) =
    attempt (reset_stale_running now stale_after) (λ r. lift (nothing r))
perform (ensure now id job_type interval payload) =
    attempt (ensure_recurring now id job_type interval payload) (λ r. lift (nothing r))
perform (claim now) = attempt (claim_due now) (λ r. lift (claimed_id r))
perform (finish now id next) = attempt (complete now id next) (λ r. lift (nothing r))
perform (give_up now id next message) = attempt (fail now id next message) (λ r. lift (nothing r))

-- The calls one after another, whatever each of them returns.
unfoldable pub perform_all :
    List Call → World (List JobRow) → List (Result (Option ℕ)) × World (List JobRow)
unfolding perform
perform_all [] w = ([], w)
perform_all (c ∷ calls) w =
    let (r, w') = perform c w in let (rs, w'') = perform_all calls w' in (r ∷ rs, w'')

-- The job was not claimed.
abbrev pub IsOther : ℕ → Result (Option ℕ) → Type 0
IsOther id (ok none) = Unit
IsOther id (ok (some i)) = (i == id) ≡ false
IsOther id (err e) = Unit

module _ (id since : ℕ) where
  -- The job's row, if it is this one, is running since then.
  abbrev IsHeldRow : JobRow → Type 0
  IsHeldRow j = (j.id == id) ≡ true → (j.status ≡ running) × (j.updated_at ≡ since)

  -- The job is running since then, if it is there.
  pub IsHeld : List JobRow → Type 0
  IsHeld = All IsHeldRow

  -- The call does not end the job, and no reset of it finds the job stale.
  abbrev pub LeavesAlone : Call → Type 0
  LeavesAlone (reset now stale_after) = now < since + stale_after
  LeavesAlone (ensure now fresh_id job_type interval payload) = (fresh_id == id) ≡ false
  LeavesAlone (claim now) = Unit
  LeavesAlone (finish now j next) = (j == id) ≡ false
  LeavesAlone (give_up now j next message) = (j == id) ≡ false

  abbrev Left : List JobRow → Result (Option ℕ) → List JobRow → Type 0
  Left t r t' = IsHeld t' × IsOther id r

  nothing-IsOther : (r : Result (Unit {0})) → IsOther id (nothing r)
  nothing-IsOther (ok u) = tt
  nothing-IsOther (err e) = tt

  -- A statement that claims nothing.
  quiet :
      (f : List JobRow → Result (Unit {0}) × List JobRow)
      → ((t : List JobRow) → IsHeld t → IsHeld (f t).1)
      → Triple IsHeld Left (attempt (statement f) (λ r. lift (nothing r)))
  quiet f k =
      Triple-attempt-lift _ nothing
        (Triple-statement f (λ t h. (h, tt)) (λ t h. (k t h, nothing-IsOther (f t).0)))

  IsHeld-reset :
      (now stale_after : ℕ) (t : List JobRow)
      → now < since + stale_after
      → IsHeld t
      → IsHeld (reset_rows now stale_after t).1
  unfolding reset_rows is_stale IsHeld
  IsHeld-reset now stale_after t young h =
      All-update IsHeldRow (is_stale now stale_after) _ t
        (λ j held. elim (Bool-cases (is_stale now stale_after j)) [
          | inl stale ↦ rw stale λ same.
              absurd (let (busy, start) = held same in ground (arith, stale, young, busy, start))
          | inr fine ↦ rw fine held
        ])
        h

  IsHeld-settle :
      (now i next : ℕ) (message : Text) (t : List JobRow)
      → (i == id) ≡ false
      → IsHeld t
      → IsHeld (settle_rows now i next message t).1
  unfolding settle_rows IsHeld
  IsHeld-settle now i next message t other h =
      All-update IsHeldRow (λ j. j.id == i) _ t
        (λ j held. elim (Bool-cases (j.id == i)) [
          | inl its ↦ rw its λ same. absurd (ground (arith, other))
          | inr fine ↦ rw fine held
        ])
        h

  IsHeld-ensure :
      (now fresh : ℕ) (job_type : Text) (interval : ℕ) (payload : List (Text × Text))
      (t : List JobRow)
      → (fresh == id) ≡ false
      → IsHeld t
      → IsHeld (ensure_rows now fresh job_type interval payload t).1
  unfolding ensure_rows upsert_row IsHeld
  IsHeld-ensure now fresh job_type interval payload t other h =
      elim (Bool-cases (any (λ j. text_eq j.job_type job_type) t)) [
        | inl there ↦ rw there (
            All-update IsHeldRow (λ j. text_eq j.job_type job_type) _ t
              (λ j held. elim (Bool-cases (text_eq j.job_type job_type)) [
                | inl its ↦ rw its held
                | inr fine ↦ rw fine held
              ])
              h)
        | inr absent ↦ rw absent (All-snoc _ t _ h (λ same. absurd (cc)))
      ]

  not_due_if_running : (now : ℕ) (c : JobRow) → c.status ≡ running → is_due now c ≡ false
  unfolding is_due
  not_due_if_running now c busy = rw busy refl

  IsHeld-claim :
      (now : ℕ) (t : List JobRow) (r : Result Job) (t' : List JobRow)
      → IsHeld t
      → Claimed now t r t'
      → Left t (claimed_id r) t'
  unfolding IsHeld claimed_row
  IsHeld-claim now t (err e) t' h left = (subst (All IsHeldRow) (sym left) h, tt)
  IsHeld-claim now t (ok job) t' h (c, next, job_e, t_e) =
      let held : IsHeldRow c = All-at IsHeldRow c t h next.stored in
      let other : (c.id == id) ≡ false = elim (Bool-cases (c.id == id)) [
        | inl same ↦ absurd (
            let (busy, start) = held same in
            let due = next.due in let idle = not_due_if_running now c busy in cc)
        | inr e ↦ e
      ] in
      (
        subst (All IsHeldRow) (sym t_e) (
            All-update IsHeldRow (λ j. j.id == c.id) (claimed_row now) t
              (λ j before. elim (Bool-cases (j.id == c.id)) [
                | inl its ↦ rw its λ same. absurd (ground (arith, other))
                | inr fine ↦ rw fine before
              ])
              h),
        subst (λ k. (k.id == id) ≡ false) (sym job_e) other,
      )

  perform-Left : (call : Call) → LeavesAlone call → Triple IsHeld Left (perform call)
  unfolding perform reset_stale_running ensure_recurring complete fail
  perform-Left (reset now stale_after) young =
      quiet (reset_rows now stale_after) (λ t. IsHeld-reset now stale_after t young)
  perform-Left (ensure now fresh job_type interval payload) other =
      quiet (ensure_rows now fresh job_type interval payload)
        (λ t. IsHeld-ensure now fresh job_type interval payload t other)
  perform-Left (claim now) alone = Triple-attempt-lift _ claimed_id (record {
    at = λ w h.
        IsHeld-claim now w.tables (claim_due now w).0 (claim_due now w).1.tables h
          ((claim_due-Claimed now).at w tt);
  })
  perform-Left (finish now i next) other =
      quiet (settle_rows now i next []) (λ t. IsHeld-settle now i next [] t other)
  perform-Left (give_up now i next message) other =
      quiet (settle_rows now i next message) (λ t. IsHeld-settle now i next message t other)

  perform_all-Left :
      (calls : List Call) (w : World (List JobRow))
      → All LeavesAlone calls
      → IsHeld w.tables
      → All (IsOther id) (perform_all calls w).0
  unfolding perform_all
  perform_all-Left [] w alone h = tt
  perform_all-Left (c ∷ calls) w alone h =
      let (held, other) = (perform-Left c alone.0).at w h in
      (other, perform_all-Left calls (perform c w).1 alone.1 held)

IsHeld-after :
    (now : ℕ) (t : List JobRow) (r : Result Job) (t' : List JobRow) (job : Job)
    → r ≡ ok job
    → Claimed now t r t'
    → IsHeld job.id now t'
unfolding IsHeld claimed_row
IsHeld-after now t (err e) t' job h claimed = absurd (cc)
IsHeld-after now t (ok k) t' job h (c, next, job_e, t_e) =
    let same : job.id ≡ c.id = let k_e : k ≡ job = cc in ap (λ j. j.id) (sym k_e ∙ job_e) in
    subst (All (IsHeldRow job.id now)) (sym t_e) (
      All-update_any (IsHeldRow job.id now) (λ j. j.id == c.id) (claimed_row now) t
        (λ j. elim (Bool-cases (j.id == c.id)) [
          | inl its ↦ rw its λ e. (refl, refl)
          | inr other ↦ rw other λ e. absurd (ground (arith, same))
        ]))

-- Once ClaimDue has returned a job at time `now`, whatever calls come after it, from any worker and
-- with any failures of the driver, no ClaimDue among them returns that job again, as long as none of
-- them completes or fails the job, no reset runs when the job has been running for `stale_after`, and
-- no new row gets the job's id.
pub claim_due-IsExclusive :
    (now : ℕ) (w : World (List JobRow)) (job : Job) (calls : List Call)
    → (claim_due now w).0 ≡ ok job
    → All (LeavesAlone job.id now) calls
    → All (IsOther job.id) (perform_all calls (claim_due now w).1).0
claim_due-IsExclusive now w job calls h alone =
    perform_all-Left job.id now calls (claim_due now w).1 alone (
      IsHeld-after now w.tables (claim_due now w).0 (claim_due now w).1.tables job h
        ((claim_due-Claimed now).at w tt))

-- ===== src/Jobs/Progress.antt =====
-- What ClaimDue returns and leaves.
use harbor_shield.Prelude.{
  ◌≡◌, refl, inl, inr, ◌⊎◌, ℕ, ◌+◌, ◌<◌, ◌≤◌, true, false, Option, none, some, List, [], arith, All,
  update, leb, ◌==◌, Bool-cases, Option-cases,
}
use harbor_shield.Prelude.Members.{In, All-at}
use harbor_shield.Db.{calm, pure, query, ◌>>=◌, statement, attempt, lift, transaction}
use harbor_shield.Db.Errors.{no_rows, no_due_jobs, Result, ok, err}
use harbor_shield.Db.Triples.{Triple, Triple-statement, Triple-attempt-lift, Always}
use harbor_shield.Db.Transactions.{Triple-transaction}
use harbor_shield.Jobs.{
  JobRow, Job, Status, pending, running, is_pending, is_due, is_before, candidate, max_attempts,
  claimed_row, job_of, claim_candidate, claim_rows, normalize_no_rows, claim_due,
}
use harbor_shield.Jobs.Claims.{IsNext, candidate-IsNext, candidate-none}

-- Waiting, and its time has come.
abbrev pub Due : ℕ → JobRow → Type 0
Due now j = (j.status ≡ pending) × (j.next_run_at ≤ now)

-- The earlier next run, and of two equal ones the earlier creation.
abbrev pub Before : JobRow → JobRow → Type 0
Before i j =
    (i.next_run_at < j.next_run_at)
    ⊎ ((i.next_run_at ≡ j.next_run_at) × (i.created_at ≤ j.created_at))

-- A due row of the table, which goes before every row that is due.
pub record IsFirstDue (now : ℕ) (t : List JobRow) (c : JobRow) : Type 0 where
  pub stored : In c t
  pub due : Due now c
  pub first : (j : JobRow) → In j t → Due now j → Before c j

-- The first due job is returned, with one more attempt, and its row alone is made running, now, with
-- one more attempt and no error; an error leaves the table as it was.
abbrev pub Claimed : ℕ → List JobRow → Result Job → List JobRow → Type 0
Claimed now t (ok job) t' =
    (c : JobRow) × IsFirstDue now t c
    × (job ≡ record {
      id = c.id;
      job_type = c.job_type;
      payload = c.payload;
      attempts = c.attempts + 1;
      next_run_at = c.next_run_at;
    })
    × (t'
        ≡ update (λ j. j.id == c.id)
            (λ j. record j {
              status = running;
              attempts = j.attempts + 1;
              updated_at = now;
              last_error = [];
            })
            t)
Claimed now t (err e) t' = t' ≡ t

is_due_of_Due : (now : ℕ) (j : JobRow) → Due now j → is_due now j ≡ true
unfolding is_due
is_due_of_Due now j (waits, time) = rw waits (ground arith)

pending_of : (x : Status) → is_pending x ≡ true → x ≡ pending
pending_of pending h = refl
pending_of running h = absurd (cc)

Due-of_is_due : (now : ℕ) (j : JobRow) → is_due now j ≡ true → Due now j
unfolding is_due
Due-of_is_due now j h = (pending_of j.status (ground arith), ground arith)

Before-of_is_before : (i j : JobRow) → is_before i j ≡ true → Before i j
unfolding is_before
Before-of_is_before i j h = ground arith

IsFirstDue-of_IsNext :
    (now : ℕ) (t : List JobRow) (c : JobRow) → IsNext now t c → IsFirstDue now t c
IsFirstDue-of_IsNext now t c n = record {
  stored = n.stored;
  due = Due-of_is_due now c n.due;
  first = λ j i d. Before-of_is_before c j (n.first j i (is_due_of_Due now j d));
}

normalized :
    (now : ℕ) (t : List JobRow) (r : Result Job) (t' : List JobRow)
    → Claimed now t r t'
    → Claimed now t (normalize_no_rows r) t'
normalized now t (ok job) t' h = h
normalized now t (err no_rows) t' h = h
normalized now t (err e) t' h = h

claim_candidate-Claimed :
    (now : ℕ) (t : List JobRow) (o : Option JobRow)
    → candidate now t ≡ o
    → Claimed now t (normalize_no_rows (claim_candidate now o t).0) (claim_candidate now o t).1
unfolding claim_candidate claimed_row
claim_candidate-Claimed now t none h = refl
claim_candidate-Claimed now t (some c) h = elim (Bool-cases (leb max_attempts c.attempts)) [
  | inl worn ↦ rw worn refl
  | inr fresh ↦ rw fresh (c, IsFirstDue-of_IsNext now t c (candidate-IsNext now t c h), refl, refl)
]

-- Whatever the driver does: a job that ClaimDue returns is pending and its next_run_at has come, and
-- every other such job has a later next_run_at, or the same one and no earlier created_at. It is
-- returned with one more attempt than its row had. The row becomes running, with one more attempt,
-- updated_at now and no error, and no other row is touched (two rows with one id count as one). If
-- ClaimDue returns an error, no row is touched.
pub claim_due-Claimed : (now : ℕ) → Triple Always (Claimed now) (claim_due now)
unfolding claim_due claim_rows
claim_due-Claimed now =
    Triple-transaction _ (λ t e p. refl)
      (Triple-attempt-lift _ normalize_no_rows (
        Triple-statement _ (λ t p. refl)
          (λ t p. claim_candidate-Claimed now t (candidate now t) refl)))

module _ (now : ℕ) (t : List JobRow) where
  claim_due_of_none : candidate now t ≡ none → claim_due now (calm t) ≡ (err no_due_jobs, calm t)
  unfolding claim_due claim_rows claim_candidate transaction attempt lift statement query pure ◌>>=◌
  claim_due_of_none h = rw h

  claim_due_of_some :
      (c : JobRow)
      → candidate now t ≡ some c
      → leb max_attempts c.attempts ≡ false
      → claim_due now (calm t)
        ≡ (ok (job_of (claimed_row now c)), calm (update (λ j. j.id == c.id) (claimed_row now) t))
  unfolding claim_due claim_rows claim_candidate transaction attempt lift statement query pure ◌>>=◌
  claim_due_of_some c h k = rw (h, k)

  -- With a driver that does not fail, ClaimDue returns ErrNoDueJobs if no job is due, and returns a
  -- job if one is due, where no job has used up the column `attempts`.
  pub claim_due_progress :
      All (λ j. j.attempts < max_attempts) t
      → (((j : JobRow) → In j t → is_due now j ≡ false)
          → claim_due now (calm t) ≡ (err no_due_jobs, calm t))
        × ((j : JobRow)
            → In j t
            → is_due now j ≡ true
            → (job : Job) × (t' : List JobRow) × (claim_due now (calm t) ≡ (ok job, calm t')))
  claim_due_progress few = elim (Option-cases (candidate now t)) [
    | inl empty ↦ (
      λ idle. claim_due_of_none empty,
      λ j i due. absurd (let idle = candidate-none now t empty j i in cc),
    )
    | inr (c, found) ↦
        let next = candidate-IsNext now t c found in
        let low : c.attempts < max_attempts =
          All-at (λ j. j.attempts < max_attempts) c t few next.stored in
        (
          λ idle. absurd (let not_due = idle c next.stored in let due = next.due in cc),
          λ j i due. (_, _, claim_due_of_some c found (ground arith)),
        )
  ]

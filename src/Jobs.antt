-- ===== src/Jobs.antt =====
-- internal/jobs/jobs.go: the table of recurring jobs that the workers share.
mod Tests
pub mod Claims
pub mod Progress
pub mod Exclusive
use harbor_shield.Prelude.{
  ℕ, ◌+◌, Bool, true, false, not, ◌&&◌, ◌||◌, Option, none, some, List, [], ◌∷◌, ◌++◌, Text, codes,
  text_eq, any, find, first_of, keep, update, order_by, leb, ltb, ◌==◌, if◌then◌else◌,
}
use harbor_shield.Prelude.Upsert.{upsert_row}
use harbor_shield.Db.{Action, pure, lift, statement, ◌>>=◌, ◌>>◌, attempt, transaction}
use harbor_shield.Db.Errors.{Error, database, no_rows, no_due_jobs, Result, ok, err}

pub data Status : Type 0 where
  pending running : Status

-- A row of the table jobs. A time is a number of seconds; the payload is the JSON object of a map.
pub record JobRow : Type 0 where
  pub id : ℕ
  pub job_type : Text
  pub payload : List (Text × Text)
  pub status : Status
  pub attempts : ℕ
  pub next_run_at : ℕ
  pub created_at : ℕ
  pub updated_at : ℕ
  pub last_error : Text

pub record Job : Type 0 where
  pub id : ℕ
  pub job_type : Text
  pub payload : List (Text × Text)
  pub attempts : ℕ
  pub next_run_at : ℕ

abbrev pub is_pending : Status → Bool
is_pending pending = true
is_pending running = false

-- `interval <= NOW() - updated_at`, with no number below 0.
unfoldable pub is_stale : ℕ → ℕ → JobRow → Bool
is_stale now stale_after j = not (is_pending j.status) && leb (j.updated_at + stale_after) now

unfoldable pub reset_rows : ℕ → ℕ → List JobRow → Result (Unit {0}) × List JobRow
reset_rows now stale_after jobs = (
  ok tt,
  update (is_stale now stale_after)
      (λ j. record j {
        status = pending;
        updated_at = now;
        last_error = codes "recovered_after_worker_restart";
      })
      jobs,
)

unfoldable pub reset_stale_running : ℕ → ℕ → Action (List JobRow) (Unit {0})
reset_stale_running now stale_after = statement (reset_rows now stale_after)

-- `id` is the gen_random_uuid() of an inserted row.
unfoldable pub ensure_rows :
    ℕ → ℕ → Text → ℕ → List (Text × Text) → List JobRow → Result (Unit {0}) × List JobRow
unfolding upsert_row
ensure_rows now id job_type interval payload jobs = (
  ok tt,
  upsert_row (λ j. text_eq j.job_type job_type) (λ j. record j { payload = payload })
      (record {
        id = id;
        job_type = job_type;
        payload = payload;
        status = pending;
        attempts = 0;
        next_run_at = now + interval;
        created_at = now;
        updated_at = now;
        last_error = [];
      })
      jobs,
)

unfoldable pub ensure_recurring :
    ℕ → ℕ → Text → ℕ → List (Text × Text) → Action (List JobRow) (Unit {0})
ensure_recurring now id job_type interval payload =
    statement (ensure_rows now id job_type interval payload)

-- `status = 'pending' AND next_run_at <= NOW()`
unfoldable pub is_due : ℕ → JobRow → Bool
is_due now j = is_pending j.status && leb j.next_run_at now

-- `ORDER BY next_run_at, created_at`
unfoldable pub is_before : JobRow → JobRow → Bool
is_before i j =
    if ltb i.next_run_at j.next_run_at
    then true
    else i.next_run_at == j.next_run_at && leb i.created_at j.created_at

unfoldable pub candidate : ℕ → List JobRow → Option JobRow
unfolding order_by
candidate now jobs = first_of (order_by is_before (keep (is_due now) jobs))

-- The largest INTEGER of the column attempts, which attempts + 1 may not pass.
abbrev pub max_attempts : ℕ
max_attempts = 2147483647

unfoldable pub claimed_row : ℕ → JobRow → JobRow
claimed_row now j = record j {
  status = running;
  attempts = j.attempts + 1;
  updated_at = now;
  last_error = [];
}

abbrev pub job_of : JobRow → Job
job_of j = record {
  id = j.id;
  job_type = j.job_type;
  payload = j.payload;
  attempts = j.attempts;
  next_run_at = j.next_run_at;
}

unfoldable pub claim_candidate : ℕ → Option JobRow → List JobRow → Result Job × List JobRow
claim_candidate now none jobs = (err no_rows, jobs)
claim_candidate now (some c) jobs =
    if leb max_attempts c.attempts
    then (err database, jobs)
    else (ok (job_of (claimed_row now c)), update (λ j. j.id == c.id) (claimed_row now) jobs)

unfoldable pub claim_rows : ℕ → List JobRow → Result Job × List JobRow
unfolding candidate claim_candidate
claim_rows now jobs = claim_candidate now (candidate now jobs) jobs

abbrev pub normalize_no_rows : Result Job → Result Job
normalize_no_rows (ok job) = ok job
normalize_no_rows (err no_rows) = err no_due_jobs
normalize_no_rows (err e) = err e

unfoldable pub claim_due : ℕ → Action (List JobRow) Job
claim_due now = transaction (attempt (statement (claim_rows now)) (λ r. lift (normalize_no_rows r)))

unfoldable pub settle_rows : ℕ → ℕ → ℕ → Text → List JobRow → Result (Unit {0}) × List JobRow
settle_rows now id next_run_at message jobs = (
  ok tt,
  update (λ j. j.id == id)
      (λ j. record j {
        status = pending;
        next_run_at = next_run_at;
        updated_at = now;
        last_error = message;
      })
      jobs,
)

unfoldable pub complete : ℕ → ℕ → ℕ → Action (List JobRow) (Unit {0})
complete now id next_run_at = statement (settle_rows now id next_run_at [])

unfoldable pub fail : ℕ → ℕ → ℕ → Text → Action (List JobRow) (Unit {0})
fail now id next_run_at message = statement (settle_rows now id next_run_at message)

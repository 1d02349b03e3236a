-- ===== src/Jobs/Tests.antt =====
-- Two jobs, one of them due, and workers that claim them.
use harbor_shield.Prelude.{
  ◌≡◌, refl, ◌<◌, true, false, List, [], ◌∷◌, arith, codes, All, order_by, insert_by,
}
use harbor_shield.Prelude.Members.{In}
use harbor_shield.Db.{calm, statement, query, lift, attempt, transaction, pure, ◌>>=◌}
use harbor_shield.Db.Errors.{ok, err, no_due_jobs}
use harbor_shield.Db.Triples.{Triple, Always}
use harbor_shield.Jobs.{
  pending, JobRow, Job, is_due, is_before, candidate, claimed_row, claim_candidate, claim_rows,
  claim_due, max_attempts,
}
use harbor_shield.Jobs.Progress.{Claimed, claim_due-Claimed, claim_due_progress}
use harbor_shield.Jobs.Exclusive.{
  Call, claim, reset, finish, LeavesAlone, IsOther, perform_all, claim_due-IsExclusive,
}

abbrev scan : JobRow
scan = record {
  id = 1;
  job_type = codes "malware_scan";
  payload = [];
  status = pending;
  attempts = 4;
  next_run_at = 10;
  created_at = 0;
  updated_at = 0;
  last_error = codes "timeout";
}

abbrev purge : JobRow
purge = record scan { id = 2; job_type = codes "soft_delete_purge"; next_run_at = 50 }

abbrev jobs : List JobRow
jobs = purge ∷ scan ∷ []

abbrev claimed_scan : Job
claimed_scan = record {
  id = 1;
  job_type = codes "malware_scan";
  payload = [];
  attempts = 5;
  next_run_at = 10;
}

scan_claimed : (claim_due 20 (calm jobs)).0 ≡ ok claimed_scan
unfolding claim_due claim_rows claim_candidate candidate claimed_row is_due is_before order_by
    insert_by transaction attempt lift statement query pure ◌>>=◌
scan_claimed = refl

none_due : (claim_due 5 (calm jobs)).0 ≡ err no_due_jobs
unfolding claim_due claim_rows claim_candidate candidate claimed_row is_due is_before order_by
    insert_by transaction attempt lift statement query pure ◌>>=◌
none_due = refl

claim_due-Claimed_example : Triple Always (Claimed 20) (claim_due 20)
claim_due-Claimed_example = claim_due-Claimed 20

few_attempts : All (λ j. j.attempts < max_attempts) jobs
few_attempts = (omega arith, (omega arith, tt))

claim_due_progress_example :
    (((j : JobRow) → In j jobs → is_due 20 j ≡ false)
      → claim_due 20 (calm jobs) ≡ (err no_due_jobs, calm jobs))
    × ((j : JobRow)
        → In j jobs
        → is_due 20 j ≡ true
        → (job : Job) × (t' : List JobRow) × (claim_due 20 (calm jobs) ≡ (ok job, calm t')))
claim_due_progress_example = claim_due_progress 20 jobs few_attempts

abbrev others : List Call
others = claim 22 ∷ reset 25 10 ∷ claim 26 ∷ finish 27 2 90 ∷ claim 60 ∷ []

others_leave_it : All (LeavesAlone 1 20) others
others_leave_it = (tt, (omega arith, (tt, (refl, (tt, tt)))))

claim_due-IsExclusive_example :
    All (IsOther claimed_scan.id) (perform_all others (claim_due 20 (calm jobs)).1).0
claim_due-IsExclusive_example =
    claim_due-IsExclusive 20 (calm jobs) claimed_scan others scan_claimed others_leave_it

-- ===== src/Quotas/Checks.antt =====
-- Allows of internal/quotas/quotas.go, and the checks of internal/quotas/service.go: CheckObjectWrite,
-- CurrentWarnings and what they read.
use harbor_shield.Prelude.{
  ℕ, Bool, true, false, not, Option, none, some, any, length, ◌==◌, ltb, if◌then◌else◌,
}
use harbor_shield.Db.{Action, pure, raise, query, ◌>>=◌}
use harbor_shield.Db.Errors.{Result, ok, err, database, no_rows, quota_exceeded, then_result}
use harbor_shield.Quotas.Int64.{Int64, two63, add64, sub64, mul64, le64}
use harbor_shield.Quotas.Tables.{
  BucketQuotaRow, UserQuotaRow, QuotaTables, sum_bytes, objects_of_bucket, objects_of_user,
  quota_of_bucket, quota_of_user,
}

pub record Snapshot : Type 0 where
  pub current_bytes : Int64
  pub current_objects : Int64
  pub max_bytes : Option Int64
  pub max_objects : Option Int64

pub record WarningState : Type 0 where
  pub bucket_bytes : Bool
  pub bucket_count : Bool
  pub user_bytes : Bool

-- The limit is set, and exceeded.
unfoldable pub is_over : Int64 → Option Int64 → Bool
is_over value none = false
is_over value (some limit) = not (le64 value limit)

unfoldable pub allows : Int64 → Int64 → Snapshot → Bool
allows next_bytes next_objects snapshot =
    if is_over (add64 snapshot.current_bytes next_bytes) snapshot.max_bytes
    then false
    else if is_over (add64 snapshot.current_objects next_objects) snapshot.max_objects
    then false
    else true

unfoldable pub warning_reached : Int64 → Option Int64 → Option Int64 → Bool
warning_reached current none threshold = false
warning_reached current (some max) none = false
warning_reached current (some max) (some threshold) =
    if le64 max 0 then false else le64 (mul64 max threshold) (mul64 current 100)

-- A sum is a NUMERIC, which Scan refuses if it is no int64.
unfoldable pub scan_sum : ℕ → Result Int64
scan_sum n = if ltb n two63 then ok n else err database

abbrev pub bucket_max_bytes : Option BucketQuotaRow → Option Int64
bucket_max_bytes none = none
bucket_max_bytes (some q) = q.max_bytes

abbrev pub bucket_max_objects : Option BucketQuotaRow → Option Int64
bucket_max_objects none = none
bucket_max_objects (some q) = q.max_objects

abbrev pub bucket_threshold : Option BucketQuotaRow → Option Int64
bucket_threshold none = none
bucket_threshold (some q) = q.warning_threshold_percent

abbrev pub user_max_bytes : Option UserQuotaRow → Option Int64
user_max_bytes none = none
user_max_bytes (some q) = q.max_bytes

abbrev pub user_threshold : Option UserQuotaRow → Option Int64
user_threshold none = none
user_threshold (some q) = q.warning_threshold_percent

unfoldable pub bucket_snapshot_row : ℕ → QuotaTables → Result (Snapshot × Option Int64)
unfolding any
bucket_snapshot_row id t =
    let rows = objects_of_bucket id t.objects in
    let q = quota_of_bucket id t.bucket_quotas in
    if any (λ b. b.0 == id) t.buckets
    then then_result (scan_sum (sum_bytes rows)) (λ bytes. ok (
      record {
        current_bytes = bytes;
        current_objects = length rows;
        max_bytes = bucket_max_bytes q;
        max_objects = bucket_max_objects q;
      },
      bucket_threshold q,
    ))
    else err no_rows

unfoldable pub user_snapshot_row : ℕ → QuotaTables → Result (Snapshot × Option Int64)
unfolding any
user_snapshot_row id t =
    let q = quota_of_user id t.user_quotas in
    if any (λ u. u.0 == id) t.users
    then then_result (scan_sum (sum_bytes (objects_of_user id t.objects))) (λ bytes. ok (
      record {
        current_bytes = bytes;
        current_objects = 0;
        max_bytes = user_max_bytes q;
        max_objects = none;
      },
      user_threshold q,
    ))
    else err no_rows

unfoldable pub bucket_snapshot : ℕ → Action QuotaTables (Snapshot × Option Int64)
bucket_snapshot id = query (bucket_snapshot_row id)

unfoldable pub user_snapshot : ℕ → Action QuotaTables (Snapshot × Option Int64)
user_snapshot id = query (user_snapshot_row id)

-- The second half of CheckObjectWrite: `none` is the empty user id.
unfoldable pub check_user_write : Option ℕ → Int64 → Int64 → Action QuotaTables (Unit {0})
check_user_write none existing_size next_size = pure tt
check_user_write (some user) existing_size next_size = do
  (snapshot, threshold) ← user_snapshot user
  if not (allows (sub64 next_size existing_size) 0 snapshot) then raise quota_exceeded else pure tt

unfoldable pub check_object_write :
    ℕ → Option ℕ → Int64 → Int64 → Bool → Action QuotaTables (Unit {0})
check_object_write bucket user existing_size next_size exists = do
  (snapshot, threshold) ← bucket_snapshot bucket
  if not (allows (sub64 next_size existing_size) (if exists then 0 else 1) snapshot)
      then raise quota_exceeded
      else check_user_write user existing_size next_size

unfoldable pub user_warning : Option ℕ → WarningState → Action QuotaTables WarningState
user_warning none state = pure state
user_warning (some user) state = do
  (snapshot, threshold) ← user_snapshot user
  pure (record state {
    user_bytes = warning_reached snapshot.current_bytes snapshot.max_bytes threshold;
  })

unfoldable pub current_warnings : ℕ → Option ℕ → Action QuotaTables WarningState
current_warnings bucket user = do
  (snapshot, threshold) ← bucket_snapshot bucket
  user_warning user (record {
    bucket_bytes = warning_reached snapshot.current_bytes snapshot.max_bytes threshold;
    bucket_count = warning_reached snapshot.current_objects snapshot.max_objects threshold;
    user_bytes = false;
  })

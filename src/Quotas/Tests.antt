-- ===== src/Quotas/Tests.antt =====
-- A bucket with two objects, one of them deleted, and its limits.
use harbor_shield.Prelude.{
  ◌≡◌, refl, ℕ, true, false, ◌&&◌, none, some, [], ◌∷◌, arith, codes, any, all, length, ◌==◌,
  if◌then◌else◌,
}
use harbor_shield.Db.{calm, pure, raise, query, statement, ◌>>=◌}
use harbor_shield.Db.Errors.{ok, err, quota_exceeded}
use harbor_shield.Quotas.Int64.{le64, add64, sub64, mul64}
use harbor_shield.Quotas.Tables.{
  QuotaTables, objects_of_bucket, objects_of_user, quota_of_bucket, quota_of_user,
}
use harbor_shield.Quotas.Checks.{
  is_over, allows, scan_sum, warning_reached, bucket_snapshot, bucket_snapshot_row,
  check_user_write, check_object_write,
}
use harbor_shield.Quotas.Limits.{
  IsBucketInRange, IsUserInRange, bucket_usage, bucket_count, user_usage, fits_bucket, fits_user,
  added_objects, check_object_write_decides,
}
use harbor_shield.Quotas.Updates.{recalculate_bucket_usage}
use harbor_shield.Quotas.Recalculation.{AreSumsInRange, refreshed, recalculate_bucket_usage_lem}

abbrev tables : QuotaTables
tables = record {
  buckets = (1, codes "b") ∷ [];
  users = (7, codes "a") ∷ [];
  objects =
      (record { bucket = 1; created_by = some 7; size_bytes = 60; is_deleted = false })
      ∷ (record { bucket = 1; created_by = none; size_bytes = 90; is_deleted = true })
      ∷ [];
  bucket_quotas =
      (record {
        bucket = 1;
        current_bytes = 0;
        current_objects = 0;
        max_bytes = some 100;
        max_objects = some 1;
        warning_threshold_percent = some 80;
      })
      ∷ [];
  user_quotas =
      (record {
        user = 7;
        current_bytes = 0;
        max_bytes = some 80;
        warning_threshold_percent = none;
      })
      ∷ [];
}

second_object_refused : (check_object_write 1 none 0 10 false (calm tables)).0 ≡ err quota_exceeded
unfolding check_object_write bucket_snapshot bucket_snapshot_row check_user_write allows is_over
    scan_sum objects_of_bucket quota_of_bucket any le64 add64 sub64 query statement pure raise ◌>>=◌
second_object_refused = refl

warns_at_80_percent : warning_reached 80 (some 100) (some 80) ≡ true
unfolding warning_reached le64 mul64
warns_at_80_percent = refl

bucket_in_range : IsBucketInRange tables 1 70
unfolding bucket_usage bucket_count objects_of_bucket quota_of_bucket any
bucket_in_range = record {
  there = refl;
  bytes = omega arith;
  objects = omega arith;
  max_bytes = omega arith;
  max_objects = omega arith;
}

user_in_range : IsUserInRange tables 7 70
unfolding user_usage objects_of_user quota_of_user any
user_in_range = record { there = refl; bytes = omega arith; max_bytes = omega arith }

check_object_write_decides_example : (check_object_write 1 (some 7) 60 70 true (calm tables)).0 ≡ (
    if fits_bucket tables 1 70 60 (added_objects true) && fits_user tables (some 7) 70 60
    then ok tt
    else err quota_exceeded)
check_object_write_decides_example =
    check_object_write_decides tables 1 (some 7) 60 70 true bucket_in_range user_in_range
      (omega arith)

sums_in_range : AreSumsInRange tables
unfolding AreSumsInRange objects_of_bucket all
sums_in_range = refl

recalculate_bucket_usage_example :
    (t' : QuotaTables) × (recalculate_bucket_usage (calm tables)
      ≡ (ok (length tables.buckets), calm t'))
    × (t' ≡ record tables { bucket_quotas = t'.bucket_quotas })
    × ((id : ℕ)
        → quota_of_bucket id t'.bucket_quotas ≡ (
            if any (λ b. b.0 == id) tables.buckets
            then some (refreshed tables id (quota_of_bucket id tables.bucket_quotas))
            else quota_of_bucket id tables.bucket_quotas))
recalculate_bucket_usage_example = recalculate_bucket_usage_lem tables sums_in_range

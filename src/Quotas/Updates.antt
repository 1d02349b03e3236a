-- ===== src/Quotas/Updates.antt =====
-- The writes of internal/quotas/service.go: UpdateBucketQuota, UpdateUserQuota,
-- RecalculateBucketUsage and RecalculateUserUsage; and its lists.
use harbor_shield.Prelude.{
  ℕ, Option, none, some, List, [], ◌∷◌, map, Text, any, all, length, order_by, text_le, ◌==◌, ltb,
  if◌then◌else◌,
}
use harbor_shield.Prelude.Upsert.{upsert_row}
use harbor_shield.Db.{Action, statement, query}
use harbor_shield.Db.Errors.{Result, ok, err, database}
use harbor_shield.Quotas.Int64.{Int64, two63}
use harbor_shield.Quotas.Tables.{
  BucketQuotaRow, UserQuotaRow, QuotaTables, sum_bytes, objects_of_bucket, objects_of_user,
  quota_of_bucket, quota_of_user,
}
use harbor_shield.Quotas.Checks.{
  bucket_max_bytes, bucket_max_objects, bucket_threshold, user_max_bytes, user_threshold,
}

unfoldable pub update_bucket_quota_row :
    ℕ → Option Int64 → Option Int64 → Option Int64 → QuotaTables → Result (Unit {0}) × QuotaTables
unfolding any upsert_row
update_bucket_quota_row id max_bytes max_objects threshold t =
    if any (λ b. b.0 == id) t.buckets
    then (
      ok tt,
      record t {
        bucket_quotas =
            upsert_row (λ q. q.bucket == id)
              (λ q. record q {
                max_bytes = max_bytes;
                max_objects = max_objects;
                warning_threshold_percent = threshold;
              })
              (record {
                bucket = id;
                current_bytes = 0;
                current_objects = 0;
                max_bytes = max_bytes;
                max_objects = max_objects;
                warning_threshold_percent = threshold;
              })
              t.bucket_quotas;
      },
    )
    else (err database, t)

unfoldable pub update_bucket_quota :
    ℕ → Option Int64 → Option Int64 → Option Int64 → Action QuotaTables (Unit {0})
update_bucket_quota id max_bytes max_objects threshold =
    statement (update_bucket_quota_row id max_bytes max_objects threshold)

unfoldable pub update_user_quota_row :
    ℕ → Option Int64 → Option Int64 → QuotaTables → Result (Unit {0}) × QuotaTables
unfolding any upsert_row
update_user_quota_row id max_bytes threshold t =
    if any (λ u. u.0 == id) t.users
    then (
      ok tt,
      record t {
        user_quotas =
            upsert_row (λ q. q.user == id)
              (λ q. record q { max_bytes = max_bytes; warning_threshold_percent = threshold })
              (record {
                user = id;
                current_bytes = 0;
                max_bytes = max_bytes;
                warning_threshold_percent = threshold;
              })
              t.user_quotas;
      },
    )
    else (err database, t)

unfoldable pub update_user_quota : ℕ → Option Int64 → Option Int64 → Action QuotaTables (Unit {0})
update_user_quota id max_bytes threshold = statement (update_user_quota_row id max_bytes threshold)

-- The row of one bucket in RecalculateBucketUsage.
unfoldable pub refresh_bucket : QuotaTables → ℕ → List BucketQuotaRow → List BucketQuotaRow
unfolding upsert_row
refresh_bucket t id rows =
    let bytes = sum_bytes (objects_of_bucket id t.objects) in
    let objects = length (objects_of_bucket id t.objects) in
    upsert_row (λ q. q.bucket == id)
      (λ q. record q { current_bytes = bytes; current_objects = objects })
      (record {
        bucket = id;
        current_bytes = bytes;
        current_objects = objects;
        max_bytes = none;
        max_objects = none;
        warning_threshold_percent = none;
      })
      rows

unfoldable pub refresh_buckets :
    QuotaTables → List (ℕ × Text) → List BucketQuotaRow → List BucketQuotaRow
refresh_buckets t [] rows = rows
refresh_buckets t ((id, name) ∷ buckets) rows = refresh_buckets t buckets (refresh_bucket t id rows)

-- The sums fit a BIGINT, or the statement fails as a whole.
unfoldable pub recalculate_bucket_rows : QuotaTables → Result ℕ × QuotaTables
unfolding all refresh_buckets
recalculate_bucket_rows t =
    if all (λ b. ltb (sum_bytes (objects_of_bucket b.0 t.objects)) two63) t.buckets
    then (
      ok (length t.buckets),
      record t { bucket_quotas = refresh_buckets t t.buckets t.bucket_quotas },
    )
    else (err database, t)

unfoldable pub recalculate_bucket_usage : Action QuotaTables ℕ
recalculate_bucket_usage = statement recalculate_bucket_rows

-- The row of one user in RecalculateUserUsage.
unfoldable pub refresh_user : QuotaTables → ℕ → List UserQuotaRow → List UserQuotaRow
unfolding upsert_row
refresh_user t id rows =
    let bytes = sum_bytes (objects_of_user id t.objects) in
    upsert_row (λ q. q.user == id) (λ q. record q { current_bytes = bytes })
      (record {
        user = id;
        current_bytes = bytes;
        max_bytes = none;
        warning_threshold_percent = none;
      })
      rows

unfoldable pub refresh_users : QuotaTables → List (ℕ × Text) → List UserQuotaRow → List UserQuotaRow
refresh_users t [] rows = rows
refresh_users t ((id, email) ∷ users) rows = refresh_users t users (refresh_user t id rows)

unfoldable pub recalculate_user_rows : QuotaTables → Result ℕ × QuotaTables
unfolding all refresh_users
recalculate_user_rows t =
    if all (λ u. ltb (sum_bytes (objects_of_user u.0 t.objects)) two63) t.users
    then (ok (length t.users), record t { user_quotas = refresh_users t t.users t.user_quotas })
    else (err database, t)

unfoldable pub recalculate_user_usage : Action QuotaTables ℕ
recalculate_user_usage = statement recalculate_user_rows

pub record BucketQuota : Type 0 where
  pub bucket_id : ℕ
  pub bucket_name : Text
  pub current_bytes : Int64
  pub current_objects : Int64
  pub max_bytes : Option Int64
  pub max_objects : Option Int64
  pub warning_threshold_percent : Option Int64

-- COALESCE(q.current_bytes, 0) and COALESCE(q.current_objects, 0)
abbrev cached : Option BucketQuotaRow → Int64 × Int64
cached none = (0, 0)
cached (some q) = (q.current_bytes, q.current_objects)

unfoldable pub bucket_quota : QuotaTables → ℕ × Text → BucketQuota
bucket_quota t (id, name) =
    let q = quota_of_bucket id t.bucket_quotas in
    let (bytes, objects) = cached q in
    record {
      bucket_id = id;
      bucket_name = name;
      current_bytes = bytes;
      current_objects = objects;
      max_bytes = bucket_max_bytes q;
      max_objects = bucket_max_objects q;
      warning_threshold_percent = bucket_threshold q;
    }

unfoldable pub list_bucket_quotas : Action QuotaTables (List BucketQuota)
list_bucket_quotas =
    query (λ t. ok (map (bucket_quota t) (order_by (λ b c. text_le b.1 c.1) t.buckets)))

pub record UserQuota : Type 0 where
  pub user_id : ℕ
  pub email : Text
  pub current_bytes : Int64
  pub max_bytes : Option Int64
  pub warning_threshold_percent : Option Int64

abbrev cached_user : Option UserQuotaRow → Int64
cached_user none = 0
cached_user (some q) = q.current_bytes

unfoldable pub user_quota : QuotaTables → ℕ × Text → UserQuota
user_quota t (id, email) =
    let q = quota_of_user id t.user_quotas in
    record {
      user_id = id;
      email = email;
      current_bytes = cached_user q;
      max_bytes = user_max_bytes q;
      warning_threshold_percent = user_threshold q;
    }

unfoldable pub list_user_quotas : Action QuotaTables (List UserQuota)
list_user_quotas = query (λ t. ok (map (user_quota t) (order_by (λ u v. text_le u.1 v.1) t.users)))

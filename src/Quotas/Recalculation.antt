-- ===== src/Quotas/Recalculation.antt =====
-- What the recalculation of the cached usage leaves in bucket_quotas.
use mathlib.Core.Path.{subst}
use harbor_shield.Prelude.{
  Bool-cases, inl, inr, ==_refl, ==_iff, ◌≡◌, refl, sym, ℕ, true, false, Option, none, some, List,
  [], ◌∷◌, arith, Text, any, all, length, ◌==◌, ltb, if◌then◌else◌,
}
use harbor_shield.Db.{calm, statement}
use harbor_shield.Db.Errors.{ok}
use harbor_shield.Quotas.Int64.{two63}
use harbor_shield.Quotas.Tables.{
  BucketQuotaRow, QuotaTables, sum_bytes, objects_of_bucket, quota_of_bucket,
}
use harbor_shield.Prelude.Upsert.{changed, find-upsert_row, find-upsert_row_other}
use harbor_shield.Quotas.Updates.{
  refresh_bucket, refresh_buckets, recalculate_bucket_rows, recalculate_bucket_usage,
}

-- The row with the usage of the bucket's live objects, and the limits that it had.
pub refreshed : QuotaTables → ℕ → Option BucketQuotaRow → BucketQuotaRow
refreshed t id o =
    changed
      (λ q. record q {
        current_bytes = sum_bytes (objects_of_bucket id t.objects);
        current_objects = length (objects_of_bucket id t.objects);
      })
      (record {
        bucket = id;
        current_bytes = sum_bytes (objects_of_bucket id t.objects);
        current_objects = length (objects_of_bucket id t.objects);
        max_bytes = none;
        max_objects = none;
        warning_threshold_percent = none;
      })
      o

refreshed-some :
    (t : QuotaTables) (id : ℕ) (o : Option BucketQuotaRow)
    → refreshed t id (some (refreshed t id o)) ≡ refreshed t id o
unfolding refreshed
refreshed-some t id none = refl
refreshed-some t id (some q) = refl

module _ (t : QuotaTables) (id : ℕ) where
  quota_of_bucket-refresh_same :
      (rows : List BucketQuotaRow)
      → quota_of_bucket id (refresh_bucket t id rows)
        ≡ some (refreshed t id (quota_of_bucket id rows))
  unfolding quota_of_bucket refreshed refresh_bucket
  quota_of_bucket-refresh_same rows =
      find-upsert_row (λ q. q.bucket == id) _ _ (λ q. refl) (==_refl id) rows

  quota_of_bucket-refresh_other :
      (other : ℕ) (rows : List BucketQuotaRow)
      → (id == other) ≡ false
      → quota_of_bucket other (refresh_bucket t id rows) ≡ quota_of_bucket other rows
  unfolding quota_of_bucket refresh_bucket
  quota_of_bucket-refresh_other other rows h =
      find-upsert_row_other _ _ _ (λ q. q.bucket == other) (λ q e. (ground arith, ground arith)) h
        rows

module _ (t : QuotaTables) (other : ℕ) where
  quota_of_bucket-refreshes :
      (buckets : List (ℕ × Text)) (rows : List BucketQuotaRow)
      → quota_of_bucket other (refresh_buckets t buckets rows) ≡ (
          if any (λ b. b.0 == other) buckets
          then some (refreshed t other (quota_of_bucket other rows))
          else quota_of_bucket other rows)
  unfolding refresh_buckets any
  quota_of_bucket-refreshes [] rows = refl
  quota_of_bucket-refreshes ((id, name) ∷ buckets) rows =
      let rest = quota_of_bucket-refreshes buckets (refresh_bucket t id rows) in
      elim (Bool-cases (id == other)) [
        | inl here ↦
            let same : id ≡ other = (==_iff id other).0 here in
            let first : quota_of_bucket other (refresh_bucket t id rows)
                ≡ some (refreshed t other (quota_of_bucket other rows)) =
              subst
                (λ i.
                  quota_of_bucket other (refresh_bucket t i rows)
                  ≡ some (refreshed t other (quota_of_bucket other rows)))
                (sym same) (quota_of_bucket-refresh_same t other rows) in
            ground (arith, rest, first, refreshed-some t other (quota_of_bucket other rows))
        | inr there ↦ ground (arith, rest, quota_of_bucket-refresh_other t id other rows there)
      ]

-- The sums of the usage fit a BIGINT.
unfoldable pub AreSumsInRange : QuotaTables → Type 0
unfolding all
AreSumsInRange t =
    all (λ b. ltb (sum_bytes (objects_of_bucket b.0 t.objects)) two63) t.buckets ≡ true

-- Where no sum overflows and the driver does not fail, RecalculateBucketUsage reports the number of
-- the buckets, and changes nothing but bucket_quotas: every bucket then has a row with the bytes and
-- the number of its live objects and with the limits and the threshold that it had, none if it had
-- no row; a row of anything else stays as it was.
pub recalculate_bucket_usage_lem :
    (t : QuotaTables)
    → AreSumsInRange t
    → (t' : QuotaTables) × (recalculate_bucket_usage (calm t) ≡ (ok (length t.buckets), calm t'))
      × (t' ≡ record t { bucket_quotas = t'.bucket_quotas })
      × ((id : ℕ)
          → quota_of_bucket id t'.bucket_quotas ≡ (
              if any (λ b. b.0 == id) t.buckets
              then some (refreshed t id (quota_of_bucket id t.bucket_quotas))
              else quota_of_bucket id t.bucket_quotas))
unfolding recalculate_bucket_usage recalculate_bucket_rows statement AreSumsInRange
recalculate_bucket_usage_lem t h = (
  record t { bucket_quotas = refresh_buckets t t.buckets t.bucket_quotas },
  rw h,
  refl,
  λ id. quota_of_bucket-refreshes t id t.buckets t.bucket_quotas,
)

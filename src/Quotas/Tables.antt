-- ===== src/Quotas/Tables.antt =====
-- The tables that internal/quotas/service.go reads and writes, and the sums of its queries.
--
-- An identifier is a number. The sizes are those of a BIGINT that is not negative; a threshold is the
-- int64 of the int32 that the table has.
use harbor_shield.Prelude.{
  ℕ, ◌+◌, Bool, not, ◌&&◌, Option, none, some, List, [], ◌∷◌, Text, find, keep, ◌==◌,
}
use harbor_shield.Quotas.Int64.{Int64}

pub record ObjectRow : Type 0 where
  pub bucket : ℕ
  pub created_by : Option ℕ
  pub size_bytes : ℕ
  pub is_deleted : Bool

pub record BucketQuotaRow : Type 0 where
  pub bucket : ℕ
  pub current_bytes : Int64
  pub current_objects : Int64
  pub max_bytes : Option Int64
  pub max_objects : Option Int64
  pub warning_threshold_percent : Option Int64

pub record UserQuotaRow : Type 0 where
  pub user : ℕ
  pub current_bytes : Int64
  pub max_bytes : Option Int64
  pub warning_threshold_percent : Option Int64

-- The buckets with their names, and the users with their addresses.
pub record QuotaTables : Type 0 where
  pub buckets : List (ℕ × Text)
  pub users : List (ℕ × Text)
  pub objects : List ObjectRow
  pub bucket_quotas : List BucketQuotaRow
  pub user_quotas : List UserQuotaRow

abbrev pub sum_bytes : List ObjectRow → ℕ
sum_bytes [] = 0
sum_bytes (o ∷ os) = o.size_bytes + sum_bytes os

abbrev is_author : ℕ → Option ℕ → Bool
is_author id none = Bool.false
is_author id (some u) = u == id

-- The rows of `o.bucket_id = b.id`, with `o.deleted_at IS NULL`.
unfoldable pub objects_of_bucket : ℕ → List ObjectRow → List ObjectRow
objects_of_bucket id = keep (λ o. o.bucket == id && not o.is_deleted)

-- The rows of `o.created_by = u.id`, with `o.deleted_at IS NULL`.
unfoldable pub objects_of_user : ℕ → List ObjectRow → List ObjectRow
objects_of_user id = keep (λ o. is_author id o.created_by && not o.is_deleted)

-- `LEFT JOIN bucket_quotas q ON q.bucket_id = b.id`: the key is unique.
unfoldable pub quota_of_bucket : ℕ → List BucketQuotaRow → Option BucketQuotaRow
quota_of_bucket id = find (λ q. q.bucket == id)

unfoldable pub quota_of_user : ℕ → List UserQuotaRow → Option UserQuotaRow
quota_of_user id = find (λ q. q.user == id)

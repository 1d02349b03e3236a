-- ===== src/Quotas/Limits.antt =====
-- When CheckObjectWrite lets a write pass, in numbers that do not wrap around.
use harbor_shield.Prelude.{
  ◌≡◌, refl, ap, ◌∙◌, ℕ, ◌+◌, ◌<◌, Bool, true, false, not, ◌&&◌, Option, none, some, arith, any,
  length, ◌==◌, leb, ltb, if◌then◌else◌,
}
use harbor_shield.Db.{calm, Action, pure, raise, query, statement}
use harbor_shield.Db.Returns.{>>=_of_ok}
use harbor_shield.Db.Errors.{ok, err, quota_exceeded}
use harbor_shield.Quotas.Int64.{Int64, two63, add64, sub64, le64}
use harbor_shield.Quotas.Tables.{
  QuotaTables, sum_bytes, objects_of_bucket, objects_of_user, quota_of_bucket, quota_of_user,
}
use harbor_shield.Quotas.Checks.{
  Snapshot, is_over, allows, scan_sum, bucket_max_bytes, bucket_max_objects, user_max_bytes,
  bucket_threshold, user_threshold, bucket_snapshot_row, user_snapshot_row, bucket_snapshot,
  user_snapshot, check_user_write, check_object_write,
}

-- Usage, with some added and some taken away, is within the limit, if one is set.
abbrev pub fits : ℕ → ℕ → ℕ → Option Int64 → Bool
fits usage added removed none = true
fits usage added removed (some limit) = leb (usage + added) (limit + removed)

-- The limit is not negative.
abbrev pub IsLimit : Option Int64 → Type 0
IsLimit none = Unit
IsLimit (some limit) = limit < two63

is_over-fits :
    (usage added removed : ℕ) (limit : Option Int64)
    → IsLimit limit
    → removed < two63
    → usage + added < two63
    → is_over (add64 usage (sub64 added removed)) limit ≡ not (fits usage added removed limit)
unfolding is_over le64 add64 sub64
is_over-fits usage added removed none l h k = refl
is_over-fits usage added removed (some limit) l h k = ground arith

is_over_plain :
    (usage added : ℕ) (limit : Option Int64)
    → IsLimit limit
    → usage + added < two63
    → is_over (add64 usage added) limit ≡ not (fits usage added 0 limit)
unfolding is_over le64 add64
is_over_plain usage added none l k = refl
is_over_plain usage added (some limit) l k = ground arith

-- A snapshot that allows a write of `added` bytes and `more` objects over `removed` bytes.
allows-fits :
    (bytes objects added removed more : ℕ) (max_bytes max_objects : Option Int64)
    → IsLimit max_bytes
    → IsLimit max_objects
    → removed < two63
    → bytes + added < two63
    → objects + more < two63
    → allows (sub64 added removed) more (record {
      current_bytes = bytes;
      current_objects = objects;
      max_bytes = max_bytes;
      max_objects = max_objects;
    })
      ≡ (fits bytes added removed max_bytes && fits objects more 0 max_objects)
unfolding allows
allows-fits bytes objects added removed more max_bytes max_objects l m h k n = ground (
  arith,
  is_over-fits bytes added removed max_bytes l h k,
  is_over_plain objects more max_objects m n,
)

unfoldable pub bucket_usage : ℕ → QuotaTables → ℕ
bucket_usage id t = sum_bytes (objects_of_bucket id t.objects)

unfoldable pub bucket_count : ℕ → QuotaTables → ℕ
bucket_count id t = length (objects_of_bucket id t.objects)

unfoldable pub user_usage : ℕ → QuotaTables → ℕ
user_usage id t = sum_bytes (objects_of_user id t.objects)

abbrev pub added_objects : Bool → ℕ
added_objects exists = if exists then 0 else 1

-- The bucket is there, and its sums stay below 2 ^ 63 with the write.
pub record IsBucketInRange (t : QuotaTables) (id next : ℕ) : Type 0 where
  pub there : any (λ b. b.0 == id) t.buckets ≡ true
  pub bytes : bucket_usage id t + next < two63
  pub objects : bucket_count id t + 1 < two63
  pub max_bytes : IsLimit (bucket_max_bytes (quota_of_bucket id t.bucket_quotas))
  pub max_objects : IsLimit (bucket_max_objects (quota_of_bucket id t.bucket_quotas))

-- The user is there, and the sum stays below 2 ^ 63 with the write.
pub record IsUserInRange (t : QuotaTables) (id next : ℕ) : Type 0 where
  pub there : any (λ u. u.0 == id) t.users ≡ true
  pub bytes : user_usage id t + next < two63
  pub max_bytes : IsLimit (user_max_bytes (quota_of_user id t.user_quotas))

abbrev pub IsAuthorInRange : QuotaTables → Option ℕ → ℕ → Type 0
IsAuthorInRange t none next = Unit
IsAuthorInRange t (some id) next = IsUserInRange t id next

-- Bytes and number of the bucket's objects stay within its limits.
pub fits_bucket : QuotaTables → ℕ → ℕ → ℕ → ℕ → Bool
fits_bucket t id next existing more =
    fits (bucket_usage id t) next existing (bucket_max_bytes (quota_of_bucket id t.bucket_quotas))
    && fits (bucket_count id t) more 0 (bucket_max_objects (quota_of_bucket id t.bucket_quotas))

-- The bytes of the user's objects stay within the user's limit.
abbrev pub fits_user : QuotaTables → Option ℕ → ℕ → ℕ → Bool
fits_user t none next existing = true
fits_user t (some id) next existing =
    fits (user_usage id t) next existing (user_max_bytes (quota_of_user id t.user_quotas))

abbrev user_snapshot_of : ℕ → QuotaTables → Snapshot
user_snapshot_of id t = record {
  current_bytes = user_usage id t;
  current_objects = 0;
  max_bytes = user_max_bytes (quota_of_user id t.user_quotas);
  max_objects = none;
}

abbrev bucket_snapshot_of : ℕ → QuotaTables → Snapshot
bucket_snapshot_of id t = record {
  current_bytes = bucket_usage id t;
  current_objects = bucket_count id t;
  max_bytes = bucket_max_bytes (quota_of_bucket id t.bucket_quotas);
  max_objects = bucket_max_objects (quota_of_bucket id t.bucket_quotas);
}

user_snapshot-calm :
    (t : QuotaTables) (id next : ℕ)
    → IsUserInRange t id next
    → user_snapshot id (calm t)
      ≡ (ok (user_snapshot_of id t, user_threshold (quota_of_user id t.user_quotas)), calm t)
unfolding user_snapshot user_snapshot_row user_usage query statement scan_sum
user_snapshot-calm t id next r =
    let bytes : user_usage id t + next < two63 = r.bytes in
    let small : ltb (user_usage id t) two63 ≡ true = ground arith in rw (r.there, small)

bucket_snapshot-calm :
    (t : QuotaTables) (id next : ℕ)
    → IsBucketInRange t id next
    → bucket_snapshot id (calm t) ≡ (
      ok (bucket_snapshot_of id t, bucket_threshold (quota_of_bucket id t.bucket_quotas)),
      calm t,
    )
unfolding bucket_snapshot bucket_snapshot_row bucket_usage bucket_count query statement scan_sum
bucket_snapshot-calm t id next r =
    let bytes : bucket_usage id t + next < two63 = r.bytes in
    let small : ltb (bucket_usage id t) two63 ≡ true = ground arith in rw (r.there, small)

unless_refused :
    (b c : Bool) (m : Action QuotaTables (Unit {0})) (t : QuotaTables)
    → (m (calm t)).0 ≡ (if c then ok tt else err quota_exceeded)
    → ((if not b then raise quota_exceeded else m) (calm t)).0
      ≡ (if b && c then ok tt else err quota_exceeded)
unfolding raise
unless_refused true c m t h = h
unless_refused false c m t h = refl

allowed_or_refused :
    (b : Bool) (t : QuotaTables)
    → ((if not b then raise quota_exceeded else pure tt) (calm t)).0
      ≡ (if b then ok tt else err quota_exceeded)
unfolding raise pure
allowed_or_refused true t = refl
allowed_or_refused false t = refl

added_objects-below : (n : ℕ) (exists : Bool) → n + 1 < two63 → n + added_objects exists < two63
added_objects-below n true h = omega arith
added_objects-below n false h = h

check_user_write_decides :
    (t : QuotaTables) (user : Option ℕ) (existing next : ℕ)
    → IsAuthorInRange t user next
    → existing < two63
    → (check_user_write user existing next (calm t)).0
      ≡ (if fits_user t user next existing then ok tt else err quota_exceeded)
unfolding check_user_write pure
check_user_write_decides t none existing next r h = refl
check_user_write_decides t (some id) existing next r h =
    let limit = user_max_bytes (quota_of_user id t.user_quotas) in
    let fit : allows (sub64 next existing) 0 (user_snapshot_of id t)
        ≡ fits (user_usage id t) next existing limit =
      ground (
        arith,
        allows-fits (user_usage id t) 0 next existing 0 limit none r.max_bytes tt h r.bytes
            (omega arith),
      ) in
    ap (λ p. p.0)
      (>>=_of_ok (user_snapshot id) _ (calm t) (calm t) _ (user_snapshot-calm t id next r))
    ∙ rw fit (allowed_or_refused (fits (user_usage id t) next existing limit) t)

-- On a driver that does not fail, CheckObjectWrite lets a write of `next` bytes over an object of
-- `existing` bytes pass exactly if the sum of the bucket's bytes, the number of its objects and the
-- sum of the bytes of the user, if there is one, stay within the limits that are set, with the
-- object's new size in place of the old one; otherwise the error is ErrQuotaExceeded. The bucket
-- and the user exist, the sums are below 2 ^ 63 and the limits are not negative.
pub check_object_write_decides :
    (t : QuotaTables) (bucket : ℕ) (user : Option ℕ) (existing next : ℕ) (exists : Bool)
    → IsBucketInRange t bucket next
    → IsAuthorInRange t user next
    → existing < two63
    → (check_object_write bucket user existing next exists (calm t)).0 ≡ (
        if fits_bucket t bucket next existing (added_objects exists)
          && fits_user t user next existing
        then ok tt
        else err quota_exceeded)
unfolding check_object_write fits_bucket
check_object_write_decides t bucket user existing next exists b u h =
    let q = quota_of_bucket bucket t.bucket_quotas in
    let few : bucket_count bucket t + added_objects exists < two63 =
      added_objects-below (bucket_count bucket t) exists b.objects in
    let fit =
      allows-fits (bucket_usage bucket t) (bucket_count bucket t) next existing
        (added_objects exists) (bucket_max_bytes q) (bucket_max_objects q) b.max_bytes b.max_objects
        h b.bytes few in
    ap (λ p. p.0)
      (>>=_of_ok (bucket_snapshot bucket) _ (calm t) (calm t) _
        (bucket_snapshot-calm t bucket next b))
    ∙ rw fit (
        unless_refused _ (fits_user t user next existing) (check_user_write user existing next) t
          (check_user_write_decides t user existing next u h))

-- ===== src/Objects/Versions.antt =====
-- Delete, DeleteVersion, RestoreLatest, SetLegalHold and PutTags of internal/objects/service.go.
use harbor_shield.Prelude.{
  ℕ, Bool, true, false, not, ◌&&◌, Option, none, some, List, [], Text, codes, keep, find, first_of,
  update, order_by, is_empty, ltb, ◌==◌, if◌then◌else◌,
}
use harbor_shield.Db.{
  Action, pure, raise, lift, query, statement, ◌>>=◌, ◌>>◌, attempt, transaction,
}
use harbor_shield.Db.Errors.{
  no_rows, retention_active, legal_hold_active, no_restorable_version, version_not_found, Result,
  ok, err,
}
use harbor_shield.Objects.Tables.{
  ObjectRow, PlacementRow, ObjectTables, ObjectService, Entries, is_none, of_key,
}
use harbor_shield.Objects.Payload.{normalize_tags}
use harbor_shield.Objects.Placement.{store_for_backend, delete_blob}
use harbor_shield.Objects.Reading.{row_or_no_rows, newest_first, is_version}
use harbor_shield.Objects.Storing.{Fresh, is_latest_of, unset_latest, insert_object}

-- `retentionUntil != nil && retentionUntil.After(now)`
unfoldable pub is_retained : ℕ → Option ℕ → Bool
is_retained now none = false
is_retained now (some until) = ltb now until

-- The guard of Delete and of DeleteVersion.
unfoldable pub check_unprotected : ℕ → ObjectRow → Result (Unit {0})
unfolding is_retained
check_unprotected now o =
    if o.legal_hold
    then err legal_hold_active
    else if is_retained now o.retention_until
    then err retention_active
    else ok tt

unfoldable pub delete_marker : Fresh → ℕ → Text → ObjectRow
delete_marker fresh bucket key = record {
  id = fresh.id;
  bucket = bucket;
  key = key;
  version_id = fresh.version_id;
  size_bytes = 0;
  etag = [];
  content_type = codes "application/octet-stream";
  cache_control = [];
  content_disposition = [];
  content_encoding = [];
  user_metadata = [];
  tags = [];
  storage_path = [];
  storage_backend = codes "filesystem";
  scan_status = codes "clean";
  is_latest = true;
  is_delete_marker = true;
  legal_hold = false;
  retention_until = none;
  lifecycle_delete_at = none;
  deleted_at = none;
  created_by = none;
  created_at = fresh.now;
}

unfoldable pub add_marker : ObjectRow → Action ObjectTables (Unit {0})
add_marker marker = transaction (do
  statement (unset_latest marker.bucket marker.key)
  statement (insert_object marker)
  pure tt)

unfoldable pub delete : Fresh → ℕ → Text → Action ObjectTables (Unit {0})
unfolding check_unprotected
delete fresh bucket key = do
  latest ← query (λ t. row_or_no_rows (find (is_latest_of bucket key) t.objects))
  lift (check_unprotected fresh.now latest)
  add_marker (delete_marker fresh bucket key)

abbrev drop_id : ℕ → List ObjectRow → List ObjectRow
drop_id id objects = keep (λ (o : ObjectRow). not (o.id == id)) objects

-- The placements of a row go with it (ON DELETE CASCADE).
unfoldable pub delete_row : ℕ → ObjectTables → Result (Unit {0}) × ObjectTables
delete_row id t = (
  ok tt,
  record t {
    objects = drop_id id t.objects;
    placements = keep (λ (p : PlacementRow). not (p.object == id)) t.placements;
  },
)

unfoldable pub unset_all : ℕ → Text → ObjectTables → Result (Unit {0}) × ObjectTables
unset_all bucket key t = (
  ok tt,
  record t { objects = update (of_key bucket key) (λ o. record o { is_latest = false }) t.objects },
)

-- The newest of the rows that pass a test.
unfoldable pub newest : (ObjectRow → Bool) → List ObjectRow → Option ObjectRow
unfolding order_by newest_first
newest test objects = first_of (order_by newest_first (keep test objects))

unfoldable pub is_kept_version : ℕ → Text → ObjectRow → Bool
unfolding of_key
is_kept_version bucket key o = of_key bucket key o && is_none o.deleted_at

abbrev pub set_latest : Option ObjectRow → List ObjectRow → List ObjectRow
set_latest none objects = objects
set_latest (some n) objects =
    update (λ (o : ObjectRow). o.id == n.id) (λ o. record o { is_latest = true }) objects

unfoldable pub promote_newest : ℕ → Text → ObjectTables → Result (Unit {0}) × ObjectTables
unfolding is_kept_version newest
promote_newest bucket key t = (
  ok tt,
  record t { objects = set_latest (newest (is_kept_version bucket key) t.objects) t.objects },
)

-- Of the tests on the row that is found: the version is there, and has not been soft-deleted.
unfoldable pub is_named_version : ℕ → Text → ℕ → ObjectRow → Bool
unfolding of_key
is_named_version bucket key version o =
    of_key bucket key o && (o.version_id == version && is_none o.deleted_at)

abbrev pub as_version_not_found : Result ObjectRow → Result ObjectRow
as_version_not_found (ok o) = ok o
as_version_not_found (err no_rows) = err version_not_found
as_version_not_found (err e) = err e

unfoldable pub find_version : ℕ → Text → ℕ → Action ObjectTables ObjectRow
unfolding is_named_version
find_version bucket key version =
    attempt (query (λ t. row_or_no_rows (find (is_named_version bucket key version) t.objects)))
      (λ r. lift (as_version_not_found r))

unfoldable pub remove_version : ℕ → ObjectRow → Action ObjectTables ObjectRow
remove_version now o = lift (check_unprotected now o) >>= λ _. statement (delete_row o.id) >>= λ _.
    (if o.is_latest
      then statement (unset_all o.bucket o.key) >> statement (promote_newest o.bucket o.key)
      else pure tt)
    >>= λ _. pure o

-- `none` is a version id that is no uuid.
unfoldable pub delete_version :
    ObjectService → ℕ → ℕ → Text → Option ℕ → Action ObjectTables (Unit {0})
unfolding find_version
delete_version s now bucket key none = raise version_not_found
delete_version s now bucket key (some version) = do
  o ← transaction (find_version bucket key version >>= remove_version now)
  if is_empty o.storage_path
      then pure tt
      else delete_blob s (store_for_backend s o.storage_backend) o.storage_path

unfoldable pub is_restorable : ℕ → Text → ObjectRow → Bool
unfolding of_key
is_restorable bucket key o = of_key bucket key o && (is_none o.deleted_at && not o.is_delete_marker)

abbrev pub restored : Option ObjectRow → Result ObjectRow
restored none = err no_rows
restored (some o) = ok (record o { is_latest = true })

unfoldable pub restore_newest : ℕ → Text → ObjectTables → Result ObjectRow × ObjectTables
unfolding is_restorable newest
restore_newest bucket key t =
    let found = newest (is_restorable bucket key) t.objects in
    (restored found, record t { objects = set_latest found t.objects })

abbrev pub as_no_restorable : Result ObjectRow → Result ObjectRow
as_no_restorable (ok o) = ok o
as_no_restorable (err no_rows) = err no_restorable_version
as_no_restorable (err e) = err e

unfoldable pub restore_latest : ℕ → Text → Action ObjectTables ObjectRow
restore_latest bucket key = transaction (
    statement (unset_latest bucket key) >>= λ _.
    attempt (statement (restore_newest bucket key)) (λ r. lift (as_no_restorable r)))

-- QueryRow scans the first row that UPDATE … RETURNING changed.
unfoldable pub rewrite_version :
    (ObjectRow → Bool) → (ObjectRow → ObjectRow) → ObjectTables → Result ObjectRow × ObjectTables
rewrite_version test f t = (
  row_or_no_rows (elim (find test t.objects) [ none ↦ none | some o ↦ some (f o) ]),
  record t { objects = update test f t.objects },
)

unfoldable pub is_held_version : ℕ → Text → Option ℕ → ObjectRow → Bool
unfolding of_key
is_held_version bucket key version o =
    of_key bucket key o && (is_none o.deleted_at && is_version version o)

unfoldable pub set_legal_hold : ℕ → Text → Option ℕ → Bool → Action ObjectTables ObjectRow
unfolding is_held_version
set_legal_hold bucket key version hold =
    statement
      (rewrite_version (is_held_version bucket key version) (λ o. record o { legal_hold = hold }))

unfoldable pub is_tagged_version : ℕ → Text → Option ℕ → ObjectRow → Bool
unfolding of_key
is_tagged_version bucket key version o =
    of_key bucket key o
    && (is_none o.deleted_at && (not o.is_delete_marker && is_version version o))

unfoldable pub put_tags : ℕ → Text → Option ℕ → Entries → Action ObjectTables ObjectRow
unfolding is_tagged_version normalize_tags
put_tags bucket key version entries = statement (
    rewrite_version (is_tagged_version bucket key version)
      (λ o. record o { tags = normalize_tags entries }))

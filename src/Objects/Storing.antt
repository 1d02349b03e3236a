-- ===== src/Objects/Storing.antt =====
-- Put and Copy of internal/objects/service.go.
use harbor_shield.Prelude.{
  ℕ, Bool, true, false, not, ◌&&◌, Option, none, some, List, [], ◌∷◌, ◌++◌, Text, codes, any,
  update, find, is_empty, length, ◌==◌, if◌then◌else◌,
}
use harbor_shield.Db.{Action, pure, lift, query, statement, ◌>>=◌, ◌>>◌, transaction}
use harbor_shield.Db.Errors.{database, Result, ok, err}
use harbor_shield.Storage.Local.{Bytes}
use harbor_shield.Quotas.Checks.{check_object_write}
use harbor_shield.Objects.Tables.{
  ObjectRow, BucketRow, ObjectTables, ObjectService, Digests, Entries, on_quotas, of_key,
}
use harbor_shield.Objects.Payload.{
  physical_path, validate_payload, normalize_user_metadata, normalize_tags, default_content_type,
}
use harbor_shield.Objects.Placement.{
  resolve_placement_endpoints, resolve_write_backend, write_blob, record_placements,
}
use harbor_shield.Objects.Reading.{is_current, get_version}

-- The reader is what ReadAll makes of it; a nil map is `none`.
pub record PutInput : Type 0 where
  pub key : Text
  pub content_type : Text
  pub cache_control : Text
  pub content_disposition : Text
  pub content_encoding : Text
  pub user_metadata : Option Entries
  pub created_by : Option ℕ
  pub retention_until : Option ℕ
  pub lifecycle_delete_at : Option ℕ
  pub tags : Option Entries
  pub expected_size : Option ℕ
  pub content_md5 : Text
  pub body : Result Bytes

-- What a call draws from outside: the uuid in the path, the nonce of the cipher, the ids of the row
-- and of the version, and NOW().
pub record Fresh : Type 0 where
  pub blob_name : Text
  pub nonce : Bytes
  pub id : ℕ
  pub version_id : ℕ
  pub now : ℕ

abbrev pub entries_of : Option Entries → Entries
entries_of none = []
entries_of (some entries) = entries

abbrev existing_size : Option ObjectRow → ℕ × Bool
existing_size none = (0, false)
existing_size (some o) = (o.size_bytes, true)

unfoldable pub lookup_existing_object : ℕ → Text → Action ObjectTables (ℕ × Bool)
unfolding is_current
lookup_existing_object bucket key =
    query (λ t. ok (existing_size (find (is_current bucket key) t.objects)))

unfoldable pub is_latest_of : ℕ → Text → ObjectRow → Bool
unfolding of_key
is_latest_of bucket key o = of_key bucket key o && o.is_latest

-- `UPDATE objects SET is_latest = FALSE WHERE … AND is_latest = TRUE`
unfoldable pub unset_latest : ℕ → Text → ObjectTables → Result (Unit {0}) × ObjectTables
unfolding is_latest_of
unset_latest bucket key t = (
  ok tt,
  record t {
    objects = update (is_latest_of bucket key) (λ o. record o { is_latest = false }) t.objects;
  },
)

abbrev user_exists : Option ℕ → List (ℕ × Text) → Bool
user_exists none users = true
user_exists (some user) users = any (λ (u : ℕ × Text). u.0 == user) users

-- The constraints on a new row: the primary key, the unique index on the latest version of a key,
-- and the foreign keys.
unfoldable pub may_insert : ObjectRow → ObjectTables → Bool
unfolding any is_latest_of
may_insert o t =
    not (any (λ (p : ObjectRow). p.id == o.id) t.objects)
    && (not (o.is_latest && any (is_latest_of o.bucket o.key) t.objects)
        && (any (λ (b : BucketRow). b.id == o.bucket) t.buckets
            && user_exists o.created_by t.users))

unfoldable pub insert_object : ObjectRow → ObjectTables → Result ObjectRow × ObjectTables
insert_object o t =
    if may_insert o t then (ok o, record t { objects = t.objects ++ o ∷ [] }) else (err database, t)

-- The row of a new version.
unfoldable pub version_of : Digests → Fresh → ℕ → Bytes → Text → Text → PutInput → ObjectRow
unfolding default_content_type normalize_user_metadata normalize_tags
version_of d fresh bucket payload location backend input = record {
  id = fresh.id;
  bucket = bucket;
  key = input.key;
  version_id = fresh.version_id;
  size_bytes = length payload;
  etag = d.sha256_hex payload;
  content_type = default_content_type input.content_type;
  cache_control = input.cache_control;
  content_disposition = input.content_disposition;
  content_encoding = input.content_encoding;
  user_metadata = normalize_user_metadata (entries_of input.user_metadata);
  tags = normalize_tags (entries_of input.tags);
  storage_path = location;
  storage_backend = backend;
  scan_status = codes "pending-scan";
  is_latest = true;
  is_delete_marker = false;
  legal_hold = false;
  retention_until = input.retention_until;
  lifecycle_delete_at = input.lifecycle_delete_at;
  deleted_at = none;
  created_by = input.created_by;
  created_at = fresh.now;
}

unfoldable pub add_version : ObjectService → ObjectRow → List Text → Action ObjectTables ObjectRow
add_version s row selected = transaction (do
  statement (unset_latest row.bucket row.key)
  item ← statement (insert_object row)
  record_placements s item.id row.storage_path selected
  pure item)

module _ (s : ObjectService) (d : Digests) (fresh : Fresh) where
  unfoldable pub check_quotas : ℕ → Option ℕ → ℕ × Bool → ℕ → Action ObjectTables (Unit {0})
  check_quotas bucket user (existing, exists) next =
      if s.has_quotas
      then on_quotas (check_object_write bucket user existing next exists)
      else pure tt

  -- Put once the body has been read.
  unfoldable pub put_payload : ℕ → PutInput → Bytes → Action ObjectTables ObjectRow
  put_payload bucket input payload = do
    lift (validate_payload d payload input.expected_size input.content_md5)
    let location = physical_path s.tenant (d.id_text bucket) fresh.blob_name
    existing ← lookup_existing_object bucket input.key
    check_quotas bucket input.created_by existing (length payload)
    selected ← resolve_placement_endpoints s bucket
    let backend = resolve_write_backend s selected
    write_blob s fresh.nonce backend location payload selected
    add_version s (version_of d fresh bucket payload location backend input) selected

  unfoldable pub put : ℕ → PutInput → Action ObjectTables ObjectRow
  unfolding put_payload
  put bucket input = lift input.body >>= put_payload bucket input

  abbrev or_text : Text → Text → Text
  or_text text other = if is_empty text then other else text

  abbrev or_entries : Option Entries → Entries → Option Entries
  or_entries none other = some other
  or_entries (some entries) other = some entries

  -- The input of the copy: what it leaves out is the source's.
  unfoldable pub completed : PutInput → ObjectRow → Bytes → PutInput
  completed input source body = record input {
    content_type = or_text input.content_type source.content_type;
    cache_control = or_text input.cache_control source.cache_control;
    content_disposition = or_text input.content_disposition source.content_disposition;
    content_encoding = or_text input.content_encoding source.content_encoding;
    user_metadata = or_entries input.user_metadata source.user_metadata;
    tags = or_entries input.tags source.tags;
    expected_size = some (length body);
    body = ok body;
  }

  unfoldable pub copy : ℕ → Text → Option ℕ → ℕ → PutInput → Action ObjectTables ObjectRow
  copy source_bucket source_key source_version destination_bucket input =
      get_version s source_bucket source_key source_version >>= λ found.
      put destination_bucket (completed input found.0 found.1)

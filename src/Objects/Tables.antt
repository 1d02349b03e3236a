-- ===== src/Objects/Tables.antt =====
-- What internal/objects/service.go reads and writes: its tables, those of the quotas, the files of the
-- local store and the blob nodes.
use harbor_shield.Prelude.{
  ℕ, Bool, true, false, not, Option, none, some, List, map, Text, text_eq, ◌==◌, ◌&&◌,
}
use harbor_shield.Db.{Action, zoom}
use harbor_shield.Storage.Local.{Bytes, Files, Aead}
use harbor_shield.Storage.Nodes.{Network}
use harbor_shield.Storage.Distributed.{DistributedStore}
use harbor_shield.Quotas.Tables.{QuotaTables, BucketQuotaRow, UserQuotaRow, ObjectRow as CountedRow}

-- Both metadata and tags: a map as a list of its entries.
abbrev pub Entries : Type 0
Entries = List (Text × Text)

-- A row of the table objects. The columns that the source selects are those of its Metadata.
pub record ObjectRow : Type 0 where
  pub id : ℕ
  pub bucket : ℕ
  pub key : Text
  pub version_id : ℕ
  pub size_bytes : ℕ
  pub etag : Text
  pub content_type : Text
  pub cache_control : Text
  pub content_disposition : Text
  pub content_encoding : Text
  pub user_metadata : Entries
  pub tags : Entries
  pub storage_path : Text
  pub storage_backend : Text
  pub scan_status : Text
  pub is_latest : Bool
  pub is_delete_marker : Bool
  pub legal_hold : Bool
  pub retention_until : Option ℕ
  pub lifecycle_delete_at : Option ℕ
  pub deleted_at : Option ℕ
  pub created_by : Option ℕ
  pub created_at : ℕ

pub record PlacementRow : Type 0 where
  pub object : ℕ
  pub replica_index : ℕ
  pub storage_node : Option ℕ
  pub locator : Text
  pub endpoint : Text

pub record NodeRow : Type 0 where
  pub id : ℕ
  pub name : Text
  pub endpoint : Text
  pub operator_state : Text

-- The replica target is that of `COALESCE(replica_target, 0)`.
pub record BucketRow : Type 0 where
  pub id : ℕ
  pub name : Text
  pub replica_target : ℕ
  pub storage_class : Text

pub record ObjectTables : Type 0 where
  pub objects : List ObjectRow
  pub placements : List PlacementRow
  pub nodes : List NodeRow
  pub buckets : List BucketRow
  pub users : List (ℕ × Text)
  pub bucket_quotas : List BucketQuotaRow
  pub user_quotas : List UserQuotaRow
  pub files : Files
  pub network : Network

-- `deleted_at IS NULL`
abbrev pub is_none : {A : Type 0} → Option A → Bool
is_none none = true
is_none (some a) = false

-- What the quota service sees of the tables.
abbrev counted : ObjectRow → CountedRow
counted o = record {
  bucket = o.bucket;
  created_by = o.created_by;
  size_bytes = o.size_bytes;
  is_deleted = not (is_none o.deleted_at);
}

unfoldable pub quota_view : ObjectTables → QuotaTables
quota_view t = record {
  buckets = map (λ (b : BucketRow). (b.id, b.name)) t.buckets;
  users = t.users;
  objects = map counted t.objects;
  bucket_quotas = t.bucket_quotas;
  user_quotas = t.user_quotas;
}

-- The check of the quotas writes nothing.
unfoldable pub on_quotas : {A : Type 0} → Action QuotaTables A → Action ObjectTables A
unfolding quota_view
on_quotas m = zoom quota_view (λ q t. t) m

unfoldable pub on_disk : {A : Type 0} → Action Files A → Action ObjectTables A
on_disk m = zoom (λ (t : ObjectTables). t.files) (λ f t. record t { files = f }) m

unfoldable pub on_network : {A : Type 0} → Action Network A → Action ObjectTables A
on_network m = zoom (λ (t : ObjectTables). t.network) (λ n t. record t { network = n }) m

pub record StoragePolicy : Type 0 where
  pub default_class : Text
  -- the name and the default replicas of each class
  pub policies : List (Text × ℕ)

-- The fields of Service, with the local store's cipher and root. A service that may be nil is an
-- Option or, for the quotas, a Bool; ResolveStoragePolicy of the settings is an action.
pub record ObjectService : Type 0 where
  pub tenant : Text
  pub storage_backend : Text
  pub placement_endpoints : List Text
  pub placement_replicas : ℕ
  pub default_storage_class : Text
  pub has_quotas : Bool
  pub resolve_storage_policy : Option (Action ObjectTables StoragePolicy)
  pub local_root : Text
  pub local_cipher : Aead
  pub distributed : Option DistributedStore

-- The hashes of crypto/sha256 and crypto/md5, the decoding of encoding/base64, and the text of an id.
pub record Digests : Type 0 where
  pub sha256_hex : Bytes → Text
  pub md5 : Bytes → Bytes
  pub decode_base64 : Text → Option Bytes
  pub id_text : ℕ → Text

-- `bucket_id = $1 AND object_key = $2`
unfoldable pub of_key : ℕ → Text → ObjectRow → Bool
unfolding text_eq
of_key bucket key o = o.bucket == bucket && text_eq o.key key

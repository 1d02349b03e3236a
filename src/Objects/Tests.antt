-- ===== src/Objects/Tests.antt =====
-- A bucket with a held version, and calls on it.
use mathlib.Core.List.{reverse-reverse}
use harbor_shield.Prelude.{
  ◌≡◌, refl, ap, ℕ, true, false, none, some, List, [], ◌∷◌, codes, text_eq, arith, All, reverse,
}
use harbor_shield.Db.{calm, ◌>>=◌, query, zoom, attempt, transaction}
use harbor_shield.Db.Errors.{Result, ok, err, legal_hold_active}
use harbor_shield.Storage.Local.{Aead, local_put, create_file, write_file}
use harbor_shield.Objects.Tables.{ObjectRow, ObjectTables, ObjectService, Digests, on_disk}
use harbor_shield.Objects.Reading.{like}
use harbor_shield.Objects.Storing.{
  Fresh, PutInput, put, put_payload, is_latest_of, lookup_existing_object, check_quotas,
  add_version, unset_latest, insert_object, may_insert, version_of,
}
use harbor_shield.Objects.Versions.{delete, restore_latest}
use harbor_shield.Objects.Placement.{
  effective_replica_target, resolve_placement_endpoints, write_blob, is_distributed,
  resolve_write_backend, record_placements,
}
use harbor_shield.Objects.Payload.{validate_payload}
use harbor_shield.Objects.Invariant.{IsWellFormed, KeepsProtected}
use harbor_shield.Objects.Protected.{
  ObjectCall, putting, deleting_version, restoring, holding, expiring, purging, IsWithin,
  perform_calls, perform_calls-KeepsProtected,
}
use harbor_shield.Objects.RoundTrip.{ReadBack, get_by_key-put}
use harbor_shield.Objects.Seen.{RestoredOrSame}
use harbor_shield.Objects.Refinement.{PutResult, DeleteResult, operations-refine_view}

prefix_matches : like (codes "logs/%") (codes "logs/a.txt") ≡ true
unfolding like
prefix_matches = refl

prefix_differs : like (codes "logs/%") (codes "log/a.txt") ≡ false
unfolding like
prefix_differs = refl

-- A prefix with an underscore lists keys that do not begin with it.
prefix_is_pattern : like (codes "a_b%") (codes "axb.txt") ≡ true
unfolding like
prefix_is_pattern = refl

one_less : effective_replica_target (codes " Reduced-Redundancy ") 3 ≡ 2
unfolding effective_replica_target
one_less = refl

abbrev cipher : Aead
cipher = record {
  nonce_size = 1;
  seal = λ nonce plain. reverse plain;
  open_sealed = λ nonce sealed. some (reverse sealed);
}

abbrev service : ObjectService
service = record {
  tenant = codes "default";
  storage_backend = codes "local";
  placement_endpoints = [];
  placement_replicas = 1;
  default_storage_class = codes "standard";
  has_quotas = true;
  resolve_storage_policy = none;
  local_root = codes "/data";
  local_cipher = cipher;
  distributed = none;
}

abbrev digests : Digests
digests = record {
  sha256_hex = λ payload. payload;
  md5 = λ payload. payload;
  decode_base64 = λ t. some t;
  id_text = λ id. id ∷ [];
}

abbrev held : ObjectRow
held = record {
  id = 1;
  bucket = 7;
  key = codes "report";
  version_id = 11;
  size_bytes = 2;
  etag = codes "e";
  content_type = codes "text/plain";
  cache_control = [];
  content_disposition = [];
  content_encoding = [];
  user_metadata = [];
  tags = [];
  storage_path = codes "p1";
  storage_backend = codes "local";
  scan_status = codes "clean";
  is_latest = true;
  is_delete_marker = false;
  legal_hold = true;
  retention_until = none;
  lifecycle_delete_at = some 20;
  deleted_at = none;
  created_by = none;
  created_at = 5;
}

abbrev free : ObjectRow
free = record held {
  id = 2;
  version_id = 12;
  storage_path = codes "p2";
  is_latest = false;
  legal_hold = false;
  created_at = 4;
}

abbrev tables : ObjectTables
tables = record {
  objects = held ∷ free ∷ [];
  placements = [];
  nodes = [];
  buckets =
      record { id = 7; name = codes "b"; replica_target = 0; storage_class = codes "standard" }
      ∷ [];
  users = [];
  bucket_quotas = [];
  user_quotas = [];
  files = [];
  network = record { nodes = []; fates = [] };
}

abbrev fresh : Fresh
fresh = record { blob_name = codes "u3"; nonce = 9 ∷ []; id = 3; version_id = 13; now = 30 }

abbrev input : PutInput
input = record {
  key = codes "report";
  content_type = [];
  cache_control = [];
  content_disposition = [];
  content_encoding = [];
  user_metadata = none;
  created_by = none;
  retention_until = none;
  lifecycle_delete_at = none;
  tags = none;
  expected_size = some 3;
  content_md5 = [];
  body = ok (codes "new");
}

tables-IsWellFormed : IsWellFormed tables.objects
tables-IsWellFormed = record {
  ids = ((omega arith, tt), (tt, tt));
  latest = (((λ h k. absurd (cc)), tt), (tt, tt));
}

abbrev calls : List ObjectCall
calls =
    deleting_version 40 7 (codes "report") (some 11)
    ∷ putting fresh 7 input
    ∷ expiring 41
    ∷ restoring 7 (codes "report")
    ∷ purging 60
    ∷ holding 7 (codes "report") none true
    ∷ []

calls-IsWithin : All (IsWithin 50) calls
calls-IsWithin = (omega arith, (tt, (omega arith, (tt, (tt, (refl, tt))))))

perform_calls-KeepsProtected_example :
    IsWellFormed (perform_calls service digests (calm tables) calls).tables.objects
    × KeepsProtected 50 tables.objects
        (perform_calls service digests (calm tables) calls).tables.objects
perform_calls-KeepsProtected_example =
    perform_calls-KeepsProtected service digests 50 tt (calm tables) calls calls-IsWithin
      tables-IsWellFormed

operations-refine_view_example :
    PutResult digests 7 input tables.objects
      (put service digests fresh 7 input (calm tables)).0
      (put service digests fresh 7 input (calm tables)).1.tables
    × DeleteResult 7
        (codes "report")
        tables.objects
        (delete fresh 7 (codes "report") (calm tables)).0
        (delete fresh 7 (codes "report") (calm tables)).1.tables
    × RestoredOrSame tables.objects 7
        (codes "report")
        tables
        (restore_latest 7 (codes "report") (calm tables)).0
        (restore_latest 7 (codes "report") (calm tables)).1.tables
operations-refine_view_example =
    operations-refine_view service digests fresh 7 input (codes "report") (calm tables) tt
      tables-IsWellFormed

held_is_kept : (delete fresh 7 (codes "report") (calm tables)).0 ≡ err legal_hold_active
unfolding delete ◌>>=◌ query is_latest_of
held_is_kept = refl

service_is_local : is_distributed service.storage_backend ≡ false
unfolding text_eq
service_is_local = refl

get_by_key-put_example :
    ReadBack service service_is_local digests fresh 7 input
      (put service digests fresh 7 input (calm tables)).0
      (put service digests fresh 7 input (calm tables)).1.tables
get_by_key-put_example =
    get_by_key-put service service_is_local digests fresh 7 input
      (λ nonce plain. ap some (reverse-reverse plain)) refl (calm tables)

abbrev size_of : Result ObjectRow → ℕ
size_of (ok o) = o.size_bytes
size_of (err e) = 0

put_returns :
    size_of (put (record service { has_quotas = false }) digests fresh 7 input (calm tables)).0 ≡ 3
unfolding put put_payload validate_payload lookup_existing_object check_quotas
    resolve_placement_endpoints write_blob add_version ◌>>=◌ query zoom resolve_write_backend
    on_disk local_put attempt create_file write_file transaction unset_latest insert_object
    record_placements may_insert version_of
put_returns = refl

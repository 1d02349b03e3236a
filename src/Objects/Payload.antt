-- ===== src/Objects/Payload.antt =====
-- ValidatePayload, PhysicalPath and the normal forms of metadata and tags.
use harbor_shield.Prelude.{
  ℕ, Bool, true, not, Option, none, some, [], ◌∷◌, Text, codes, text_eq, keep, is_empty, length,
  ◌==◌, if◌then◌else◌,
}
use harbor_shield.Db.Errors.{incomplete_body, invalid_digest, bad_digest, Result, ok, err}
use harbor_shield.Storage.Paths.{join_path}
use harbor_shield.Storage.Local.{Bytes}
use harbor_shield.Objects.Tables.{Entries, Digests}

unfoldable pub physical_path : Text → Text → Text → Text
unfolding join_path
physical_path tenant bucket object =
    join_path (codes "tenants" ∷ tenant ∷ codes "buckets" ∷ bucket ∷ codes "objects" ∷ object ∷ [])

-- A negative expected size is `none`.
unfoldable pub has_size : Bytes → Option ℕ → Bool
has_size payload none = true
has_size payload (some expected) = length payload == expected

unfoldable pub check_digest : Digests → Bytes → Option Bytes → Result (Unit {0})
unfolding text_eq
check_digest d payload none = err invalid_digest
check_digest d payload (some expected) =
    if not (text_eq expected (d.md5 payload)) then err bad_digest else ok tt

unfoldable pub validate_payload : Digests → Bytes → Option ℕ → Text → Result (Unit {0})
unfolding has_size check_digest
validate_payload d payload expected_size content_md5 =
    if not (has_size payload expected_size)
    then err incomplete_body
    else if is_empty content_md5
    then ok tt
    else check_digest d payload (d.decode_base64 content_md5)

-- A copy of the map.
unfoldable pub normalize_user_metadata : Entries → Entries
normalize_user_metadata entries = entries

unfoldable pub normalize_tags : Entries → Entries
normalize_tags entries = keep (λ (e : Text × Text). not (is_empty e.0)) entries

unfoldable pub default_content_type : Text → Text
default_content_type t = if is_empty t then codes "application/octet-stream" else t

-- ===== src/Objects/Reading.antt =====
-- The reads of internal/objects/service.go: Head, List, ListVersions, ListAllVersions, GetByKey,
-- GetByVersion and GetTags.
use harbor_shield.Prelude.{
  ℕ, Bool, true, false, not, ◌&&◌, ◌||◌, Option, none, some, List, [], ◌∷◌, ◌++◌, Text, text_eq,
  text_le, keep, find, order_by, leb, ◌==◌, if◌then◌else◌,
}
use harbor_shield.Db.{Action, pure, query, ◌>>=◌}
use harbor_shield.Db.Errors.{no_rows, Result, ok, err}
use harbor_shield.Storage.Local.{Bytes}
use harbor_shield.Objects.Tables.{ObjectRow, ObjectTables, ObjectService, Entries, is_none, of_key}
use harbor_shield.Objects.Placement.{store_for_backend, read_blob}

abbrev pub row_or_no_rows : Option ObjectRow → Result ObjectRow
row_or_no_rows none = err no_rows
row_or_no_rows (some o) = ok o

-- A rest of the text, the text itself included, passes the test.
abbrev some_rest : (Text → Bool) → Text → Bool
some_rest f [] = f []
some_rest f (c ∷ s) = f (c ∷ s) || some_rest f s

abbrev one_char : (ℕ → Bool) → (Text → Bool) → Text → Bool
one_char p f [] = false
one_char p f (c ∷ s) = p c && f s

abbrev no_char : Text → Bool
no_char [] = true
no_char (c ∷ s) = false

-- `value LIKE pattern`. A backslash takes the next character as it is.
unfoldable pub like : Text → Text → Bool
like [] value = no_char value
like (p ∷ []) value = if p == b'%' then true else one_char (λ c. p == b'_' || c == p) no_char value
like (p ∷ q ∷ pattern) value =
    let any_rest = some_rest (like (q ∷ pattern)) value in
    let escaped = one_char (λ c. c == q) (like pattern) value in
    let plain = one_char (λ c. p == b'_' || c == p) (like (q ∷ pattern)) value in
    if p == b'%' then any_rest else if p == 0x5C then escaped else plain

-- The latest version that is there, is no marker and has the key.
unfoldable pub is_current : ℕ → Text → ObjectRow → Bool
unfolding of_key
is_current bucket key o =
    of_key bucket key o && (is_none o.deleted_at && (o.is_latest && not o.is_delete_marker))

-- `object_key LIKE prefix || '%'`
unfoldable pub has_key_prefix : Text → ObjectRow → Bool
unfolding like
has_key_prefix prefix o = like (prefix ++ b'%' ∷ []) o.key

unfoldable pub is_listed : ℕ → Text → ObjectRow → Bool
unfolding has_key_prefix
is_listed bucket prefix o =
    o.bucket == bucket
    && (is_none o.deleted_at
        && (o.is_latest && (not o.is_delete_marker && has_key_prefix prefix o)))

abbrev by_key : ObjectRow → ObjectRow → Bool
by_key a b = text_le a.key b.key

-- `ORDER BY created_at DESC`
unfoldable pub newest_first : ObjectRow → ObjectRow → Bool
newest_first a b = leb b.created_at a.created_at

abbrev by_key_newest_first : ObjectRow → ObjectRow → Bool
by_key_newest_first a b = if text_eq a.key b.key then newest_first a b else text_le a.key b.key

unfoldable pub list_objects : ℕ → Text → Action ObjectTables (List ObjectRow)
unfolding is_listed order_by text_le
list_objects bucket prefix =
    query (λ t. ok (order_by by_key (keep (is_listed bucket prefix) t.objects)))

unfoldable pub list_versions : ℕ → Text → Action ObjectTables (List ObjectRow)
unfolding of_key order_by newest_first
list_versions bucket key =
    query (λ t. ok (order_by newest_first (keep (of_key bucket key) t.objects)))

unfoldable pub list_all_versions : ℕ → Text → Action ObjectTables (List ObjectRow)
unfolding has_key_prefix order_by newest_first text_eq text_le
list_all_versions bucket prefix = query (λ t. ok (
    order_by by_key_newest_first (
      keep
        (λ (o : ObjectRow). o.bucket == bucket && (is_none o.deleted_at && has_key_prefix prefix o))
        t.objects)))

unfoldable pub head : ℕ → Text → Action ObjectTables ObjectRow
unfolding is_current
head bucket key = query (λ t. row_or_no_rows (find (is_current bucket key) t.objects))

-- `is_latest = TRUE`, or the version that is named; `none` is the empty version id.
abbrev pub is_version : Option ℕ → ObjectRow → Bool
is_version none o = o.is_latest
is_version (some version) o = o.version_id == version

unfoldable pub is_readable : ℕ → Text → Option ℕ → ObjectRow → Bool
unfolding of_key
is_readable bucket key version o =
    of_key bucket key o
    && (is_none o.deleted_at && (not o.is_delete_marker && is_version version o))

unfoldable pub backend_of : ℕ → Action ObjectTables Text
backend_of id = query (λ t. elim (find (λ (o : ObjectRow). o.id == id) t.objects) [
  | none ↦ err no_rows
  | some o ↦ ok o.storage_backend
])

unfoldable pub get_version :
    ObjectService → ℕ → Text → Option ℕ → Action ObjectTables (ObjectRow × Bytes)
unfolding is_readable backend_of
get_version s bucket key version = do
  item ← query (λ t. row_or_no_rows (find (is_readable bucket key version) t.objects))
  backend ← backend_of item.id
  payload ← read_blob s (store_for_backend s backend) item.storage_path
  pure (item, payload)

unfoldable pub get_by_key : ObjectService → ℕ → Text → Action ObjectTables (ObjectRow × Bytes)
get_by_key s bucket key = get_version s bucket key none

unfoldable pub get_by_version :
    ObjectService → ℕ → Text → ℕ → Action ObjectTables (ObjectRow × Bytes)
get_by_version s bucket key version = get_version s bucket key (some version)

unfoldable pub get_tags : ObjectService → ℕ → Text → Option ℕ → Action ObjectTables Entries
get_tags s bucket key version = get_version s bucket key version >>= λ found. pure found.0.tags

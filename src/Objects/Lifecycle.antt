-- ===== src/Objects/Lifecycle.antt =====
-- ApplyLifecycleExpirations and PurgeDeletedBefore of internal/objects/service.go.
use harbor_shield.Prelude.{
  ℕ, ◌+◌, Bool, true, false, not, ◌&&◌, Option, none, some, List, [], ◌∷◌, Text, codes, any, keep,
  update, length, leb, ◌==◌, if◌then◌else◌,
}
use harbor_shield.Db.{Action, pure, query, statement, ◌>>=◌, ◌>>◌, attempt}
use harbor_shield.Db.Errors.{Error, Result, ok, err}
use harbor_shield.Objects.Tables.{ObjectRow, PlacementRow, ObjectTables, ObjectService, is_none}
use harbor_shield.Objects.Placement.{store_for_backend, delete_blob}
use harbor_shield.Objects.Reading.{backend_of}

-- `column IS NOT NULL AND column <= $1`
abbrev pub is_passed : ℕ → Option ℕ → Bool
is_passed now none = false
is_passed now (some time) = leb time now

-- `column IS NULL OR column <= $1`
abbrev pub is_passed_or_null : ℕ → Option ℕ → Bool
is_passed_or_null now none = true
is_passed_or_null now (some time) = leb time now

unfoldable pub is_expired : ℕ → ObjectRow → Bool
is_expired now o =
    is_none o.deleted_at
    && (is_passed now o.lifecycle_delete_at
        && (not o.legal_hold && is_passed_or_null now o.retention_until))

unfoldable pub expire_rows : ℕ → ObjectTables → Result ℕ × ObjectTables
unfolding is_expired
expire_rows now t = (
  ok (length (keep (is_expired now) t.objects)),
  record t {
    objects = update (is_expired now) (λ o. record o { deleted_at = some now }) t.objects;
  },
)

unfoldable pub apply_lifecycle_expirations : ℕ → Action ObjectTables ℕ
apply_lifecycle_expirations now = statement (expire_rows now)

-- The row is purged if it is still deleted, and was before the cutoff.
unfoldable pub is_purged : ℕ → ℕ → ObjectRow → Bool
is_purged cutoff id o = o.id == id && is_passed cutoff o.deleted_at

unfoldable pub purge_row : ℕ → ℕ → ObjectTables → Result Bool × ObjectTables
unfolding is_purged any
purge_row cutoff id t =
    let gone = any (is_purged cutoff id) t.objects in
    (
      ok gone,
      record t {
        objects = keep (λ (o : ObjectRow). not (is_purged cutoff id o)) t.objects;
        placements = keep (λ (p : PlacementRow). not (gone && p.object == id)) t.placements;
      },
    )

-- An error of the look-up is as if the blob were in the local store.
unfoldable pub lookup_stored_backend : ℕ → Action ObjectTables Text
lookup_stored_backend id =
    attempt (backend_of id) (λ r. elim r [ ok b ↦ pure b | err e ↦ pure (codes "local") ])

unfoldable pub purge_one : ObjectService → ℕ → ℕ → Text → Action ObjectTables Bool
unfolding lookup_stored_backend
purge_one s cutoff id path = do
  backend ← lookup_stored_backend id
  delete_blob s (store_for_backend s backend) path
  statement (purge_row cutoff id)

-- The number that was purged, and the error that ended the loop.
unfoldable pub purge_each :
    ObjectService → ℕ → ℕ → List (ℕ × Text) → Action ObjectTables (ℕ × Option Error)
purge_each s cutoff purged [] = pure (purged, none)
purge_each s cutoff purged ((id, path) ∷ candidates) = attempt (purge_one s cutoff id path) λ r.
    elim r [
      | err e ↦ pure (purged, some e)
      | ok gone ↦ purge_each s cutoff (if gone then purged + 1 else purged) candidates
    ]

unfoldable pub purge_candidates : ℕ → List ObjectRow → List (ℕ × Text)
purge_candidates cutoff [] = []
purge_candidates cutoff (o ∷ objects) =
    let rest = purge_candidates cutoff objects in
    if is_passed cutoff o.deleted_at then (o.id, o.storage_path) ∷ rest else rest

unfoldable pub purge_deleted_before : ObjectService → ℕ → Action ObjectTables (ℕ × Option Error)
unfolding purge_candidates
purge_deleted_before s cutoff = do
  candidates ← query (λ (t : ObjectTables). ok (purge_candidates cutoff t.objects))
  purge_each s cutoff 0 candidates

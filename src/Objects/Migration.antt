-- ===== src/Objects/Migration.antt =====
-- MigrationStatus and MigrateLocalObjectsToDistributed of internal/objects/service.go.
use harbor_shield.Prelude.{
  ℕ, zero, suc, ◌+◌, Bool, not, ◌&&◌, ◌||◌, Option, none, some, List, [], ◌∷◌, codes, text_eq, keep,
  update, order_by, is_empty, length, leb, ltb, ◌==◌, if◌then◌else◌,
}
use harbor_shield.Db.{Action, pure, raise, query, statement, ◌>>=◌, ◌>>◌, attempt, transaction}
use harbor_shield.Db.Errors.{Error, distributed_unavailable, no_active_nodes, Result, ok, err}
use harbor_shield.Storage.Local.{local_get, local_delete}
use harbor_shield.Storage.Distributed.{DistributedStore, put_to_endpoints}
use harbor_shield.Objects.Tables.{
  ObjectRow, ObjectTables, ObjectService, is_none, on_disk, on_network,
}
use harbor_shield.Objects.Placement.{is_distributed, resolve_placement_endpoints, record_placements}

unfoldable pub has_blob : ObjectRow → Bool
has_blob o = is_none o.deleted_at && (not o.is_delete_marker && not (is_empty o.storage_path))

unfoldable pub is_local : ObjectRow → Bool
unfolding has_blob text_eq
is_local o = has_blob o && not (is_distributed o.storage_backend)

unfoldable pub is_remote : ObjectRow → Bool
unfolding has_blob text_eq
is_remote o = has_blob o && is_distributed o.storage_backend

pub record MigrationStatus : Type 0 where
  pub pending_local_objects : ℕ
  pub pending_local_bytes : ℕ
  pub distributed_objects : ℕ
  pub distributed_bytes : ℕ

abbrev sum_sizes : List ObjectRow → ℕ
sum_sizes [] = 0
sum_sizes (o ∷ objects) = o.size_bytes + sum_sizes objects

unfoldable pub migration_status : Action ObjectTables MigrationStatus
unfolding is_local is_remote
migration_status = query (λ (t : ObjectTables). ok (record {
  pending_local_objects = length (keep is_local t.objects);
  pending_local_bytes = sum_sizes (keep is_local t.objects);
  distributed_objects = length (keep is_remote t.objects);
  distributed_bytes = sum_sizes (keep is_remote t.objects);
}))

abbrev oldest_first : ObjectRow → ObjectRow → Bool
oldest_first a b = leb a.created_at b.created_at

abbrev first_rows : ℕ → List ObjectRow → List ObjectRow
first_rows zero objects = []
first_rows (suc n) [] = []
first_rows (suc n) (o ∷ objects) = o ∷ first_rows n objects

unfoldable pub migration_candidates : ℕ → ObjectTables → List ObjectRow
unfolding is_local order_by
migration_candidates limit t = first_rows limit (order_by oldest_first (keep is_local t.objects))

unfoldable pub set_distributed : ℕ → ObjectTables → Result (Unit {0}) × ObjectTables
set_distributed id t = (
  ok tt,
  record t {
    objects =
        update (λ (o : ObjectRow). o.id == id)
          (λ o. record o { storage_backend = codes "distributed" }) t.objects;
  },
)

module _ (s : ObjectService) (store : DistributedStore) where
  -- The blob is put on the nodes, then the row is changed, and then the file is removed; the error of
  -- the removal is thrown away.
  unfoldable pub migrate_one : ObjectRow → Action ObjectTables (Unit {0})
  migrate_one item = do
    selected ← resolve_placement_endpoints s item.bucket
    if is_empty selected then raise no_active_nodes else do
      payload ← on_disk (local_get s.local_cipher s.local_root item.storage_path)
      on_network (put_to_endpoints store item.storage_path payload selected)
      transaction (
          statement (set_distributed item.id)
          >> record_placements s item.id item.storage_path selected)
      attempt (on_disk (local_delete s.local_root item.storage_path)) (λ r. pure tt)

  -- The number that was migrated, and the error that ended the loop.
  unfoldable pub migrate_each : ℕ → List ObjectRow → Action ObjectTables (ℕ × Option Error)
  migrate_each migrated [] = pure (migrated, none)
  migrate_each migrated (item ∷ candidates) = attempt (migrate_one item) λ r. elim r [
    | err e ↦ pure (migrated, some e)
    | ok _ ↦ migrate_each (migrated + 1) candidates
  ]

abbrev migration_limit : ℕ → ℕ
migration_limit limit = if limit == 0 || ltb 1000 limit then 100 else limit

unfoldable pub migrate_if_any :
    ObjectService → Option DistributedStore → ℕ → Action ObjectTables (ℕ × Option Error)
unfolding migration_candidates
migrate_if_any s none limit = raise distributed_unavailable
migrate_if_any s (some store) limit =
    query (λ t. ok (migration_candidates limit t)) >>= migrate_each s store 0

-- A negative limit is 0 here: both stand for 100.
unfoldable pub migrate_local_objects_to_distributed :
    ObjectService → ℕ → Action ObjectTables (ℕ × Option Error)
unfolding migrate_if_any
migrate_local_objects_to_distributed s limit =
    migrate_if_any s s.distributed (migration_limit limit)

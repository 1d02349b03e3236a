-- ===== src/Objects/Protected.antt =====
-- Any sequence of calls of internal/objects/service.go: what stays true of its rows.
use harbor_shield.Prelude.{ℕ, ◌≤◌, ◌≡◌, Bool, true, false, Option, List, [], ◌∷◌, Text, All}
use harbor_shield.Db.{World}
use harbor_shield.Objects.Tables.{ObjectTables, ObjectService, Digests, Entries}
use harbor_shield.Objects.Storing.{Fresh, PutInput, put, copy}
use harbor_shield.Objects.Versions.{
  delete, delete_version, restore_latest, set_legal_hold, put_tags,
}
use harbor_shield.Objects.Lifecycle.{apply_lifecycle_expirations, purge_deleted_before}
use harbor_shield.Objects.Migration.{migrate_local_objects_to_distributed}
use harbor_shield.Objects.Invariant.{
  IsWellFormed, KeepsProtected, Preserves, Preserved-refl, Preserved-trans,
}
use harbor_shield.Objects.Aside.{SettingsAreApart}
use harbor_shield.Objects.Preserving.{Preserving-put, Preserving-copy}
use harbor_shield.Objects.Removing.{
  Preserving-delete, Preserving-delete_version, Preserving-restore_latest,
}
use harbor_shield.Objects.Changing.{
  Preserving-hold, Preserving-put_tags, Preserving-expire, Preserving-purge, Preserving-migrate,
}

-- A call of one of the operations that write.
pub data ObjectCall : Type 0 where
  putting : Fresh → (bucket : ℕ) → PutInput → ObjectCall
  copying : Fresh → (source : ℕ) → Text → Option ℕ → (bucket : ℕ) → PutInput → ObjectCall
  deleting : Fresh → (bucket : ℕ) → Text → ObjectCall
  deleting_version : (now bucket : ℕ) → Text → Option ℕ → ObjectCall
  restoring : (bucket : ℕ) → Text → ObjectCall
  holding : (bucket : ℕ) → Text → Option ℕ → Bool → ObjectCall
  tagging : (bucket : ℕ) → Text → Option ℕ → Entries → ObjectCall
  expiring : (now : ℕ) → ObjectCall
  purging : (cutoff : ℕ) → ObjectCall
  migrating : (limit : ℕ) → ObjectCall

-- The clock reads no later than the horizon where it decides, and no hold is lifted.
abbrev pub IsWithin : ℕ → ObjectCall → Type 0
IsWithin horizon (deleting_version now bucket key version) = now ≤ horizon
IsWithin horizon (expiring now) = now ≤ horizon
IsWithin horizon (holding bucket key version hold) = hold ≡ true
IsWithin horizon _ = Unit

module _ (s : ObjectService) (d : Digests) where
  -- The world after a call, whatever it returned.
  unfoldable pub perform : World ObjectTables → ObjectCall → World ObjectTables
  perform w (putting fresh bucket input) = (put s d fresh bucket input w).1
  perform w (copying fresh source key version bucket input) =
      (copy s d fresh source key version bucket input w).1
  perform w (deleting fresh bucket key) = (delete fresh bucket key w).1
  perform w (deleting_version now bucket key version) =
      (delete_version s now bucket key version w).1
  perform w (restoring bucket key) = (restore_latest bucket key w).1
  perform w (holding bucket key version hold) = (set_legal_hold bucket key version hold w).1
  perform w (tagging bucket key version tags) = (put_tags bucket key version tags w).1
  perform w (expiring now) = (apply_lifecycle_expirations now w).1
  perform w (purging cutoff) = (purge_deleted_before s cutoff w).1
  perform w (migrating limit) = (migrate_local_objects_to_distributed s limit w).1

  unfoldable pub perform_calls : World ObjectTables → List ObjectCall → World ObjectTables
  unfolding perform
  perform_calls w [] = w
  perform_calls w (c ∷ calls) = perform_calls (perform w c) calls

  module _ (horizon : ℕ) (apart : SettingsAreApart s.resolve_storage_policy) where
    perform-Preserves :
        (w : World ObjectTables) (c : ObjectCall)
        → IsWithin horizon c
        → Preserves horizon w.tables (perform w c).tables
    unfolding perform
    perform-Preserves w (putting fresh bucket input) h =
        (Preserving-put horizon s apart d fresh bucket input).at w
    perform-Preserves w (copying fresh source key version bucket input) h =
        (Preserving-copy horizon s apart d fresh source key version bucket input).at w
    perform-Preserves w (deleting fresh bucket key) h =
        (Preserving-delete horizon fresh bucket key).at w
    perform-Preserves w (deleting_version now bucket key version) h =
        (Preserving-delete_version horizon now h s bucket key version).at w
    perform-Preserves w (restoring bucket key) h =
        (Preserving-restore_latest horizon bucket key).at w
    perform-Preserves w (holding bucket key version true) h =
        (Preserving-hold horizon bucket key version).at w
    perform-Preserves w (holding bucket key version false) h = absurd (cc)
    perform-Preserves w (tagging bucket key version tags) h =
        (Preserving-put_tags horizon bucket key version tags).at w
    perform-Preserves w (expiring now) h = (Preserving-expire horizon now h).at w
    perform-Preserves w (purging cutoff) h = (Preserving-purge horizon s cutoff).at w
    perform-Preserves w (migrating limit) h = (Preserving-migrate horizon s apart limit).at w

    -- After any calls of the operations that write, in any order and with any failures of the database,
    -- the disk and the blob nodes: no two rows have one id, no two are the latest version of one key,
    -- and every version that was there and under a legal hold, or retained past the horizon, is still
    -- there, not deleted, with its key, version id, size, digest, content type, user metadata, path
    -- and retention, and is still held or retained. The rows are well formed before, no call deletes
    -- a version or expires versions at a time past the horizon, none lifts a hold, and the settings
    -- service writes none of these tables.
    pub perform_calls-KeepsProtected :
        (w : World ObjectTables) (calls : List ObjectCall)
        → All (IsWithin horizon) calls
        → IsWellFormed w.tables.objects
        → IsWellFormed (perform_calls w calls).tables.objects
          × KeepsProtected horizon w.tables.objects (perform_calls w calls).tables.objects
    unfolding perform_calls
    perform_calls-KeepsProtected w [] h = Preserved-refl horizon w.tables.objects
    perform_calls-KeepsProtected w (c ∷ calls) h =
        Preserved-trans horizon _ _ _ (perform-Preserves w c h.0)
          (perform_calls-KeepsProtected (perform w c) calls h.1)

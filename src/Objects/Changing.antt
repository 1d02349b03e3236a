-- ===== src/Objects/Changing.antt =====
-- SetLegalHold, PutTags, the lifecycle, the purge and the migration keep the protected versions.
use harbor_shield.Prelude.{
  ℕ, ◌+◌, ◌≤◌, ◌≡◌, refl, inl, Bool, true, not, ◌&&◌, Option, none, some, List, [], ◌∷◌,
  if◌then◌else◌, arith, Text, codes, ◌==◌,
}
use harbor_shield.Db.{statement}
use harbor_shield.Db.Keeps.{
  Keeps-pure, Keeps-raise, Keeps-statement, Keeps-query, Keeps-bind, Keeps-attempt,
  Keeps-transaction, Keeps-if, Keeps-elim,
}
use harbor_shield.Storage.Distributed.{DistributedStore}
use harbor_shield.Objects.Tables.{ObjectRow, ObjectService, Entries, is_none}
use harbor_shield.Objects.Payload.{normalize_tags}
use harbor_shield.Objects.Reading.{backend_of}
use harbor_shield.Objects.Versions.{
  rewrite_version, set_legal_hold, put_tags, is_held_version, is_tagged_version,
}
use harbor_shield.Objects.Lifecycle.{
  is_passed, is_expired, expire_rows, apply_lifecycle_expirations, purge_row, is_purged,
  lookup_stored_backend, purge_one, purge_each, purge_deleted_before,
}
use harbor_shield.Objects.Migration.{
  set_distributed, migrate_one, migrate_each, migrate_if_any, migrate_local_objects_to_distributed,
}
use harbor_shield.Objects.Invariant.{IsProtected, IsSameVersion, KeepsRow}
use harbor_shield.Objects.Rows.{Preserved-keep, Preserved-no_latest, not_expired}
use harbor_shield.Objects.Aside.{
  SettingsAreApart, KeepsRows-delete_blob, KeepsRows-on_disk, KeepsRows-on_network,
  KeepsRows-record_placements, KeepsRows-resolve,
}
use harbor_shield.Objects.Preserving.{Preserving, pre, Preserving-aside}

module _ (horizon : ℕ) where
  KeepsRow-hold : (o : ObjectRow) → KeepsRow horizon (λ x. record x { legal_hold = true }) o
  KeepsRow-hold o = (same o, λ p. record { present = p.present; guarded = inl refl })
    where
      same : (x : ObjectRow) → IsSameVersion x (record x { legal_hold = true })
      same x = record {
        id = refl;
        bucket = refl;
        key = refl;
        version_id = refl;
        size_bytes = refl;
        etag = refl;
        content_type = refl;
        user_metadata = refl;
        storage_path = refl;
        retention_until = refl;
      }

  KeepsRow-tags :
      (tags : Entries) (o : ObjectRow) → KeepsRow horizon (λ x. record x { tags = tags }) o
  KeepsRow-tags tags o = (same o, λ p. record { present = p.present; guarded = p.guarded })
    where
      same : (x : ObjectRow) → IsSameVersion x (record x { tags = tags })
      same x = record {
        id = refl;
        bucket = refl;
        key = refl;
        version_id = refl;
        size_bytes = refl;
        etag = refl;
        content_type = refl;
        user_metadata = refl;
        storage_path = refl;
        retention_until = refl;
      }

  KeepsRow-backend :
      (backend : Text) (o : ObjectRow)
      → KeepsRow horizon (λ x. record x { storage_backend = backend }) o
  KeepsRow-backend backend o = (same o, λ p. record { present = p.present; guarded = p.guarded })
    where
      same : (x : ObjectRow) → IsSameVersion x (record x { storage_backend = backend })
      same x = record {
        id = refl;
        bucket = refl;
        key = refl;
        version_id = refl;
        size_bytes = refl;
        etag = refl;
        content_type = refl;
        user_metadata = refl;
        storage_path = refl;
        retention_until = refl;
      }

  KeepsRow-deleted :
      (now : ℕ) (o : ObjectRow)
      → (IsProtected horizon o → ⊥)
      → KeepsRow horizon (λ x. record x { deleted_at = some now }) o
  KeepsRow-deleted now o free = (same o, λ p. absurd (free p))
    where
      same : (x : ObjectRow) → IsSameVersion x (record x { deleted_at = some now })
      same x = record {
        id = refl;
        bucket = refl;
        key = refl;
        version_id = refl;
        size_bytes = refl;
        etag = refl;
        content_type = refl;
        user_metadata = refl;
        storage_path = refl;
        retention_until = refl;
      }

  -- A rewrite of the rows that pass a test.
  Preserving-rewrite_version :
      (test : ObjectRow → Bool) (f : ObjectRow → ObjectRow)
      → ((x : ObjectRow) → KeepsRow horizon f x)
      → ((x : ObjectRow) → (f x).is_latest ≡ true → x.is_latest ≡ true)
      → Preserving horizon (statement (rewrite_version test f))
  unfolding rewrite_version
  Preserving-rewrite_version test f h k =
      Keeps-statement (pre horizon) _
        (λ t. Preserved-no_latest horizon test f t.objects (λ x _. h x) k)

  pub Preserving-hold :
      (bucket : ℕ) (key : Text) (version : Option ℕ)
      → Preserving horizon (set_legal_hold bucket key version true)
  unfolding set_legal_hold
  Preserving-hold bucket key version =
      Preserving-rewrite_version (is_held_version bucket key version)
        (λ o. record o { legal_hold = true }) KeepsRow-hold (λ x h. h)

  pub Preserving-put_tags :
      (bucket : ℕ) (key : Text) (version : Option ℕ) (tags : Entries)
      → Preserving horizon (put_tags bucket key version tags)
  unfolding put_tags
  Preserving-put_tags bucket key version tags =
      Preserving-rewrite_version (is_tagged_version bucket key version)
        (λ o. record o { tags = normalize_tags tags }) (KeepsRow-tags (normalize_tags tags))
        (λ x h. h)

  pub Preserving-expire :
      (now : ℕ) → now ≤ horizon → Preserving horizon (apply_lifecycle_expirations now)
  unfolding apply_lifecycle_expirations expire_rows
  Preserving-expire now early = Keeps-statement (pre horizon) _ λ t.
      Preserved-no_latest horizon (is_expired now) (λ o. record o { deleted_at = some now })
        t.objects (λ x h. KeepsRow-deleted now x (not_expired horizon now x early h)) (λ x h. h)

  -- What is purged has been deleted, and what is protected has not.
  kept_by_purge :
      (cutoff id : ℕ) (o : ObjectRow) → IsProtected horizon o → not (is_purged cutoff id o) ≡ true
  unfolding is_purged
  kept_by_purge cutoff id o p = deleted o.deleted_at p.present
    where
      deleted : (at : Option ℕ) → is_none at ≡ true → not (o.id == id && is_passed cutoff at) ≡ true
      deleted none h = ground arith
      deleted (some time) h = absurd (cc)

  Preserving-purge_row : (cutoff id : ℕ) → Preserving horizon (statement (purge_row cutoff id))
  unfolding purge_row
  Preserving-purge_row cutoff id =
      Keeps-statement (pre horizon) _
        (λ t. Preserved-keep horizon _ t.objects (λ ids o i p. kept_by_purge cutoff id o p))

  module _ (s : ObjectService) where
    Preserving-purge_one :
        (cutoff id : ℕ) (path : Text) → Preserving horizon (purge_one s cutoff id path)
    unfolding purge_one lookup_stored_backend backend_of
    Preserving-purge_one cutoff id path =
        Keeps-bind (pre horizon) _ _
          (Keeps-attempt (pre horizon) _ _ (Keeps-query (pre horizon) _) (λ r.
            Keeps-elim (pre horizon) _ _ r (λ b. Keeps-pure (pre horizon) b)
              (λ e. Keeps-pure (pre horizon) _)))
          λ backend.
            Keeps-bind (pre horizon) _ _
              (Preserving-aside horizon _ (KeepsRows-delete_blob s _ path))
              (λ _. Preserving-purge_row cutoff id)

    Preserving-purge_each :
        (cutoff purged : ℕ) (candidates : List (ℕ × Text))
        → Preserving horizon (purge_each s cutoff purged candidates)
    unfolding purge_each
    Preserving-purge_each cutoff purged [] = Keeps-pure (pre horizon) _
    Preserving-purge_each cutoff purged ((id, path) ∷ candidates) =
        Keeps-attempt (pre horizon) _ _ (Preserving-purge_one cutoff id path) λ r.
          Keeps-elim (pre horizon) _ _ r
            (λ gone. Preserving-purge_each cutoff (if gone then purged + 1 else purged) candidates)
            (λ e. Keeps-pure (pre horizon) _)

    pub Preserving-purge : (cutoff : ℕ) → Preserving horizon (purge_deleted_before s cutoff)
    unfolding purge_deleted_before
    Preserving-purge cutoff =
        Keeps-bind (pre horizon) _ _ (Keeps-query (pre horizon) _) (Preserving-purge_each cutoff 0)

  module _ (s : ObjectService) (apart : SettingsAreApart s.resolve_storage_policy) where
    Preserving-set_distributed : (id : ℕ) → Preserving horizon (statement (set_distributed id))
    unfolding set_distributed
    Preserving-set_distributed id = Keeps-statement (pre horizon) _ λ t.
        Preserved-no_latest horizon (λ (o : ObjectRow). o.id == id)
          (λ o. record o { storage_backend = codes "distributed" }) t.objects
          (λ x _. KeepsRow-backend _ x) (λ x h. h)

    Preserving-migrate_one :
        (store : DistributedStore) (item : ObjectRow)
        → Preserving horizon (migrate_one s store item)
    unfolding migrate_one
    Preserving-migrate_one store item =
        Keeps-bind (pre horizon) _ _
          (Preserving-aside horizon _ (KeepsRows-resolve s apart item.bucket))
          λ selected. Keeps-if (pre horizon) _ _ _ (Keeps-raise (pre horizon) _) (
            Keeps-bind (pre horizon) _ _ (Preserving-aside horizon _ (KeepsRows-on_disk _))
              λ payload.
                Keeps-bind (pre horizon) _ _ (Preserving-aside horizon _ (KeepsRows-on_network _))
                  λ _.
                    Keeps-bind (pre horizon) _ _
                      (Keeps-transaction (pre horizon) _ (
                        Keeps-bind (pre horizon) _ _ (Preserving-set_distributed item.id) (λ _.
                          Preserving-aside horizon _
                            (KeepsRows-record_placements s item.id item.storage_path selected))))
                      λ _.
                        Keeps-attempt (pre horizon) _ _
                          (Preserving-aside horizon _ (KeepsRows-on_disk _))
                          (λ r. Keeps-pure (pre horizon) tt))

    Preserving-migrate_each :
        (store : DistributedStore) (migrated : ℕ) (candidates : List ObjectRow)
        → Preserving horizon (migrate_each s store migrated candidates)
    unfolding migrate_each
    Preserving-migrate_each store migrated [] = Keeps-pure (pre horizon) _
    Preserving-migrate_each store migrated (item ∷ candidates) =
        Keeps-attempt (pre horizon) _ _ (Preserving-migrate_one store item) λ r.
          Keeps-elim (pre horizon) _ _ r
            (λ _. Preserving-migrate_each store (migrated + 1) candidates)
            (λ e. Keeps-pure (pre horizon) _)

    Preserving-migrate_if_any :
        (o : Option DistributedStore) (limit : ℕ) → Preserving horizon (migrate_if_any s o limit)
    unfolding migrate_if_any
    Preserving-migrate_if_any none limit = Keeps-raise (pre horizon) _
    Preserving-migrate_if_any (some store) limit =
        Keeps-bind (pre horizon) _ _ (Keeps-query (pre horizon) _) (Preserving-migrate_each store 0)

    pub Preserving-migrate :
        (limit : ℕ) → Preserving horizon (migrate_local_objects_to_distributed s limit)
    unfolding migrate_local_objects_to_distributed
    Preserving-migrate limit = Preserving-migrate_if_any s.distributed _

-- ===== src/Objects/Refinement.antt =====
-- Put, Delete and RestoreLatest as steps of the view that readers have.
use mathlib.Core.Path.{subst}
use harbor_shield.Prelude.{
  ℕ, ◌≡◌, refl, sym, ap, none, some, List, length, text_eq_refl, ==_refl, Text,
}
use harbor_shield.Db.{World}
use harbor_shield.Db.Errors.{Result, ok, err}
use harbor_shield.Db.Keeps.{Keeps-query, Keeps-lift}
use harbor_shield.Db.Ensures.{After, After-bind}
use harbor_shield.Storage.Local.{Bytes}
use harbor_shield.Objects.Tables.{ObjectRow, ObjectTables, ObjectService, Digests, of_key}
use harbor_shield.Objects.Reading.{is_current}
use harbor_shield.Objects.Storing.{Fresh, PutInput, version_of, put}
use harbor_shield.Objects.Versions.{delete, delete_marker, restore_latest}
use harbor_shield.Objects.Invariant.{IsWellFormed}
use harbor_shield.Objects.Aside.{SettingsAreApart, rows_pre, After-of_KeepsRows, put_by}
use harbor_shield.Objects.Seen.{
  Sees, Sees-same, seen, AddedOrSame, MarkedOrSame, RestoredOrSame, add_version-Added,
  add_marker-Marked, restore_latest-Restored,
}

module _ (d : Digests) (bucket : ℕ) (input : PutInput) (objects : List ObjectRow) where
  -- The row of a put: under its key, with the size and the digest of the body.
  pub record IsStored (o : ObjectRow) : Type 0 where
    pub bucket_same : o.bucket ≡ bucket
    pub key_same : o.key ≡ input.key
    pub content :
        (payload : Bytes) × (input.body ≡ ok payload)
        × (o.size_bytes ≡ length payload)
        × (o.etag ≡ d.sha256_hex payload)

  -- After a put the key has its version, or the put failed and the rows are what they were.
  abbrev pub PutResult : Result ObjectRow → ObjectTables → Type 0
  PutResult (ok o) t = IsStored o × Sees objects bucket input.key (some o) t.objects
  PutResult (err e) t = t.objects ≡ objects

  IsStored-version_of :
      (fresh : Fresh) (payload : Bytes) (location backend : Text)
      → input.body ≡ ok payload
      → IsStored (version_of d fresh bucket payload location backend input)
  unfolding version_of
  IsStored-version_of fresh payload location backend h = record {
    bucket_same = refl;
    key_same = refl;
    content = (payload, h, refl, refl);
  }

  PutResult-of_added :
      (fresh : Fresh) (payload : Bytes) (location backend : Text) (t : ObjectTables)
      (r : Result ObjectRow) (t' : ObjectTables)
      → input.body ≡ ok payload
      → AddedOrSame objects (version_of d fresh bucket payload location backend input) t r t'
      → PutResult r t'
  unfolding version_of is_current of_key
  PutResult-of_added fresh payload location backend t (ok o) t' h a =
      let row = version_of d fresh bucket payload location backend input in
      (
        subst IsStored (sym a.0) (IsStored-version_of fresh payload location backend h),
        Sees-same objects t'.objects bucket input.key (seen objects row) (some o)
            (rw (==_refl bucket, text_eq_refl input.key) (ap some (sym a.0))) a.1,
      )
  PutResult-of_added fresh payload location backend t (err e) t' h a = a

  pub put-PutResult :
      (s : ObjectService) (fresh : Fresh)
      → SettingsAreApart s.resolve_storage_policy
      → After (λ t. t.objects ≡ objects) PutResult (put s d fresh bucket input)
  put-PutResult s fresh apart =
      put_by s apart d fresh bucket input objects PutResult (λ e t h. h)
        λ payload location backend selected body.
          let row = version_of d fresh bucket payload location backend input in
          record {
            at = λ w h.
                PutResult-of_added fresh payload location backend w.tables _ _ body
                  ((add_version-Added objects row s selected).at w h);
          }

module _ (bucket : ℕ) (key : Text) (objects : List ObjectRow) where
  abbrev pub DeleteResult : Result (Unit {0}) → ObjectTables → Type 0
  DeleteResult (ok _) t = Sees objects bucket key none t.objects
  DeleteResult (err e) t = t.objects ≡ objects

  DeleteResult-of_marked :
      (fresh : Fresh) (t : ObjectTables) (r : Result (Unit {0})) (t' : ObjectTables)
      → MarkedOrSame objects (delete_marker fresh bucket key) t r t'
      → DeleteResult r t'
  unfolding delete_marker is_current of_key
  DeleteResult-of_marked fresh t (ok _) t' a =
      Sees-same objects t'.objects bucket key (seen objects (delete_marker fresh bucket key)) none
        (rw (==_refl bucket, text_eq_refl key) refl) a
  DeleteResult-of_marked fresh t (err e) t' a = a

  pub delete-DeleteResult :
      (fresh : Fresh) → After (λ t. t.objects ≡ objects) DeleteResult (delete fresh bucket key)
  unfolding delete
  delete-DeleteResult fresh =
      After-bind {Mid = λ r t. t.objects ≡ objects} _ _
        (After-of_KeepsRows objects _ (Keeps-query rows_pre _))
        (λ latest.
          After-bind {Mid = λ r t. t.objects ≡ objects} _ _
            (After-of_KeepsRows objects _ (Keeps-lift rows_pre _))
            (λ _. record {
              at = λ w h.
                  DeleteResult-of_marked fresh w.tables _ _
                    ((add_marker-Marked objects (delete_marker fresh bucket key)).at w h);
            })
            (λ e t h. h))
        (λ e t h. h)

-- Each of the three operations, whatever the driver, the disk and the nodes do, is a step of the view
-- that Head and Get have (for each bucket and key the version that they find): a Put that returns a
-- row makes that row, which has the bucket, the key, the size and the digest of what was put, the one
-- that is seen under its key; a Delete that returns no error leaves nothing to be seen under the key;
-- and a RestoreLatest that returns a row makes it the one that is seen. What is seen under every
-- other key is the same, and on an error the whole table of objects is. The rows are well formed
-- before RestoreLatest, and the settings service writes none of the tables.
pub operations-refine_view :
    (s : ObjectService) (d : Digests) (fresh : Fresh) (bucket : ℕ) (input : PutInput) (key : Text)
    (w : World ObjectTables)
    → SettingsAreApart s.resolve_storage_policy
    → IsWellFormed w.tables.objects
    → PutResult d bucket input w.tables.objects
        (put s d fresh bucket input w).0
        (put s d fresh bucket input w).1.tables
      × DeleteResult bucket key w.tables.objects
          (delete fresh bucket key w).0
          (delete fresh bucket key w).1.tables
      × RestoredOrSame w.tables.objects bucket key w.tables
          (restore_latest bucket key w).0
          (restore_latest bucket key w).1.tables
operations-refine_view s d fresh bucket input key w apart formed = (
  (put-PutResult d bucket input w.tables.objects s fresh apart).at w refl,
  (delete-DeleteResult bucket key w.tables.objects fresh).at w refl,
  (restore_latest-Restored w.tables.objects bucket key formed).at w refl,
)

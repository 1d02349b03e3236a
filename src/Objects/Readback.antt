-- ===== src/Objects/Readback.antt =====
-- GetByKey of internal/objects/service.go: what it reads of a version whose blob is on the disk.
use harbor_shield.Prelude.{
  ℕ, ◌≡◌, refl, ap, ◌∙◌, none, some, List, [], ◌∷◌, find, Text, codes, text_eq, to_lower,
  trim_space, arith, ◌==◌,
}
use harbor_shield.Db.{World, Action, calm, pure, query, ◌>>=◌, continue, zoom}
use harbor_shield.Db.Errors.{Result, ok}
use harbor_shield.Db.Returns.{query-eq, >>=_of_ok}
use harbor_shield.Storage.Local.{Bytes, local_get}
use harbor_shield.Objects.Tables.{ObjectRow, ObjectTables, ObjectService, on_disk}
use harbor_shield.Objects.Placement.{store_for_backend, read_blob}
use harbor_shield.Objects.Reading.{
  is_current, is_readable, row_or_no_rows, backend_of, get_version, get_by_key,
}
use harbor_shield.Objects.Current.{current}

module _ {T A B : Type 0} where
  continue-pure :
      (r : Result A) (f : A → B) (w : World T) (a : A)
      → r ≡ ok a
      → (continue r (λ x. pure (f x)) w).0 ≡ ok (f a)
  unfolding pure
  continue-pure r f w a h = rw h refl

  >>=-pure :
      (m : Action T A) (f : A → B) (w : World T) (a : A)
      → (m w).0 ≡ ok a
      → ((m >>= λ x. pure (f x)) w).0 ≡ ok (f a)
  unfolding ◌>>=◌
  >>=-pure m f w a h = let (r, w') = m w in continue-pure r f w' a h

-- The latest version is found by the key alone.
find-readable :
    (bucket : ℕ) (key : Text) (objects : List ObjectRow)
    → find (is_readable bucket key none) objects ≡ current objects bucket key
unfolding current is_readable is_current
find-readable bucket key [] = refl
find-readable bucket key (o ∷ objects) = ground (arith, find-readable bucket key objects)

module _ (s : ObjectService) where
  read_blob-eq :
      (path : Text) (t : ObjectTables) (payload : Bytes)
      → (local_get s.local_cipher s.local_root path (calm t.files)).0 ≡ ok payload
      → (read_blob s none path (calm t)).0 ≡ ok payload
  unfolding read_blob on_disk zoom
  read_blob-eq path t payload h = h

  local_store : store_for_backend s (codes "local") ≡ none
  unfolding store_for_backend text_eq to_lower trim_space
  local_store = refl

  -- The row that is current, of which the blob is in the local store under its path.
  pub record IsReadable (t : ObjectTables) (row : ObjectRow) (payload : Bytes) : Type 0 where
    pub seen : current t.objects row.bucket row.key ≡ some row
    pub by_id : find (λ (o : ObjectRow). o.id == row.id) t.objects ≡ some row
    pub on_local : row.storage_backend ≡ codes "local"
    pub blob :
        (local_get s.local_cipher s.local_root row.storage_path (calm t.files)).0 ≡ ok payload

  found-row :
      (t : ObjectTables) (row : ObjectRow) (payload : Bytes)
      → IsReadable t row payload
      → query
          (λ (t : ObjectTables).
            row_or_no_rows (find (is_readable row.bucket row.key none) t.objects))
          (calm t)
        ≡ (ok row, calm t)
  found-row t row payload h =
      query-eq _ (calm t)
      ∙ ap (λ (r : Result ObjectRow). (r, calm t))
          (ap row_or_no_rows (find-readable row.bucket row.key t.objects ∙ h.seen))

  found-backend :
      (t : ObjectTables) (row : ObjectRow) (payload : Bytes)
      → IsReadable t row payload
      → backend_of row.id (calm t) ≡ (ok (codes "local"), calm t)
  unfolding backend_of
  found-backend t row payload h = query-eq _ (calm t) ∙ rw (h.by_id, h.on_local) refl

  pub get_by_key_lem :
      (t : ObjectTables) (row : ObjectRow) (payload : Bytes)
      → IsReadable t row payload
      → (get_by_key s row.bucket row.key (calm t)).0 ≡ ok (row, payload)
  unfolding get_by_key get_version
  get_by_key_lem t row payload h =
      ap (λ p. p.0)
        (>>=_of_ok _ _ (calm t) (calm t) row (found-row t row payload h)
          ∙ >>=_of_ok _ _ (calm t) (calm t) (codes "local") (found-backend t row payload h))
      ∙ >>=-pure _ (λ payload. (row, payload)) (calm t) payload
          (rw local_store (read_blob-eq row.storage_path t payload h.blob))

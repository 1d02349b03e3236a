-- ===== src/Objects/RoundTrip.antt =====
-- Put and then GetByKey of internal/objects/service.go, with the blobs on the local disk.
use mathlib.Core.Path.{subst}
use harbor_shield.Prelude.{
  ℕ, ◌≡◌, refl, sym, ◌∙◌, inl, inr, Bool, true, false, not, ◌&&◌, none, some, List, [], ◌∷◌, ◌++◌,
  find, any, is_empty, length, Text, codes, text_eq, ==_refl, arith, Bool-cases, ◌==◌,
  if◌then◌else◌,
}
use harbor_shield.Db.{World, Action, calm, pure, lift, statement, ◌>>=◌, zoom}
use harbor_shield.Db.Errors.{Result, ok, err}
use harbor_shield.Db.Returns.{ByResult}
use harbor_shield.Db.Triples.{Always, Triple-statement, Triple-lift, Triple-pure}
use harbor_shield.Db.Transactions.{Triple-transaction}
use harbor_shield.Db.Ensures.{After, After-bind, After-lift-bind}
use harbor_shield.Storage.Local.{Bytes, Opens, local_get}
use harbor_shield.Storage.RoundTrip.{local_get-put}
use harbor_shield.Objects.Tables.{ObjectRow, ObjectTables, ObjectService, Digests, of_key, on_disk}
use harbor_shield.Objects.Payload.{physical_path}
use harbor_shield.Objects.Placement.{
  is_distributed, resolve_write_backend, write_blob, record_placements,
}
use harbor_shield.Objects.Reading.{is_current, get_by_key}
use harbor_shield.Objects.Storing.{
  Fresh, PutInput, unset_latest, may_insert, insert_object, version_of, add_version, put_payload,
  put,
}
use harbor_shield.Objects.Seen.{AddedOrSame, add_version-Added, is_at_self}
use harbor_shield.Objects.Readback.{IsReadable, get_by_key_lem}

find-snoc_fresh :
    {A : Type 0}
    → (p : A → Bool) (rows : List A) (row : A) → any p rows ≡ false
    → p row ≡ true
    → find p (rows ++ row ∷ []) ≡ some row
unfolding any
find-snoc_fresh p [] row h k = rw k refl
find-snoc_fresh p (o ∷ rows) row h k =
    ground (arith, find-snoc_fresh p rows row (ground arith) k, h)

find-inserted :
    (row : ObjectRow) (t : ObjectTables)
    → may_insert row t ≡ true
    → find (λ (o : ObjectRow). o.id == row.id) (t.objects ++ row ∷ []) ≡ some row
unfolding may_insert
find-inserted row t h =
    find-snoc_fresh (λ (o : ObjectRow). o.id == row.id) t.objects row (ground (arith, h))
      (==_refl row.id)

module _ (s : ObjectService) (on_disk_only : is_distributed s.storage_backend ≡ false) where
  backend_of_put : (selected : List Text) → resolve_write_backend s selected ≡ codes "local"
  unfolding resolve_write_backend
  backend_of_put selected =
      elim s.distributed
        as (λ o.
          elim o as (λ _. Text) [
            | none ↦ codes "local"
            | some store ↦
                if is_distributed s.storage_backend && not (is_empty selected)
                then codes "distributed"
                else codes "local"
          ]
          ≡ codes "local") [ none ↦ refl | some store ↦ rw on_disk_only refl ]

  no_placements :
      (object : ℕ) (locator : Text) (selected : List Text)
      → record_placements s object locator selected ≡ pure tt
  unfolding record_placements
  no_placements object locator selected = rw on_disk_only refl

  module _ (payload : Bytes) (path : Text) where
    -- A get of the path returns the payload.
    abbrev OnFile : ObjectTables → Type 0
    OnFile t = (local_get s.local_cipher s.local_root path (calm t.files)).0 ≡ ok payload

    abbrev Wrote : Result (Unit {0}) → ObjectTables → Type 0
    Wrote r t = ByResult r (OnFile t) Unit

    After-write_blob :
        (nonce : Bytes) (selected : List Text)
        → Opens s.local_cipher
        → length nonce ≡ s.local_cipher.nonce_size
        → After Always Wrote (write_blob s nonce (codes "local") path payload selected)
    unfolding write_blob text_eq on_disk zoom
    After-write_blob nonce selected opens n = record {
      at = λ w p.
          (local_get-put s.local_cipher s.local_root nonce path payload
            (record { tables = w.tables.files; faults = w.faults }) opens n).0;
    }

    -- The row is the one with its id, and the blob is still there.
    abbrev Landed : Result ObjectRow → ObjectTables → Type 0
    Landed (ok row) t = (find (λ (o : ObjectRow). o.id == row.id) t.objects ≡ some row) × OnFile t
    Landed (err e) t = Unit

    After-insert : (row : ObjectRow) → After OnFile Landed (statement (insert_object row))
    unfolding insert_object
    After-insert row =
        Triple-statement _ (λ t h. tt)
          λ t h. elim (Bool-cases (may_insert row t)) [
            | inl may ↦ rw may (find-inserted row t may, h)
            | inr fails ↦ rw fails tt
          ]

    After-add_version :
        (row : ObjectRow) (selected : List Text) → After OnFile Landed (add_version s row selected)
    unfolding add_version unset_latest
    After-add_version row selected =
        Triple-transaction _ (λ t e h. tt)
          (After-bind {Mid = λ r t. OnFile t} _ _ (Triple-statement _ (λ t h. h) (λ t h. h))
            (λ _.
              After-bind {Mid = Landed} _ _ (After-insert row)
                (λ item. rw (no_placements item.id row.storage_path selected) (
                  After-bind {Mid = λ r t. Landed (ok item) t} _ _ (Triple-pure tt (λ t h. h))
                    (λ _. Triple-pure item (λ t h. h)) (λ e t h. tt)))
                (λ e t h. tt))
            (λ e t h. tt))

  module _ (d : Digests) (fresh : Fresh) (bucket : ℕ) (input : PutInput) where
    -- A row that is returned is read back under the key, with the body that was put.
    abbrev pub ReadBack : Result ObjectRow → ObjectTables → Type 0
    ReadBack (ok item) t =
        (payload : Bytes) × (input.body ≡ ok payload)
        × ((get_by_key s bucket input.key (calm t)).0 ≡ ok (item, payload))
    ReadBack (err e) t = Unit

    module _ (payload : Bytes) (body : input.body ≡ ok payload) where
      location : Text
      location = physical_path s.tenant (d.id_text bucket) fresh.blob_name

      abbrev row : ObjectRow
      row = version_of d fresh bucket payload location (codes "local") input

      row-IsReadable :
          (before : List ObjectRow) (t t' : ObjectTables)
          → AddedOrSame before row t (ok row) t'
          → Landed payload location (ok row) t'
          → IsReadable s t' row payload
      unfolding version_of is_current of_key
      row-IsReadable before t t' a l = record {
        seen = a.1 bucket input.key ∙ rw (is_at_self bucket input.key) refl;
        by_id = l.0;
        on_local = refl;
        blob = l.1;
      }

      ReadBack-of_added :
          (before : List ObjectRow) (t : ObjectTables) (r : Result ObjectRow) (t' : ObjectTables)
          → AddedOrSame before row t r t'
          → Landed payload location r t'
          → ReadBack r t'
      unfolding version_of
      ReadBack-of_added before t (ok item) t' a l =
          let landed = subst (λ x. Landed payload location (ok x) t') a.0 l in
          subst (λ x. ReadBack (ok x) t') (sym a.0)
            (
              payload,
              body,
              get_by_key_lem s t' row payload (row-IsReadable before t t' (refl, a.1) landed),
            )
      ReadBack-of_added before t (err e) t' a l = tt

      After-added :
          (selected : List Text)
          → After (OnFile payload location) ReadBack (add_version s row selected)
      After-added selected = record {
        at = λ w h.
            ReadBack-of_added w.tables.objects w.tables _ _
              ((add_version-Added w.tables.objects row s selected).at w refl)
              ((After-add_version payload location row selected).at w h);
      }

      skip :
          {A : Type 0} (m : Action ObjectTables A) (f : A → Action ObjectTables ObjectRow)
          → ((a : A) → After Always ReadBack (f a))
          → After Always ReadBack (m >>= f)
      skip m f h =
          After-bind {Mid = λ r t. Unit} m f (record { at = λ w p. tt }) (λ a. h a) (λ e t u. tt)

      After-written :
          Opens s.local_cipher
          → length fresh.nonce ≡ s.local_cipher.nonce_size
          → (selected : List Text)
          → After Always ReadBack (
              write_blob s fresh.nonce (resolve_write_backend s selected) location payload selected
              >>= λ _.
                  add_version s
                    (version_of d fresh bucket payload location
                      (resolve_write_backend s selected)
                      input)
                    selected)
      After-written opens n selected = rw (backend_of_put selected) (
          After-bind {Mid = Wrote payload location} _ _
            (After-write_blob payload location fresh.nonce selected opens n)
            (λ _. After-added selected) (λ e t h. tt))

      After-put_payload :
          Opens s.local_cipher
          → length fresh.nonce ≡ s.local_cipher.nonce_size
          → After Always ReadBack (put_payload s d fresh bucket input payload)
      unfolding put_payload physical_path location
      After-put_payload opens n = skip _ _ λ _.
          skip _ _ λ existing. skip _ _ λ _. skip _ _ λ selected. After-written opens n selected

    After-put :
        Opens s.local_cipher
        → length fresh.nonce ≡ s.local_cipher.nonce_size
        → (r : Result Bytes) → input.body ≡ r
        → After Always ReadBack (lift r >>= put_payload s d fresh bucket input)
    After-put opens n (ok payload) h =
        After-lift-bind payload _ (After-put_payload payload h opens n)
    After-put opens n (err e) h =
        After-bind {Mid = λ r t. r ≡ err e} _ _ (Triple-lift _ (λ t p. refl))
          (λ a. record { at = λ w h. absurd (cc) }) (λ e t h. tt)

    -- If Put returns a row, a GetByKey of the key after it returns that row, with the body that was given
    -- to Put. The service keeps its blobs on the local disk, the cipher opens what it seals, and the nonce
    -- has its size. The tables and the disk are any, and so are the failures while Put runs; none comes
    -- while GetByKey does.
    pub get_by_key-put :
        Opens s.local_cipher
        → length fresh.nonce ≡ s.local_cipher.nonce_size
        → (w : World ObjectTables)
        → ReadBack (put s d fresh bucket input w).0 (put s d fresh bucket input w).1.tables
    unfolding put
    get_by_key-put opens n w = (After-put opens n input.body refl).at w tt

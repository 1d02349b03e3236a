-- ===== src/Objects/Aside.antt =====
-- The steps of internal/objects/service.go that leave the table objects alone: the quotas, the placement, the
-- stores and the reads.
use harbor_shield.Prelude.{
  ℕ, ◌+◌, ◌≡◌, refl, ◌∙◌, Option, none, some, List, [], ◌∷◌, is_empty, Text, trim_space,
}
use harbor_shield.Db.{Action, zoom, ◌>>=◌}
use harbor_shield.Db.Errors.{Error, Result, ok, err}
use harbor_shield.Db.Keeps.{
  Keeps, IsPreorder, Keeps-pure, Keeps-raise, Keeps-lift, Keeps-statement, Keeps-query, Keeps-bind,
  Keeps-attempt, Keeps-if, Keeps-elim,
}
use harbor_shield.Db.Triples.{Triple-lift}
use harbor_shield.Db.Ensures.{After, After-bind}
use harbor_shield.Storage.Local.{Bytes, Files}
use harbor_shield.Storage.Nodes.{Network}
use harbor_shield.Storage.Distributed.{DistributedStore}
use harbor_shield.Quotas.Tables.{QuotaTables}
use harbor_shield.Objects.Tables.{
  ObjectRow, BucketRow, ObjectTables, ObjectService, StoragePolicy, Digests, on_disk, on_network,
  on_quotas,
}
use harbor_shield.Objects.Placement.{
  active_placement_endpoints, storage_policy, policy_of, put_if_any, effective_class,
  replica_target, resolve_placement_endpoints, read_blob, delete_blob, write_blob, place, unplace,
  place_each, record_placements,
}
use harbor_shield.Objects.Reading.{backend_of, get_version}
use harbor_shield.Objects.Storing.{
  Fresh, PutInput, lookup_existing_object, add_version, version_of, check_quotas, put_payload, put,
}

-- The rows are those that were there.
abbrev pub KeepsRows : {A : Type 0} → Action ObjectTables A → Type 0
KeepsRows m = Keeps (λ t t'. t'.objects ≡ t.objects) m

pub rows_pre : IsPreorder (λ (t t' : ObjectTables). t'.objects ≡ t.objects)
rows_pre = record { reflexive = λ t. refl; transitive = λ s t u h k. k ∙ h }

-- The settings service writes none of these tables.
abbrev pub SettingsAreApart : Option (Action ObjectTables StoragePolicy) → Type 0
SettingsAreApart none = Unit
SettingsAreApart (some resolve) = KeepsRows resolve

module _ {A : Type 0} where
  pub KeepsRows-on_disk : (m : Action Files A) → KeepsRows (on_disk m)
  unfolding on_disk zoom
  KeepsRows-on_disk m = record { at = λ w. refl }

  pub KeepsRows-on_network : (m : Action Network A) → KeepsRows (on_network m)
  unfolding on_network zoom
  KeepsRows-on_network m = record { at = λ w. refl }

  pub KeepsRows-on_quotas : (m : Action QuotaTables A) → KeepsRows (on_quotas m)
  unfolding on_quotas zoom
  KeepsRows-on_quotas m = record { at = λ w. refl }

pub KeepsRows-place_each :
    (object : ℕ) (locator : Text) (index : ℕ) (endpoints : List Text)
    → KeepsRows (place_each object locator index endpoints)
unfolding place_each place
KeepsRows-place_each object locator index [] = Keeps-pure rows_pre tt
KeepsRows-place_each object locator index (endpoint ∷ endpoints) =
    Keeps-if rows_pre (is_empty (trim_space endpoint)) _ _
      (KeepsRows-place_each object locator (index + 1) endpoints)
      (Keeps-bind rows_pre _ _ (Keeps-statement rows_pre _ (λ t. refl))
        (λ _. KeepsRows-place_each object locator (index + 1) endpoints))

pub KeepsRows-record_placements :
    (s : ObjectService) (object : ℕ) (locator : Text) (endpoints : List Text)
    → KeepsRows (record_placements s object locator endpoints)
unfolding record_placements unplace
KeepsRows-record_placements s object locator endpoints =
    Keeps-if rows_pre _ _ _ (Keeps-pure rows_pre tt) (
      Keeps-bind rows_pre _ _ (Keeps-statement rows_pre _ (λ t. refl))
        (λ _. KeepsRows-place_each object locator 0 endpoints))

pub KeepsRows-read_blob :
    (s : ObjectService) (o : Option DistributedStore) (path : Text) → KeepsRows (read_blob s o path)
unfolding read_blob
KeepsRows-read_blob s none path = KeepsRows-on_disk _
KeepsRows-read_blob s (some store) path = KeepsRows-on_network _

pub KeepsRows-delete_blob :
    (s : ObjectService) (o : Option DistributedStore) (path : Text)
    → KeepsRows (delete_blob s o path)
unfolding delete_blob
KeepsRows-delete_blob s none path = KeepsRows-on_disk _
KeepsRows-delete_blob s (some store) path = KeepsRows-on_network _

module _ (s : ObjectService) (apart : SettingsAreApart s.resolve_storage_policy) where
  pub KeepsRows-policy_of :
      (o : Option (Action ObjectTables StoragePolicy))
      → SettingsAreApart o
      → KeepsRows (policy_of o)
  unfolding policy_of
  KeepsRows-policy_of none h = Keeps-pure rows_pre none
  KeepsRows-policy_of (some resolve) h = Keeps-attempt rows_pre resolve _ (h) λ r.
      Keeps-elim rows_pre _ _ r (λ p. Keeps-pure rows_pre (some p)) (λ e. Keeps-pure rows_pre none)

  pub KeepsRows-effective_class : (name : Text) → KeepsRows (effective_class s name)
  unfolding effective_class storage_policy
  KeepsRows-effective_class name =
      Keeps-if rows_pre _ _ _
        (Keeps-bind rows_pre _ _ (KeepsRows-policy_of s.resolve_storage_policy apart)
          (λ p. Keeps-pure rows_pre _))
        (Keeps-pure rows_pre _)

  pub KeepsRows-replica_target : (r : Result BucketRow) → KeepsRows (replica_target s r)
  unfolding replica_target
  KeepsRows-replica_target (err e) = Keeps-pure rows_pre _
  KeepsRows-replica_target (ok b) = Keeps-if rows_pre _ _ _ (Keeps-pure rows_pre _) (
      Keeps-bind rows_pre _ _ (KeepsRows-effective_class b.storage_class) λ name.
        Keeps-bind rows_pre _ _ (KeepsRows-policy_of s.resolve_storage_policy apart)
          (λ p. Keeps-pure rows_pre _))

  pub KeepsRows-active : KeepsRows (active_placement_endpoints s)
  unfolding active_placement_endpoints
  KeepsRows-active = Keeps-bind rows_pre _ _ (Keeps-query rows_pre _) λ endpoints.
      Keeps-if rows_pre _ _ _ (Keeps-pure rows_pre endpoints) (
        Keeps-bind rows_pre _ _ (Keeps-query rows_pre _)
          (λ total. Keeps-if rows_pre _ _ _ (Keeps-pure rows_pre []) (Keeps-pure rows_pre _)))

  pub KeepsRows-resolve : (bucket : ℕ) → KeepsRows (resolve_placement_endpoints s bucket)
  unfolding resolve_placement_endpoints
  KeepsRows-resolve bucket = Keeps-if rows_pre _ _ _ (Keeps-pure rows_pre []) (
      Keeps-bind rows_pre _ _ KeepsRows-active λ available.
        Keeps-if rows_pre _ _ _ (Keeps-pure rows_pre []) (
          Keeps-attempt rows_pre _ _ (Keeps-query rows_pre _) (λ r.
            Keeps-bind rows_pre _ _ (KeepsRows-replica_target r)
              (λ target. Keeps-pure rows_pre _))))

  pub KeepsRows-put_if_any :
      (o : Option DistributedStore) (path : Text) (payload : Bytes) (selected : List Text)
      → KeepsRows (put_if_any o path payload selected)
  unfolding put_if_any
  KeepsRows-put_if_any none path payload selected = Keeps-raise rows_pre _
  KeepsRows-put_if_any (some store) path payload selected = KeepsRows-on_network _

  pub KeepsRows-get_version :
      (bucket : ℕ) (key : Text) (version : Option ℕ) → KeepsRows (get_version s bucket key version)
  unfolding get_version backend_of
  KeepsRows-get_version bucket key version =
      Keeps-bind rows_pre _ _ (Keeps-query rows_pre _) λ item.
        Keeps-bind rows_pre _ _ (Keeps-query rows_pre _) λ backend.
          Keeps-bind rows_pre _ _ (KeepsRows-read_blob s _ item.storage_path)
            (λ payload. Keeps-pure rows_pre _)

module _ {A : Type 0} (objects : List ObjectRow) where
  -- The rows are `objects`, whatever a step returns.
  abbrev pub Unchanged : Result A → ObjectTables → Type 0
  Unchanged r t = t.objects ≡ objects

  pub After-of_KeepsRows :
      (m : Action ObjectTables A) → KeepsRows m → After (λ t. t.objects ≡ objects) Unchanged m
  After-of_KeepsRows m h = record { at = λ w p. h.at w ∙ p }

-- What Put ensures, if it ensures it where it adds the row of the new version and where it ends with
-- an error before.
module _ (s : ObjectService) (apart : SettingsAreApart s.resolve_storage_policy) (d : Digests)
    (fresh : Fresh) (bucket : ℕ) (input : PutInput) (objects : List ObjectRow)
    (Post : Result ObjectRow → ObjectTables → Type 0)
    (fails : (e : Error) (t : ObjectTables) → t.objects ≡ objects → Post (err e) t)
    (adds : (payload : Bytes) (location backend : Text) (selected : List Text)
      → input.body ≡ ok payload
      → After
          (λ t. t.objects ≡ objects)
          Post
          (add_version s (version_of d fresh bucket payload location backend input) selected)) where
  abbrev step_by :
      {A : Type 0} (m : Action ObjectTables A) (f : A → Action ObjectTables ObjectRow)
      → KeepsRows m
      → ((a : A) → After (λ t. t.objects ≡ objects) Post (f a))
      → After (λ t. t.objects ≡ objects) Post (m >>= f)
  step_by m f h k =
      After-bind {Mid = Unchanged objects} m f (After-of_KeepsRows objects m h) k
        (λ e t u. fails e t u)

  stores :
      (payload : Bytes)
      → input.body ≡ ok payload
      → After (λ t. t.objects ≡ objects) Post (put_payload s d fresh bucket input payload)
  unfolding put_payload lookup_existing_object check_quotas write_blob
  stores payload body = step_by _ _ (Keeps-lift rows_pre _) λ _.
      step_by _ _ (Keeps-query rows_pre _) λ existing.
        step_by _ _ (Keeps-if rows_pre _ _ _ (KeepsRows-on_quotas _) (Keeps-pure rows_pre _)) λ _.
          step_by _ _ (KeepsRows-resolve s apart bucket) λ selected.
            step_by _ _
              (Keeps-if rows_pre _ _ _
                (KeepsRows-put_if_any s apart s.distributed _ payload selected)
                (KeepsRows-on_disk _))
              (λ _. adds payload _ _ selected body)

  pub put_by : After (λ t. t.objects ≡ objects) Post (put s d fresh bucket input)
  unfolding put
  put_by =
      After-bind {Mid = λ r t. (t.objects ≡ objects) × (input.body ≡ r)} _ _
        (Triple-lift input.body (λ t h. (h, refl)))
        (λ payload. record { at = λ w h. (stores payload h.1).at w h.0 }) (λ e t h. fails e t h.0)

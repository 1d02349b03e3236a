-- ===== src/Objects/Preserving.antt =====
-- Every operation of internal/objects/service.go keeps the rows well formed and the protected versions.
use mathlib.Core.Path.{subst}
use harbor_shield.Prelude.{ℕ, ◌≡◌, refl, inl, inr, Option, List, Bool-cases, Text}
use harbor_shield.Db.{Action, statement}
use harbor_shield.Db.Keeps.{
  Keeps, IsPreorder, Keeps-pure, Keeps-statement, Keeps-bind, Keeps-transaction,
}
use harbor_shield.Db.Ensures.{After}
use harbor_shield.Objects.Tables.{ObjectRow, ObjectTables, ObjectService, Digests}
use harbor_shield.Objects.Storing.{
  Fresh, PutInput, may_insert, insert_object, add_version, version_of, put, copy,
}
use harbor_shield.Objects.Aside.{
  SettingsAreApart, KeepsRows, KeepsRows-record_placements, KeepsRows-get_version, put_by,
}
use harbor_shield.Objects.Invariant.{Preserved, Preserves, Preserves-preorder, Preserved-refl}
use harbor_shield.Objects.Rows.{Preserved-insert}
use harbor_shield.Objects.Latest.{Preserved-unset_latest}

module _ (horizon : ℕ) where
  abbrev pub Preserving : {A : Type 0} → Action ObjectTables A → Type 0
  Preserving m = Keeps (Preserves horizon) m

  abbrev pub pre : IsPreorder (Preserves horizon)
  pre = Preserves-preorder horizon

  pub Preserving-aside : {A : Type 0} (m : Action ObjectTables A) → KeepsRows m → Preserving m
  Preserving-aside m h = record { at = λ w. rw (h.at w) (Preserved-refl horizon w.tables.objects) }

  pub Preserving-insert : (o : ObjectRow) → Preserving (statement (insert_object o))
  unfolding insert_object
  Preserving-insert o = Keeps-statement pre (insert_object o) λ t.
      elim (Bool-cases (may_insert o t)) [
        | inl may ↦ rw may (Preserved-insert horizon o t may)
        | inr fails ↦ rw fails (Preserved-refl horizon t.objects)
      ]

  module _ (s : ObjectService) (apart : SettingsAreApart s.resolve_storage_policy) (d : Digests)
      (fresh : Fresh) where
    Preserving-add_version :
        (row : ObjectRow) (selected : List Text) → Preserving (add_version s row selected)
    unfolding add_version
    Preserving-add_version row selected = Keeps-transaction pre _ (
        Keeps-bind pre _ _
          (Keeps-statement pre _ (λ t. (Preserved-unset_latest horizon row.bucket row.key t).0))
          λ _. Keeps-bind pre _ _ (Preserving-insert row) λ item.
            Keeps-bind pre _ _
              (Preserving-aside _ (KeepsRows-record_placements s item.id row.storage_path selected))
              (λ _. Keeps-pure pre item))

    adds :
        (objects : List ObjectRow) (row : ObjectRow) (selected : List Text)
        → After
            (λ t. t.objects ≡ objects)
            (λ r t. Preserved horizon objects t.objects)
            (add_version s row selected)
    adds objects row selected = record {
      at = λ v h.
          subst (λ o. Preserved horizon o (add_version s row selected v).1.tables.objects) h
            ((Preserving-add_version row selected).at v);
    }

    pub Preserving-put : (bucket : ℕ) (input : PutInput) → Preserving (put s d fresh bucket input)
    Preserving-put bucket input = record {
      at = λ w.
          (put_by s apart d fresh bucket input w.tables.objects
              (λ r t. Preserved horizon w.tables.objects t.objects)
              (λ e t h. rw h (Preserved-refl horizon w.tables.objects))
              (λ payload location backend selected body.
                adds w.tables.objects (version_of d fresh bucket payload location backend input)
                  selected)).at
            w refl;
    }

    pub Preserving-copy :
        (source : ℕ) (key : Text) (version : Option ℕ) (bucket : ℕ) (input : PutInput)
        → Preserving (copy s d fresh source key version bucket input)
    unfolding copy
    Preserving-copy source key version bucket input =
        Keeps-bind pre _ _ (Preserving-aside _ (KeepsRows-get_version s apart source key version))
          (λ found. Preserving-put bucket _)

-- ===== src/Objects/Removing.antt =====
-- The operations of internal/objects/service.go that remove or change versions keep the protected ones.
use mathlib.Core.Path.{subst}
use harbor_shield.Prelude.{
  ℕ, ◌≤◌, ◌≡◌, refl, sym, inl, inr, Bool, true, Option, none, some, find, Bool-cases, Option-cases,
  All-find, find-test, Text, ◌==◌, ==_iff,
}
use harbor_shield.Prelude.Members.{In, All-In}
use harbor_shield.Db.{query, statement, ◌>>◌}
use harbor_shield.Db.Errors.{Result, ok, err}
use harbor_shield.Db.Keeps.{
  Keeps-pure, Keeps-raise, Keeps-lift, Keeps-statement, Keeps-query, Keeps-bind, Keeps-transaction,
  Keeps-if,
}
use harbor_shield.Db.Triples.{
  Triple, Always, Reads, Holds, Triple-bind, Triple-statement, Triple-lift, Triple-attempt-lift,
}
use harbor_shield.Db.Transactions.{Triple-transaction}
use harbor_shield.Db.Ensures.{After, After-bind, Triple-then, Keeps-of_Triple, Triple-of_After}
use harbor_shield.Objects.Tables.{ObjectRow, ObjectTables, ObjectService}
use harbor_shield.Objects.Reading.{row_or_no_rows}
use harbor_shield.Objects.Storing.{Fresh, unset_latest}
use harbor_shield.Objects.Versions.{
  check_unprotected, add_marker, delete, delete_row, unset_all, promote_newest, find_version,
  remove_version, as_version_not_found, delete_version, restore_newest, restore_latest,
  is_named_version,
}
use harbor_shield.Objects.Invariant.{
  IsProtected, Preserved, Preserves, Preserved-refl, Preserved-trans,
}
use harbor_shield.Objects.Rows.{In-unique, Preserved-keep, unprotected}
use harbor_shield.Objects.Latest.{
  NoLatest, Preserved-unset_latest, Preserved-unset_all, Preserved-promote_newest,
  Preserved-restore_newest,
}
use harbor_shield.Objects.Aside.{KeepsRows-delete_blob}
use harbor_shield.Objects.Preserving.{Preserving, pre, Preserving-aside, Preserving-insert}

module _ (horizon : ℕ) where
  -- What was found in the table.
  abbrev Found : (ObjectRow → Bool) → ObjectTables → ObjectRow → Type 0
  Found test t o = In o t.objects × (test o ≡ true)

  row_or_no_rows-Found :
      (test : ObjectRow → Bool) (t : ObjectTables)
      → Holds (Found test) t (row_or_no_rows (find test t.objects))
  row_or_no_rows-Found test t = elim (Option-cases (find test t.objects)) [
    | inl nothing ↦ rw nothing tt
    | inr (o, e) ↦ rw e (
      All-find (λ x. In x t.objects) test t.objects o (All-In t.objects) e,
      find-test test t.objects o e,
    )
  ]

  as-Found :
      (t : ObjectTables) (test : ObjectRow → Bool) (found : Option ObjectRow)
      → Holds (Found test) t (row_or_no_rows found)
      → Holds (Found test) t (as_version_not_found (row_or_no_rows found))
  as-Found t test none h = tt
  as-Found t test (some o) h = h

  Preserving-add_marker : (marker : ObjectRow) → Preserving horizon (add_marker marker)
  unfolding add_marker
  Preserving-add_marker marker = Keeps-transaction (pre horizon) _ (
      Keeps-bind (pre horizon) _ _
        (Keeps-statement (pre horizon) _
          (λ t. (Preserved-unset_latest horizon marker.bucket marker.key t).0))
        λ _.
          Keeps-bind (pre horizon) _ _ (Preserving-insert horizon marker)
            (λ _. Keeps-pure (pre horizon) tt))

  pub Preserving-delete :
      (fresh : Fresh) (bucket : ℕ) (key : Text) → Preserving horizon (delete fresh bucket key)
  unfolding delete
  Preserving-delete fresh bucket key =
      Keeps-bind (pre horizon) _ _ (Keeps-query (pre horizon) _) λ latest.
        Keeps-bind (pre horizon) _ _ (Keeps-lift (pre horizon) _) (λ _. Preserving-add_marker _)

  -- The row with the id is not protected, so no protected row goes.
  Preserved-delete_row :
      (o : ObjectRow) (t : ObjectTables)
      → In o t.objects
      → (IsProtected horizon o → ⊥)
      → Preserved horizon t.objects (delete_row o.id t).1.objects
  unfolding delete_row
  Preserved-delete_row o t i free = Preserved-keep horizon _ t.objects λ ids p j q.
      elim (Bool-cases (p.id == o.id)) [
        | inl same ↦
            let e : o ≡ p =
              In-unique horizon t.objects o p ids i j (sym ((==_iff p.id o.id).0 same)) in
            absurd (free (subst (IsProtected horizon) (sym e) q))
        | inr other ↦ rw other refl
      ]

  module _ (bucket : ℕ) (key : Text) where
    -- The key has no latest version after the first of two statements, which the second needs.
    abbrev Cleared : ObjectTables → Result (Unit {0}) → ObjectTables → Type 0
    Cleared t (ok _) s = Preserves horizon t s × NoLatest bucket key s.objects
    Cleared t (err e) s = Preserves horizon t s

    unset_latest-Cleared :
        (t : ObjectTables) → After (λ s. s ≡ t) (Cleared t) (statement (unset_latest bucket key))
    unfolding unset_latest
    unset_latest-Cleared t =
        Triple-statement (unset_latest bucket key) (λ s e. rw e (Preserved-refl horizon t.objects))
          (λ s e. rw e (Preserved-unset_latest horizon bucket key t))

    unset_all-Cleared :
        (t : ObjectTables) → After (λ s. s ≡ t) (Cleared t) (statement (unset_all bucket key))
    unfolding unset_all
    unset_all-Cleared t =
        Triple-statement (unset_all bucket key) (λ s e. rw e (Preserved-refl horizon t.objects))
          (λ s e. rw e (Preserved-unset_all horizon bucket key t))

    second_statement :
        {A : Type 0} (t : ObjectTables) (f : ObjectTables → Result A × ObjectTables)
        → ((s : ObjectTables) → NoLatest bucket key s.objects → Preserves horizon s (f s).1)
        → After (Cleared t (ok tt)) (λ r s. Preserves horizon t s) (statement f)
    second_statement t f h =
        Triple-statement f (λ s c. c.0)
          (λ s c. Preserved-trans horizon t.objects s.objects (f s).1.objects c.0 (h s c.1))

    Preserving-unset_promote :
        Preserving horizon
          (statement (unset_all bucket key) >> statement (promote_newest bucket key))
    Preserving-unset_promote = Keeps-of_Triple _ (
        Triple-of_After _ λ t _.
          After-bind {Mid = Cleared t} _ _ (unset_all-Cleared t)
            (λ _.
              second_statement t (promote_newest bucket key)
                (Preserved-promote_newest horizon bucket key))
            (λ e s c. c))

    pub Preserving-restore_latest : Preserving horizon (restore_latest bucket key)
    unfolding restore_latest
    Preserving-restore_latest = Keeps-transaction (pre horizon) _ (
        Keeps-of_Triple _ (
          Triple-of_After _ λ t _.
            After-bind {Mid = Cleared t} _ _ (unset_latest-Cleared t)
              (λ _. Triple-attempt-lift _ _ (
                second_statement t (restore_newest bucket key)
                  (Preserved-restore_newest horizon bucket key)))
              (λ e s c. c)))

  Holds-itself : (t : ObjectTables) (r : Result (Unit {0})) → Holds (λ _ _. r ≡ ok tt) t r
  Holds-itself t (ok _) = refl
  Holds-itself t (err e) = tt

  find_version-Found :
      (bucket : ℕ) (key : Text) (version : ℕ)
      → Reads Always (Found (is_named_version bucket key version)) (find_version bucket key version)
  unfolding find_version query
  find_version-Found bucket key version = Triple-attempt-lift _ _ (
      Triple-statement _ (λ t h. (refl, tt))
        (λ t h. (
          refl,
          as-Found t (is_named_version bucket key version)
              (find (is_named_version bucket key version) t.objects)
              (row_or_no_rows-Found (is_named_version bucket key version) t),
        )))

  module _ (now : ℕ) (early : now ≤ horizon) where
    remove_version-Preserves :
        (test : ObjectRow → Bool) (o : ObjectRow)
        → Triple
            (λ t. Always t × Found test t o)
            (λ t _ t'. Preserves horizon t t')
            (remove_version now o)
    unfolding remove_version
    remove_version-Preserves test o =
        Triple-bind {P = λ t _. check_unprotected now o ≡ ok tt} _ _
          (Triple-lift _ (λ t h. (refl, Holds-itself t (check_unprotected now o))))
          (λ t e h. Preserved-refl horizon t.objects)
          λ _.
            Triple-then (pre horizon) _ _
              (Triple-statement _ (λ t h. Preserved-refl horizon t.objects)
                (λ t h. Preserved-delete_row o t h.0.1.0 (unprotected horizon now o early h.1)))
              λ _.
                Keeps-bind (pre horizon) _ _
                  (Keeps-if (pre horizon) o.is_latest _ _ (Preserving-unset_promote o.bucket o.key)
                    (Keeps-pure (pre horizon) tt))
                  (λ _. Keeps-pure (pre horizon) o)

    pub Preserving-delete_version :
        (s : ObjectService) (bucket : ℕ) (key : Text) (version : Option ℕ)
        → Preserving horizon (delete_version s now bucket key version)
    unfolding delete_version
    Preserving-delete_version s bucket key none = Keeps-raise (pre horizon) _
    Preserving-delete_version s bucket key (some version) =
        Keeps-bind (pre horizon) _ _
          (Keeps-of_Triple _ (
            Triple-transaction _ (λ t e h. Preserved-refl horizon t.objects)
              (Triple-bind _ _ (find_version-Found bucket key version)
                (λ t e h. Preserved-refl horizon t.objects)
                (λ o. remove_version-Preserves (is_named_version bucket key version) o))))
          (λ o.
            Keeps-if (pre horizon) _ _ _ (Keeps-pure (pre horizon) tt)
              (Preserving-aside horizon _ (KeepsRows-delete_blob s _ o.storage_path)))

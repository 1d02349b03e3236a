-- ===== src/Objects/Seen.antt =====
-- What the transactions of internal/objects/service.go make of the view that readers have.
use mathlib.Core.Path.{subst}
use harbor_shield.Prelude.{
  ℕ, ◌≡◌, refl, sym, ap, ◌∙◌, inl, inr, true, Option, none, some, List, if◌then◌else◌, arith,
  Bool-cases, AllPairs, text_eq_refl, ==_refl, Text,
}
use harbor_shield.Prelude.Members.{In}
use harbor_shield.Db.{Action, statement}
use harbor_shield.Db.Errors.{Result, ok, err}
use harbor_shield.Db.Triples.{Triple, Triple-statement, Triple-pure, Triple-attempt-lift}
use harbor_shield.Db.Transactions.{Triple-committed}
use harbor_shield.Db.Ensures.{After, After-bind}
use harbor_shield.Objects.Tables.{ObjectRow, ObjectTables, ObjectService, of_key}
use harbor_shield.Objects.Reading.{is_current}
use harbor_shield.Objects.Storing.{unset_latest, may_insert, insert_object, add_version}
use harbor_shield.Objects.Versions.{
  add_marker, restore_latest, restore_newest, is_restorable, newest, set_latest, restored,
  as_no_restorable,
}
use harbor_shield.Objects.Invariant.{OtherId, IsWellFormed}
use harbor_shield.Objects.Latest.{NoLatest, as_latest, newest-member, Preserved-unset_latest}
use harbor_shield.Objects.Aside.{KeepsRows, KeepsRows-record_placements}
use harbor_shield.Objects.Current.{
  View, current, is_at, with_current, Agrees, current-unset_latest, current-snoc, current-made,
}

-- Two ways to write what is found.
pub Sees-same :
    (before after : List ObjectRow) (bucket : ℕ) (key : Text) (found found' : Option ObjectRow)
    → found ≡ found'
    → Agrees (current after) (with_current bucket key found (current before))
    → Agrees (current after) (with_current bucket key found' (current before))
Sees-same before after bucket key found found' e h b k =
    h b k ∙ ap (λ (o : Option ObjectRow). with_current bucket key o (current before) b k) e

-- The last version that is put under a key is the one that is seen.
with_current-again :
    (bucket : ℕ) (key : Text) (found : Option ObjectRow) (v v' : View)
    → Agrees v (with_current bucket key none v')
    → Agrees (with_current bucket key found v) (with_current bucket key found v')
with_current-again bucket key found v v' h b k = ground (arith, h b k)

-- The view after: `found` under the key, and all else as before.
abbrev pub Sees : List ObjectRow → ℕ → Text → Option ObjectRow → List ObjectRow → Type 0
Sees before bucket key found after =
    Agrees (current after) (with_current bucket key found (current before))

pub of_key_self : (o : ObjectRow) → of_key o.bucket o.key o ≡ true
unfolding of_key
of_key_self o = rw (==_refl o.bucket, text_eq_refl o.key) refl

pub is_at_self : (bucket : ℕ) (key : Text) → is_at bucket key bucket key ≡ true
is_at_self bucket key = rw (==_refl bucket, text_eq_refl key) refl

module _ (objects : List ObjectRow) (row : ObjectRow) where
  abbrev pub bucket : ℕ
  bucket = row.bucket

  abbrev pub key : Text
  key = row.key

  abbrev pub seen : Option ObjectRow
  seen = if is_current bucket key row then some row else none

  abbrev Unset : Result (Unit {0}) → ObjectTables → Type 0
  Unset (ok _) t = Sees objects bucket key none t.objects
  Unset (err e) t = Unit

  abbrev Added : Result ObjectRow → ObjectTables → Type 0
  Added (ok o) t = (o ≡ row) × Sees objects bucket key seen t.objects
  Added (err e) t = Unit

  absent_at :
      (after : List ObjectRow)
      → Sees objects bucket key none after
      → current after bucket key ≡ none
  absent_at after h = h bucket key ∙ rw (is_at_self bucket key) refl

  unset_latest-Unset : After (λ t. t.objects ≡ objects) Unset (statement (unset_latest bucket key))
  unfolding unset_latest
  unset_latest-Unset =
      Triple-statement (unset_latest bucket key) (λ t h. tt)
        (λ t h b k.
          current-unset_latest bucket key t b k
          ∙ ap (λ (l : List ObjectRow). with_current bucket key none (current l) b k) h)

  insert-Added : After (Unset (ok tt)) Added (statement (insert_object row))
  unfolding insert_object
  insert-Added =
      Triple-statement (insert_object row) (λ t h. tt)
        λ t h. elim (Bool-cases (may_insert row t)) [
          | inl may ↦ rw may (
            refl,
            λ b k.
                current-snoc bucket key row t.objects (of_key_self row) (absent_at t.objects h) b k
                ∙ with_current-again bucket key seen (current t.objects) (current objects) h b k,
          )
          | inr fails ↦ rw fails tt
        ]

  -- The placements are no part of the rows.
  Added-apart :
      {A : Type 0} (item : ObjectRow) (m : Action ObjectTables A)
      → KeepsRows m
      → After (Added (ok item)) (λ r. Added (ok item)) m
  Added-apart item m h = record {
    at = λ w p. (p.0, subst (Sees objects bucket key seen) (sym (h.at w)) p.1);
  }

  abbrev pub AddedOrSame : ObjectTables → Result ObjectRow → ObjectTables → Type 0
  AddedOrSame t (ok o) t' = (o ≡ row) × Sees objects bucket key seen t'.objects
  AddedOrSame t (err e) t' = t'.objects ≡ objects

  pub add_version-Added :
      (s : ObjectService) (selected : List Text)
      → Triple (λ t. t.objects ≡ objects) AddedOrSame (add_version s row selected)
  unfolding add_version
  add_version-Added s selected =
      Triple-committed _ (λ t e h. h)
        (After-bind {Mid = Unset} _ _ unset_latest-Unset
          (λ _.
            After-bind {Mid = Added} _ _ insert-Added
              (λ item.
                After-bind {Mid = λ r. Added (ok item)} _ _
                  (Added-apart item _
                    (KeepsRows-record_placements s item.id row.storage_path selected))
                  (λ _. Triple-pure item (λ t h. h)) (λ e t h. tt))
              (λ e t h. tt))
          (λ e t h. tt))

  abbrev pub MarkedOrSame : ObjectTables → Result (Unit {0}) → ObjectTables → Type 0
  MarkedOrSame t (ok _) t' = Sees objects bucket key seen t'.objects
  MarkedOrSame t (err e) t' = t'.objects ≡ objects

  pub add_marker-Marked : Triple (λ t. t.objects ≡ objects) MarkedOrSame (add_marker row)
  unfolding add_marker
  add_marker-Marked =
      Triple-committed _ (λ t e h. h)
        (After-bind {Mid = Unset} _ _ unset_latest-Unset
          (λ _.
            After-bind {Mid = Added} _ _ insert-Added (λ item. Triple-pure tt (λ t h. h.1))
              (λ e t h. tt))
          (λ e t h. tt))

module _ (objects : List ObjectRow) (bucket : ℕ) (key : Text) where
  abbrev Cleared : Result (Unit {0}) → ObjectTables → Type 0
  Cleared (ok _) t =
      Sees objects bucket key none t.objects
      × NoLatest bucket key t.objects
      × AllPairs OtherId t.objects
  Cleared (err e) t = Unit

  unset-Cleared :
      IsWellFormed objects
      → After (λ t. t.objects ≡ objects) Cleared (statement (unset_latest bucket key))
  unfolding unset_latest
  unset-Cleared w =
      Triple-statement (unset_latest bucket key) (λ t h. tt)
        λ t h.
          let kept = Preserved-unset_latest 0 bucket key t in
          (
            (λ b k.
                current-unset_latest bucket key t b k
                ∙ ap (λ (l : List ObjectRow). with_current bucket key none (current l) b k) h),
            kept.1,
            (kept.0 (subst IsWellFormed (sym h) w)).0.ids,
          )

  abbrev Restored : Result ObjectRow → ObjectTables → Type 0
  Restored (ok o) t = Sees objects bucket key (some o) t.objects
  Restored (err e) t = Unit

  restored_by :
      (found : Option ObjectRow) (t : ObjectTables)
      → Cleared (ok tt) t
      → ((n : ObjectRow) → found ≡ some n → In n t.objects × (is_restorable bucket key n ≡ true))
      → Restored
          (as_no_restorable (restored found))
          (record t { objects = set_latest found t.objects })
  restored_by none t h f = tt
  restored_by (some n) t h f =
      let is = f n refl in
      λ b k.
        current-made bucket key n t.objects h.2 h.1 is.0 is.1 b k
        ∙ with_current-again bucket key (some (as_latest n)) (current t.objects) (current objects)
            h.0 b k

  restore_newest-Restored :
      (t : ObjectTables)
      → Cleared (ok tt) t
      → Restored (as_no_restorable (restore_newest bucket key t).0) (restore_newest bucket key t).1
  unfolding restore_newest
  restore_newest-Restored t h =
      restored_by (newest (is_restorable bucket key) t.objects) t h
        (newest-member (is_restorable bucket key) t.objects)

  abbrev pub RestoredOrSame : ObjectTables → Result ObjectRow → ObjectTables → Type 0
  RestoredOrSame t (ok o) t' = Sees objects bucket key (some o) t'.objects
  RestoredOrSame t (err e) t' = t'.objects ≡ objects

  pub restore_latest-Restored :
      IsWellFormed objects
      → Triple (λ t. t.objects ≡ objects) RestoredOrSame (restore_latest bucket key)
  unfolding restore_latest
  restore_latest-Restored w =
      Triple-committed _ (λ t e h. h)
        (After-bind {Mid = Cleared} _ _ (unset-Cleared w)
          (λ _.
            Triple-attempt-lift _ _
              (Triple-statement (restore_newest bucket key) (λ t h. tt) restore_newest-Restored))
          (λ e t h. tt))

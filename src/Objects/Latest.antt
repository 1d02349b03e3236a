-- ===== src/Objects/Latest.antt =====
-- One row is made the latest of its key after none was: promote_newest and restore_newest.
use mathlib.Core.Path.{subst}
use harbor_shield.Prelude.{
  ℕ, ◌≡◌, refl, sym, ◌∙◌, inl, inr, Bool, true, false, Option, none, some, List, update,
  if◌then◌else◌, arith, Bool-cases, All, AllPairs, AllPairs-update, AllPairs-zip, AllPairs-imp,
  All-imp, All-zip, All-update_any, All-first_of, All-order_by, text_eq_iff, text_eq_symm, ==_iff,
  ◌==◌, Text, Option-cases,
}
use harbor_shield.Prelude.Members.{In, All-In, All-keep_test}
use harbor_shield.Objects.Tables.{ObjectRow, ObjectTables, of_key}
use harbor_shield.Objects.Reading.{newest_first}
use harbor_shield.Objects.Storing.{is_latest_of, unset_latest}
use harbor_shield.Objects.Versions.{
  unset_all, newest, set_latest, promote_newest, is_kept_version, restore_newest, is_restorable,
}
use harbor_shield.Objects.Invariant.{
  OtherId, OtherLatest, Preserved, KeepsRow, Preserved-update, Preserved-refl,
}
use harbor_shield.Objects.Rows.{In-unique, Preserved-no_latest}

-- No row is the latest of the key.
abbrev pub NoLatest : ℕ → Text → List ObjectRow → Type 0
NoLatest bucket key objects = All (λ o. is_latest_of bucket key o ≡ false) objects

abbrev pub as_latest : ObjectRow → ObjectRow
as_latest o = record o { is_latest = true }

abbrev pub not_latest : ObjectRow → ObjectRow
not_latest o = record o { is_latest = false }

-- The row that is found is one of them, and has the key.
abbrev pub IsFound : ℕ → Text → List ObjectRow → Option ObjectRow → Type 0
IsFound bucket key objects none = Unit
IsFound bucket key objects (some n) = In n objects × (of_key bucket key n ≡ true)

pub newest-member :
    (test : ObjectRow → Bool) (objects : List ObjectRow) (n : ObjectRow)
    → newest test objects ≡ some n
    → In n objects × (test n ≡ true)
unfolding newest
newest-member test objects n e =
    All-first_of (λ o. In o objects × (test o ≡ true)) _ n
      (All-order_by _ newest_first _
        (All-keep_test (λ o. In o objects) test objects (All-In objects)))
      e

pub newest-IsFound :
    (test : ObjectRow → Bool) (bucket : ℕ) (key : Text) (objects : List ObjectRow)
    → ((o : ObjectRow) → test o ≡ true → of_key bucket key o ≡ true)
    → IsFound bucket key objects (newest test objects)
newest-IsFound test bucket key objects h = elim (Option-cases (newest test objects)) [
  | inl nothing ↦ rw nothing tt
  | inr (n, e) ↦ let found = newest-member test objects n e in rw e (found.0, h n found.1)
]

module _ (horizon : ℕ) where
  -- To be the latest or not is no part of the version.
  pub KeepsRow-latest :
      (b : Bool) (o : ObjectRow) → KeepsRow horizon (λ x. record x { is_latest = b }) o
  KeepsRow-latest b o = (
    record {
      id = refl;
      bucket = refl;
      key = refl;
      version_id = refl;
      size_bytes = refl;
      etag = refl;
      content_type = refl;
      user_metadata = refl;
      storage_path = refl;
      retention_until = refl;
    },
    λ p. record { present = p.present; guarded = p.guarded },
  )

  module _ (bucket : ℕ) (key : Text) (x y : ObjectRow) where
    clash :
        of_key bucket key x ≡ true
        → is_latest_of bucket key y ≡ false
        → y.is_latest ≡ true
        → of_key x.bucket x.key y ≡ false
    unfolding is_latest_of of_key
    clash h k l = ground (arith, text_eq_iff x.key key)

    clash_back :
        of_key bucket key y ≡ true
        → is_latest_of bucket key x ≡ false
        → x.is_latest ≡ true
        → of_key x.bucket x.key y ≡ false
    unfolding is_latest_of of_key
    clash_back h k l =
        ground (arith, text_eq_iff y.key key, text_eq_symm y.key x.key, text_eq_symm key x.key)

  module _ (bucket : ℕ) (key : Text) (n : ObjectRow) where
    abbrev made : ObjectRow → ObjectRow
    made x = if x.id == n.id then as_latest x else x

    -- Before: not the latest of the key, and of the key if it is the one.
    abbrev Before : ObjectRow → Type 0
    Before x = (is_latest_of bucket key x ≡ false) × (x.id ≡ n.id → of_key bucket key x ≡ true)

    abbrev Apart : ObjectRow → ObjectRow → Type 0
    Apart x y = OtherId x y × OtherLatest x y

    made-OtherLatest :
        (x y : ObjectRow) → Before x → Before y → Apart x y → OtherLatest (made x) (made y)
    unfolding is_latest_of of_key
    made-OtherLatest x y bx by r = elim (Bool-cases (x.id == n.id)) [
      | inl ex ↦ elim (Bool-cases (y.id == n.id)) [
        | inl ey ↦ absurd (r.0 (omega (arith, (==_iff x.id n.id).0 ex, (==_iff y.id n.id).0 ey)))
        | inr ny ↦ rw (ex, ny) (λ _ l. clash bucket key x y (bx.1 ((==_iff x.id n.id).0 ex)) by.0 l)
      ]
      | inr nx ↦ elim (Bool-cases (y.id == n.id)) [
        | inl ey ↦
            rw (nx, ey) (λ l _. clash_back bucket key x y (by.1 ((==_iff y.id n.id).0 ey)) bx.0 l)
        | inr ny ↦ rw (nx, ny) r.1
      ]
    ]

    made-OtherId : (x y : ObjectRow) → OtherId x y → OtherId (made x) (made y)
    made-OtherId x y h e = h (sym (same x) ∙ e ∙ same y)
      where
        same : (z : ObjectRow) → (made z).id ≡ z.id
        same z = ground arith

    Before-of_found :
        (objects : List ObjectRow)
        → NoLatest bucket key objects
        → AllPairs OtherId objects
        → In n objects
        → of_key bucket key n ≡ true
        → All Before objects
    Before-of_found objects h ids i k = All-zip _ _ objects h (
        All-imp (λ x. In x objects) _ objects
          (λ x j e.
            let same : n ≡ x = In-unique horizon objects n x ids i j (sym e) in
            subst (λ o. of_key bucket key o ≡ true) same k)
          (All-In objects))

    made-latest :
        (objects : List ObjectRow)
        → NoLatest bucket key objects
        → In n objects
        → of_key bucket key n ≡ true
        → AllPairs OtherId objects
        → AllPairs OtherLatest objects
        → AllPairs OtherLatest (update (λ (o : ObjectRow). o.id == n.id) as_latest objects)
    made-latest objects h i k ids latest =
        AllPairs-imp (λ x y. OtherId x y × OtherLatest x y) OtherLatest _ (λ x y r. r.1)
          (AllPairs-update Before (λ x y. OtherId x y × OtherLatest x y)
            (λ (o : ObjectRow). o.id == n.id) as_latest objects
            (λ x y bx by r. (made-OtherId x y r.0, made-OtherLatest x y bx by r))
            (Before-of_found objects h ids i k)
            (AllPairs-zip OtherId OtherLatest objects ids latest))

  pub Preserved-set_latest :
      (bucket : ℕ) (key : Text) (found : Option ObjectRow) (objects : List ObjectRow)
      → NoLatest bucket key objects
      → IsFound bucket key objects found
      → Preserved horizon objects (set_latest found objects)
  Preserved-set_latest bucket key none objects h f = Preserved-refl horizon objects
  Preserved-set_latest bucket key (some n) objects h f =
      Preserved-update horizon _ _ objects (λ x _. KeepsRow-latest true x)
        (made-latest bucket key n objects h f.0 f.1)

  pub Preserved-unset_latest :
      (bucket : ℕ) (key : Text) (t : ObjectTables)
      → Preserved horizon t.objects (unset_latest bucket key t).1.objects
        × NoLatest bucket key (unset_latest bucket key t).1.objects
  unfolding unset_latest is_latest_of
  Preserved-unset_latest bucket key t = (
    Preserved-no_latest horizon (is_latest_of bucket key) not_latest t.objects
        (λ x _. KeepsRow-latest false x) (λ x h. absurd (cc)),
    All-update_any (λ o. is_latest_of bucket key o ≡ false) (is_latest_of bucket key) not_latest
        t.objects (λ x. ground arith),
  )

  pub Preserved-unset_all :
      (bucket : ℕ) (key : Text) (t : ObjectTables)
      → Preserved horizon t.objects (unset_all bucket key t).1.objects
        × NoLatest bucket key (unset_all bucket key t).1.objects
  unfolding unset_all is_latest_of of_key
  Preserved-unset_all bucket key t = (
    Preserved-no_latest horizon (of_key bucket key) not_latest t.objects
        (λ x _. KeepsRow-latest false x) (λ x h. absurd (cc)),
    All-update_any (λ o. is_latest_of bucket key o ≡ false) (of_key bucket key) not_latest t.objects
        (λ x. ground arith),
  )

  pub Preserved-promote_newest :
      (bucket : ℕ) (key : Text) (t : ObjectTables)
      → NoLatest bucket key t.objects
      → Preserved horizon t.objects (promote_newest bucket key t).1.objects
  unfolding promote_newest is_kept_version
  Preserved-promote_newest bucket key t h =
      Preserved-set_latest bucket key _ t.objects h
        (newest-IsFound (is_kept_version bucket key) bucket key t.objects (λ o k. ground arith))

  pub Preserved-restore_newest :
      (bucket : ℕ) (key : Text) (t : ObjectTables)
      → NoLatest bucket key t.objects
      → Preserved horizon t.objects (restore_newest bucket key t).1.objects
  unfolding restore_newest is_restorable
  Preserved-restore_newest bucket key t h =
      Preserved-set_latest bucket key _ t.objects h
        (newest-IsFound (is_restorable bucket key) bucket key t.objects (λ o k. ground arith))

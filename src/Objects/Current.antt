-- ===== src/Objects/Current.antt =====
-- What the statements of internal/objects/service.go make of the objects that a reader sees.
use mathlib.Core.Path.{subst}
use harbor_shield.Prelude.{
  ℕ, ◌≡◌, refl, sym, ap, inl, inr, Bool, true, false, ◌&&◌, Option, none, some, List, [], ◌∷◌, ◌++◌,
  find, update, if◌then◌else◌, arith, Bool-cases, All, AllPairs, text_eq, text_eq_iff, ==_iff,
  ==_refl, ◌==◌, Text,
}
use harbor_shield.Prelude.Members.{In, All-at}
use harbor_shield.Objects.Tables.{ObjectRow, ObjectTables, of_key}
use harbor_shield.Objects.Reading.{is_current}
use harbor_shield.Objects.Storing.{is_latest_of, unset_latest}
use harbor_shield.Objects.Versions.{set_latest, is_restorable}
use harbor_shield.Objects.Invariant.{OtherId}
use harbor_shield.Objects.Latest.{NoLatest, as_latest, not_latest}

-- The view: for each bucket and key the version that Head and Get find.
abbrev pub View : Type 0
View = ℕ → Text → Option ObjectRow

unfoldable pub current : List ObjectRow → View
current objects bucket key = find (is_current bucket key) objects

abbrev pub is_at : ℕ → Text → ℕ → Text → Bool
is_at bucket key b k = bucket == b && text_eq key k

-- The view with another version under one key, or none.
abbrev pub with_current : ℕ → Text → Option ObjectRow → View → View
with_current bucket key found view b k = if is_at bucket key b k then found else view b k

-- The same view, key by key.
abbrev pub Agrees : View → View → Type 0
Agrees v v' = (b : ℕ) (k : Text) → v b k ≡ v' b k

at_iff : (bucket b : ℕ) (key k : Text) → is_at bucket key b k ≡ true → (bucket ≡ b) × (key ≡ k)
at_iff bucket b key k h = ((==_iff bucket b).0 (ground arith), (text_eq_iff key k).0 (ground arith))

update-absent :
    (n : ObjectRow) (objects : List ObjectRow)
    → All (OtherId n) objects
    → update (λ (o : ObjectRow). o.id == n.id) as_latest objects ≡ objects
update-absent n [] h = refl
update-absent n (o ∷ objects) h = ground (arith, update-absent n objects h.1, h.0, ==_iff o.id n.id)

module _ (bucket b : ℕ) (key k : Text) (other : is_at bucket key b k ≡ false) (o : ObjectRow) where
  -- A row of one key is not seen under another.
  unseen : of_key bucket key o ≡ true → is_current b k o ≡ false
  unfolding is_current of_key
  unseen h = ground (arith, text_eq_iff o.key key)

module _ (bucket : ℕ) (key : Text) where
  find-unset :
      (objects : List ObjectRow)
      → find (is_current bucket key) (update (is_latest_of bucket key) not_latest objects) ≡ none
  unfolding is_current is_latest_of of_key
  find-unset [] = refl
  find-unset (o ∷ objects) = ground (arith, find-unset objects)

  module _ (b : ℕ) (k : Text) (other : is_at bucket key b k ≡ false) where
    -- Rows of the key are changed, and stay rows of the key.
    find-update_aside :
        (p : ObjectRow → Bool) (f : ObjectRow → ObjectRow) (objects : List ObjectRow)
        → ((o : ObjectRow)
            → p o ≡ true
            → (is_current b k o ≡ false) × (is_current b k (f o) ≡ false))
        → find (is_current b k) (update p f objects) ≡ find (is_current b k) objects
    find-update_aside p f [] h = refl
    find-update_aside p f (o ∷ objects) h = elim (Bool-cases (p o)) [
      | inl here ↦
          let (before, after) = h o here in
          rw (here, before, after) (find-update_aside p f objects h)
      | inr there ↦ rw there (ground (arith, find-update_aside p f objects h))
    ]

    unset_aside :
        (o : ObjectRow)
        → is_latest_of bucket key o ≡ true
        → (is_current b k o ≡ false) × (is_current b k (not_latest o) ≡ false)
    unfolding is_latest_of of_key
    unset_aside o h = (
      unseen bucket b key k other o (ground arith),
      unseen bucket b key k other (not_latest o) (ground arith),
    )

    made_aside :
        (n : ObjectRow) (objects : List ObjectRow)
        → AllPairs OtherId objects
        → In n objects
        → of_key bucket key n ≡ true
        → find (is_current b k) (update (λ (o : ObjectRow). o.id == n.id) as_latest objects)
          ≡ find (is_current b k) objects
    unfolding of_key
    made_aside n [] ids i h = refl
    made_aside n (o ∷ objects) ids (inl e) h =
        let same : (o.id == n.id) ≡ true =
          (==_iff o.id n.id).1 (ap (λ (x : ObjectRow). x.id) (sym e)) in
        let before = subst (λ x. is_current b k x ≡ false) e (unseen bucket b key k other n h) in
        let after =
          subst (λ x. is_current b k (as_latest x) ≡ false) e
            (unseen bucket b key k other (as_latest n) h) in
        rw (same, before, after)
          (ap (find (is_current b k))
            (update-absent n objects (subst (λ x. All (OtherId x) objects) (sym e) ids.0)))
    made_aside n (o ∷ objects) ids (inr i) h =
        let differs : (o.id == n.id) ≡ false =
          ground (arith, All-at (OtherId o) n objects ids.0 i, ==_iff o.id n.id) in
        rw differs (ground (arith, made_aside n objects ids.1 i h))

  made_here :
      (n : ObjectRow) (objects : List ObjectRow)
      → AllPairs OtherId objects
      → NoLatest bucket key objects
      → In n objects
      → is_restorable bucket key n ≡ true
      → find (is_current bucket key) (update (λ (o : ObjectRow). o.id == n.id) as_latest objects)
        ≡ some (as_latest n)
  unfolding is_current is_restorable is_latest_of of_key
  made_here n [] ids none_yet i h = elim i [ ]
  made_here n (o ∷ objects) ids none_yet (inl e) h =
      subst
        (λ x.
          find (is_current bucket key)
            (update (λ (y : ObjectRow). y.id == n.id) as_latest (x ∷ objects))
          ≡ some (as_latest n))
        e (ground (arith, ==_refl n.id))
  made_here n (o ∷ objects) ids none_yet (inr i) h = ground (
    arith,
    made_here n objects ids.1 none_yet.1 i h,
    All-at (OtherId o) n objects ids.0 i,
    ==_iff o.id n.id,
  )

  pub current-unset_latest :
      (t : ObjectTables)
      → Agrees
          (current (unset_latest bucket key t).1.objects)
          (with_current bucket key none (current t.objects))
  unfolding current unset_latest
  current-unset_latest t b k = elim (Bool-cases (is_at bucket key b k)) [
    | inl here ↦
        let (e, f) = at_iff bucket b key k here in
        rw here (ground (arith, e, f, find-unset t.objects))
    | inr there ↦ rw there (
        find-update_aside b k there (is_latest_of bucket key) not_latest t.objects
          (unset_aside b k there))
  ]

  find-snoc :
      (q : ObjectRow → Bool) (o : ObjectRow) (objects : List ObjectRow)
      → find q objects ≡ none
      → find q (objects ++ o ∷ []) ≡ (if q o then some o else none)
  find-snoc q o [] h = refl
  find-snoc q o (x ∷ objects) h = elim (Bool-cases (q x)) [
    | inl here ↦ absurd (ground arith)
    | inr there ↦ rw there (find-snoc q o objects (ground arith))
  ]

  find-snoc_aside :
      (q : ObjectRow → Bool) (o : ObjectRow) (objects : List ObjectRow)
      → q o ≡ false
      → find q (objects ++ o ∷ []) ≡ find q objects
  find-snoc_aside q o [] h = rw h
  find-snoc_aside q o (x ∷ objects) h = ground (arith, find-snoc_aside q o objects h)

  -- A row is added whose key has no current version yet.
  pub current-snoc :
      (o : ObjectRow) (objects : List ObjectRow)
      → of_key bucket key o ≡ true
      → current objects bucket key ≡ none
      → Agrees (current (objects ++ o ∷ [])) (
          with_current bucket key
            (if is_current bucket key o then some o else none)
            (current objects))
  unfolding current
  current-snoc o objects h absent b k = elim (Bool-cases (is_at bucket key b k)) [
    | inl here ↦
        let (e, f) = at_iff bucket b key k here in
        rw here (ground (arith, e, f, find-snoc (is_current bucket key) o objects absent))
    | inr there ↦
        rw there (find-snoc_aside (is_current b k) o objects (unseen bucket b key k there o h))
  ]

  -- The version that is made the latest is the current one.
  pub current-made :
      (n : ObjectRow) (objects : List ObjectRow)
      → AllPairs OtherId objects
      → NoLatest bucket key objects
      → In n objects
      → is_restorable bucket key n ≡ true
      → Agrees
          (current (set_latest (some n) objects))
          (with_current bucket key (some (as_latest n)) (current objects))
  unfolding current is_restorable
  current-made n objects ids none_yet i h b k = elim (Bool-cases (is_at bucket key b k)) [
    | inl here ↦
        let (e, f) = at_iff bucket b key k here in
        rw here (ground (arith, e, f, made_here n objects ids none_yet i h))
    | inr there ↦ rw there (made_aside b k there n objects ids i (ground arith))
  ]

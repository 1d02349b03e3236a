-- ===== src/Objects/Rows.antt =====
-- What the statements of internal/objects/service.go keep of the rows of the table objects.
use harbor_shield.Prelude.{
  ℕ, ◌≤◌, ◌≡◌, sym, ap, ◌∙◌, inl, inr, Bool, true, false, ◌&&◌, some, List, [], ◌∷◌, ◌++◌, any,
  keep, update, if◌then◌else◌, arith, Bool-cases, All, AllPairs, AllPairs-snoc, AllPairs-keep,
  AllPairs-update, All-imp, All-of_All, All-of_not_any, text_eq_symm, ==_iff, ◌==◌,
}
use harbor_shield.Prelude.Members.{In, In-keep, All-at}
use harbor_shield.Db.Errors.{ok}
use harbor_shield.Objects.Tables.{ObjectRow, ObjectTables, of_key}
use harbor_shield.Objects.Storing.{is_latest_of, may_insert}
use harbor_shield.Objects.Versions.{is_retained, check_unprotected}
use harbor_shield.Objects.Lifecycle.{is_expired}
use harbor_shield.Objects.Invariant.{
  OtherId, OtherLatest, IsProtected, IsSameVersion, Preserved, KeepsRow, Preserved-update,
  IsSameVersion-refl,
}

-- Two rows with the keys of two others, no more of them latest.
OtherLatest-weaken :
    (a b a' b' : ObjectRow)
    → IsSameVersion a a'
    → IsSameVersion b b'
    → (a'.is_latest ≡ true → a.is_latest ≡ true)
    → (b'.is_latest ≡ true → b.is_latest ≡ true)
    → OtherLatest a b
    → OtherLatest a' b'
unfolding of_key
OtherLatest-weaken a b a' b' h k f g apart x y =
    rw (h.bucket, h.key, k.bucket, k.key) (apart (f x) (g y))

module _ (horizon : ℕ) where
  -- An update after which no more rows are the latest.
  pub Preserved-no_latest :
      (p : ObjectRow → Bool) (f : ObjectRow → ObjectRow) (objects : List ObjectRow)
      → ((x : ObjectRow) → p x ≡ true → KeepsRow horizon f x)
      → ((x : ObjectRow) → (f x).is_latest ≡ true → x.is_latest ≡ true)
      → Preserved horizon objects (update p f objects)
  Preserved-no_latest p f objects h k = Preserved-update horizon p f objects h λ _ latest.
      AllPairs-update (λ _. Unit {0}) OtherLatest p f objects
        (λ x y _ _ apart. OtherLatest-weaken x y _ _ (same x) (same y) (fewer x) (fewer y) apart)
        (All-of_All (λ _. Unit {0}) objects (λ _. tt)) latest
    where
      same : (x : ObjectRow) → IsSameVersion x (if p x then f x else x)
      same x = elim (Bool-cases (p x)) [
        | inl here ↦ rw here (h x here).0
        | inr there ↦ rw there (IsSameVersion-refl x)
      ]

      fewer : (x : ObjectRow) → (if p x then f x else x).is_latest ≡ true → x.is_latest ≡ true
      fewer x = elim (Bool-cases (p x)) [ inl here ↦ rw here (k x) | inr there ↦ rw there (λ q. q) ]

  pub In-unique :
      (objects : List ObjectRow) (a b : ObjectRow)
      → AllPairs OtherId objects
      → In a objects
      → In b objects
      → a.id ≡ b.id
      → a ≡ b
  In-unique [] a b h i j e = elim i [ ]
  In-unique (x ∷ objects) a b h (inl i) (inl j) e = i ∙ sym j
  In-unique (x ∷ objects) a b h (inl i) (inr j) e =
      absurd (All-at (OtherId x) b objects h.0 j (ap (λ (o : ObjectRow). o.id) (sym i) ∙ e))
  In-unique (x ∷ objects) a b h (inr i) (inl j) e =
      absurd (All-at (OtherId x) a objects h.0 i (ap (λ (o : ObjectRow). o.id) (sym j) ∙ sym e))
  In-unique (x ∷ objects) a b h (inr i) (inr j) e = In-unique objects a b h.1 i j e

  In-snoc : (objects : List ObjectRow) (a o : ObjectRow) → In a objects → In a (objects ++ o ∷ [])
  In-snoc [] a o i = elim i [ ]
  In-snoc (x ∷ objects) a o (inl e) = inl e
  In-snoc (x ∷ objects) a o (inr i) = inr (In-snoc objects a o i)

  -- A deletion that drops no protected version.
  pub Preserved-keep :
      (q : ObjectRow → Bool) (objects : List ObjectRow)
      → (AllPairs OtherId objects
          → (o : ObjectRow) → In o objects
          → IsProtected horizon o
          → q o ≡ true)
      → Preserved horizon objects (keep q objects)
  Preserved-keep q objects h w = (
    record {
      ids = AllPairs-keep OtherId q objects w.ids;
      latest = AllPairs-keep OtherLatest q objects w.latest;
    },
    λ o i p. (o, In-keep q o objects i (h w.ids o i p), IsSameVersion-refl o, p),
  )

  OtherLatest-of_check :
      (y o : ObjectRow)
      → o.is_latest ≡ true
      → is_latest_of o.bucket o.key y ≡ false
      → OtherLatest y o
  unfolding is_latest_of of_key
  OtherLatest-of_check y o l h k _ = ground (arith, text_eq_symm o.key y.key)

  latest_snoc :
      (o : ObjectRow) (objects : List ObjectRow)
      → (o.is_latest && any (is_latest_of o.bucket o.key) objects) ≡ false
      → All (λ y. OtherLatest y o) objects
  latest_snoc o objects h = elim (Bool-cases o.is_latest) [
    | inl latest ↦
        All-imp _ _ objects (λ y. OtherLatest-of_check y o latest)
          (All-of_not_any (is_latest_of o.bucket o.key) objects (ground arith))
    | inr old ↦ All-of_All _ objects (λ y k l. absurd (cc))
  ]

  pub Preserved-insert :
      (o : ObjectRow) (t : ObjectTables)
      → may_insert o t ≡ true
      → Preserved horizon t.objects (t.objects ++ o ∷ [])
  unfolding may_insert
  Preserved-insert o t h w = (
    record {
      ids = AllPairs-snoc OtherId t.objects o w.ids (
          All-imp (λ (p : ObjectRow). (p.id == o.id) ≡ false) (λ p. OtherId p o) t.objects
            (λ p k. λ e. ground (arith, ==_iff p.id o.id))
            (All-of_not_any (λ (p : ObjectRow). p.id == o.id) t.objects (ground arith)));
      latest =
          AllPairs-snoc OtherLatest t.objects o w.latest (latest_snoc o t.objects (ground arith));
    },
    λ a i p. (a, In-snoc t.objects a o i, IsSameVersion-refl a, p),
  )

  not_both :
      (now : ℕ) (o : ObjectRow)
      → now ≤ horizon
      → o.legal_hold ≡ false
      → ((until : ℕ) → o.retention_until ≡ some until → until ≤ now)
      → IsProtected horizon o
      → ⊥
  not_both now o h free passed p = elim p.guarded [
    | inl held ↦ absurd (cc)
    | inr (until, e, far) ↦ let ended = passed until e in absurd (omega arith)
  ]

  pub unprotected :
      (now : ℕ) (o : ObjectRow)
      → now ≤ horizon
      → check_unprotected now o ≡ ok tt
      → IsProtected horizon o
      → ⊥
  unfolding check_unprotected is_retained
  unprotected now o h k = not_both now o h (ground arith) (λ until e. ground arith)

  pub not_expired :
      (now : ℕ) (o : ObjectRow)
      → now ≤ horizon
      → is_expired now o ≡ true
      → IsProtected horizon o
      → ⊥
  unfolding is_expired
  not_expired now o h k = not_both now o h (ground arith) (λ until e. ground arith)

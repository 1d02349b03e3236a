-- ===== src/Objects/Invariant.antt =====
-- What internal/objects/service.go keeps of its rows: one latest version of a key at most, and the
-- versions that a legal hold or a retention protects.
use harbor_shield.Prelude.{
  ℕ, ◌<◌, ◌≡◌, ◌≢◌, refl, sym, ap, ◌∙◌, ◌⊎◌, inl, inr, Bool, true, false, some, List, [], ◌∷◌,
  update, if◌then◌else◌, Bool-cases, AllPairs, AllPairs-update, All-of_All,
}
use harbor_shield.Prelude.Members.{In}
use harbor_shield.Db.Keeps.{IsPreorder}
use harbor_shield.Objects.Tables.{ObjectRow, ObjectTables, is_none, of_key}

-- The primary key.
abbrev pub OtherId : ObjectRow → ObjectRow → Type 0
OtherId a b = a.id ≢ b.id

-- Not both the latest version of one key.
abbrev pub OtherLatest : ObjectRow → ObjectRow → Type 0
OtherLatest a b = a.is_latest ≡ true → b.is_latest ≡ true → of_key a.bucket a.key b ≡ false

pub record IsWellFormed (objects : List ObjectRow) : Type 0 where
  pub ids : AllPairs OtherId objects
  pub latest : AllPairs OtherLatest objects

-- A version that is there, and held or retained past the horizon.
pub record IsProtected (horizon : ℕ) (o : ObjectRow) : Type 0 where
  pub present : is_none o.deleted_at ≡ true
  pub guarded :
      (o.legal_hold ≡ true) ⊎ ((until : ℕ) × (o.retention_until ≡ some until) × (horizon < until))

-- The same version with the same content. What may differ: whether it is the latest, its tags, the
-- store of its blob and the hold.
pub record IsSameVersion (a b : ObjectRow) : Type 0 where
  pub id : b.id ≡ a.id
  pub bucket : b.bucket ≡ a.bucket
  pub key : b.key ≡ a.key
  pub version_id : b.version_id ≡ a.version_id
  pub size_bytes : b.size_bytes ≡ a.size_bytes
  pub etag : b.etag ≡ a.etag
  pub content_type : b.content_type ≡ a.content_type
  pub user_metadata : b.user_metadata ≡ a.user_metadata
  pub storage_path : b.storage_path ≡ a.storage_path
  pub retention_until : b.retention_until ≡ a.retention_until

pub IsSameVersion-refl : (a : ObjectRow) → IsSameVersion a a
IsSameVersion-refl a = record {
  id = refl;
  bucket = refl;
  key = refl;
  version_id = refl;
  size_bytes = refl;
  etag = refl;
  content_type = refl;
  user_metadata = refl;
  storage_path = refl;
  retention_until = refl;
}

IsSameVersion-trans :
    (a b c : ObjectRow) → IsSameVersion a b → IsSameVersion b c → IsSameVersion a c
IsSameVersion-trans a b c h k = record {
  id = k.id ∙ h.id;
  bucket = k.bucket ∙ h.bucket;
  key = k.key ∙ h.key;
  version_id = k.version_id ∙ h.version_id;
  size_bytes = k.size_bytes ∙ h.size_bytes;
  etag = k.etag ∙ h.etag;
  content_type = k.content_type ∙ h.content_type;
  user_metadata = k.user_metadata ∙ h.user_metadata;
  storage_path = k.storage_path ∙ h.storage_path;
  retention_until = k.retention_until ∙ h.retention_until;
}

module _ (horizon : ℕ) where
  -- The version is still there, unchanged and protected.
  abbrev pub Survives : ObjectRow → List ObjectRow → Type 0
  Survives o objects =
      (o' : ObjectRow) × In o' objects × IsSameVersion o o' × IsProtected horizon o'

  abbrev pub KeepsProtected : List ObjectRow → List ObjectRow → Type 0
  KeepsProtected before after =
      (o : ObjectRow) → In o before → IsProtected horizon o → Survives o after

  abbrev pub Preserved : List ObjectRow → List ObjectRow → Type 0
  Preserved before after = IsWellFormed before → IsWellFormed after × KeepsProtected before after

  abbrev pub Preserves : ObjectTables → ObjectTables → Type 0
  Preserves s t = Preserved s.objects t.objects

  pub Preserved-refl : (objects : List ObjectRow) → Preserved objects objects
  Preserved-refl objects h = (h, λ o i p. (o, i, IsSameVersion-refl o, p))

  pub Preserved-trans : (a b c : List ObjectRow) → Preserved a b → Preserved b c → Preserved a c
  Preserved-trans a b c h k w =
      let first = h w in
      let second = k first.0 in
      (
        second.0,
        λ o i p.
            let (o', i', e', p') = first.1 o i p in
            let (o'', i'', e'', p'') = second.1 o' i' p' in
            (o'', i'', IsSameVersion-trans o o' o'' e' e'', p''),
      )

  pub Preserves-preorder : IsPreorder Preserves
  Preserves-preorder = record {
    reflexive = λ t. Preserved-refl t.objects;
    transitive = λ s t u. Preserved-trans s.objects t.objects u.objects;
  }

  pub In-update :
      (p : ObjectRow → Bool) (f : ObjectRow → ObjectRow) (o : ObjectRow) (objects : List ObjectRow)
      → In o objects
      → In (if p o then f o else o) (update p f objects)
  In-update p f o [] i = i
  In-update p f o (x ∷ objects) (inl e) = inl (ap (λ (y : ObjectRow). if p y then f y else y) e)
  In-update p f o (x ∷ objects) (inr i) = inr (In-update p f o objects i)

  -- A change of a row that keeps its version and its protection.
  abbrev pub KeepsRow : (ObjectRow → ObjectRow) → ObjectRow → Type 0
  KeepsRow f o = IsSameVersion o (f o) × (IsProtected horizon o → IsProtected horizon (f o))

  changed_row :
      (p : ObjectRow → Bool) (f : ObjectRow → ObjectRow) (o : ObjectRow)
      → ((x : ObjectRow) → p x ≡ true → KeepsRow f x)
      → KeepsRow (λ x. if p x then f x else x) o
  changed_row p f o h = elim (Bool-cases (p o)) [
    | inl here ↦ rw here (h o here)
    | inr there ↦ rw there (IsSameVersion-refl o, λ q. q)
  ]

  -- An update under which the latest versions stay apart.
  pub Preserved-update :
      (p : ObjectRow → Bool) (f : ObjectRow → ObjectRow) (objects : List ObjectRow)
      → ((x : ObjectRow) → p x ≡ true → KeepsRow f x)
      → (AllPairs OtherId objects
          → AllPairs OtherLatest objects
          → AllPairs OtherLatest (update p f objects))
      → Preserved objects (update p f objects)
  Preserved-update p f objects h k w = (
    record {
      ids =
          AllPairs-update (λ _. Unit {0}) OtherId p f objects
            (λ x y _ _ apart same.
              apart (sym (changed_row p f x h).0.id ∙ same ∙ (changed_row p f y h).0.id))
            (All-of_All (λ _. Unit {0}) objects (λ _. tt)) w.ids;
      latest = k w.ids w.latest;
    },
    λ o i q. (
      (if p o then f o else o),
      In-update p f o objects i,
      (changed_row p f o h).0,
      (changed_row p f o h).1 q,
    ),
  )

-- ===== src/Policies/Bindings/Upsert.antt =====
-- UpsertBinding: one role for each subject and scope.
use mathlib.Core.Path.{subst}
use harbor_shield.Prelude.{
  ◌≡◌, refl, sym, inl, inr, Bool, true, false, ◌&&◌, Option, none, some, List, [], ◌∷◌, ◌++◌, arith,
  Text, text_eq, text_eq_iff, any, find, update, AllPairs, AllPairs-snoc, AllPairs-update,
  All-of_All, All-of_not_any, Bool-cases, if◌then◌else◌,
}
use harbor_shield.Db.Errors.{Result, ok, err}
use harbor_shield.Db.Triples.{
  Triple, Always, Holds-const, Triple-bind, Triple-lift, Triple-statement, Reads-bind,
}
use harbor_shield.Policies.Tables.{Tables, SubjectBinding, role_exists, same_scope}
use harbor_shield.Policies.Statements.Protected.{ensure_role_exists-Reads}
use harbor_shield.Policies.Bindings.{
  upsert_binding_row, upserted, set_role, upsert_binding, validate_binding_input,
}

-- The role that a subject has at a scope.
module _ (subject_type subject_id resource : Text) where
  pub role_at : List SubjectBinding → Option Text
  role_at [] = none
  role_at (b ∷ bs) =
      if same_scope subject_type subject_id resource b then some b.role_name else role_at bs

-- No two bindings are for one subject and scope.
abbrev pub DifferentScopes : SubjectBinding → SubjectBinding → Type 0
DifferentScopes a b = same_scope b.subject_type b.subject_id b.resource a ≡ false

abbrev pub is_scope : Text → Text → Text → Text → Text → Text → Bool
is_scope st sid res st' sid' res' = text_eq st st' && (text_eq sid sid' && text_eq res res')

scope_of_same :
    (st sid res st' sid' res' : Text) (b : SubjectBinding)
    → same_scope st sid res b ≡ true
    → same_scope st' sid' res' b ≡ is_scope st sid res st' sid' res'
unfolding same_scope
scope_of_same st sid res st' sid' res' b h =
    let a : b.subject_type ≡ st = (text_eq_iff b.subject_type st).0 (ground arith) in
    let c : b.subject_id ≡ sid = (text_eq_iff b.subject_id sid).0 (ground arith) in
    let d : b.resource ≡ res = (text_eq_iff b.resource res).0 (ground arith) in rw (a, c, d)

same_of_scope :
    (st sid res st' sid' res' : Text) (b : SubjectBinding)
    → is_scope st sid res st' sid' res' ≡ true
    → same_scope st' sid' res' b ≡ same_scope st sid res b
same_of_scope st sid res st' sid' res' b h =
    let a : st ≡ st' = (text_eq_iff st st').0 (ground arith) in
    let c : sid ≡ sid' = (text_eq_iff sid sid').0 (ground arith) in
    let d : res ≡ res' = (text_eq_iff res res').0 (ground arith) in rw (a, c, d)

own_scope :
    (b : SubjectBinding) (st sid res : Text)
    → same_scope st sid res b ≡ is_scope b.subject_type b.subject_id b.resource st sid res
unfolding same_scope
own_scope b st sid res = refl

module _ (subject_type subject_id resource role : Text) where
  abbrev here : SubjectBinding → Bool
  here b = same_scope subject_type subject_id resource b

  abbrev changed : SubjectBinding → SubjectBinding
  changed b = if here b then set_role role b else b

  changed_scope :
      (st sid res : Text) (b : SubjectBinding)
      → same_scope st sid res (changed b) ≡ same_scope st sid res b
  unfolding same_scope
  changed_scope st sid res b = ground arith

  role_at-update :
      (bs : List SubjectBinding) (st sid res : Text)
      → role_at st sid res (update here (set_role role) bs) ≡ (
          if is_scope subject_type subject_id resource st sid res && any here bs
          then some role
          else role_at st sid res bs)
  unfolding role_at any
  role_at-update [] st sid res = ground arith
  role_at-update (b ∷ bs) st sid res = rw changed_scope (
      ground (
        arith,
        role_at-update bs st sid res,
        scope_of_same subject_type subject_id resource st sid res b,
        same_of_scope subject_type subject_id resource st sid res b,
      ))

  role_at-snoc :
      (bs : List SubjectBinding) (row : SubjectBinding) (st sid res : Text)
      → row.subject_type ≡ subject_type
      → row.subject_id ≡ subject_id
      → row.resource ≡ resource
      → row.role_name ≡ role
      → any here bs ≡ false
      → role_at st sid res (bs ++ row ∷ []) ≡ (
          if is_scope subject_type subject_id resource st sid res
          then some role
          else role_at st sid res bs)
  unfolding role_at any
  role_at-snoc [] row st sid res a c d e h = rw (← a, ← c, ← d, ← e) (rw own_scope)
  role_at-snoc (b ∷ bs) row st sid res a c d e h = ground (
    arith,
    role_at-snoc bs row st sid res a c d e,
    same_of_scope subject_type subject_id resource st sid res b,
  )

  upsert_row-role_at :
      (t : Tables) (st sid res : Text)
      → role_exists t role ≡ true
      → role_at st sid res (upsert_binding_row subject_type subject_id resource role t).1.bindings
        ≡ (if is_scope subject_type subject_id resource st sid res
            then some role
            else role_at st sid res t.bindings)
  unfolding upsert_binding_row
  upsert_row-role_at t st sid res known = elim (Bool-cases (any here t.bindings)) [
    | inl conflict ↦ rw (known, conflict) (ground (arith, role_at-update t.bindings st sid res))
    | inr free ↦ rw (known, free) (role_at-snoc t.bindings _ st sid res refl refl refl refl free)
  ]

  changed-DifferentScopes :
      (a b : SubjectBinding) → DifferentScopes a b → DifferentScopes (changed a) (changed b)
  unfolding same_scope
  changed-DifferentScopes a b h = ground arith

  upsert_row-distinct :
      (t : Tables)
      → role_exists t role ≡ true
      → AllPairs DifferentScopes t.bindings
      → AllPairs DifferentScopes
          (upsert_binding_row subject_type subject_id resource role t).1.bindings
  unfolding upsert_binding_row
  upsert_row-distinct t known h = elim (Bool-cases (any here t.bindings)) [
    | inl conflict ↦
        rw (known, conflict)
          (AllPairs-update (λ _. Unit {0}) DifferentScopes here (set_role role) t.bindings
            (λ a b _ _ d. changed-DifferentScopes a b d)
            (All-of_All (λ _. Unit {0}) t.bindings (λ _. tt)) h)
    | inr free ↦
        rw (known, free)
          (AllPairs-snoc DifferentScopes t.bindings _ h (All-of_not_any here t.bindings free))
  ]

  upserted-role :
      (row : SubjectBinding) (found : Option SubjectBinding)
      → row.role_name ≡ role
      → (upserted role row found).role_name ≡ role
  unfolding upserted
  upserted-role row none h = h
  upserted-role row (some b) h = refl

  -- What UpsertBinding leaves: on success the returned binding has the role, the subject has it at
  -- the scope, and its roles at all other scopes and those of all other subjects are what they were;
  -- on an error nothing is written.
  abbrev pub Upserted : Tables → Result SubjectBinding → Tables → Type 0
  Upserted t (err e) t' = t' ≡ t
  Upserted t (ok b) t' =
      (b.role_name ≡ role)
      × ((st sid res : Text)
          → role_at st sid res t'.bindings ≡ (
              if is_scope subject_type subject_id resource st sid res
              then some role
              else role_at st sid res t.bindings))
      × (AllPairs DifferentScopes t.bindings → AllPairs DifferentScopes t'.bindings)

  abbrev new_binding : Tables → SubjectBinding
  new_binding t = record {
    id = t.next_id;
    subject_type = subject_type;
    subject_id = subject_id;
    resource = resource;
    role_name = role;
    created_at = t.now;
  }

  upsert_row-result :
      (t : Tables)
      → role_exists t role ≡ true
      → (upsert_binding_row subject_type subject_id resource role t).0
        ≡ ok (upserted role (new_binding t) (find here t.bindings))
  unfolding upsert_binding_row
  upsert_row-result t known = rw known

  upsert_row-Upserted :
      (t : Tables)
      → role_exists t role ≡ true
      → Upserted t
          (upsert_binding_row subject_type subject_id resource role t).0
          (upsert_binding_row subject_type subject_id resource role t).1
  upsert_row-Upserted t known =
      subst
        (λ (r : Result SubjectBinding).
          Upserted t r (upsert_binding_row subject_type subject_id resource role t).1)
        (sym (upsert_row-result t known))
        (
          upserted-role (new_binding t) (find here t.bindings) refl,
          (λ st sid res. upsert_row-role_at t st sid res known),
          upsert_row-distinct t known,
        )

  -- Whatever the driver does, UpsertBinding leaves what `Upserted` says.
  pub upsert_binding-Upserted :
      Triple Always Upserted (upsert_binding subject_type subject_id resource role)
  unfolding upsert_binding validate_binding_input
  upsert_binding-Upserted =
      Triple-bind {P = λ t _. role_exists t role ≡ true} _ _
        (Reads-bind _ _ (ensure_role_exists-Reads role)
          λ _. Triple-lift _ (λ t p. (refl, Holds-const (λ s. role_exists s role ≡ true) t _ p.1)))
        (λ t e p. refl) λ _. Triple-statement _ (λ t p. refl) (λ t p. upsert_row-Upserted t p.1)

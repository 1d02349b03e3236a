-- ===== src/Policies/Bindings.antt =====
-- The subject bindings of internal/policies/service.go: which roles a subject has on a resource.
-- ORDER BY is by code points.
pub mod Scopes
pub mod Upsert
use harbor_shield.Prelude.{
  ℕ, ◌+◌, Bool, true, false, ◌&&◌, ◌||◌, not, Option, none, some, List, [], ◌∷◌, ◌++◌, map, Text,
  codes, text_eq, text_le, trim_space, any, keep, find, update, order_by, ◌==◌, ltb, if◌then◌else◌,
}
use harbor_shield.Db.{Action, pure, raise, lift, statement, query, ◌>>=◌, ◌>>◌}
use harbor_shield.Db.Errors.{
  Result, ok, err, database, invalid_subject_id, invalid_resource, invalid_subject_type,
  binding_not_found,
}
use harbor_shield.Policies.Patterns.{star, match}
use harbor_shield.Policies.Tables.{Tables, SubjectBinding, role_exists, same_scope}
use harbor_shield.Policies.Statements.{is_bad_pattern, ensure_role_exists}

unfoldable pub validate_binding_fields : Text → Text → Text → Result (Unit {0})
validate_binding_fields subject_type subject_id resource =
    if text_eq (trim_space subject_id) []
    then err invalid_subject_id
    else if is_bad_pattern resource
    then err invalid_resource
    else if text_eq subject_type (codes "user")
        || (text_eq subject_type (codes "credential") || text_eq subject_type (codes "admin_token"))
    then ok tt
    else err invalid_subject_type

unfoldable pub validate_binding_input : Text → Text → Text → Text → Action Tables (Unit {0})
validate_binding_input subject_type subject_id resource role = do
  ensure_role_exists role
  lift (validate_binding_fields subject_type subject_id resource)

unfoldable pub binding_matches_resource : Text → Text → Bool
binding_matches_resource pattern resource = match pattern resource

abbrev set_role : Text → SubjectBinding → SubjectBinding
set_role role b = record b { role_name = role }

-- The row that RETURNING gives: the one in conflict, with its new role, or the inserted one.
upserted : Text → SubjectBinding → Option SubjectBinding → SubjectBinding
upserted role row none = row
upserted role row (some b) = set_role role b

-- INSERT INTO subject_role_bindings … ON CONFLICT … DO UPDATE SET role_name … RETURNING
unfoldable pub upsert_binding_row :
    Text → Text → Text → Text → Tables → Result SubjectBinding × Tables
unfolding upserted
upsert_binding_row subject_type subject_id resource role t =
    let same = same_scope subject_type subject_id resource in
    let row : SubjectBinding = record {
      id = t.next_id;
      subject_type = subject_type;
      subject_id = subject_id;
      resource = resource;
      role_name = role;
      created_at = t.now;
    } in
    if not (role_exists t role) then (err database, t) else (
      ok (upserted role row (find same t.bindings)),
      if any same t.bindings
          then record t { bindings = update same (set_role role) t.bindings }
          else record t { bindings = t.bindings ++ row ∷ []; next_id = t.next_id + 1 },
    )

unfoldable pub upsert_binding : Text → Text → Text → Text → Action Tables SubjectBinding
upsert_binding subject_type subject_id resource role = do
  validate_binding_input subject_type subject_id resource role
  statement (upsert_binding_row subject_type subject_id resource role)

abbrev has_id : ℕ → SubjectBinding → Bool
has_id id b = b.id == id

unfoldable pub delete_binding_row : ℕ → Tables → Result Bool × Tables
delete_binding_row id t = (
  ok (any (has_id id) t.bindings),
  record t { bindings = keep (λ b. not (has_id id b)) t.bindings },
)

unfoldable pub delete_binding : ℕ → Action Tables (Unit {0})
delete_binding id = do
  affected ← statement (delete_binding_row id)
  if not affected then raise binding_not_found else pure tt

-- ORDER BY created_at DESC, resource ASC
unfoldable pub newest_first : SubjectBinding → SubjectBinding → Bool
newest_first a b =
    if a.created_at == b.created_at
    then text_le a.resource b.resource
    else ltb b.created_at a.created_at

unfoldable pub list_bindings : Action Tables (List SubjectBinding)
list_bindings = query (λ t. ok (order_by newest_first t.bindings))

-- ORDER BY CASE WHEN resource = '*' THEN 1 ELSE 0 END, resource ASC
unfoldable pub scoped_first : SubjectBinding → SubjectBinding → Bool
scoped_first a b =
    let wild_a = text_eq a.resource star in
    let wild_b = text_eq b.resource star in
    if wild_a && not wild_b
    then false
    else if not wild_a && wild_b
    then true
    else text_le a.resource b.resource

-- The rows of rolesForSubjectResource: those of the subject, sorted, that match the resource.
unfoldable pub matching_bindings : Tables → Text → Text → Text → List SubjectBinding
matching_bindings t subject_type subject_id resource =
    keep (λ b. binding_matches_resource b.resource resource)
      (order_by scoped_first (
        keep (λ b. text_eq b.subject_type subject_type && text_eq b.subject_id subject_id)
          t.bindings))

abbrev pub role_of : SubjectBinding → Text
role_of b = b.role_name

unfoldable pub roles_for_subject_resource : Text → Text → Text → Action Tables (List Text)
roles_for_subject_resource subject_type subject_id resource =
    if text_eq subject_type [] || text_eq subject_id []
    then pure []
    else query (λ t. ok (map role_of (matching_bindings t subject_type subject_id resource)))

abbrev pub first_or : Text → List Text → Text
first_or fallback [] = fallback
first_or fallback (role ∷ roles) = role

unfoldable pub resolve_role : Text → Text → Text → Text → Action Tables Text
resolve_role subject_type subject_id fallback resource = do
  roles ← roles_for_subject_resource subject_type subject_id resource
  pure (first_or fallback roles)

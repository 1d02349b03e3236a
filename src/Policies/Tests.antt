-- ===== src/Policies/Tests.antt =====
-- Concrete roles, statements and bindings, and the policy service run on them.
use mathlib.Core.List.{Permᴰ}
use harbor_shield.Prelude.{
  ◌≡◌, ◌↔◌, refl, inl, inr, Bool, true, false, not, ◌&&◌, ◌||◌, List, [], ◌∷◌, map, keep, arith,
  Text, codes, text_eq, any, trim_space, trim_left, is_space, contains_any, equal_fold, fold,
  has_suffix, has_prefix, trim_suffix, order_by, insert_by, text_le,
}
use harbor_shield.Db.{calm, pure, lift, statement, query, ◌>>=◌}
use harbor_shield.Db.Errors.{ok}
use harbor_shield.Db.Triples.{Triple, Reads, Always}
use harbor_shield.Policies.Patterns.{match, Matches, match_iff}
use harbor_shield.Policies.Evaluation.{
  Statement, StatementRecord, as_statement, skipped, evaluate_from, evaluate, scan_step, scan_from,
  evaluate_role_statements,
}
use harbor_shield.Policies.Evaluation.DenyWins.{allows, denies, evaluate_decides, evaluate-perm}
use harbor_shield.Policies.Evaluation.Agreement.{
  applies, applies_and_allows, applies_and_denies, evaluate_role_statements_lem, evaluate-eq-trace,
}
use harbor_shield.Policies.Tables.{Tables, SubjectBinding, RoleRow, role_exists, same_statement}
use harbor_shield.Policies.Statements.{
  is_bad_pattern, statement_le, statements_of_role, list_statements_for_role,
  validate_action_resource_effect,
}
use harbor_shield.Policies.Statements.WellFormed.{IsWellFormed, IsGuarded}
use harbor_shield.Policies.Statements.Protected.{StatementCall, perform_all, perform_all-IsGuarded}
use harbor_shield.Policies.Bindings.{
  matching_bindings, binding_matches_resource, scoped_first, newest_first, list_bindings,
  validate_binding_fields, roles_for_subject_resource, resolve_role, upsert_binding,
}
use harbor_shield.Policies.Bindings.Scopes.{is_wild}
use harbor_shield.Policies.Bindings.Upsert.{Upserted, upsert_binding-Upserted}
use harbor_shield.Policies.Authorize.{
  authorize_statements, authorize_role, authorize_bound, authorize_subject,
}
use harbor_shield.Policies.Authorize.Subjects.{
  bound_roles, IsDecision, authorize_subject-Reads, authorize_subject_decides,
}
use harbor_shield.Policies.Authorize.Preference.{resolve_role-prefers_scope}
use harbor_shield.Policies.Explain.{
  EvaluationResult, trace_of, trace_role, by_fallback, explain_bound, explain_subject_authorization,
}
use harbor_shield.Policies.Explain.Verdict.{
  IsExplanation, only_fallback_grants, explain_subject_authorization-Reads,
  explain-eq-authorize_iff,
}

abbrev get_object : Text
get_object = codes "object.get"

abbrev secret : Text
secret = codes "b/secret/x"

abbrev read_all : StatementRecord
read_all = record {
  id = 0;
  role_name = codes "reader";
  action = codes "object.*";
  resource = codes "b/*";
  effect = codes "Allow";
  conditions = [];
}

abbrev deny_secret : StatementRecord
deny_secret = record {
  id = 1;
  role_name = codes "reader";
  action = codes "object.get";
  resource = codes "b/secret/*";
  effect = codes "deny";
  conditions = [];
}

abbrev admin_all : StatementRecord
admin_all = record {
  id = 2;
  role_name = codes "admin";
  action = codes "*";
  resource = codes "*";
  effect = codes "allow";
  conditions = [];
}

abbrev role : Text → RoleRow
role name = record { name = name; description = []; builtin = true }

abbrev reader_of_b : SubjectBinding
reader_of_b = record {
  id = 3;
  subject_type = codes "user";
  subject_id = codes "7";
  resource = codes "b/*";
  role_name = codes "reader";
  created_at = 0;
}

abbrev admin_anywhere : SubjectBinding
admin_anywhere = record {
  id = 4;
  subject_type = codes "user";
  subject_id = codes "8";
  resource = codes "*";
  role_name = codes "admin";
  created_at = 1;
}

abbrev tables : Tables
tables = record {
  roles = role (codes "reader") ∷ role (codes "admin") ∷ role (codes "superadmin") ∷ [];
  statements = read_all ∷ deny_secret ∷ admin_all ∷ [];
  bindings = reader_of_b ∷ admin_anywhere ∷ [];
  next_id = 5;
  now = 2;
}

abbrev of_reader : List Statement
of_reader = map (as_statement (codes "reader")) (read_all ∷ deny_secret ∷ [])

reader_gets : evaluate of_reader (codes "reader") get_object (codes "b/x") ≡ true
unfolding evaluate evaluate_from skipped as_statement match text_eq has_suffix has_prefix
    trim_suffix equal_fold fold
reader_gets = refl

reader_denied : evaluate of_reader (codes "reader") get_object secret ≡ false
unfolding evaluate evaluate_from skipped as_statement match text_eq has_suffix has_prefix
    trim_suffix equal_fold fold
reader_denied = refl

match_iff_example : (match (codes "b/*") (codes "b/x") ≡ true) ↔ Matches (codes "b/*") (codes "b/x")
match_iff_example = match_iff (codes "b/*") (codes "b/x")

evaluate_decides_example : evaluate of_reader (codes "reader") get_object secret ≡ (
    any (allows (codes "reader") get_object secret) of_reader
    && not (any (denies (codes "reader") get_object secret) of_reader))
evaluate_decides_example = evaluate_decides (codes "reader") get_object secret of_reader

evaluate_role_statements_example :
    evaluate_role_statements (read_all ∷ deny_secret ∷ []) get_object secret ≡ (
      any (applies_and_allows get_object secret) (read_all ∷ deny_secret ∷ [])
          && not (any (applies_and_denies get_object secret) (read_all ∷ deny_secret ∷ [])),
      any (applies_and_denies get_object secret) (read_all ∷ deny_secret ∷ []),
      keep (applies get_object secret) (read_all ∷ deny_secret ∷ []),
    )
evaluate_role_statements_example =
    evaluate_role_statements_lem get_object secret (read_all ∷ deny_secret ∷ [])

evaluate-eq-trace_example :
    evaluate of_reader (codes "reader") get_object secret
    ≡ (evaluate_role_statements (read_all ∷ deny_secret ∷ []) get_object secret).0
evaluate-eq-trace_example =
    evaluate-eq-trace (codes "reader") get_object secret (read_all ∷ deny_secret ∷ [])

tables-IsWellFormed : IsWellFormed tables
unfolding is_bad_pattern trim_space trim_left is_space contains_any text_eq equal_fold fold
    role_exists any same_statement
tables-IsWellFormed = record {
  rows = (
    record { action = refl; resource = refl; effect = inl refl; role = refl },
    (
      record { action = refl; resource = refl; effect = inr refl; role = refl },
      (record { action = refl; resource = refl; effect = inl refl; role = refl }, tt),
    ),
  );
  distinct = ((((λ e. cc), refl), (((λ e. cc), refl), tt)), ((((λ e. cc), refl), tt), (tt, tt)));
  fresh = (omega arith, (omega arith, (omega arith, tt)));
}

abbrev calls : List StatementCall
calls =
    StatementCall.create (codes "superadmin") (codes "*") (codes "*") (codes "deny") []
    ∷ StatementCall.update 1 get_object (codes "b/*") (codes "allow") []
    ∷ StatementCall.delete 0
    ∷ []

perform_all-IsGuarded_example : IsGuarded tables (perform_all (calm tables) calls).tables
perform_all-IsGuarded_example = perform_all-IsGuarded (calm tables) calls tables-IsWellFormed

upsert_binding-Upserted_example :
    Triple Always
      (Upserted (codes "user") (codes "7") (codes "b/*") (codes "admin"))
      (upsert_binding (codes "user") (codes "7") (codes "b/*") (codes "admin"))
upsert_binding-Upserted_example =
    upsert_binding-Upserted (codes "user") (codes "7") (codes "b/*") (codes "admin")

authorize_subject-Reads_example :
    Reads Always
      (λ t d.
        IsDecision t
          (bound_roles t (codes "user") (codes "7") secret)
          (codes "admin")
          get_object
          secret
          d)
      (authorize_subject (codes "user") (codes "7") (codes "admin") get_object secret)
authorize_subject-Reads_example =
    authorize_subject-Reads (codes "user") (codes "7") (codes "admin") get_object secret

authorize_subject_decides_example :
    (d : Bool × Text) × (authorize_subject
        (codes "user")
        (codes "7")
        (codes "admin")
        get_object
        secret
        (calm tables)
      ≡ (ok d, calm tables))
    × IsDecision tables
        (bound_roles tables (codes "user") (codes "7") secret)
        (codes "admin")
        get_object
        secret
        d
authorize_subject_decides_example =
    authorize_subject_decides (codes "user") (codes "7") (codes "admin") get_object secret tables

explain_subject_authorization-Reads_example :
    Reads Always
      (λ t e.
        IsExplanation t
          (bound_roles t (codes "user") (codes "7") secret)
          (codes "admin")
          get_object
          secret
          e)
      (explain_subject_authorization (codes "user") (codes "7") (codes "admin") get_object secret)
explain_subject_authorization-Reads_example =
    explain_subject_authorization-Reads (codes "user") (codes "7") (codes "admin") get_object secret

abbrev explained : EvaluationResult
explained = record {
  subject_type = codes "user";
  subject_id = codes "7";
  action = get_object;
  resource = secret;
  fallback_role = codes "admin";
  effective_role = codes "admin";
  allowed = true;
  reason = codes "allowed_by_fallback_role";
  bindings = reader_of_b ∷ [];
  traces =
      (record {
        role = codes "reader";
        allowed = false;
        explicit_deny = true;
        matched_scopes = reader_of_b ∷ [];
        statements = read_all ∷ deny_secret ∷ [];
      })
      ∷ (record {
        role = codes "admin";
        allowed = true;
        explicit_deny = false;
        matched_scopes = [];
        statements = admin_all ∷ [];
      })
      ∷ [];
}

-- The explanation allows, by the fallback role.
explained_allows :
    (explain_subject_authorization
      (codes "user")
      (codes "7")
      (codes "admin")
      get_object
      secret
      (calm tables)).0
    ≡ ok explained
unfolding explain_subject_authorization explain_bound trace_role trace_of by_fallback list_bindings
    newest_first list_statements_for_role statements_of_role statement_le evaluate_role_statements
    scan_from scan_step match roles_for_subject_resource matching_bindings binding_matches_resource
    scoped_first validate_action_resource_effect validate_binding_fields is_bad_pattern order_by
    insert_by text_le text_eq trim_space trim_left is_space contains_any equal_fold fold has_suffix
    has_prefix trim_suffix lift query statement pure ◌>>=◌
explained_allows = refl

-- The decision is to deny.
authorized_denies :
    (authorize_subject (codes "user") (codes "7") (codes "admin") get_object secret (calm tables)).0
    ≡ ok (false, codes "reader")
unfolding authorize_subject authorize_bound authorize_role authorize_statements resolve_role
    list_statements_for_role statements_of_role statement_le evaluate evaluate_from skipped
    as_statement match roles_for_subject_resource matching_bindings binding_matches_resource
    scoped_first order_by insert_by text_le text_eq equal_fold fold has_suffix has_prefix
    trim_suffix query statement pure ◌>>=◌
authorized_denies = refl

explain-eq-authorize_example : (false ≡ explained.allowed) ↔ (
    only_fallback_grants (codes "user") (codes "7") (codes "admin") get_object secret tables
    ≡ false)
explain-eq-authorize_example =
    explain-eq-authorize_iff (codes "user") (codes "7") (codes "admin") get_object secret
      (calm tables) (false, codes "reader") explained authorized_denies explained_allows

evaluate-perm_example :
    evaluate of_reader (codes "reader") get_object secret
    ≡ evaluate
        (map (as_statement (codes "reader")) (deny_secret ∷ read_all ∷ []))
        (codes "reader")
        get_object
        secret
evaluate-perm_example =
    evaluate-perm (codes "reader") get_object secret of_reader
      (map (as_statement (codes "reader")) (deny_secret ∷ read_all ∷ [])) ∣ Permᴰ.swap refl refl ∣₁

abbrev both_scopes : Tables
both_scopes = record tables {
  bindings = (record admin_anywhere { subject_id = codes "7" }) ∷ reader_of_b ∷ [];
}

resolves_to_reader :
    (resolve_role (codes "user") (codes "7") (codes "admin") secret (calm both_scopes)).0
    ≡ ok (codes "reader")
unfolding resolve_role roles_for_subject_resource matching_bindings binding_matches_resource
    scoped_first order_by insert_by text_le text_eq match has_suffix has_prefix trim_suffix query
    statement pure ◌>>=◌
resolves_to_reader = refl

has_scoped :
    any (λ b. not (is_wild b)) (matching_bindings both_scopes (codes "user") (codes "7") secret)
    ≡ true
unfolding matching_bindings binding_matches_resource scoped_first order_by insert_by any text_le
    text_eq match has_suffix has_prefix trim_suffix
has_scoped = refl

is_named_subject : (text_eq (codes "user") [] || text_eq (codes "7") []) ≡ false
unfolding text_eq
is_named_subject = refl

resolve_role-prefers_scope_example :
    (b : SubjectBinding) × (is_wild b ≡ false)
    × (codes "reader" ≡ b.role_name)
    × (any
          (λ c. text_eq c.resource b.resource && text_eq c.role_name b.role_name)
          (matching_bindings both_scopes (codes "user") (codes "7") secret)
        ≡ true)
resolve_role-prefers_scope_example =
    resolve_role-prefers_scope (codes "user") (codes "7") (codes "admin") secret (calm both_scopes)
      (codes "reader") is_named_subject has_scoped resolves_to_reader

-- ===== src/Policies/Statements.antt =====
-- The role statements of internal/policies/service.go: validation, creation, update, deletion.
--
-- Conditions go to the database and back as a JSON object of texts, which gives the same map, so
-- normalizeConditions and decodeConditions are the identity here. ORDER BY is by code points.
pub mod Protected
pub mod WellFormed
pub mod Changes
use harbor_shield.Prelude.{
  ℕ, ◌+◌, Bool, true, false, ◌&&◌, ◌||◌, not, Option, none, some, List, [], ◌∷◌, ◌++◌, Text, codes,
  text_eq, text_le, trim_space, contains_any, equal_fold, any, keep, find, update, order_by, ◌==◌,
  is_empty, if◌then◌else◌,
}
use harbor_shield.Db.{Action, pure, raise, lift, statement, query, ◌>>=◌, ◌>>◌, attempt}
use harbor_shield.Db.Errors.{
  Error, Result, ok, err, database, no_rows, invalid_role_name, invalid_action, invalid_resource,
  invalid_effect, protected_role_statement, statement_not_found,
}
use harbor_shield.Policies.Evaluation.{StatementRecord}
use harbor_shield.Policies.Tables.{RoleRow, Tables, role_exists, same_statement}

abbrev pub superadmin : Text
superadmin = codes "superadmin"

-- strings.TrimSpace(s) == "" || strings.ContainsAny(s, " \t\r\n")
unfoldable pub is_bad_pattern : Text → Bool
is_bad_pattern s = text_eq (trim_space s) [] || contains_any s (32 ∷ 9 ∷ 13 ∷ 10 ∷ [])

unfoldable pub validate_action_resource_effect : Text → Text → Text → Result (Unit {0})
validate_action_resource_effect action resource effect =
    if is_bad_pattern action
    then err invalid_action
    else if is_bad_pattern resource
    then err invalid_resource
    else if not (equal_fold effect (codes "allow")) && not (equal_fold effect (codes "deny"))
    then err invalid_effect
    else ok tt

unfoldable pub ensure_role_exists : Text → Action Tables (Unit {0})
ensure_role_exists role = do
  exists ← query (λ t. ok (role_exists t role))
  if not exists then raise invalid_role_name else pure tt

unfoldable pub validate_statement_input : Text → Text → Text → Text → Action Tables (Unit {0})
validate_statement_input role action resource effect = do
  ensure_role_exists role
  lift (validate_action_resource_effect action resource effect)
  if text_eq role superadmin then raise protected_role_statement else pure tt

-- ORDER BY action, resource
unfoldable pub statement_le : StatementRecord → StatementRecord → Bool
statement_le a b =
    if text_eq a.action b.action then text_le a.resource b.resource else text_le a.action b.action

unfoldable pub statements_of_role : Tables → Text → List StatementRecord
statements_of_role t role =
    order_by statement_le (keep (λ stmt. text_eq stmt.role_name role) t.statements)

unfoldable pub list_statements_for_role : Text → Action Tables (List StatementRecord)
list_statements_for_role role = query (λ t. ok (statements_of_role t role))

pub record Role : Type 0 where
  pub name : Text
  pub description : Text
  pub builtin : Bool
  pub statements : List StatementRecord

-- The loop over the rows: the statements of each role are a query of their own.
unfoldable pub with_statements : List RoleRow → Action Tables (List Role)
with_statements [] = pure []
with_statements (row ∷ rows) = do
  statements ← list_statements_for_role row.name
  rest ← with_statements rows
  pure (
      (record {
        name = row.name;
        description = row.description;
        builtin = row.builtin;
        statements = statements;
      })
      ∷ rest)

unfoldable pub list_roles : Action Tables (List Role)
list_roles = do
  rows ← query (λ t. ok (order_by (λ a b. text_le a.name b.name) t.roles))
  with_statements rows

-- INSERT INTO role_policy_statements … RETURNING
unfoldable pub insert_statement :
    Text → Text → Text → Text → List (Text × Text) → Tables → Result StatementRecord × Tables
insert_statement role action resource effect conditions t =
    let row : StatementRecord = record {
      id = t.next_id;
      role_name = role;
      action = action;
      resource = resource;
      effect = effect;
      conditions = conditions;
    } in
    if not (role_exists t role) || any (same_statement role action resource effect) t.statements
    then (err database, t)
    else (ok row, record t { statements = t.statements ++ row ∷ []; next_id = t.next_id + 1 })

unfoldable pub create_statement :
    Text → Text → Text → Text → List (Text × Text) → Action Tables StatementRecord
create_statement role action resource effect conditions = do
  validate_statement_input role action resource effect
  statement (insert_statement role action resource effect conditions)

abbrev has_id : ℕ → StatementRecord → Bool
has_id id stmt = stmt.id == id

abbrev role_of : Option StatementRecord → Result Text
role_of none = err no_rows
role_of (some stmt) = ok stmt.role_name

-- Any error of the driver reads as ErrStatementNotFound.
abbrev or_not_found : Result Text → Action Tables Text
or_not_found (ok role) = pure role
or_not_found (err e) = raise statement_not_found

unfoldable pub statement_role : ℕ → Action Tables Text
statement_role id = attempt (query (λ t. role_of (find (has_id id) t.statements))) or_not_found

-- The row that an UPDATE of role_policy_statements leaves.
abbrev rewrite_statement :
    Text → Text → Text → List (Text × Text) → StatementRecord → StatementRecord
rewrite_statement action resource effect conditions stmt = record stmt {
  action = action;
  resource = resource;
  effect = effect;
  conditions = conditions;
}

-- UPDATE role_policy_statements … WHERE id = $1 RETURNING; the id is a primary key.
update_row :
    ℕ
    → Text
    → Text
    → Text
    → List (Text × Text)
    → Option StatementRecord
    → Tables
    → Result StatementRecord × Tables
update_row id action resource effect conditions none t = (err no_rows, t)
update_row id action resource effect conditions (some stmt) t =
    if any
      (λ other. not (has_id id other) && same_statement stmt.role_name action resource effect other)
      t.statements
    then (err database, t)
    else (
      ok (rewrite_statement action resource effect conditions stmt),
      record t {
        statements =
            update (has_id id) (rewrite_statement action resource effect conditions) t.statements;
      },
    )

unfoldable pub update_statement_row :
    ℕ → Text → Text → Text → List (Text × Text) → Tables → Result StatementRecord × Tables
unfolding update_row
update_statement_row id action resource effect conditions t =
    update_row id action resource effect conditions (find (has_id id) t.statements) t

unfoldable pub update_statement :
    ℕ → Text → Text → Text → List (Text × Text) → Action Tables StatementRecord
update_statement id action resource effect conditions = do
  role ← statement_role id
  validate_statement_input role action resource effect
  statement (update_statement_row id action resource effect conditions)

-- DELETE FROM role_policy_statements WHERE id = $1, with the rows affected.
unfoldable pub delete_statement_row : ℕ → Tables → Result Bool × Tables
delete_statement_row id t = (
  ok (any (has_id id) t.statements),
  record t { statements = keep (λ stmt. not (has_id id stmt)) t.statements },
)

unfoldable pub delete_statement : ℕ → Action Tables (Unit {0})
delete_statement id = do
  role ← statement_role id
  if text_eq role superadmin then raise protected_role_statement else do
    affected ← statement (delete_statement_row id)
    if not affected then raise statement_not_found else pure tt

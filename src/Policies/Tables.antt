-- ===== src/Policies/Tables.antt =====
-- The tables of internal/policies: roles, role_policy_statements, subject_role_bindings, with the
-- constraints of backend/migrations/005, 007 and 008. UUIDs are numbered as the database makes them.
use harbor_shield.Prelude.{ℕ, Bool, ◌&&◌, List, Text, text_eq, any}
use harbor_shield.Policies.Evaluation.{StatementRecord}

pub record RoleRow : Type 0 where
  pub name : Text
  pub description : Text
  pub builtin : Bool

pub record SubjectBinding : Type 0 where
  pub id : ℕ
  pub subject_type : Text
  pub subject_id : Text
  pub resource : Text
  pub role_name : Text
  pub created_at : ℕ

pub record Tables : Type 0 where
  pub roles : List RoleRow
  pub statements : List StatementRecord
  pub bindings : List SubjectBinding
  -- the number of the next UUID, and NOW()
  pub next_id : ℕ
  pub now : ℕ

-- SELECT EXISTS(SELECT 1 FROM roles WHERE name = $1), and the foreign keys of role_name.
unfoldable pub role_exists : Tables → Text → Bool
unfolding any
role_exists t role = any (λ r. text_eq r.name role) t.roles

-- The unique index role_policy_statements_unique_stmt.
unfoldable pub same_statement : Text → Text → Text → Text → StatementRecord → Bool
same_statement role action resource effect stmt =
    text_eq stmt.role_name role
    && (text_eq stmt.action action
        && (text_eq stmt.resource resource && text_eq stmt.effect effect))

-- The unique index subject_role_bindings_unique_scope.
unfoldable pub same_scope : Text → Text → Text → SubjectBinding → Bool
same_scope subject_type subject_id resource b =
    text_eq b.subject_type subject_type
    && (text_eq b.subject_id subject_id && text_eq b.resource resource)

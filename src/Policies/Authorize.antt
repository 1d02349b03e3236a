-- ===== src/Policies/Authorize.antt =====
-- AuthorizeRole and AuthorizeSubject of internal/policies/service.go.
pub mod Grants
pub mod Subjects
pub mod Preference
use harbor_shield.Prelude.{Bool, true, false, List, [], ◌∷◌, map, Text, is_empty, if◌then◌else◌}
use harbor_shield.Db.{Action, pure, ◌>>=◌}
use harbor_shield.Policies.Evaluation.{StatementRecord, as_statement, evaluate}
use harbor_shield.Policies.Tables.{Tables}
use harbor_shield.Policies.Statements.{list_statements_for_role}
use harbor_shield.Policies.Bindings.{roles_for_subject_resource, resolve_role}

unfoldable pub authorize_statements : Text → Text → Text → List StatementRecord → Bool
authorize_statements role action resource statements =
    if is_empty statements
    then false
    else evaluate (map (as_statement role) statements) role action resource

unfoldable pub authorize_role : Text → Text → Text → Action Tables Bool
authorize_role role action resource = do
  statements ← list_statements_for_role role
  pure (authorize_statements role action resource statements)

-- The loop over the bound roles, and what follows it: `last` is the role that ResolveRole gave.
unfoldable pub authorize_bound : List Text → Text → Text → Text → Action Tables (Bool × Text)
authorize_bound [] last action resource = do
  allowed ← authorize_role last action resource
  pure (allowed, last)
authorize_bound (role ∷ roles) last action resource = do
  allowed ← authorize_role role action resource
  if allowed then pure (true, role) else authorize_bound roles last action resource

unfoldable pub authorize_subject : Text → Text → Text → Text → Text → Action Tables (Bool × Text)
authorize_subject subject_type subject_id fallback action resource = do
  last ← resolve_role subject_type subject_id fallback resource
  bound ← roles_for_subject_resource subject_type subject_id resource
  authorize_bound bound last action resource

-- ===== src/Policies/Evaluation.antt =====
-- `Evaluate` of internal/policies/policies.go, and `evaluateRoleStatements` of service.go.
pub mod DenyWins
pub mod Agreement
use harbor_shield.Prelude.{
  Bool, true, false, not, ◌&&◌, ◌||◌, List, [], ◌∷◌, ◌++◌, Text, codes, text_eq, equal_fold,
  if◌then◌else◌, ℕ,
}
use harbor_shield.Policies.Patterns.{star, match}

pub record Statement : Type 0 where
  pub subject : Text
  pub action : Text
  pub resource : Text
  pub effect : Text
  pub conditions : List (Text × Text)

-- A row of role_policy_statements. The database numbers the rows.
pub record StatementRecord : Type 0 where
  pub id : ℕ
  pub role_name : Text
  pub action : Text
  pub resource : Text
  pub effect : Text
  pub conditions : List (Text × Text)

-- The statement that AuthorizeRole evaluates for a row.
unfoldable pub as_statement : Text → StatementRecord → Statement
as_statement role stmt = record {
  subject = role;
  action = stmt.action;
  resource = stmt.resource;
  effect = stmt.effect;
  conditions = stmt.conditions;
}

abbrev pub is_deny : Text → Bool
is_deny effect = equal_fold effect (codes "deny")

abbrev pub is_allow : Text → Bool
is_allow effect = equal_fold effect (codes "allow")

module _ (subject action resource : Text) where
  -- The two `continue`s of the loop.
  unfoldable pub skipped : Statement → Bool
  skipped stmt =
      (not (text_eq stmt.subject subject) && not (text_eq stmt.subject star))
      || (not (match stmt.action action) || not (match stmt.resource resource))

  -- The loop, from the value of `allowed` so far.
  unfoldable pub evaluate_from : Bool → List Statement → Bool
  evaluate_from allowed [] = allowed
  evaluate_from allowed (stmt ∷ rest) = elim (skipped stmt) [
    | true ↦ evaluate_from allowed rest
    | false ↦ elim (is_deny stmt.effect) [
      | true ↦ false
      | false ↦ evaluate_from (if is_allow stmt.effect then true else allowed) rest
    ]
  ]

unfoldable pub evaluate : List Statement → Text → Text → Text → Bool
evaluate statements subject action resource = evaluate_from subject action resource false statements

-- The variables of the loop of evaluateRoleStatements.
pub record RoleScan : Type 0 where
  pub matched : List StatementRecord
  pub allowed : Bool
  pub explicit_deny : Bool

module _ (action resource : Text) where
  unfoldable pub scan_step : RoleScan → StatementRecord → RoleScan
  scan_step s stmt =
      if not (match stmt.action action) || not (match stmt.resource resource) then s else record {
        matched = s.matched ++ stmt ∷ [];
        allowed = if is_allow stmt.effect then true else s.allowed;
        explicit_deny = if is_deny stmt.effect then true else s.explicit_deny;
      }

  unfoldable pub scan_from : RoleScan → List StatementRecord → RoleScan
  scan_from s [] = s
  scan_from s (stmt ∷ rest) = scan_from (scan_step s stmt) rest

-- (allowed, explicitDeny, matched)
unfoldable pub evaluate_role_statements :
    List StatementRecord → Text → Text → Bool × Bool × List StatementRecord
evaluate_role_statements statements action resource =
    let s =
      scan_from action resource (record { matched = []; allowed = false; explicit_deny = false })
        statements in
    if s.explicit_deny then (false, true, s.matched) else (s.allowed, false, s.matched)

-- ===== src/Policies/Explain.antt =====
-- ExplainSubjectAuthorization of internal/policies/service.go: the policy lab's account of a decision.
pub mod Verdict
use harbor_shield.Prelude.{
  Bool, true, false, ◌&&◌, List, [], ◌∷◌, ◌++◌, Text, codes, text_eq, keep, if◌then◌else◌,
}
use harbor_shield.Db.{Action, pure, lift, ◌>>=◌, ◌>>◌}
use harbor_shield.Db.Errors.{Result, ok, err, invalid_effect}
use harbor_shield.Policies.Evaluation.{StatementRecord, evaluate_role_statements}
use harbor_shield.Policies.Tables.{Tables, SubjectBinding}
use harbor_shield.Policies.Statements.{validate_action_resource_effect, list_statements_for_role}
use harbor_shield.Policies.Bindings.{
  validate_binding_fields, binding_matches_resource, list_bindings, roles_for_subject_resource,
}

pub record EvaluationTrace : Type 0 where
  pub role : Text
  pub allowed : Bool
  pub explicit_deny : Bool
  pub matched_scopes : List SubjectBinding
  pub statements : List StatementRecord

pub record EvaluationResult : Type 0 where
  pub subject_type : Text
  pub subject_id : Text
  pub action : Text
  pub resource : Text
  pub fallback_role : Text
  pub effective_role : Text
  pub allowed : Bool
  pub reason : Text
  pub bindings : List SubjectBinding
  pub traces : List EvaluationTrace

unfoldable pub trace_of :
    Text → Text → Text → List SubjectBinding → List StatementRecord → EvaluationTrace
trace_of role action resource scopes statements =
    let (allowed, explicit_deny, matched) = evaluate_role_statements statements action resource in
    record {
      role = role;
      allowed = allowed;
      explicit_deny = explicit_deny;
      matched_scopes = scopes;
      statements = matched;
    }

unfoldable pub trace_role : Text → Text → Text → List SubjectBinding → Action Tables EvaluationTrace
trace_role role action resource scopes = do
  statements ← list_statements_for_role role
  pure (trace_of role action resource scopes statements)

-- The answer when a bound role grants.
abbrev by_binding : EvaluationResult → EvaluationTrace → EvaluationResult
by_binding result trace = record result {
  traces = result.traces ++ trace ∷ [];
  allowed = true;
  effective_role = trace.role;
  reason = codes "allowed_by_binding";
}

-- The answer of the fallback role.
unfoldable pub by_fallback : EvaluationResult → EvaluationTrace → EvaluationResult
by_fallback result trace = record result {
  traces = result.traces ++ trace ∷ [];
  allowed = trace.allowed;
  effective_role = trace.role;
  reason =
      if trace.allowed
      then codes "allowed_by_fallback_role"
      else if trace.explicit_deny
      then codes "denied_by_statement"
      else codes "denied_by_default";
}

-- The loop over the bound roles, with the answer built so far, and what follows it.
unfoldable pub explain_bound : List Text → EvaluationResult → Action Tables EvaluationResult
explain_bound [] result = do
  trace ← trace_role result.fallback_role result.action result.resource []
  pure (by_fallback result trace)
explain_bound (role ∷ roles) result = do
  trace ←
      trace_role role result.action result.resource
        (keep (λ b. text_eq b.role_name role) result.bindings)
  if trace.allowed
      then pure (by_binding result trace)
      else explain_bound roles (record result { traces = result.traces ++ trace ∷ [] })

-- `err != nil && !errors.Is(err, ErrInvalidEffect)`
abbrev unless_invalid_effect : Result (Unit {0}) → Result (Unit {0})
unless_invalid_effect (err invalid_effect) = ok tt
unless_invalid_effect r = r

unfoldable pub explain_subject_authorization :
    Text → Text → Text → Text → Text → Action Tables EvaluationResult
explain_subject_authorization subject_type subject_id fallback action resource = do
  lift (unless_invalid_effect (validate_action_resource_effect action resource (codes "allow")))
  lift (validate_binding_fields subject_type subject_id resource)
  all ← list_bindings
  let bindings =
      keep
        (λ (b : SubjectBinding).
          text_eq b.subject_type subject_type
          && (text_eq b.subject_id subject_id && binding_matches_resource b.resource resource))
        all
  bound ← roles_for_subject_resource subject_type subject_id resource
  explain_bound bound (record {
    subject_type = subject_type;
    subject_id = subject_id;
    action = action;
    resource = resource;
    fallback_role = fallback;
    effective_role = [];
    allowed = false;
    reason = [];
    bindings = bindings;
    traces = [];
  })

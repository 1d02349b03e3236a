-- ===== src/Policies/Explain/Verdict.antt =====
-- What ExplainSubjectAuthorization answers, and where it differs from AuthorizeSubject.
use mathlib.Core.Path.{subst}
use harbor_shield.Prelude.{
  ◌≡◌, ◌↔◌, refl, sym, ◌∙◌, Bool, true, false, not, ◌&&◌, ◌||◌, List, [], ◌∷◌, ◌++◌, arith, Text,
  any, is_empty,
}
use harbor_shield.Db.{World}
use harbor_shield.Db.Errors.{ok}
use harbor_shield.Db.Triples.{
  Reads, Triple-if, Triple-pure, Triple-lift, Reads-query, Reads-bind, Reads-weaken, Reads-ok,
  Always, Holds-const,
}
use harbor_shield.Policies.Tables.{Tables, SubjectBinding}
use harbor_shield.Policies.Statements.{statements_of_role, list_statements_for_role}
use harbor_shield.Policies.Bindings.{list_bindings}
use harbor_shield.Policies.Authorize.{authorize_subject}
use harbor_shield.Policies.Authorize.Grants.{grants, trace-eq-grants}
use harbor_shield.Policies.Authorize.Subjects.{
  bound_roles, roles_for_subject_resource-Reads, IsDecision, authorize_subject-Reads,
}
use harbor_shield.Policies.Explain.{
  EvaluationTrace, EvaluationResult, trace_of, trace_role, by_binding, by_fallback, explain_bound,
  explain_subject_authorization,
}

-- A trace's verdict is the role's, and the trace names the role.
abbrev IsTrace : Text → Text → Text → Tables → EvaluationTrace → Type 0
IsTrace role action resource t trace =
    (trace.allowed ≡ grants t role action resource) × (trace.role ≡ role)

trace_role-Reads :
    {Pre : Tables → Type 0} (role action resource : Text) (scopes : List SubjectBinding)
    → Reads Pre (IsTrace role action resource) (trace_role role action resource scopes)
unfolding trace_role list_statements_for_role trace_of
trace_role-Reads role action resource scopes =
    Reads-bind {P = λ t rows. rows ≡ statements_of_role t role} _ _ (Reads-query _ (λ t p. refl))
      λ rows. Triple-pure _ (λ t p. (refl, (rw p.1 (trace-eq-grants t role action resource), refl)))

-- The explanation: the subject is said to be allowed exactly if a bound role grants or the fallback
-- role does.
pub record IsExplanation (t : Tables) (bound : List Text) (fallback action resource : Text)
    (e : EvaluationResult) : Type 0 where
  pub explained :
      e.allowed
      ≡ (any (λ role. grants t role action resource) bound || grants t fallback action resource)
  pub effective : e.allowed ≡ true → grants t e.effective_role action resource ≡ true

module _ (result : EvaluationResult) (t : Tables) (trace : EvaluationTrace) where
  fallback-IsExplanation :
      IsTrace result.fallback_role result.action result.resource t trace
      → IsExplanation t [] result.fallback_role result.action result.resource
          (by_fallback result trace)
  unfolding by_fallback any
  fallback-IsExplanation h = record { explained = h.0; effective = λ k. rw h.1 (sym h.0 ∙ k) }

  binding-IsExplanation :
      (role : Text) (bound : List Text)
      → IsTrace role result.action result.resource t trace
      → trace.allowed ≡ true
      → IsExplanation t
          (role ∷ bound)
          result.fallback_role
          result.action
          result.resource
          (by_binding result trace)
  unfolding any
  binding-IsExplanation role bound h k = record {
    explained = ground arith;
    effective = λ _. rw h.1 (sym h.0 ∙ k);
  }

later-IsExplanation :
    (t : Tables) (role : Text) (bound : List Text) (fallback action resource : Text)
    (e : EvaluationResult)
    → grants t role action resource ≡ false
    → IsExplanation t bound fallback action resource e
    → IsExplanation t (role ∷ bound) fallback action resource e
unfolding any
later-IsExplanation t role bound fallback action resource e h v = record {
  explained = ground (arith, v.explained);
  effective = v.effective;
}

explain_bound-Reads :
    (bound : List Text) (result : EvaluationResult)
    → Reads Always
        (λ t e. IsExplanation t bound result.fallback_role result.action result.resource e)
        (explain_bound bound result)
unfolding explain_bound
explain_bound-Reads [] result =
    Reads-bind _ _ (trace_role-Reads result.fallback_role result.action result.resource [])
      λ trace. Triple-pure _ (λ t p. (refl, fallback-IsExplanation result t trace p.1))
explain_bound-Reads (role ∷ bound) result =
    Reads-bind _ _ (trace_role-Reads role result.action result.resource _) λ trace.
      Triple-if trace.allowed _ _
        (λ yes'.
          Triple-pure _ (λ t p. (refl, binding-IsExplanation result t trace role bound p.1 yes')))
        (λ no'.
          Reads-weaken _
            (explain_bound-Reads bound (record result { traces = result.traces ++ trace ∷ [] }))
            (λ t e p v.
              later-IsExplanation t role bound result.fallback_role result.action result.resource e
                (sym p.1.0 ∙ no') v))

module _ (subject_type subject_id fallback action resource : Text) where
  -- Whatever the driver does, ExplainSubjectAuthorization writes nothing, and an explanation that it
  -- returns says that the subject is allowed exactly if one of its bound roles grants or the fallback
  -- role does; if it says allowed, the role that it calls effective grants.
  pub explain_subject_authorization-Reads :
      Reads Always
        (λ t e.
          IsExplanation t
            (bound_roles t subject_type subject_id resource)
            fallback
            action
            resource
            e)
        (explain_subject_authorization subject_type subject_id fallback action resource)
  unfolding explain_subject_authorization list_bindings
  explain_subject_authorization-Reads =
      Reads-bind {P = λ t _. Unit} _ _
        (Triple-lift _ (λ t p. (refl, Holds-const (λ _. Unit) t _ tt)))
        λ _.
          Reads-bind {P = λ t _. Unit} _ _
            (Triple-lift _ (λ t p. (refl, Holds-const (λ _. Unit) t _ tt)))
            λ _. Reads-bind {P = λ t _. Unit} _ _ (Reads-query _ (λ t p. tt)) λ all.
              Reads-bind {P = λ t bound. bound ≡ bound_roles t subject_type subject_id resource} _ _
                (roles_for_subject_resource-Reads subject_type subject_id resource)
                λ bound.
                  Reads-weaken _ (explain_bound-Reads bound _)
                    (λ t e p v. subst (λ b. IsExplanation t b fallback action resource e) p.1 v)

  -- The subject has a bound role on the resource, no bound role grants, and the fallback role does.
  pub only_fallback_grants : Tables → Bool
  only_fallback_grants t =
      let bound = bound_roles t subject_type subject_id resource in
      not (is_empty bound)
      && (not (any (λ role. grants t role action resource) bound)
          && grants t fallback action resource)

  verdicts_agree_iff :
      (t : Tables) (d : Bool × Text) (e : EvaluationResult)
      → IsDecision t (bound_roles t subject_type subject_id resource) fallback action resource d
      → IsExplanation t (bound_roles t subject_type subject_id resource) fallback action resource e
      → (d.0 ≡ e.allowed) ↔ (only_fallback_grants t ≡ false)
  unfolding only_fallback_grants
  verdicts_agree_iff t d e h k = ground (arith, h.decided, k.explained)

  -- From the same tables, whatever the driver does, a decision of AuthorizeSubject and an explanation
  -- of it by ExplainSubjectAuthorization have the same verdict exactly unless the subject has a bound
  -- role on the resource, no bound role grants, and the fallback role does: there the explanation says
  -- allowed and the decision is to deny.
  pub explain-eq-authorize_iff :
      (w : World Tables) (d : Bool × Text) (e : EvaluationResult)
      → (authorize_subject subject_type subject_id fallback action resource w).0 ≡ ok d
      → (explain_subject_authorization subject_type subject_id fallback action resource w).0 ≡ ok e
      → (d.0 ≡ e.allowed) ↔ (only_fallback_grants w.tables ≡ false)
  explain-eq-authorize_iff w d e h k =
      verdicts_agree_iff w.tables d e
        (Reads-ok _ (authorize_subject-Reads subject_type subject_id fallback action resource) w d
          h)
        (Reads-ok _ explain_subject_authorization-Reads w e k)

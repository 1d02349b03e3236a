-- ===== src/BucketPolicy/Verdict.antt =====
-- What evaluateBucketPolicy decides, in any order of the statements.
use mathlib.Core.List.{Perm}
use harbor_shield.Prelude.{
  ◌≡◌, refl, sym, ◌∙◌, Bool, true, false, not, ◌&&◌, ◌||◌, List, [], ◌∷◌, arith, Text, codes,
  text_eq, any, all, any-perm, if◌then◌else◌,
}
use mathlib.Core.Path.{ap₂}
use harbor_shield.BucketPolicy.Documents.{
  BucketPolicyCondition, NormalizedBucketPolicyStatement, NormalizedBucketPolicyDocument,
}
use harbor_shield.BucketPolicy.Evaluate.{
  Net, PolicyDecision, decision_none, decision_allow, decision_deny, condition_matches,
  conditions_match, statement_principal_matches, any_matches, is_skipped, evaluate_from,
  evaluate_bucket_policy,
}

-- A deny outweighs an allow, and without either there is no decision.
pub decision_of : (denied allowed : Bool) → PolicyDecision
decision_of denied allowed =
    if denied then decision_deny else if allowed then decision_allow else decision_none

module _ (net : Net) where
  conditions_match-all :
      (conditions : List BucketPolicyCondition) (request : List (Text × Text))
      → conditions_match net conditions request ≡ all (condition_matches net request) conditions
  unfolding conditions_match all
  conditions_match-all [] request = refl
  conditions_match-all (c ∷ cs) request = ground (arith, conditions_match-all cs request)

  module _ (principal action resource : Text) (request : List (Text × Text)) where
    -- The statement is about the request: its principal, one of its actions, one of its resources
    -- and all of its conditions.
    pub is_about : NormalizedBucketPolicyStatement → Bool
    is_about s =
        statement_principal_matches s principal
        && (any_matches s.actions action
            && (any_matches s.resources resource
                && all (condition_matches net request) s.conditions))

    pub denies : NormalizedBucketPolicyStatement → Bool
    denies s = is_about s && text_eq s.effect (codes "Deny")

    pub allows : NormalizedBucketPolicyStatement → Bool
    allows s = is_about s && text_eq s.effect (codes "Allow")

    is_skipped-is_about :
        (s : NormalizedBucketPolicyStatement)
        → is_skipped net principal action resource request s ≡ not (is_about s)
    unfolding is_skipped is_about
    is_skipped-is_about s = ground (arith, conditions_match-all s.conditions request)

    evaluate_from-any :
        (allowed : Bool) (stmts : List NormalizedBucketPolicyStatement)
        → evaluate_from net principal action resource request allowed stmts
          ≡ decision_of (any denies stmts) (allowed || any allows stmts)
    unfolding evaluate_from any denies allows decision_of
    evaluate_from-any allowed [] = ground arith
    evaluate_from-any allowed (s ∷ rest) =
        ground (
          arith,
          is_skipped-is_about s,
          evaluate_from-any allowed rest,
          evaluate_from-any true rest,
        )

  -- The principal that an anonymous request stands for.
  abbrev pub or_anyone : Text → Text
  or_anyone principal = if text_eq principal [] then codes "*" else principal

  module _ (principal action resource : Text) (request : List (Text × Text)) where
    -- The decision is deny if a statement that is about the request denies, else allow if one of
    -- them allows, else none; a statement is about the request if its principal (any for `*`, the
    -- named ones, or all but the excluded ones), one of its action patterns, one of its resource
    -- patterns and all of its conditions match. A request without principal stands for `*`.
    pub evaluate_bucket_policy_decides :
        (d : NormalizedBucketPolicyDocument)
        → evaluate_bucket_policy net d principal action resource request
          ≡ decision_of
              (any (denies (or_anyone principal) action resource request) d.statement)
              (any (allows (or_anyone principal) action resource request) d.statement)
    unfolding evaluate_bucket_policy
    evaluate_bucket_policy_decides d =
        evaluate_from-any (or_anyone principal) action resource request false d.statement

    -- The decision does not depend on the order of the statements.
    pub evaluate_bucket_policy-perm :
        (d e : NormalizedBucketPolicyDocument)
        → Perm d.statement e.statement
        → evaluate_bucket_policy net d principal action resource request
          ≡ evaluate_bucket_policy net e principal action resource request
    evaluate_bucket_policy-perm d e q =
        evaluate_bucket_policy_decides d
        ∙ (ap₂ decision_of (any-perm _ d.statement e.statement q)
              (any-perm _ d.statement e.statement q)
            ∙ sym (evaluate_bucket_policy_decides e))

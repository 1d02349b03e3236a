-- ===== src/BucketPolicy/Evaluate.antt =====
-- evaluateBucketPolicy of internal/policies/aws_bucket_policy.go.
use harbor_shield.Prelude.{
  Bool, true, false, not, ◌||◌, Option, none, some, List, [], ◌∷◌, Text, codes, text_eq, trim_space,
  any, is_empty, if◌then◌else◌,
}
use harbor_shield.Policies.Patterns.{match}
use harbor_shield.BucketPolicy.Documents.{
  BucketPolicyCondition, NormalizedBucketPolicyStatement, NormalizedBucketPolicyDocument,
}

-- What the source uses of the package net: addresses, networks, and their parsers.
pub record Net : Type 1 where
  pub Ip : Type 0
  pub Network : Type 0
  pub parse_ip : Text → Option Ip
  pub equal : Ip → Ip → Bool
  pub parse_cidr : Text → Option Network
  pub contains : Network → Ip → Bool

pub data PolicyDecision : Type 0 where
  decision_none decision_allow decision_deny : PolicyDecision

-- requestContext[key]: a missing key reads as the empty text.
unfoldable pub context_value : List (Text × Text) → Text → Text
context_value [] key = []
context_value ((k, v) ∷ rest) key = if text_eq k key then v else context_value rest key

unfoldable pub any_matches : List Text → Text → Bool
unfolding any
any_matches patterns value = any (λ pattern. match pattern value) patterns

unfoldable pub principal_matches : List Text → Text → Bool
unfolding any
principal_matches principals principal =
    any (λ candidate. text_eq candidate (codes "*") || text_eq candidate principal) principals

unfoldable pub statement_principal_matches : NormalizedBucketPolicyStatement → Text → Bool
statement_principal_matches statement principal =
    if not (is_empty statement.principals)
    then principal_matches statement.principals principal
    else if not (is_empty statement.not_principals)
    then not (principal_matches statement.not_principals principal)
    else false

module _ (net : Net) where
  open net use {Ip, Network, parse_ip, equal, parse_cidr, contains}

  equals_ip : Option Ip → Ip → Bool
  equals_ip none ip = false
  equals_ip (some parsed) ip = equal parsed ip

  contains_ip : Option Network → Ip → Bool
  contains_ip none ip = false
  contains_ip (some network) ip = contains network ip

  unfoldable pub any_ip_matches_parsed : List Text → Option Ip → Bool
  unfolding equals_ip contains_ip any
  any_ip_matches_parsed patterns none = false
  any_ip_matches_parsed patterns (some ip) =
      any (λ pattern. equals_ip (parse_ip pattern) ip || contains_ip (parse_cidr pattern) ip)
        patterns

  unfoldable pub any_ip_matches : List Text → Text → Bool
  unfolding any_ip_matches_parsed
  any_ip_matches patterns value = any_ip_matches_parsed patterns (parse_ip value)

  -- One round of the loop of bucketPolicyConditionsMatch: false is its `return false`.
  unfoldable pub condition_matches : List (Text × Text) → BucketPolicyCondition → Bool
  condition_matches request condition =
      let actual = trim_space (context_value request condition.key) in
      if text_eq condition.operator (codes "StringEquals")
      then any_matches condition.values actual
      else if text_eq condition.operator (codes "StringLike")
      then any_matches condition.values actual
      else if text_eq condition.operator (codes "StringNotEquals")
      then not (any_matches condition.values actual)
      else if text_eq condition.operator (codes "StringNotLike")
      then not (any_matches condition.values actual)
      else if text_eq condition.operator (codes "IpAddress")
      then any_ip_matches condition.values actual
      else if text_eq condition.operator (codes "NotIpAddress")
      then not (any_ip_matches condition.values actual)
      else false

  unfoldable pub conditions_match : List BucketPolicyCondition → List (Text × Text) → Bool
  conditions_match [] request = true
  conditions_match (condition ∷ rest) request =
      if condition_matches request condition then conditions_match rest request else false

  module _ (principal action resource : Text) (request : List (Text × Text)) where
    -- The four `continue`s of the loop.
    unfoldable pub is_skipped : NormalizedBucketPolicyStatement → Bool
    is_skipped statement =
        not (statement_principal_matches statement principal)
        || (not (any_matches statement.actions action)
            || (not (any_matches statement.resources resource)
                || not (conditions_match statement.conditions request)))

    -- The loop, from the value of `allowed` so far.
    unfoldable pub evaluate_from : Bool → List NormalizedBucketPolicyStatement → PolicyDecision
    evaluate_from allowed [] = if allowed then decision_allow else decision_none
    evaluate_from allowed (statement ∷ rest) = elim (is_skipped statement) [
      | true ↦ evaluate_from allowed rest
      | false ↦ elim (text_eq statement.effect (codes "Deny")) [
        | true ↦ decision_deny
        | false ↦
            evaluate_from (if text_eq statement.effect (codes "Allow") then true else allowed) rest
      ]
    ]

  unfoldable pub evaluate_bucket_policy :
      NormalizedBucketPolicyDocument → Text → Text → Text → List (Text × Text) → PolicyDecision
  evaluate_bucket_policy document principal action resource request =
      evaluate_from (if text_eq principal [] then codes "*" else principal) action resource request
        false document.statement

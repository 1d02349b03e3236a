-- ===== src/S3/Authorization/Tests.antt =====
-- An anonymous request for a public object, and a signed one that the policy refuses.
use harbor_shield.Prelude.{
  ◌≡◌, ◌↔◌, refl, true, false, none, some, [], ◌∷◌, Text, codes, text_eq, any, trim_space,
  trim_left, is_space, to_lower, equal_fold, fold, has_prefix, has_suffix, trim_suffix,
}
use harbor_shield.Db.{World, calm, pure, raise, lift, statement, query, ◌>>=◌, attempt}
use harbor_shield.Policies.Patterns.{match}
use harbor_shield.BucketPolicy.Json.{str, as_text, as_texts}
use harbor_shield.BucketPolicy.Documents.{
  BucketPolicyDocument, policy_version, normalize_string_or_list, normalize_principals, nonempty,
  normalize_bucket_policy_principal, normalize_bucket_policy_conditions, normalize_effect,
  is_effect, normalize_bucket_policy_statement, normalize_statements, normalize_parsed,
  normalize_bucket_policy,
}
use harbor_shield.BucketPolicy.Evaluate.{
  Net, any_matches, principal_matches, statement_principal_matches, conditions_match, is_skipped,
  evaluate_from, evaluate_bucket_policy,
}
use harbor_shield.BucketPolicy.Store.{
  stored_policy, found_row, get_bucket_policy, decide_by, evaluate_stored_policy,
}
use harbor_shield.S3.Authorization.{
  AccessTables, Actor, signed_by, anonymous, on_policies, principal_of, after_decision,
  bucket_decision, authorize_bucket_policy_aware,
}
use harbor_shield.S3.Authorization.Soundness.{
  is_allowed, IsGrounded, policy_verdict, authorize_bucket_policy_aware-IsGrounded,
}
use harbor_shield.S3.Authorization.Completeness.{authorize_bucket_policy_aware_iff}

-- Addresses are texts, and a network is an address.
abbrev net : Net
net = record {
  Ip = Text;
  Network = Text;
  parse_ip = λ s. some s;
  equal = text_eq;
  parse_cidr = λ s. some s;
  contains = text_eq;
}

abbrev public_read : BucketPolicyDocument
public_read = record {
  version = policy_version;
  id = [];
  statement =
      (record {
        sid = [];
        effect = codes "Allow";
        principal = some (str (codes "*"));
        not_principal = none;
        action = some (str (codes "s3:GetObject"));
        resource = some (str (codes "arn:b/*"));
        condition = none;
      })
      ∷ [];
}

abbrev tables : AccessTables
tables = record {
  roles = record { roles = []; statements = []; bindings = []; next_id = 0; now = 0 };
  policies = record { buckets = 1 ∷ []; bucket_policies = (1, public_read) ∷ [] };
}

abbrev alice : Actor
alice = record { role = codes "reader"; user_id = codes "7"; access_key = codes "AK" }

-- The driver fails at the second call.
abbrev world : World AccessTables
world = record { tables = tables; faults = false ∷ true ∷ [] }

public_object_allowed :
    is_allowed
      (authorize_bucket_policy_aware net [] anonymous
        (some 1)
        (codes "object.get")
        (codes "b/x")
        (codes "s3:GetObject")
        (codes "arn:b/x")
        world).0
    ≡ true
unfolding authorize_bucket_policy_aware bucket_decision on_policies principal_of after_decision
    evaluate_stored_policy get_bucket_policy decide_by found_row stored_policy
    normalize_bucket_policy normalize_parsed normalize_statements normalize_bucket_policy_statement
    normalize_effect is_effect normalize_bucket_policy_principal normalize_principals
    normalize_string_or_list nonempty normalize_bucket_policy_conditions as_text as_texts
    evaluate_bucket_policy evaluate_from is_skipped statement_principal_matches principal_matches
    any_matches conditions_match any match has_suffix has_prefix trim_suffix trim_space trim_left
    is_space to_lower equal_fold fold text_eq attempt query statement lift pure raise ◌>>=◌
public_object_allowed = refl

authorize_bucket_policy_aware-IsGrounded_example :
    IsGrounded tables anonymous
      (codes "object.get")
      (codes "b/x")
      (policy_verdict net [] tables anonymous (some 1) (codes "s3:GetObject") (codes "arn:b/x"))
authorize_bucket_policy_aware-IsGrounded_example =
    authorize_bucket_policy_aware-IsGrounded net [] anonymous (some 1) (codes "object.get")
      (codes "b/x") (codes "s3:GetObject") (codes "arn:b/x") world refl public_object_allowed

authorize_bucket_policy_aware_example :
    (is_allowed
        (authorize_bucket_policy_aware net []
          (signed_by alice)
          (some 1)
          (codes "object.put")
          (codes "b/x")
          (codes "s3:PutObject")
          (codes "arn:b/x")
          (calm tables)).0
      ≡ true)
    ↔ IsGrounded tables (signed_by alice) (codes "object.put") (codes "b/x") (
        policy_verdict net [] tables
          (signed_by alice)
          (some 1)
          (codes "s3:PutObject")
          (codes "arn:b/x"))
authorize_bucket_policy_aware_example =
    authorize_bucket_policy_aware_iff net [] (signed_by alice) (some 1) (codes "object.put")
      (codes "b/x") (codes "s3:PutObject") (codes "arn:b/x") tables

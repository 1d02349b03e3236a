-- ===== src/BucketPolicy/Tests.antt =====
-- A bucket policy that anyone may read by but one, and the requests that it decides.
use mathlib.Core.List.{Permᴰ}
use harbor_shield.Prelude.{
  ◌≡◌, refl, true, false, none, some, List, [], ◌∷◌, Text, codes, text_eq, text_le, any, All,
  is_empty, ◌==◌, if◌then◌else◌, trim_space, trim_left, is_space, to_lower, equal_fold, fold,
  has_prefix, has_suffix, trim_suffix,
}
use harbor_shield.Db.{calm, ◌>>=◌}
use harbor_shield.Db.Errors.{ok}
use harbor_shield.Db.Returns.{fails_first}
use harbor_shield.Policies.Patterns.{match}
use harbor_shield.BucketPolicy.Jsonb.{jsonb, jsonb_document, is_document_storable}
use harbor_shield.BucketPolicy.Ordered.{AllAfter, IsOrdered, IsRawOrdered, IsDocumentOrdered}
use harbor_shield.BucketPolicy.Json.{
  Json, str, obj, field, end, as_text, as_texts, as_map, fields_as_map, struct_field,
}
use harbor_shield.BucketPolicy.Documents.{
  BucketPolicyStatement, BucketPolicyDocument, NormalizedBucketPolicyStatement,
  NormalizedBucketPolicyDocument, policy_version, normalize_string_or_list,
  normalize_policy_principal, normalize_principals, nonempty, normalize_bucket_policy_principal,
  is_operator, normalize_entries, entries_of, decode_operators, normalize_operators,
  normalize_bucket_policy_conditions, normalize_effect, is_effect,
  normalize_bucket_policy_statement, normalize_statements, normalize_parsed,
  normalize_bucket_policy,
}
use harbor_shield.BucketPolicy.Evaluate.{
  Net, decision_none, decision_allow, decision_deny, context_value, any_matches, principal_matches,
  statement_principal_matches, any_ip_matches_parsed, any_ip_matches, condition_matches,
  conditions_match, is_skipped, evaluate_from, evaluate_bucket_policy,
}
use harbor_shield.BucketPolicy.Store.{
  PolicyTables, stored_policy, put_bucket_policy, evaluate_stored_policy,
}
use harbor_shield.BucketPolicy.Verdict.{
  decision_of, denies, allows, evaluate_bucket_policy_decides, evaluate_bucket_policy-perm,
}
use harbor_shield.BucketPolicy.NormalForm.{IsNormal, normalize_bucket_policy-IsNormalized}
use harbor_shield.BucketPolicy.StoredVerdict.{
  has_bucket, verdict, evaluate_stored_policy_decides, put_bucket_policy_decides,
  put_bucket_policy-enforces,
}

-- Addresses are texts, and a network is an address.
abbrev net : Net
net = record {
  Ip = Text;
  Network = Text;
  parse_ip = λ s. if text_eq s [] then none else some s;
  equal = text_eq;
  parse_cidr = λ s. some s;
  contains = text_eq;
}

abbrev anyone_reads : BucketPolicyStatement
anyone_reads = record {
  sid = codes "read";
  effect = codes " allow";
  principal = some (str (codes "*"));
  not_principal = none;
  action = some (str (codes "s3:Get*"));
  resource = some (str (codes "arn:b/*"));
  condition = none;
}

abbrev not_mallory : BucketPolicyStatement
not_mallory = record {
  sid = codes "block";
  effect = codes "Deny";
  principal = some (obj (field (codes "AWS") (str (codes "arn:aws:iam::1:user/mallory")) end));
  not_principal = none;
  action = some (str (codes "*"));
  resource = some (str (codes "*"));
  condition = some (
      obj (
        field (codes "IpAddress") (obj (field (codes "aws:SourceIp") (str (codes "10.0.0.1")) end))
          end));
}

abbrev document : BucketPolicyDocument
document = record { version = []; id = []; statement = anyone_reads ∷ not_mallory ∷ [] }

abbrev normal_read : NormalizedBucketPolicyStatement
normal_read = record {
  sid = codes "read";
  effect = codes "Allow";
  principals = codes "*" ∷ [];
  not_principals = [];
  actions = codes "s3:Get*" ∷ [];
  resources = codes "arn:b/*" ∷ [];
  conditions = [];
}

abbrev normal_block : NormalizedBucketPolicyStatement
normal_block = record {
  sid = codes "block";
  effect = codes "Deny";
  principals = codes "mallory" ∷ [];
  not_principals = [];
  actions = codes "*" ∷ [];
  resources = codes "*" ∷ [];
  conditions =
      (record {
        operator = codes "IpAddress";
        key = codes "aws:SourceIp";
        values = codes "10.0.0.1" ∷ [];
      })
      ∷ [];
}

abbrev normal : NormalizedBucketPolicyDocument
normal = record { version = policy_version; id = []; statement = normal_read ∷ normal_block ∷ [] }

abbrev canonical : BucketPolicyDocument
canonical = record document { version = policy_version }

document_normalizes : normalize_bucket_policy (some document) ≡ ok (normal, canonical)
unfolding normalize_bucket_policy normalize_parsed normalize_statements
    normalize_bucket_policy_statement normalize_effect is_effect normalize_bucket_policy_principal
    normalize_principals normalize_policy_principal normalize_string_or_list nonempty
    normalize_bucket_policy_conditions normalize_operators normalize_entries decode_operators
    entries_of is_operator as_text as_texts as_map fields_as_map struct_field trim_space trim_left
    is_space to_lower equal_fold fold text_eq has_prefix
document_normalizes = refl

abbrev source : List (Text × Text)
source = (codes "aws:SourceIp", codes "10.0.0.1") ∷ []

abbrev get_x : Text
get_x = codes "s3:GetObject"

mallory_denied :
    evaluate_bucket_policy net normal (codes "mallory") get_x (codes "arn:b/x") source
    ≡ decision_deny
unfolding evaluate_bucket_policy evaluate_from is_skipped statement_principal_matches
    principal_matches any_matches conditions_match condition_matches context_value any_ip_matches
    any_ip_matches_parsed any match has_suffix has_prefix trim_suffix trim_space trim_left is_space
    text_eq
mallory_denied = refl

alice_allowed :
    evaluate_bucket_policy net normal (codes "alice") get_x (codes "arn:b/x") source
    ≡ decision_allow
unfolding evaluate_bucket_policy evaluate_from is_skipped statement_principal_matches
    principal_matches any_matches conditions_match condition_matches context_value any_ip_matches
    any_ip_matches_parsed any match has_suffix has_prefix trim_suffix trim_space trim_left is_space
    text_eq
alice_allowed = refl

evaluate_bucket_policy_decides_example :
    evaluate_bucket_policy net normal (codes "mallory") get_x (codes "arn:b/x") source
    ≡ decision_of
        (any (denies net (codes "mallory") get_x (codes "arn:b/x") source) normal.statement)
        (any (allows net (codes "mallory") get_x (codes "arn:b/x") source) normal.statement)
unfolding text_eq
evaluate_bucket_policy_decides_example =
    evaluate_bucket_policy_decides net (codes "mallory") get_x (codes "arn:b/x") source normal

abbrev turned : NormalizedBucketPolicyDocument
turned = record normal { statement = normal_block ∷ normal_read ∷ [] }

evaluate_bucket_policy-perm_example :
    evaluate_bucket_policy net normal (codes "mallory") get_x (codes "arn:b/x") source
    ≡ evaluate_bucket_policy net turned (codes "mallory") get_x (codes "arn:b/x") source
evaluate_bucket_policy-perm_example =
    evaluate_bucket_policy-perm net (codes "mallory") get_x (codes "arn:b/x") source normal turned
      ∣ Permᴰ.swap refl refl ∣₁

normalize_bucket_policy-IsNormalized_example :
    All IsNormal normal.statement
    × (is_empty normal.statement ≡ false)
    × (normalize_bucket_policy (some canonical) ≡ ok (normal, canonical))
normalize_bucket_policy-IsNormalized_example =
    normalize_bucket_policy-IsNormalized (some document) normal canonical document_normalizes

abbrev tables : PolicyTables
tables = record { buckets = 1 ∷ 2 ∷ []; bucket_policies = (2, canonical) ∷ [] }

evaluate_stored_policy_decides_example :
    (evaluate_stored_policy net
      (codes "mallory")
      get_x
      (codes "arn:b/x")
      source
      2
      (record { tables = tables; faults = true ∷ [] })).0
    ≡ (if fails_first (true ∷ [])
        then ok decision_none
        else verdict net
            (codes "mallory")
            get_x
            (codes "arn:b/x")
            source
            (stored_policy 2 tables.bucket_policies))
evaluate_stored_policy_decides_example =
    evaluate_stored_policy_decides net (codes "mallory") get_x (codes "arn:b/x") source 2
      (record { tables = tables; faults = true ∷ [] })

has_bucket_1 : has_bucket 1 tables ≡ true
unfolding has_bucket any
has_bucket_1 = refl

canonical_storable : is_document_storable canonical ≡ true
unfolding is_document_storable any
canonical_storable = refl

put_bucket_policy_decides_example :
    ((put_bucket_policy 1 (some document) >>= λ _.
    evaluate_stored_policy net (codes "mallory") get_x (codes "arn:b/x") source 1)
      (calm tables)).0
    ≡ (if 1 == 1
        then verdict net
            (codes "mallory")
            get_x
            (codes "arn:b/x")
            source
            (some (jsonb_document canonical))
        else (evaluate_stored_policy net
            (codes "mallory")
            get_x
            (codes "arn:b/x")
            source
            1
            (calm tables)).0)
put_bucket_policy_decides_example =
    put_bucket_policy_decides net (codes "mallory") get_x (codes "arn:b/x") source 1 1
      (some document) normal canonical tables document_normalizes canonical_storable has_bucket_1

canonical-IsDocumentOrdered : IsDocumentOrdered canonical
unfolding IsRawOrdered IsOrdered AllAfter
canonical-IsDocumentOrdered = (
  record { principal = tt; not_principal = tt; action = tt; resource = tt; condition = tt },
  (
    record {
      principal = (tt, tt, tt);
      not_principal = tt;
      action = tt;
      resource = tt;
      condition = ((tt, tt, tt), tt, tt);
    },
    tt,
  ),
)

put_bucket_policy-enforces_example :
    ((put_bucket_policy 1 (some document) >>= λ _.
    evaluate_stored_policy net (codes "mallory") get_x (codes "arn:b/x") source 1)
      (calm tables)).0
    ≡ ok (evaluate_bucket_policy net normal (codes "mallory") get_x (codes "arn:b/x") source)
put_bucket_policy-enforces_example =
    put_bucket_policy-enforces net (codes "mallory") get_x (codes "arn:b/x") source 1
      (some document) normal canonical tables document_normalizes canonical-IsDocumentOrdered
      canonical_storable has_bucket_1

abbrev two_spellings : Json
two_spellings =
    obj (field (codes "aws") (str (codes "x")) (field (codes "AWS") (str (codes "y")) end))

accepted_principal : normalize_bucket_policy_principal (some two_spellings) ≡ ok (codes "y" ∷ [])
unfolding normalize_bucket_policy_principal normalize_principals normalize_policy_principal
    normalize_string_or_list as_text as_texts struct_field trim_space trim_left is_space equal_fold
    fold text_eq has_prefix
accepted_principal = refl

-- The column returns the keys in another order, and another principal is the last one.
stored_principal :
    normalize_bucket_policy_principal (some (jsonb two_spellings)) ≡ ok (codes "x" ∷ [])
unfolding jsonb normalize_bucket_policy_principal normalize_principals normalize_policy_principal
    normalize_string_or_list as_text as_texts struct_field trim_space trim_left is_space equal_fold
    fold text_eq text_le has_prefix
stored_principal = refl

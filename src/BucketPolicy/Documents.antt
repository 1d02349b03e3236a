-- ===== src/BucketPolicy/Documents.antt =====
-- The documents of internal/policies/aws_bucket_policy.go, and their normal form.
--
-- The outer struct is taken as decoded: `none` is a document that encoding/json refuses. A map is
-- visited in the order of the document, where Go's order is arbitrary.
use harbor_shield.Prelude.{
  Bool, not, ◌&&◌, ◌||◌, Option, none, some, List, [], ◌∷◌, ◌++◌, reverse, Text, codes, text_eq,
  trim_space, to_lower, has_prefix, is_empty, ◌==◌, leb, ◌-◌, if◌then◌else◌,
}
use harbor_shield.Db.Errors.{Result, ok, err, invalid_bucket_policy, then_result}
use harbor_shield.BucketPolicy.Json.{Json, null, obj, as_text, as_texts, as_map, struct_field}

pub record BucketPolicyStatement : Type 0 where
  pub sid : Text
  pub effect : Text
  pub principal : Option Json
  pub not_principal : Option Json
  pub action : Option Json
  pub resource : Option Json
  pub condition : Option Json

pub record BucketPolicyDocument : Type 0 where
  pub version : Text
  pub id : Text
  pub statement : List BucketPolicyStatement

pub record BucketPolicyCondition : Type 0 where
  pub operator : Text
  pub key : Text
  pub values : List Text

pub record NormalizedBucketPolicyStatement : Type 0 where
  pub sid : Text
  pub effect : Text
  pub principals : List Text
  pub not_principals : List Text
  pub actions : List Text
  pub resources : List Text
  pub conditions : List BucketPolicyCondition

pub record NormalizedBucketPolicyDocument : Type 0 where
  pub version : Text
  pub id : Text
  pub statement : List NormalizedBucketPolicyStatement

-- The loop over `many`.
unfoldable pub trim_all : List Text → Result (List Text)
trim_all [] = ok []
trim_all (item ∷ items) =
    let trimmed = trim_space item in
    let rest = trim_all items in
    if text_eq trimmed []
    then err invalid_bucket_policy
    else then_result rest (λ out. ok (trimmed ∷ out))

single_text : Text → Result (List Text)
single_text single =
    let trimmed = trim_space single in
    if text_eq trimmed [] then err invalid_bucket_policy else ok (trimmed ∷ [])

many_texts : Option (List Text) → Result (List Text)
unfolding trim_all
many_texts none = err invalid_bucket_policy
many_texts (some many) = trim_all many

text_or_texts : Option Text → Json → Result (List Text)
unfolding single_text many_texts
text_or_texts (some single) raw = single_text single
text_or_texts none raw = many_texts (as_texts raw)

unfoldable pub normalize_string_or_list : Option Json → Result (List Text)
unfolding text_or_texts
normalize_string_or_list none = err invalid_bucket_policy
normalize_string_or_list (some raw) = text_or_texts (as_text raw) raw

-- What stands behind the last slash: the last part of strings.Split(value, "/").
after_slash : Text → Text → Text
after_slash part [] = reverse part
after_slash part (c ∷ s) = after_slash (if c == b'/' then [] else c ∷ part) s

unfoldable pub normalize_policy_principal : Text → Text
unfolding after_slash
normalize_policy_principal value =
    let trimmed = trim_space value in
    if text_eq trimmed (codes "*")
    then codes "*"
    else if has_prefix trimmed (codes "arn:aws:iam::")
    then after_slash [] trimmed
    else trimmed

-- The loop over the principals.
unfoldable pub normalize_principals : List Text → Result (List Text)
normalize_principals [] = ok []
normalize_principals (value ∷ values) =
    let name = normalize_policy_principal value in
    let rest = normalize_principals values in
    if text_eq name [] then err invalid_bucket_policy else then_result rest (λ out. ok (name ∷ out))

-- `err != nil || len(values) == 0`
unfoldable pub nonempty : Result (List Text) → Result (List Text)
nonempty (ok []) = err invalid_bucket_policy
nonempty (ok (v ∷ vs)) = ok (v ∷ vs)
nonempty (err e) = err invalid_bucket_policy

-- The struct with the one field AWS.
principal_object : Json → Result (List Text)
unfolding nonempty
principal_object (obj fs) =
    then_result (nonempty (normalize_string_or_list (struct_field (codes "AWS") none fs)))
      normalize_principals
principal_object null = then_result (nonempty (normalize_string_or_list none)) normalize_principals
principal_object _ = err invalid_bucket_policy

principal_text : Option Text → Json → Result (List Text)
unfolding principal_object
principal_text (some wildcard) raw =
    if text_eq wildcard (codes "*") then ok (codes "*" ∷ []) else err invalid_bucket_policy
principal_text none raw = principal_object raw

unfoldable pub normalize_bucket_policy_principal : Option Json → Result (List Text)
unfolding principal_text
normalize_bucket_policy_principal none = ok []
normalize_bucket_policy_principal (some raw) = principal_text (as_text raw) raw

-- The cases of the switch on the operator.
unfoldable pub is_operator : Text → Bool
is_operator operator =
    text_eq operator (codes "IpAddress")
    || (text_eq operator (codes "NotIpAddress")
        || (text_eq operator (codes "StringEquals")
            || (text_eq operator (codes "StringLike")
                || (text_eq operator (codes "StringNotEquals")
                    || text_eq operator (codes "StringNotLike")))))

-- The inner loop, over the keys of one operator.
unfoldable pub normalize_entries : Text → List (Text × Json) → Result (List BucketPolicyCondition)
unfolding nonempty
normalize_entries operator [] = ok []
normalize_entries operator ((key, raw) ∷ entries) =
    then_result (nonempty (normalize_string_or_list (some raw))) λ values.
      then_result (normalize_entries operator entries)
        λ out. ok (record { operator = operator; key = key; values = values } ∷ out)

unfoldable pub entries_of : Option (List (Text × Json)) → Result (List (Text × Json))
entries_of none = err invalid_bucket_policy
entries_of (some m) = ok m

-- The decoding of a map of maps, which comes before the loops.
unfoldable pub decode_operators : List (Text × Json) → Result (List (Text × List (Text × Json)))
unfolding entries_of
decode_operators [] = ok []
decode_operators ((operator, raw) ∷ rest) =
    then_result (entries_of (as_map raw))
      λ entries. then_result (decode_operators rest) λ out. ok ((operator, entries) ∷ out)

-- The outer loop, over the operators.
unfoldable pub normalize_operators :
    List (Text × List (Text × Json)) → Result (List BucketPolicyCondition)
normalize_operators [] = ok []
normalize_operators ((operator, entries) ∷ rest) =
    let later = normalize_operators rest in
    if is_operator operator
    then then_result (normalize_entries operator entries)
        (λ here. then_result later (λ out. ok (here ++ out)))
    else err invalid_bucket_policy

unfoldable pub normalize_bucket_policy_conditions :
    Option Json → Result (List BucketPolicyCondition)
unfolding entries_of
normalize_bucket_policy_conditions none = ok []
normalize_bucket_policy_conditions (some raw) =
    then_result (entries_of (as_map raw))
      λ operators. then_result (decode_operators operators) normalize_operators

title_first : Text → Text
title_first [] = []
title_first (c ∷ s) = (if leb b'a' c && leb c b'z' then c - 32 else c) ∷ s

-- strings.Title(strings.ToLower(strings.TrimSpace(effect))), on a text of one word; a text of several
-- words gives neither Allow nor Deny.
unfoldable pub normalize_effect : Text → Text
unfolding title_first
normalize_effect effect = title_first (to_lower (trim_space effect))

unfoldable pub is_effect : Text → Bool
is_effect effect = text_eq effect (codes "Allow") || text_eq effect (codes "Deny")

unfoldable pub normalize_bucket_policy_statement :
    BucketPolicyStatement → Result NormalizedBucketPolicyStatement
normalize_bucket_policy_statement statement =
    let effect = normalize_effect statement.effect in
    if not (is_effect effect)
    then err invalid_bucket_policy
    else then_result (normalize_bucket_policy_principal statement.principal) λ principals.
      then_result (normalize_bucket_policy_principal statement.not_principal) λ not_principals.
        if is_empty principals && is_empty not_principals
        then err invalid_bucket_policy
        else if not (is_empty principals) && not (is_empty not_principals)
        then err invalid_bucket_policy
        else then_result (nonempty (normalize_string_or_list statement.action)) λ actions.
          then_result (nonempty (normalize_string_or_list statement.resource)) λ resources.
            then_result (normalize_bucket_policy_conditions statement.condition) λ conditions.
              ok (record {
                sid = statement.sid;
                effect = effect;
                principals = principals;
                not_principals = not_principals;
                actions = actions;
                resources = resources;
                conditions = conditions;
              })

-- The loop over the statements.
unfoldable pub normalize_statements :
    List BucketPolicyStatement → Result (List NormalizedBucketPolicyStatement)
normalize_statements [] = ok []
normalize_statements (statement ∷ rest) =
    then_result (normalize_bucket_policy_statement statement)
      λ next. then_result (normalize_statements rest) λ out. ok (next ∷ out)

abbrev pub policy_version : Text
policy_version = codes "2012-10-17"

unfoldable pub normalize_parsed :
    BucketPolicyDocument → Result (NormalizedBucketPolicyDocument × BucketPolicyDocument)
normalize_parsed parsed =
    let version =
      if text_eq (trim_space parsed.version) [] then policy_version else parsed.version in
    if not (text_eq version policy_version)
    then err invalid_bucket_policy
    else if is_empty parsed.statement
    then err invalid_bucket_policy
    else then_result (normalize_statements parsed.statement) λ statement. ok (
      record { version = version; id = parsed.id; statement = statement },
      record parsed { version = version },
    )

-- The normal form, and the canonical document that is stored.
unfoldable pub normalize_bucket_policy :
    Option BucketPolicyDocument → Result (NormalizedBucketPolicyDocument × BucketPolicyDocument)
unfolding normalize_parsed
normalize_bucket_policy none = err invalid_bucket_policy
normalize_bucket_policy (some parsed) = normalize_parsed parsed

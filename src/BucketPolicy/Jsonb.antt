-- ===== src/BucketPolicy/Jsonb.antt =====
-- What a JSONB column makes of a document: bucket_policies.document of backend/migrations, which
-- internal/policies/aws_bucket_policy.go writes with `$2::jsonb` and reads with `document::text`.
--
-- PostgreSQL keeps one field for each key, the last one, and orders the fields by the length of the
-- keys and then by their bytes. The fields of the structs are decoded by their names, so that only
-- the values below them are rewritten here. A text with the character 0 is not accepted.
use harbor_shield.Prelude.{
  Bool, true, not, ◌&&◌, any, Option, none, some, map, List, [], ◌∷◌, Text, text_eq, text_le,
  byte_length, ltb, ◌==◌, if◌then◌else◌,
}
use harbor_shield.BucketPolicy.Json.{
  Json, null, boolean, number, str, arr, obj, Items, nil, cons, Fields, end, field,
}
use harbor_shield.BucketPolicy.Documents.{BucketPolicyStatement, BucketPolicyDocument}

-- The order of two different keys.
unfoldable pub key_before : Text → Text → Bool
unfolding text_le
key_before j k =
    if byte_length j == byte_length k then text_le j k else ltb (byte_length j) (byte_length k)

unfoldable pub insert_field : Text → Json → Fields → Fields
unfolding text_eq key_before
insert_field k v end = field k v end
insert_field k v (field j u fs) =
    let later = insert_field k v fs in
    if text_eq j k
    then field k v fs
    else if key_before j k
    then field j u later
    else field k v (field j u fs)

unfoldable mutual
  unfolding insert_field

  pub jsonb : Json → Json
  jsonb (arr vs) = arr (jsonb_items vs)
  jsonb (obj fs) = obj (jsonb_fields end fs)
  jsonb null = null
  jsonb (boolean b) = boolean b
  jsonb (number n) = number n
  jsonb (str s) = str s

  pub jsonb_items : Items → Items
  jsonb_items nil = nil
  jsonb_items (cons v vs) = cons (jsonb v) (jsonb_items vs)

  -- The fields, put in order among those that came before.
  pub jsonb_fields : Fields → Fields → Fields
  jsonb_fields sorted end = sorted
  jsonb_fields sorted (field k v fs) = jsonb_fields (insert_field k (jsonb v) sorted) fs

-- A json.RawMessage that is left out stays out.
unfoldable pub jsonb_raw : Option Json → Option Json
unfolding jsonb
jsonb_raw none = none
jsonb_raw (some v) = some (jsonb v)

unfoldable pub jsonb_statement : BucketPolicyStatement → BucketPolicyStatement
unfolding jsonb_raw
jsonb_statement s = record s {
  principal = jsonb_raw s.principal;
  not_principal = jsonb_raw s.not_principal;
  action = jsonb_raw s.action;
  resource = jsonb_raw s.resource;
  condition = jsonb_raw s.condition;
}

unfoldable pub jsonb_document : BucketPolicyDocument → BucketPolicyDocument
unfolding jsonb_statement
jsonb_document d = record d { statement = map jsonb_statement d.statement }

abbrev pub has_no_zero : Text → Bool
has_no_zero s = not (any (λ c. c == 0) s)

unfoldable mutual
  pub is_storable : Json → Bool
  is_storable (arr vs) = are_items_storable vs
  is_storable (obj fs) = are_fields_storable fs
  is_storable null = true
  is_storable (boolean b) = true
  is_storable (number n) = true
  is_storable (str s) = has_no_zero s

  pub are_items_storable : Items → Bool
  are_items_storable nil = true
  are_items_storable (cons v vs) = is_storable v && are_items_storable vs

  pub are_fields_storable : Fields → Bool
  are_fields_storable end = true
  are_fields_storable (field k v fs) = has_no_zero k && is_storable v && are_fields_storable fs

abbrev is_raw_storable : Option Json → Bool
is_raw_storable raw = elim raw [ none ↦ true | some v ↦ is_storable v ]

unfoldable pub is_statement_storable : BucketPolicyStatement → Bool
unfolding is_storable
is_statement_storable s =
    has_no_zero s.sid
    && has_no_zero s.effect
    && is_raw_storable s.principal
    && is_raw_storable s.not_principal
    && is_raw_storable s.action
    && is_raw_storable s.resource
    && is_raw_storable s.condition

unfoldable pub are_statements_storable : List BucketPolicyStatement → Bool
unfolding is_statement_storable
are_statements_storable [] = true
are_statements_storable (s ∷ ss) = is_statement_storable s && are_statements_storable ss

-- Whether the cast to jsonb accepts the document.
unfoldable pub is_document_storable : BucketPolicyDocument → Bool
unfolding are_statements_storable
is_document_storable d =
    has_no_zero d.version && has_no_zero d.id && are_statements_storable d.statement

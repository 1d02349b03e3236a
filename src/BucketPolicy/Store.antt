-- ===== src/BucketPolicy/Store.antt =====
-- The stored bucket policies: PutBucketPolicy, GetBucketPolicy, DeleteBucketPolicy and
-- EvaluateBucketPolicy of internal/policies/aws_bucket_policy.go.
use harbor_shield.Prelude.{
  ℕ, Bool, true, false, not, ◌&&◌, Option, none, some, List, [], ◌∷◌, Text, any, is_empty, ◌==◌,
  if◌then◌else◌,
}
use harbor_shield.Db.{Action, pure, raise, lift, statement, query, ◌>>=◌, ◌>>◌, attempt}
use harbor_shield.Db.Errors.{
  Result, ok, err, database, no_rows, invalid_bucket_policy, bucket_policy_not_found,
}
use harbor_shield.BucketPolicy.Documents.{BucketPolicyDocument, normalize_bucket_policy}
use harbor_shield.BucketPolicy.Jsonb.{jsonb_document, is_document_storable}
use harbor_shield.BucketPolicy.Evaluate.{Net, PolicyDecision, decision_none, evaluate_bucket_policy}

-- bucket_policies, by the id of the bucket, and the ids of the buckets it may refer to.
pub record PolicyTables : Type 0 where
  pub buckets : List ℕ
  pub bucket_policies : List (ℕ × BucketPolicyDocument)

unfoldable pub stored_policy : ℕ → List (ℕ × BucketPolicyDocument) → Option BucketPolicyDocument
stored_policy id [] = none
stored_policy id ((k, document) ∷ rest) = if k == id then some document else stored_policy id rest

unfoldable pub without_policy :
    ℕ → List (ℕ × BucketPolicyDocument) → List (ℕ × BucketPolicyDocument)
without_policy id [] = []
without_policy id ((k, document) ∷ rest) =
    let later = without_policy id rest in if k == id then later else (k, document) ∷ later

-- INSERT INTO bucket_policies … ON CONFLICT (bucket_id) DO UPDATE, with the document as the column
-- returns it
unfoldable pub upsert_policy_row :
    ℕ → BucketPolicyDocument → PolicyTables → Result (Unit {0}) × PolicyTables
unfolding without_policy jsonb_document is_document_storable
upsert_policy_row id document t =
    if is_document_storable document && any (λ b. b == id) t.buckets
    then (
      ok tt,
      record t {
        bucket_policies = (id, jsonb_document document) ∷ without_policy id t.bucket_policies;
      },
    )
    else (err database, t)

unfoldable pub put_bucket_policy :
    ℕ → Option BucketPolicyDocument → Action PolicyTables BucketPolicyDocument
put_bucket_policy id document = do
  (normalized, canonical) ← lift (normalize_bucket_policy document)
  if is_empty normalized.statement
      then raise invalid_bucket_policy
      else do statement (upsert_policy_row id canonical); pure canonical

unfoldable pub found_row : Option BucketPolicyDocument → Result BucketPolicyDocument
found_row none = err no_rows
found_row (some document) = ok document

-- Any error reads as ErrBucketPolicyNotFound.
abbrev pub or_not_found : Result BucketPolicyDocument → Action PolicyTables BucketPolicyDocument
or_not_found (ok document) = pure document
or_not_found (err e) = raise bucket_policy_not_found

unfoldable pub get_bucket_policy : ℕ → Action PolicyTables BucketPolicyDocument
unfolding found_row
get_bucket_policy id =
    attempt (query (λ t. found_row (stored_policy id t.bucket_policies))) or_not_found

abbrev has_policy : ℕ → PolicyTables → Bool
has_policy id t = elim (stored_policy id t.bucket_policies) [ none ↦ false | some d ↦ true ]

unfoldable pub delete_policy_row : ℕ → PolicyTables → Result Bool × PolicyTables
unfolding without_policy
delete_policy_row id t =
    (ok (has_policy id t), record t { bucket_policies = without_policy id t.bucket_policies })

unfoldable pub delete_bucket_policy : ℕ → Action PolicyTables (Unit {0})
delete_bucket_policy id = do
  affected ← statement (delete_policy_row id)
  if not affected then raise bucket_policy_not_found else pure tt

module _ (net : Net) (principal action resource : Text) (request : List (Text × Text)) where
  -- The normal form is made again from the document that was stored.
  unfoldable pub decide_by : Result BucketPolicyDocument → Action PolicyTables PolicyDecision
  decide_by (ok document) = do
    (normalized, canonical) ← lift (normalize_bucket_policy (some document))
    pure (evaluate_bucket_policy net normalized principal action resource request)
  decide_by (err bucket_policy_not_found) = pure decision_none
  decide_by (err e) = raise e

  unfoldable pub evaluate_stored_policy : ℕ → Action PolicyTables PolicyDecision
  unfolding decide_by
  evaluate_stored_policy id = attempt (get_bucket_policy id) decide_by

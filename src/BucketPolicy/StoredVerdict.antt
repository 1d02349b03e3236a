-- ===== src/BucketPolicy/StoredVerdict.antt =====
-- What a stored bucket policy decides for the requests that come after it.
use harbor_shield.Prelude.{
  ◌≡◌, refl, sym, ap, ◌∙◌, ℕ, Bool, true, false, Option, none, some, List, [], ◌∷◌, arith, Text,
  any, ◌==◌, ==_refl, if◌then◌else◌,
}
use harbor_shield.Db.{World, calm, pure, raise, lift, statement, ◌>>=◌, attempt}
use harbor_shield.Db.Errors.{then_result, Result, ok, err, database}
use harbor_shield.Db.Returns.{fails_first, later, query-eq, >>=_of_ok}
use harbor_shield.BucketPolicy.Documents.{
  BucketPolicyDocument, NormalizedBucketPolicyDocument, normalize_bucket_policy,
}
use harbor_shield.BucketPolicy.Jsonb.{jsonb_document, is_document_storable}
use harbor_shield.BucketPolicy.Ordered.{IsDocumentOrdered, jsonb_document_of_ordered}
use harbor_shield.BucketPolicy.Evaluate.{Net, PolicyDecision, decision_none, evaluate_bucket_policy}
use harbor_shield.BucketPolicy.Store.{
  PolicyTables, stored_policy, without_policy, upsert_policy_row, put_bucket_policy, found_row,
  get_bucket_policy, or_not_found, decide_by, evaluate_stored_policy,
}
use harbor_shield.BucketPolicy.NormalForm.{normalize_bucket_policy-IsNormalized}

-- The tables once the document is stored for the bucket.
pub with_policy : ℕ → BucketPolicyDocument → PolicyTables → PolicyTables
unfolding without_policy
with_policy id document t = record t {
  bucket_policies = (id, document) ∷ without_policy id t.bucket_policies;
}

unfoldable pub has_bucket : ℕ → PolicyTables → Bool
has_bucket id t = any (λ b. b == id) t.buckets

put_bucket_policy-calm :
    (id : ℕ) (d : Option BucketPolicyDocument) (n : NormalizedBucketPolicyDocument)
    (c : BucketPolicyDocument) (t : PolicyTables)
    → normalize_bucket_policy d ≡ ok (n, c)
    → is_document_storable c ≡ true
    → has_bucket id t ≡ true
    → put_bucket_policy id d (calm t) ≡ (ok c, calm (with_policy id (jsonb_document c) t))
unfolding put_bucket_policy has_bucket with_policy lift ◌>>=◌ pure raise statement upsert_policy_row
put_bucket_policy-calm id d n c t h storable bucket =
    let filled = (normalize_bucket_policy-IsNormalized d n c h).1 in
    rw (h, filled, storable, bucket)

stored_policy-without :
    (id other : ℕ) (rows : List (ℕ × BucketPolicyDocument))
    → (id == other) ≡ false
    → stored_policy other (without_policy id rows) ≡ stored_policy other rows
unfolding stored_policy without_policy
stored_policy-without id other [] h = refl
stored_policy-without id other ((k, d) ∷ rows) h =
    ground (arith, stored_policy-without id other rows h)

stored_policy-with :
    (id other : ℕ) (c : BucketPolicyDocument) (t : PolicyTables)
    → stored_policy other (with_policy id c t).bucket_policies
      ≡ (if id == other then some c else stored_policy other t.bucket_policies)
unfolding stored_policy with_policy
stored_policy-with id other c t = ground (arith, stored_policy-without id other t.bucket_policies)

module _ (net : Net) (principal action resource : Text) (request : List (Text × Text)) where
  -- What the documents say, with no database between.
  abbrev pub verdict : Option BucketPolicyDocument → Result PolicyDecision
  verdict none = ok decision_none
  verdict (some d) =
      then_result (normalize_bucket_policy (some d))
        λ (n, c). ok (evaluate_bucket_policy net n principal action resource request)

  decided :
      {N : Type 0} (r : Result (N × BucketPolicyDocument)) (f : N → PolicyDecision)
      (w : World PolicyTables)
      → ((lift r >>= λ (n, c). pure (f n)) w).0 ≡ then_result r (λ (n, c). ok (f n))
  unfolding lift pure ◌>>=◌
  decided (ok (n, c)) f w = refl
  decided (err e) f w = refl

  decide_by-found :
      (failed : Bool) (o : Option BucketPolicyDocument) (w : World PolicyTables)
      → (attempt
          (or_not_found (if failed then err database else found_row o))
          (decide_by net principal action resource request)
          w).0
        ≡ (if failed then ok decision_none else verdict o)
  unfolding attempt decide_by found_row raise pure
  decide_by-found true o w = refl
  decide_by-found false none w = refl
  decide_by-found false (some d) w =
      decided (normalize_bucket_policy (some d))
        (λ n. evaluate_bucket_policy net n principal action resource request) w

  -- The decision for a request is that of the normal form of the document that is stored for the
  -- bucket, none without a document, and the error of a document that has no normal form; but if the
  -- driver fails at the read, the decision is none, whatever is stored.
  pub evaluate_stored_policy_decides :
      (id : ℕ) (w : World PolicyTables)
      → (evaluate_stored_policy net principal action resource request id w).0 ≡ (
          if fails_first w.faults
          then ok decision_none
          else verdict (stored_policy id w.tables.bucket_policies))
  unfolding evaluate_stored_policy get_bucket_policy attempt
  evaluate_stored_policy_decides id w =
      let found =
        decide_by-found (fails_first w.faults) (stored_policy id w.tables.bucket_policies)
          (record w { faults = later w.faults }) in
      rw (query-eq (λ s. found_row (stored_policy id s.bucket_policies)) w, found)

  unmoved :
      {N : Type 0} (r : Result (N × BucketPolicyDocument)) (f : N → PolicyDecision)
      (w : World PolicyTables)
      → ((lift r >>= λ (n, c). pure (f n)) w).1 ≡ w
  unfolding lift pure ◌>>=◌
  unmoved (ok (n, c)) f w = refl
  unmoved (err e) f w = refl

  decide_by-unmoved :
      (o : Option BucketPolicyDocument) (w : World PolicyTables)
      → (attempt (or_not_found (found_row o)) (decide_by net principal action resource request) w).1
        ≡ w
  unfolding attempt decide_by found_row raise pure
  decide_by-unmoved none w = refl
  decide_by-unmoved (some d) w =
      unmoved (normalize_bucket_policy (some d))
        (λ n. evaluate_bucket_policy net n principal action resource request) w

  -- The evaluation writes nothing, and calls the driver no more than once.
  pub evaluate_stored_policy-calm :
      (id : ℕ) (t : PolicyTables)
      → (evaluate_stored_policy net principal action resource request id (calm t)).1 ≡ calm t
  unfolding evaluate_stored_policy get_bucket_policy attempt
  evaluate_stored_policy-calm id t =
      let still = decide_by-unmoved (stored_policy id t.bucket_policies) (calm t) in
      rw (query-eq (λ s. found_row (stored_policy id s.bucket_policies)) (calm t), still)

  verdict-if :
      (b : Bool) (o o' : Option BucketPolicyDocument)
      → verdict (if b then o else o') ≡ (if b then verdict o else verdict o')
  verdict-if true o o' = refl
  verdict-if false o o' = refl

  -- With a driver that does not fail, once a document with no character 0 is accepted for a bucket
  -- that exists, the bucket is decided by the normal form of the document that the JSONB column
  -- returns, which may have the fields of an object in another order, and the last of those with one
  -- key; and every other bucket is decided as before.
  pub put_bucket_policy_decides :
      (id other : ℕ) (d : Option BucketPolicyDocument) (n : NormalizedBucketPolicyDocument)
      (c : BucketPolicyDocument) (t : PolicyTables)
      → normalize_bucket_policy d ≡ ok (n, c)
      → is_document_storable c ≡ true
      → has_bucket id t ≡ true
      → ((put_bucket_policy id d >>= λ _.
            evaluate_stored_policy net principal action resource request other)
          (calm t)).0
        ≡ (if id == other
            then verdict (some (jsonb_document c))
            else (evaluate_stored_policy net principal action resource request other (calm t)).0)
  put_bucket_policy_decides id other d n c t h storable bucket =
      let stored = jsonb_document c in
      let before = evaluate_stored_policy_decides other (calm t) in
      ap (λ p. p.0)
        (>>=_of_ok (put_bucket_policy id d) _ (calm t) (calm (with_policy id stored t)) c
          (put_bucket_policy-calm id d n c t h storable bucket))
      ∙ (evaluate_stored_policy_decides other (calm (with_policy id stored t))
          ∙ (ap verdict (stored_policy-with id other stored t)
              ∙ (verdict-if (id == other) (some stored) (stored_policy other t.bucket_policies)
                  ∙ ap (λ r. if id == other then verdict (some stored) else r) (sym before))))

  -- With a driver that does not fail, once a document with no character 0, whose objects have their
  -- keys in the order of JSONB, each key once, is accepted for a bucket that exists, the normal form
  -- with which it was accepted decides for the bucket.
  pub put_bucket_policy-enforces :
      (id : ℕ) (d : Option BucketPolicyDocument) (n : NormalizedBucketPolicyDocument)
      (c : BucketPolicyDocument) (t : PolicyTables)
      → normalize_bucket_policy d ≡ ok (n, c)
      → IsDocumentOrdered c
      → is_document_storable c ≡ true
      → has_bucket id t ≡ true
      → ((put_bucket_policy id d >>= λ _.
            evaluate_stored_policy net principal action resource request id)
          (calm t)).0
        ≡ ok (evaluate_bucket_policy net n principal action resource request)
  put_bucket_policy-enforces id d n c t h ordered storable bucket =
      let again = (normalize_bucket_policy-IsNormalized d n c h).2 in
      put_bucket_policy_decides id id d n c t h storable bucket
      ∙ rw (==_refl id, jsonb_document_of_ordered c ordered, again)

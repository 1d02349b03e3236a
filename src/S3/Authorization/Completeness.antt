-- ===== src/S3/Authorization/Completeness.antt =====
-- Requests that are allowed by the tables are let through.
use harbor_shield.Prelude.{
  ◌≡◌, ◌↔◌, inl, inr, refl, ◌∙◌, ℕ, Bool, true, false, ◌||◌, Option, none, some, List, [], Text,
  codes, text_eq, Bool-cases,
}
use harbor_shield.Db.{World, calm, pure, lift, attempt}
use harbor_shield.Db.Errors.{Error, forbidden, Result, ok, err}
use harbor_shield.Policies.Tables.{Tables}
use harbor_shield.Policies.Authorize.{authorize_subject}
use harbor_shield.Policies.Authorize.Subjects.{authorize_subject_decides}
use harbor_shield.Authz.{policy_service, subject_answer, check_subject}
use harbor_shield.Authz.Guard.{may}
use harbor_shield.BucketPolicy.Evaluate.{
  Net, PolicyDecision, decision_none, decision_allow, decision_deny,
}
use harbor_shield.BucketPolicy.StoredVerdict.{
  evaluate_stored_policy_decides, evaluate_stored_policy-calm,
}
use harbor_shield.S3.Authorization.{
  AccessTables, Actor, auth_allowed, Identity, signed_by, anonymous, bad_signature, Answer,
  on_roles, on_policies, role_status, authorize_role, principal_of, or_by_policy, after_decision,
  bucket_decision, authorize_bucket_policy_aware,
}
use harbor_shield.S3.Authorization.Soundness.{
  may_by_role, is_allowed, IsGrounded, policy_verdict, authorize_bucket_policy_aware-IsGrounded,
}

module _ (subject_type subject_id fallback action resource : Text) where
  passed :
      (s : Tables) (d : Bool × Text)
      → authorize_subject subject_type subject_id fallback action resource (calm s) ≡ (ok d, calm s)
      → d.0 ≡ true
      → check_subject policy_service subject_type subject_id fallback action resource (calm s)
        ≡ (ok (d.1, none), calm s)
  unfolding check_subject attempt pure
  passed s (true, role) e h = rw e refl
  passed s (false, role) e h = absurd (cc)

  check_subject_of_may :
      (s : Tables)
      → may s subject_type subject_id fallback action resource ≡ true
      → (role : Text) × (check_subject policy_service subject_type subject_id fallback action
            resource
            (calm s)
          ≡ (ok (role, none), calm s))
  unfolding may
  check_subject_of_may s h =
      let (d, e, decision) =
        authorize_subject_decides subject_type subject_id fallback action resource s in
      (d.1, passed s d e (decision.decided ∙ h))

authorize_role_of_may :
    (actor : Actor) (action resource : Text) (t : AccessTables)
    → may_by_role t (signed_by actor) action resource ≡ true
    → is_allowed (authorize_role actor action resource (calm t)).0 ≡ true
unfolding authorize_role attempt lift on_roles role_status may_by_role
authorize_role_of_may actor action resource t h =
    let (role, e) =
      check_subject_of_may (codes "credential") actor.access_key actor.role action resource t.roles
        h in
    rw e refl

or_by_policy_of_allowed :
    (actor : Actor) (decision : PolicyDecision) (r : Result Answer)
    → is_allowed r ≡ true
    → is_allowed (or_by_policy actor decision r) ≡ true
unfolding or_by_policy
or_by_policy_of_allowed actor decision (ok (authorized, auth_allowed)) h = refl
or_by_policy_of_allowed actor decision (ok (authorized, status)) h = absurd (cc)
or_by_policy_of_allowed actor decision (err e) h = absurd (cc)

-- A check returns a role and an error value, and fails in no other way.
answer_of_check :
    (subject_type subject_id : Text) (r : Result (Bool × Text)) (w : World Tables)
    → (a : Text × Option Error) × ((subject_answer policy_service subject_type subject_id r w).0
        ≡ ok a)
unfolding pure
answer_of_check subject_type subject_id (ok (true, role)) w = (_, refl)
answer_of_check subject_type subject_id (ok (false, role)) w = (_, refl)
answer_of_check subject_type subject_id (err e) w = (_, refl)

role_status-ok :
    (actor : Actor) (a : Text × Option Error) (r : Result (Text × Option Error))
    → r ≡ ok a
    → is_allowed (or_by_policy actor decision_allow (role_status actor r)) ≡ true
unfolding role_status or_by_policy
role_status-ok actor a (ok (role, none)) h = refl
role_status-ok actor a (ok (role, some forbidden)) h = refl
role_status-ok actor a (ok (role, some e)) h = refl
role_status-ok actor a (err e) h = absurd (cc)

authorize_role_or_policy :
    (actor : Actor) (action resource : Text) (w : World AccessTables)
    → is_allowed (or_by_policy actor decision_allow (authorize_role actor action resource w).0)
      ≡ true
unfolding authorize_role attempt lift on_roles check_subject
authorize_role_or_policy actor action resource w =
    let inner : World Tables = record { tables = w.tables.roles; faults = w.faults } in
    let (r, w') =
      authorize_subject (codes "credential") actor.access_key actor.role action resource inner in
    let (a, e) = answer_of_check (codes "credential") actor.access_key r w' in
    role_status-ok actor a _ e

-- The decision is the verdict, and the world is as before.
module _ (net : Net) (request : List (Text × Text)) where
  bucket_decision-calm :
      (identity : Identity) (bucket : Option ℕ) (aws_action aws_resource : Text) (t : AccessTables)
      → bucket_decision net request identity bucket aws_action aws_resource (calm t)
        ≡ (policy_verdict net request t identity bucket aws_action aws_resource, calm t)
  unfolding bucket_decision policy_verdict pure on_policies
  bucket_decision-calm identity none aws_action aws_resource t = refl
  bucket_decision-calm identity (some bucket) aws_action aws_resource t =
      elim (Bool-cases (text_eq aws_action [] || text_eq aws_resource [])) [
        | inl blank ↦ rw blank refl
        | inr full ↦
            let decided =
              evaluate_stored_policy_decides net (principal_of identity) aws_action aws_resource
                request bucket (calm t.policies) in
            let still =
              evaluate_stored_policy-calm net (principal_of identity) aws_action aws_resource
                request bucket t.policies in
            rw full (rw (decided, still) refl)
      ]

after_decision_of_grounded :
    (identity : Identity) (action resource : Text) (d : Result PolicyDecision) (t : AccessTables)
    → IsGrounded t identity action resource d
    → is_allowed (after_decision identity action resource d (calm t)).0 ≡ true
unfolding after_decision pure attempt lift may_by_role
after_decision_of_grounded identity action resource (err e) t g =
    absurd (let (x, x_e) = g.decided in cc)
after_decision_of_grounded identity action resource (ok decision_deny) t g =
    absurd (g.not_denied refl)
after_decision_of_grounded (signed_by actor) action resource (ok decision_allow) t g =
    authorize_role_or_policy actor action resource (calm t)
after_decision_of_grounded (signed_by actor) action resource (ok decision_none) t g =
    elim g.granted [
      | inl by_role ↦
          or_by_policy_of_allowed actor decision_none _
            (authorize_role_of_may actor action resource t by_role)
      | inr by_policy ↦ absurd (cc)
    ]
after_decision_of_grounded anonymous action resource (ok decision_allow) t g = refl
after_decision_of_grounded anonymous action resource (ok decision_none) t g = elim g.granted [
  | inl h ↦ absurd (cc)
  | inr h ↦ absurd (cc)
]
after_decision_of_grounded bad_signature action resource d t g = absurd (g.signature refl)

module _ (net : Net) (request : List (Text × Text)) where
  after_calm_decision :
      (identity : Identity) (bucket : Option ℕ) (action resource aws_action aws_resource : Text)
      (t : AccessTables)
      → IsGrounded t identity action resource
          (policy_verdict net request t identity bucket aws_action aws_resource)
      → is_allowed
          (attempt
            (bucket_decision net request identity bucket aws_action aws_resource)
            (after_decision identity action resource)
            (calm t)).0
        ≡ true
  unfolding attempt
  after_calm_decision identity bucket action resource aws_action aws_resource t g =
      rw (bucket_decision-calm net request identity bucket aws_action aws_resource t)
        (after_decision_of_grounded identity action resource _ t g)

  let_through :
      (identity : Identity) (bucket : Option ℕ) (action resource aws_action aws_resource : Text)
      (t : AccessTables)
      → IsGrounded t identity action resource
          (policy_verdict net request t identity bucket aws_action aws_resource)
      → is_allowed
          (authorize_bucket_policy_aware net request identity bucket action resource aws_action
            aws_resource
            (calm t)).0
        ≡ true
  unfolding authorize_bucket_policy_aware
  let_through (signed_by actor) bucket action resource aws_action aws_resource t g =
      after_calm_decision (signed_by actor) bucket action resource aws_action aws_resource t g
  let_through anonymous bucket action resource aws_action aws_resource t g =
      after_calm_decision anonymous bucket action resource aws_action aws_resource t g
  let_through bad_signature bucket action resource aws_action aws_resource t g =
      absurd (g.signature refl)

  -- With a driver that does not fail, a request is allowed exactly if it has no bad signature, the
  -- stored bucket policy has a verdict that is not to deny, and a role of the signer grants the
  -- action on the resource or the bucket policy allows the request. (Without a bucket, or a name of
  -- the action or the resource, the verdict is none.)
  pub authorize_bucket_policy_aware_iff :
      (identity : Identity) (bucket : Option ℕ) (action resource aws_action aws_resource : Text)
      (t : AccessTables)
      → (is_allowed
            (authorize_bucket_policy_aware net request identity bucket action resource aws_action
              aws_resource
              (calm t)).0
          ≡ true)
        ↔ IsGrounded t identity action resource
            (policy_verdict net request t identity bucket aws_action aws_resource)
  authorize_bucket_policy_aware_iff identity bucket action resource aws_action aws_resource t = (
    authorize_bucket_policy_aware-IsGrounded net request identity bucket action resource aws_action
        aws_resource (calm t) refl,
    let_through identity bucket action resource aws_action aws_resource t,
  )

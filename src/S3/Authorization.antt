-- ===== src/S3/Authorization.antt =====
-- Who may make an S3 request: authorizeBucketPolicyAware, authorizeS3Request and authorizeRole of
-- internal/s3/router.go. Who signed the request, which authenticateS3Identity finds out, is an argument.
pub mod Soundness
pub mod Completeness
mod Tests
use harbor_shield.Prelude.{
  ℕ, Bool, true, false, ◌||◌, Option, none, some, List, [], Text, codes, text_eq, if◌then◌else◌,
}
use harbor_shield.Db.{World, Action, pure, lift, attempt}
use harbor_shield.Db.Errors.{Error, forbidden, Result, ok, err}
use harbor_shield.Policies.Tables.{Tables}
use harbor_shield.Authz.{policy_service, check_subject}
use harbor_shield.BucketPolicy.Evaluate.{
  Net, PolicyDecision, decision_none, decision_allow, decision_deny,
}
use harbor_shield.BucketPolicy.Store.{PolicyTables, evaluate_stored_policy}

-- The tables of the role policies and those of the bucket policies.
pub record AccessTables : Type 0 where
  pub roles : Tables
  pub policies : PolicyTables

-- The map that stands for the caller.
pub record Actor : Type 0 where
  pub role : Text
  pub user_id : Text
  pub access_key : Text

pub data AuthStatus : Type 0 where
  auth_allowed auth_unauthenticated auth_forbidden auth_bad_signature : AuthStatus

-- The answer of authenticateS3Identity.
pub data Identity : Type 0 where
  signed_by : Actor → Identity
  anonymous : Identity
  bad_signature : Identity

abbrev pub Answer : Type 0
Answer = Option Actor × AuthStatus

module _ {A : Type 0} where
  -- A method of the policy service, on the tables of the roles.
  unfoldable pub on_roles : Action Tables A → Action AccessTables A
  on_roles m w =
      let (r, w') = m (record { tables = w.tables.roles; faults = w.faults }) in
      (r, record { tables = record w.tables { roles = w'.tables }; faults = w'.faults })

  -- A method on the table of the bucket policies.
  unfoldable pub on_policies : Action PolicyTables A → Action AccessTables A
  on_policies m w =
      let (r, w') = m (record { tables = w.tables.policies; faults = w.faults }) in
      (r, record { tables = record w.tables { policies = w'.tables }; faults = w'.faults })

unfoldable pub role_status : Actor → Result (Text × Option Error) → Result Answer
role_status actor (ok (role, none)) = ok (some (record actor { role = role }), auth_allowed)
role_status actor (ok (role, some forbidden)) = ok (none, auth_forbidden)
role_status actor (ok (role, some e)) = ok (none, auth_unauthenticated)
role_status actor (err e) = err e

unfoldable pub authorize_role : Actor → Text → Text → Action AccessTables Answer
authorize_role actor action resource =
    attempt
      (on_roles (
        check_subject policy_service (codes "credential") actor.access_key actor.role action
          resource))
      (λ r. lift (role_status actor r))

unfoldable pub authorize_s3_request : Identity → Text → Text → Action AccessTables Answer
authorize_s3_request (signed_by actor) action resource = authorize_role actor action resource
authorize_s3_request anonymous action resource = pure (none, auth_unauthenticated)
authorize_s3_request bad_signature action resource = pure (none, auth_bad_signature)

-- `*` unless there is an actor with an access key.
unfoldable pub principal_of : Identity → Text
principal_of (signed_by actor) = if text_eq actor.access_key [] then codes "*" else actor.access_key
principal_of anonymous = codes "*"
principal_of bad_signature = codes "*"

-- The answer of the role, unless it refuses and the bucket policy allows.
unfoldable pub or_by_policy : Actor → PolicyDecision → Result Answer → Result Answer
or_by_policy actor decision (ok (authorized, auth_allowed)) = ok (authorized, auth_allowed)
or_by_policy actor decision_allow (ok (authorized, status)) = ok (some actor, auth_allowed)
or_by_policy actor decision (ok (authorized, status)) = ok (none, status)
or_by_policy actor decision (err e) = err e

abbrev pub public_actor : Actor
public_actor = record { role = codes "public"; user_id = []; access_key = codes "*" }

-- What follows the decision of the bucket policy; an error of it ends the request.
unfoldable pub after_decision :
    Identity → Text → Text → Result PolicyDecision → Action AccessTables Answer
after_decision identity action resource (err e) = pure (none, auth_unauthenticated)
after_decision identity action resource (ok decision_deny) = pure (none, auth_forbidden)
after_decision (signed_by actor) action resource (ok decision) =
    attempt (authorize_role actor action resource) (λ r. lift (or_by_policy actor decision r))
after_decision identity action resource (ok decision_allow) = pure (some public_actor, auth_allowed)
after_decision identity action resource (ok decision_none) = pure (none, auth_unauthenticated)

module _ (net : Net) (request : List (Text × Text)) where
  -- The bucket policy is asked if there are a bucket, an action and a resource.
  unfoldable pub bucket_decision :
      Identity → Option ℕ → Text → Text → Action AccessTables PolicyDecision
  bucket_decision identity none aws_action aws_resource = pure decision_none
  bucket_decision identity (some bucket) aws_action aws_resource =
      if text_eq aws_action [] || text_eq aws_resource []
      then pure decision_none
      else on_policies (
          evaluate_stored_policy net (principal_of identity) aws_action aws_resource request bucket)

  unfoldable pub authorize_bucket_policy_aware :
      Identity → Option ℕ → Text → Text → Text → Text → Action AccessTables Answer
  authorize_bucket_policy_aware bad_signature bucket action resource aws_action aws_resource =
      pure (none, auth_bad_signature)
  authorize_bucket_policy_aware identity bucket action resource aws_action aws_resource =
      attempt (bucket_decision identity bucket aws_action aws_resource)
        (after_decision identity action resource)

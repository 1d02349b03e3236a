-- ===== src/S3/Authorization/Soundness.antt =====
-- What has to hold where a request is allowed.
use mathlib.Core.Path.{subst}
use harbor_shield.Prelude.{
  ◌≡◌, ◌≢◌, ◌⊎◌, inl, inr, refl, sym, ap, ◌∙◌, ℕ, Bool, true, false, ◌||◌, Option, none, some, List,
  [], Text, codes, text_eq, Bool-cases, if◌then◌else◌,
}
use harbor_shield.Db.{World, pure, lift, attempt}
use harbor_shield.Db.Errors.{Error, forbidden, Result, ok, err}
use harbor_shield.Db.Returns.{fails_first}
use harbor_shield.Db.Triples.{Holds}
use harbor_shield.Policies.Tables.{Tables}
use harbor_shield.Authz.Guard.{may, IsAnswer, check_subject-Reads}
use harbor_shield.BucketPolicy.Evaluate.{
  Net, PolicyDecision, decision_none, decision_allow, decision_deny,
}
use harbor_shield.BucketPolicy.Store.{PolicyTables, stored_policy}
use harbor_shield.BucketPolicy.StoredVerdict.{verdict, evaluate_stored_policy_decides}
use harbor_shield.S3.Authorization.{
  AccessTables, Actor, auth_allowed, Identity, signed_by, anonymous, bad_signature, Answer,
  on_roles, on_policies, role_status, authorize_role, principal_of, or_by_policy, after_decision,
  bucket_decision, authorize_bucket_policy_aware,
}

-- The roles of the signer grant the action on the resource.
unfoldable pub may_by_role : AccessTables → Identity → Text → Text → Bool
may_by_role t (signed_by actor) action resource =
    may t.roles (codes "credential") actor.access_key actor.role action resource
may_by_role t anonymous action resource = false
may_by_role t bad_signature action resource = false

-- The result allows the request.
abbrev pub is_allowed : Result Answer → Bool
is_allowed (ok (actor, auth_allowed)) = true
is_allowed (ok (actor, status)) = false
is_allowed (err e) = false

-- A role allows only what it may.
abbrev RoleSound : Actor → Text → Text → AccessTables → Result Answer → Type 0
RoleSound actor action resource t r =
    is_allowed r ≡ true → may_by_role t (signed_by actor) action resource ≡ true

role_status-RoleSound :
    (actor : Actor) (action resource : Text) (t : AccessTables) (r : Result (Text × Option Error))
    → Holds
        (λ s a. IsAnswer s (codes "credential") actor.access_key actor.role action resource a)
        t.roles
        r
    → RoleSound actor action resource t (role_status actor r)
unfolding role_status may_by_role
role_status-RoleSound actor action resource t (ok (role, none)) h k = (h.passed refl).0
role_status-RoleSound actor action resource t (ok (role, some forbidden)) h k = absurd (cc)
role_status-RoleSound actor action resource t (ok (role, some e)) h k = absurd (cc)
role_status-RoleSound actor action resource t (err e) h k = absurd (cc)

authorize_role-RoleSound :
    (actor : Actor) (action resource : Text) (w : World AccessTables)
    → RoleSound actor action resource w.tables (authorize_role actor action resource w).0
unfolding authorize_role attempt lift on_roles
authorize_role-RoleSound actor action resource w =
    let inner : World Tables = record { tables = w.tables.roles; faults = w.faults } in
    role_status-RoleSound actor action resource w.tables _
      ((check_subject-Reads (codes "credential") actor.access_key actor.role action resource).at
        inner tt).1

-- The bucket policy decides and does not deny, and it or the roles of the signer allow.
pub record IsGrounded (t : AccessTables) (identity : Identity) (action resource : Text)
    (decision : Result PolicyDecision) : Type 0 where
  pub signature : identity ≢ bad_signature
  pub decided : (d : PolicyDecision) × (decision ≡ ok d)
  pub not_denied : decision ≢ ok decision_deny
  pub granted : (may_by_role t identity action resource ≡ true) ⊎ (decision ≡ ok decision_allow)

or_by_policy-allows :
    (actor : Actor) (decision : PolicyDecision) (r : Result Answer)
    → is_allowed (or_by_policy actor decision r) ≡ true
    → (is_allowed r ≡ true) ⊎ (decision ≡ decision_allow)
unfolding or_by_policy
or_by_policy-allows actor decision (ok (authorized, auth_allowed)) h = inl refl
or_by_policy-allows actor decision_allow (ok (authorized, status)) h = inr refl
or_by_policy-allows actor decision (err e) h = absurd (cc)
or_by_policy-allows actor decision_none (ok (authorized, status)) h = absurd (cc)
or_by_policy-allows actor decision_deny (ok (authorized, status)) h = absurd (cc)

signed-IsGrounded :
    (actor : Actor) (action resource : Text) (decision : PolicyDecision) (w : World AccessTables)
    → ok decision ≢ ok decision_deny
    → is_allowed (or_by_policy actor decision (authorize_role actor action resource w).0) ≡ true
    → IsGrounded w.tables (signed_by actor) action resource (ok decision)
signed-IsGrounded actor action resource decision w n h = record {
  signature = λ e. cc;
  decided = (decision, refl);
  not_denied = n;
  granted = elim (or_by_policy-allows actor decision (authorize_role actor action resource w).0 h) [
    | inl by_role ↦ inl (authorize_role-RoleSound actor action resource w by_role)
    | inr by_policy ↦ inr (ap ok by_policy)
  ];
}

after_decision-IsGrounded :
    (identity : Identity) (action resource : Text) (d : Result PolicyDecision)
    (w : World AccessTables)
    → identity ≢ bad_signature
    → is_allowed (after_decision identity action resource d w).0 ≡ true
    → IsGrounded w.tables identity action resource d
unfolding after_decision pure attempt lift
after_decision-IsGrounded identity action resource (err e) w s h = absurd (cc)
after_decision-IsGrounded identity action resource (ok decision_deny) w s h = absurd (cc)
after_decision-IsGrounded (signed_by actor) action resource (ok decision_allow) w s h =
    signed-IsGrounded actor action resource decision_allow w (λ e. cc) h
after_decision-IsGrounded (signed_by actor) action resource (ok decision_none) w s h =
    signed-IsGrounded actor action resource decision_none w (λ e. cc) h
after_decision-IsGrounded bad_signature action resource d w s h = absurd (s refl)
after_decision-IsGrounded anonymous action resource (ok decision_allow) w s h = record {
  signature = s;
  decided = (decision_allow, refl);
  not_denied = λ e. cc;
  granted = inr refl;
}
after_decision-IsGrounded anonymous action resource (ok decision_none) w s h = absurd (cc)

module _ (net : Net) (request : List (Text × Text)) where
  -- What the bucket's document says of the request: nothing without a bucket, an action or a resource.
  unfoldable pub policy_verdict :
      AccessTables → Identity → Option ℕ → Text → Text → Result PolicyDecision
  policy_verdict t identity none aws_action aws_resource = ok decision_none
  policy_verdict t identity (some bucket) aws_action aws_resource =
      if text_eq aws_action [] || text_eq aws_resource []
      then ok decision_none
      else verdict net (principal_of identity) aws_action aws_resource request
          (stored_policy bucket t.policies.bucket_policies)

  -- The decision is the verdict, and the roles are as before.
  asked :
      (identity : Identity) (bucket : Option ℕ) (aws_action aws_resource : Text)
      (w : World AccessTables)
      → fails_first w.faults ≡ false
      → ((bucket_decision net request identity bucket aws_action aws_resource w).0
          ≡ policy_verdict w.tables identity bucket aws_action aws_resource)
        × ((bucket_decision net request identity bucket aws_action aws_resource w).1.tables.roles
            ≡ w.tables.roles)
  unfolding bucket_decision policy_verdict pure on_policies
  asked identity none aws_action aws_resource w h = (refl, refl)
  asked identity (some bucket) aws_action aws_resource w h =
      elim (Bool-cases (text_eq aws_action [] || text_eq aws_resource [])) [
        | inl blank ↦ rw blank (refl, refl)
        | inr full ↦
            let inner : World PolicyTables = record {
              tables = w.tables.policies;
              faults = w.faults;
            } in
            let decided =
              evaluate_stored_policy_decides net (principal_of identity) aws_action aws_resource
                request bucket inner in
            rw full (rw (decided, h), refl)
      ]

may_by_role-roles :
    (s t : AccessTables) (identity : Identity) (action resource : Text)
    → s.roles ≡ t.roles
    → may_by_role s identity action resource ≡ may_by_role t identity action resource
unfolding may_by_role
may_by_role-roles s t (signed_by actor) action resource e =
    ap (λ r. may r (codes "credential") actor.access_key actor.role action resource) e
may_by_role-roles s t anonymous action resource e = refl
may_by_role-roles s t bad_signature action resource e = refl

IsGrounded-moved :
    (s t : AccessTables) (identity : Identity) (action resource : Text)
    (c d : Result PolicyDecision)
    → s.roles ≡ t.roles
    → c ≡ d
    → IsGrounded s identity action resource c
    → IsGrounded t identity action resource d
IsGrounded-moved s t identity action resource c d e k g = record {
  signature = g.signature;
  decided = let (x, x_e) = g.decided in (x, sym k ∙ x_e);
  not_denied = subst (λ x. x ≢ ok decision_deny) k g.not_denied;
  granted = elim g.granted [
    | inl by_role ↦ inl (sym (may_by_role-roles s t identity action resource e) ∙ by_role)
    | inr by_policy ↦ inr (sym k ∙ by_policy)
  ];
}

module _ (net : Net) (request : List (Text × Text)) (identity : Identity) (bucket : Option ℕ)
    (action resource aws_action aws_resource : Text) where
  after_asking :
      (w : World AccessTables)
      → fails_first w.faults ≡ false
      → identity ≢ bad_signature
      → is_allowed
          (attempt
            (bucket_decision net request identity bucket aws_action aws_resource)
            (after_decision identity action resource)
            w).0
        ≡ true
      → IsGrounded w.tables identity action resource
          (policy_verdict net request w.tables identity bucket aws_action aws_resource)
  unfolding attempt
  after_asking w f s h =
      let (d, w') = bucket_decision net request identity bucket aws_action aws_resource w in
      let (verdict_e, roles_e) = asked net request identity bucket aws_action aws_resource w f in
      IsGrounded-moved w'.tables w.tables identity action resource d _ roles_e verdict_e
        (after_decision-IsGrounded identity action resource d w' s h)

module _ (net : Net) (request : List (Text × Text)) where
  -- A request that is allowed has no bad signature, the verdict of the bucket policy is no error and is
  -- not to deny it, and a
  -- role of its signer grants it or the bucket policy allows it: whatever the driver does after the
  -- first call, which reads the bucket policy and does not fail.
  pub authorize_bucket_policy_aware-IsGrounded :
      (identity : Identity) (bucket : Option ℕ) (action resource aws_action aws_resource : Text)
      (w : World AccessTables)
      → fails_first w.faults ≡ false
      → is_allowed
          (authorize_bucket_policy_aware net request identity bucket action resource aws_action
            aws_resource w).0
        ≡ true
      → IsGrounded w.tables identity action resource
          (policy_verdict net request w.tables identity bucket aws_action aws_resource)
  unfolding authorize_bucket_policy_aware pure
  authorize_bucket_policy_aware-IsGrounded (signed_by actor) bucket action resource aws_action
        aws_resource w f h =
      after_asking net request (signed_by actor) bucket action resource aws_action aws_resource w f
        (λ e. cc) h
  authorize_bucket_policy_aware-IsGrounded anonymous bucket action resource aws_action aws_resource
        w f h =
      after_asking net request anonymous bucket action resource aws_action aws_resource w f
        (λ e. cc) h
  authorize_bucket_policy_aware-IsGrounded bad_signature bucket action resource aws_action
        aws_resource w f h =
      absurd (cc)

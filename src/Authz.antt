-- ===== src/Authz.antt =====
-- internal/authz: the check that the routers make before they act.
mod Tests
pub mod Guard
use harbor_shield.Prelude.{Bool, true, false, Option, none, some, ◌++◌, Text, codes}
use harbor_shield.Db.{Action, pure, attempt}
use harbor_shield.Db.Errors.{Error, forbidden, authorize_failed, Result, ok, err}
use harbor_shield.Policies.Tables.{Tables}
use harbor_shield.Policies.Authorize.{authorize_role, authorize_subject}

-- The interface PolicyAuthorizer.
pub record PolicyAuthorizer : Type 1 where
  pub State : Type 0
  pub role_allowed : Text → Text → Text → Action State Bool
  pub subject_allowed : Text → Text → Text → Text → Text → Action State (Bool × Text)

-- What internal/policies implements of it.
abbrev pub policy_service : PolicyAuthorizer
policy_service = record {
  State = Tables;
  role_allowed = authorize_role;
  subject_allowed = authorize_subject;
}

module _ (policies : PolicyAuthorizer) where
  open policies use {State, role_allowed, subject_allowed}

  -- An error that is returned is a value here: `none` is nil.
  abbrev pub role_answer : Text → Result Bool → Action State (Option Error)
  role_answer role (ok true) = pure none
  role_answer role (ok false) = pure (some forbidden)
  role_answer role (err e) = pure (some (authorize_failed (codes "role " ++ role) e))

  unfoldable pub check_role : Text → Text → Text → Action State (Option Error)
  check_role role action resource = attempt (role_allowed role action resource) (role_answer role)

  abbrev pub subject_answer :
      Text → Text → Result (Bool × Text) → Action State (Text × Option Error)
  subject_answer subject_type subject_id (ok (true, role)) = pure (role, none)
  subject_answer subject_type subject_id (ok (false, role)) = pure (role, some forbidden)
  subject_answer subject_type subject_id (err e) = pure (
    codes "",
    some (authorize_failed (codes "subject " ++ (subject_type ++ (codes "/" ++ subject_id))) e),
  )

  unfoldable pub check_subject :
      Text → Text → Text → Text → Text → Action State (Text × Option Error)
  check_subject subject_type subject_id fallback_role action resource =
      attempt (subject_allowed subject_type subject_id fallback_role action resource)
        (subject_answer subject_type subject_id)

-- ===== src/Authz/Guard.antt =====
-- The authorizer over the policy service: what a check that passes, and one that is refused, says.
use harbor_shield.Prelude.{
  ◌≡◌, refl, Bool, true, false, ◌&&◌, ◌||◌, Option, none, some, arith, Text, any, is_empty,
}
use harbor_shield.Db.Errors.{Error, forbidden, Result, ok, err}
use harbor_shield.Db.Triples.{Reads, Holds, Triple-pure, Triple-attempt, Always}
use harbor_shield.Policies.Tables.{Tables}
use harbor_shield.Policies.Authorize.Grants.{grants}
use harbor_shield.Policies.Authorize.Subjects.{bound_roles, IsDecision, authorize_subject-Reads}
use harbor_shield.Authz.{policy_service, subject_answer, check_subject}

-- A bound role grants or, where the subject has none on the resource, the fallback role does.
unfoldable pub may : Tables → Text → Text → Text → Text → Text → Bool
may t subject_type subject_id fallback action resource =
    let bound = bound_roles t subject_type subject_id resource in
    any (λ role. grants t role action resource) bound
    || (is_empty bound && grants t fallback action resource)

-- A role without an error is a role that grants, of a subject that may; ErrForbidden is for a
-- subject that may not.
pub record IsAnswer (t : Tables) (subject_type subject_id fallback action resource : Text)
    (answer : Text × Option Error) : Type 0 where
  pub passed :
      answer.1 ≡ none
      → (may t subject_type subject_id fallback action resource ≡ true)
        × (grants t answer.0 action resource ≡ true)
  pub refused :
      answer.1 ≡ some forbidden → may t subject_type subject_id fallback action resource ≡ false

module _ (subject_type subject_id fallback action resource : Text) where
  subject_answer-Reads :
      (r : Result (Bool × Text))
      → Reads
          (λ t.
            Always t
            × Holds
                (λ s d.
                  IsDecision s
                    (bound_roles s subject_type subject_id resource)
                    fallback
                    action
                    resource
                    d)
                t
                r)
          (λ t a. IsAnswer t subject_type subject_id fallback action resource a)
          (subject_answer policy_service subject_type subject_id r)
  unfolding may
  subject_answer-Reads (ok (true, role)) = Triple-pure _ λ t p. (
    refl,
    record { passed = λ e. (ground (arith, p.1.decided), p.1.granted refl); refused = λ e. cc },
  )
  subject_answer-Reads (ok (false, role)) = Triple-pure _ λ t p.
      (refl, record { passed = λ e. absurd (cc); refused = λ e. ground (arith, p.1.decided) })
  subject_answer-Reads (err e) =
      Triple-pure _ λ t p. (refl, record { passed = λ h. absurd (cc); refused = λ h. absurd (cc) })

  -- Whatever the driver does, CheckSubject writes nothing, and if it gives no error then the subject
  -- may do the action on the resource and the role that it names grants it; ErrForbidden says that
  -- the subject may not.
  pub check_subject-Reads :
      Reads Always
        (λ t a. IsAnswer t subject_type subject_id fallback action resource a)
        (check_subject policy_service subject_type subject_id fallback action resource)
  unfolding check_subject
  check_subject-Reads =
      Triple-attempt _ _ (authorize_subject-Reads subject_type subject_id fallback action resource)
        subject_answer-Reads

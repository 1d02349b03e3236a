-- ===== src/Policies/Authorize/Subjects.antt =====
-- Who is authorized: a subject by its bound roles or, where it has none, by its fallback role.
use harbor_shield.Prelude.{
  ◌≡◌, ◌⊎◌, inl, inr, refl, sym, ap, ◌∙◌, Bool, true, false, ◌&&◌, ◌||◌, List, [], ◌∷◌, map, arith,
  Text, text_eq, any, text_eq_refl, is_empty, if◌then◌else◌,
}
use harbor_shield.Db.{World, calm}
use harbor_shield.Db.Errors.{Result, ok}
use harbor_shield.Db.Triples.{
  Reads, Holds, Triple-if, Triple-pure, Reads-query, Reads-bind, Reads-weaken, Always,
}
use mathlib.Core.Path.{subst, subst₂}
use harbor_shield.Db.Succeeds.{Succeeds, Succeeds-pure, Succeeds-query, Succeeds-if, Succeeds-bind}
use harbor_shield.Policies.Authorize.Grants.{grants, authorize_role-Reads, authorize_role-Succeeds}
use harbor_shield.Policies.Tables.{Tables}
use harbor_shield.Policies.Bindings.{
  role_of, matching_bindings, roles_for_subject_resource, first_or, resolve_role,
}
use harbor_shield.Policies.Authorize.{authorize_bound, authorize_subject}

-- The roles that the subject's bindings give on the resource, the first one first.
unfoldable pub bound_roles : Tables → Text → Text → Text → List Text
bound_roles t subject_type subject_id resource =
    if text_eq subject_type [] || text_eq subject_id []
    then []
    else map role_of (matching_bindings t subject_type subject_id resource)

pub roles_for_subject_resource-Reads :
    {Pre : Tables → Type 0} (subject_type subject_id resource : Text)
    → Reads Pre
        (λ t roles. roles ≡ bound_roles t subject_type subject_id resource)
        (roles_for_subject_resource subject_type subject_id resource)
unfolding roles_for_subject_resource bound_roles
roles_for_subject_resource-Reads subject_type subject_id resource =
    Triple-if (text_eq subject_type [] || text_eq subject_id []) _ _
      (λ e. Triple-pure [] (λ t p. (refl, rw e))) (λ e. Reads-query _ (λ t p. rw e))

pub resolve_role-Reads :
    {Pre : Tables → Type 0} (subject_type subject_id fallback resource : Text)
    → Reads Pre
        (λ t role. role ≡ first_or fallback (bound_roles t subject_type subject_id resource))
        (resolve_role subject_type subject_id fallback resource)
unfolding resolve_role
resolve_role-Reads subject_type subject_id fallback resource =
    Reads-bind {P = λ t roles. roles ≡ bound_roles t subject_type subject_id resource} _ _
      (roles_for_subject_resource-Reads subject_type subject_id resource)
      λ roles. Triple-pure _ (λ t p. (refl, ap (first_or fallback) p.1))

module _ (action resource : Text) where
  -- The verdict of the loop over `bound`, with `last` tried after it.
  pub record IsLoopVerdict (t : Tables) (bound : List Text) (last : Text) (d : Bool × Text)
      : Type 0 where
    pub decided :
        d.0 ≡ (any (λ role. grants t role action resource) bound || grants t last action resource)
    pub granted : d.0 ≡ true → grants t d.1 action resource ≡ true
    pub held : d.0 ≡ true → (any (λ role. text_eq role d.1) bound ≡ true) ⊎ (d.1 ≡ last)

  verdict_last :
      (t : Tables) (last : Text) (allowed : Bool)
      → allowed ≡ grants t last action resource
      → IsLoopVerdict t [] last (allowed, last)
  unfolding any
  verdict_last t last allowed e = record {
    decided = e;
    granted = λ h. sym e ∙ h;
    held = λ h. inr refl;
  }

  verdict_here :
      (t : Tables) (role : Text) (bound : List Text) (last : Text)
      → true ≡ grants t role action resource
      → IsLoopVerdict t (role ∷ bound) last (true, role)
  unfolding any
  verdict_here t role bound last e = record {
    decided = ground arith;
    granted = λ h. sym e;
    held = λ h. inl (ground (arith, text_eq_refl role));
  }

  verdict_later :
      (t : Tables) (role : Text) (bound : List Text) (last : Text) (d : Bool × Text)
      → false ≡ grants t role action resource
      → IsLoopVerdict t bound last d
      → IsLoopVerdict t (role ∷ bound) last d
  unfolding any
  verdict_later t role bound last d e v = record {
    decided = ground (arith, v.decided);
    granted = v.granted;
    held = λ h. ground (arith, v.held h);
  }

  authorize_bound-Reads :
      (bound : List Text) (last : Text)
      → Reads Always
          (λ t d. IsLoopVerdict t bound last d)
          (authorize_bound bound last action resource)
  unfolding authorize_bound
  authorize_bound-Reads [] last =
      Reads-bind {P = λ t allowed. allowed ≡ grants t last action resource} _ _
        (authorize_role-Reads last action resource)
        λ allowed. Triple-pure _ (λ t p. (refl, verdict_last t last allowed p.1))
  authorize_bound-Reads (role ∷ bound) last =
      Reads-bind {P = λ t allowed. allowed ≡ grants t role action resource} _ _
        (authorize_role-Reads role action resource)
        λ allowed.
          Triple-if allowed _ _
            (λ e. Triple-pure _ (λ t p. (refl, verdict_here t role bound last (sym e ∙ p.1))))
            (λ e.
              Reads-weaken _ (authorize_bound-Reads bound last)
                (λ t d p v. verdict_later t role bound last d (sym e ∙ p.1) v))

-- The decision about a subject: granted exactly if one of the bound roles grants or, where there is
-- none, the fallback role does; the role named in a grant grants, and is a bound role or, where
-- there is none, the fallback role.
pub record IsDecision (t : Tables) (bound : List Text) (fallback action resource : Text)
    (d : Bool × Text) : Type 0 where
  pub decided : d.0 ≡ (
      any (λ role. grants t role action resource) bound
      || (is_empty bound && grants t fallback action resource))
  pub granted : d.0 ≡ true → grants t d.1 action resource ≡ true
  pub held :
      d.0 ≡ true → (any (λ role. text_eq role d.1) bound ≡ true) ⊎ ((bound ≡ []) × (d.1 ≡ fallback))

IsDecision-of_verdict :
    (t : Tables) (bound : List Text) (fallback action resource : Text) (d : Bool × Text)
    → IsLoopVerdict action resource t bound (first_or fallback bound) d
    → IsDecision t bound fallback action resource d
unfolding any
IsDecision-of_verdict t [] fallback action resource d v = record {
  decided = v.decided;
  granted = v.granted;
  held = λ h. ground (arith, v.held h);
}
IsDecision-of_verdict t (role ∷ roles) fallback action resource d v = record {
  decided = ground (arith, v.decided);
  granted = v.granted;
  held = λ h. ground (arith, v.held h, text_eq_refl role);
}

authorize_bound-Succeeds :
    (bound : List Text) (last action resource : Text)
    → Succeeds (authorize_bound bound last action resource)
unfolding authorize_bound
authorize_bound-Succeeds [] last action resource =
    Succeeds-bind _ _ (authorize_role-Succeeds last action resource) λ allowed. Succeeds-pure _
authorize_bound-Succeeds (role ∷ bound) last action resource =
    Succeeds-bind _ _ (authorize_role-Succeeds role action resource) λ allowed.
      Succeeds-if allowed _ _ (Succeeds-pure _)
        (authorize_bound-Succeeds bound last action resource)

pub roles_for_subject_resource-Succeeds :
    (subject_type subject_id resource : Text)
    → Succeeds (roles_for_subject_resource subject_type subject_id resource)
unfolding roles_for_subject_resource
roles_for_subject_resource-Succeeds subject_type subject_id resource =
    Succeeds-if (text_eq subject_type [] || text_eq subject_id []) _ _ (Succeeds-pure [])
      (Succeeds-query _ (λ t. (_, refl)))

module _ (subject_type subject_id fallback action resource : Text) where
  -- Whatever the driver does, AuthorizeSubject writes nothing, and a decision that it returns is
  -- right: the subject is allowed exactly if one of its bound roles grants or, where it has none on
  -- the resource, the fallback role does; if it is allowed, the role that is named grants, and is a
  -- bound role or, where there is none, the fallback role.
  pub authorize_subject-Reads :
      Reads Always
        (λ t d.
          IsDecision t (bound_roles t subject_type subject_id resource) fallback action resource d)
        (authorize_subject subject_type subject_id fallback action resource)
  unfolding authorize_subject
  authorize_subject-Reads =
      Reads-bind
        {P = λ t role. role ≡ first_or fallback (bound_roles t subject_type subject_id resource)} _
        _ (resolve_role-Reads subject_type subject_id fallback resource)
        λ last.
          Reads-bind {P = λ t bound. bound ≡ bound_roles t subject_type subject_id resource} _ _
            (roles_for_subject_resource-Reads subject_type subject_id resource)
            λ bound. Reads-weaken _ (authorize_bound-Reads action resource bound last) (λ t d p v.
              IsDecision-of_verdict t _ fallback action resource d
                (subst₂ (λ b l. IsLoopVerdict action resource t b l d) p.1 p.0.1 v))

  -- Where the driver does not fail, AuthorizeSubject returns a decision.
  pub authorize_subject-Succeeds :
      Succeeds (authorize_subject subject_type subject_id fallback action resource)
  unfolding authorize_subject resolve_role
  authorize_subject-Succeeds =
      Succeeds-bind _ _
        (Succeeds-bind _ _ (roles_for_subject_resource-Succeeds subject_type subject_id resource)
          λ roles. Succeeds-pure _)
        λ last.
          Succeeds-bind _ _ (roles_for_subject_resource-Succeeds subject_type subject_id resource)
            λ bound. authorize_bound-Succeeds bound last action resource

  -- From any tables, with a driver that does not fail, AuthorizeSubject returns a decision, writes
  -- nothing, and the decision is right: the subject is allowed exactly if one of its bound roles
  -- grants or, where it has none on the resource, the fallback role does; if it is allowed, the role
  -- that is named grants, and is a bound role or, where there is none, the fallback role.
  pub authorize_subject_decides :
      (t : Tables)
      → (d : Bool × Text) × (authorize_subject subject_type subject_id fallback action resource
            (calm t)
          ≡ (ok d, calm t))
        × IsDecision t (bound_roles t subject_type subject_id resource) fallback action resource d
  authorize_subject_decides t =
      let (d, e) = authorize_subject-Succeeds.at t in
      (
        d,
        e,
        subst
            (λ (r : Result (Bool × Text)).
              Holds
                (λ s c.
                  IsDecision s (bound_roles s subject_type subject_id resource) fallback action
                    resource c)
                t r)
            (ap (λ (r : Result (Bool × Text) × World Tables). r.0) e)
            (authorize_subject-Reads.at (calm t) tt).1,
      )

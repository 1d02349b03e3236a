-- ===== src/Policies/Authorize/Preference.antt =====
-- Which binding ResolveRole takes: one to a narrower scope before one to every resource.
use harbor_shield.Prelude.{◌≡◌, ◌∙◌, true, false, not, ◌&&◌, ◌||◌, [], Text, text_eq, any, ap, map}
use harbor_shield.Db.{World}
use harbor_shield.Db.Errors.{ok}
use harbor_shield.Db.Triples.{Reads-ok}
use harbor_shield.Policies.Tables.{Tables, SubjectBinding}
use harbor_shield.Policies.Bindings.{matching_bindings, resolve_role, first_or, role_of}
use harbor_shield.Policies.Bindings.Scopes.{is_wild, matching_bindings-WildLater, chosen_scoped}
use harbor_shield.Policies.Authorize.Subjects.{bound_roles, resolve_role-Reads}

module _ (subject_type subject_id fallback resource : Text) where
  bound_of_subject :
      (t : Tables)
      → (text_eq subject_type [] || text_eq subject_id []) ≡ false
      → bound_roles t subject_type subject_id resource
        ≡ map role_of (matching_bindings t subject_type subject_id resource)
  unfolding bound_roles
  bound_of_subject t h = rw h

  -- For a subject with a type and an id that has a binding on the resource whose scope is not the
  -- wildcard, a role that ResolveRole returns is the role of such a binding, never of the wildcard
  -- one and never the fallback.
  pub resolve_role-prefers_scope :
      (w : World Tables) (role : Text)
      → (text_eq subject_type [] || text_eq subject_id []) ≡ false
      → any (λ b. not (is_wild b)) (matching_bindings w.tables subject_type subject_id resource)
        ≡ true
      → (resolve_role subject_type subject_id fallback resource w).0 ≡ ok role
      → (b : SubjectBinding) × (is_wild b ≡ false)
        × (role ≡ b.role_name)
        × (any
              (λ c. text_eq c.resource b.resource && text_eq c.role_name b.role_name)
              (matching_bindings w.tables subject_type subject_id resource)
            ≡ true)
  resolve_role-prefers_scope w role named scoped returned =
      let (b, narrow, same, held) =
        chosen_scoped fallback (matching_bindings w.tables subject_type subject_id resource)
          (matching_bindings-WildLater w.tables subject_type subject_id resource) scoped in
      (
        b,
        narrow,
        Reads-ok _ (resolve_role-Reads subject_type subject_id fallback resource) w role returned
            ∙ (ap (first_or fallback) (bound_of_subject w.tables named) ∙ same),
        held,
      )

-- ===== src/Auth/Linked.antt =====
-- LoginOIDC of internal/auth/service.go: for which account it gives a session.
use mathlib.Core.Path.{subst}
use harbor_shield.Prelude.{
  ℕ, ◌≡◌, refl, sym, ap, ◌∙◌, ◌||◌, [], ◌∷◌, ◌++◌, is_empty, Text, codes, if◌then◌else◌,
}
use harbor_shield.Db.{World}
use harbor_shield.Db.Errors.{Result, ok, err}
use harbor_shield.Db.Triples.{Triple, Always, Triple-raise, Triple-if}
use harbor_shield.Db.Ensures.{After-bind, Triple-from, After-of_Triple}
use harbor_shield.Auth.Tables.{UserRow, AuthTables, AuthService}
use harbor_shield.Auth.Sessions.{Session}
use harbor_shield.Auth.Login.{login_oidc}
use harbor_shield.Auth.Issued.{row_of, IsSessionOf, Issued, After-issue}
use harbor_shield.Auth.Chosen.{Chosen, Settled, Triple-choose}

-- The role of a subject to which none is mapped.
abbrev pub role_or_admin : Text → Text
role_or_admin mapped_role = if is_empty mapped_role then codes "admin" else mapped_role

module _ (a : AuthService) (now : ℕ) (plain : Text) (issuer subject email mapped_role : Text) where
  -- The session of the account that was chosen, under the address that the provider gave.
  abbrev pub SignedIn : AuthTables → Result Session → AuthTables → Type 0
  SignedIn t (ok session) t' =
      (u : UserRow) × Chosen issuer subject email (role_or_admin mapped_role) t u t'.users
      × IsSessionOf a now plain (record u { email = email }) u.must_change_password session
      × (t'.refresh_tokens ≡ t.refresh_tokens ++ row_of a now plain u.id ∷ [])
  SignedIn t (err e) t' = t'.refresh_tokens ≡ t.refresh_tokens

  signed_in :
      (t s t' : AuthTables) (u : UserRow) (r : Result Session)
      → Settled issuer subject email (role_or_admin mapped_role) t (ok u) s
      → Issued a now plain (record u { email = email }) u.must_change_password s r t'
      → SignedIn t r t'
  signed_in t s t' u (ok session) h k = (
    u,
    subst (Chosen issuer subject email (role_or_admin mapped_role) t u)
        (sym (ap (λ (x : AuthTables). x.users) k.1)) h.0,
    k.0,
    ap (λ (x : AuthTables). x.refresh_tokens) k.1 ∙ ap (λ x. x ++ row_of a now plain u.id ∷ []) h.1,
  )
  signed_in t s t' u (err e) h k = ap (λ (x : AuthTables). x.refresh_tokens) k ∙ h.1

  Triple-login_oidc :
      (id salt : ℕ) (secret : Text)
      → Triple Always SignedIn
          (login_oidc a now plain id salt secret issuer subject email mapped_role)
  unfolding login_oidc
  Triple-login_oidc id salt secret =
      Triple-if (is_empty subject || is_empty email) _ _ (λ h. Triple-raise _ (λ t p. refl))
        (λ h. Triple-from _ λ t p.
          After-bind {Mid = Settled issuer subject email (role_or_admin mapped_role) t} _ _
            (After-of_Triple _ t p
              (Triple-choose issuer subject email (role_or_admin mapped_role) a id salt secret))
            (λ u. record {
              at = λ w q. signed_in t w.tables _ u _ q (
                  (After-issue a now plain (record u { email = email }) u.must_change_password
                      w.tables).at
                    w refl);
            })
            (λ e s k. ap (λ (x : AuthTables). x.refresh_tokens) k))

  -- A session that LoginOIDC returns is for the account of the subject, if there is one: in the users the
  -- role of its row becomes the mapped one, and nothing else changes. Else it is for the account that has
  -- the address: in the users its row gets the issuer, the subject and the mapped role, and nothing else
  -- changes. Else it is for a new account with the issuer, the subject, the address and the role, which
  -- is the one row that the users gain. The session names the address that came with the subject, and
  -- the tokens gain one row, of that account. On an error the tokens are as they were. This holds for
  -- all tables and failures of the database, and whether or not the address is verified.
  pub login_oidc-links :
      (id salt : ℕ) (secret : Text) (w : World AuthTables)
      → SignedIn w.tables
          (login_oidc a now plain id salt secret issuer subject email mapped_role w).0
          (login_oidc a now plain id salt secret issuer subject email mapped_role w).1.tables
  login_oidc-links id salt secret w = (Triple-login_oidc id salt secret).at w tt

-- ===== src/Auth/Issued.antt =====
-- issueSession of internal/auth/service.go: the tokens and the row that it leaves.
use harbor_shield.Prelude.{
  ℕ, ◌+◌, ◌≡◌, refl, ap, inl, inr, Bool, Option, none, some, [], ◌∷◌, ◌++◌, any, Text, ◌==◌,
  Bool-cases,
}
use harbor_shield.Db.{statement, lift, attempt, pure, ◌>>=◌}
use harbor_shield.Db.Errors.{Result, ok, err}
use harbor_shield.Db.Triples.{
  Holds, Triple-statement, Triple-attempt-lift, Triple-lift, Triple-pure,
}
use harbor_shield.Db.Ensures.{After, After-bind}
use harbor_shield.Auth.Tables.{UserRow, TokenRow, AuthTables, AuthService}
use harbor_shield.Auth.Sessions.{
  claims_of, Session, insert_token, as_store_failed, or_signing_failed, issue_session,
}

-- The row of a refresh token that was drawn.
abbrev pub row_of : AuthService → ℕ → Text → ℕ → TokenRow
row_of s now plain user_id = record {
  user_id = user_id;
  token_hash = s.hash_secret plain;
  expires_at = now + s.refresh_ttl;
}

abbrev pub add_token : TokenRow → AuthTables → AuthTables
add_token row t = record t { refresh_tokens = t.refresh_tokens ++ row ∷ [] }

module _ (s : AuthService) (now : ℕ) (plain : Text) where
  -- The access token is signed for the user, and the refresh token is what was drawn.
  pub record IsSessionOf (u : UserRow) (must_change : Bool) (session : Session) : Type 0 where
    pub signed : s.sign_claims (claims_of s now u.id u.email u.role) ≡ some session.access_token
    pub drawn : session.refresh_token ≡ plain
    pub named : session.user_id ≡ u.id
    pub email_kept : session.email ≡ u.email
    pub role_kept : session.role ≡ u.role
    pub must_change_kept : session.must_change_password ≡ must_change

  -- The session, with the token's row added; or an error, with nothing written.
  abbrev pub Issued : UserRow → Bool → AuthTables → Result Session → AuthTables → Type 0
  Issued u must_change t (ok session) t' =
      IsSessionOf u must_change session × (t' ≡ add_token (row_of s now plain u.id) t)
  Issued u must_change t (err e) t' = t' ≡ t

  abbrev Added : TokenRow → AuthTables → Result (Unit {0}) → AuthTables → Type 0
  Added row t (ok x) t' = t' ≡ add_token row t
  Added row t (err e) t' = t' ≡ t

  After-insert :
      (row : TokenRow) (t : AuthTables)
      → After
          (λ t'. t' ≡ t)
          (Added row t)
          (attempt (statement (insert_token row)) (λ r. lift (as_store_failed r)))
  unfolding insert_token
  After-insert row t = Triple-attempt-lift _ _ (
      Triple-statement _ (λ t' e. e)
        λ t' e. elim (Bool-cases (any (λ (u : UserRow). u.id == row.user_id) t'.users)) [
          | inl there ↦ rw there (ap (add_token row) e)
          | inr absent ↦ rw absent e
        ])

  signed_token :
      (o : Option Text) (t : AuthTables)
      → Holds (λ (x : AuthTables) token. o ≡ some token) t (or_signing_failed o)
  signed_token none t = tt
  signed_token (some token) t = refl

  abbrev IsSigned : UserRow → Text → Type 0
  IsSigned u token = s.sign_claims (claims_of s now u.id u.email u.role) ≡ some token

  After-store :
      (u : UserRow) (must_change : Bool) (t : AuthTables) (token : Text)
      → IsSigned u token
      → After
          (λ t'. t' ≡ t)
          (λ r t'. Issued u must_change t r t')
          (attempt
              (statement (insert_token (row_of s now plain u.id)))
              (λ r. lift (as_store_failed r))
            >>= λ _. pure (record {
              access_token = token;
              refresh_token = plain;
              must_change_password = must_change;
              user_id = u.id;
              email = u.email;
              role = u.role;
            }))
  After-store u must_change t token signed =
      After-bind {Mid = Added (row_of s now plain u.id) t} _ _ (After-insert _ t)
        (λ x. Triple-pure _ (λ t' h. (
          record {
            signed = signed;
            drawn = refl;
            named = refl;
            email_kept = refl;
            role_kept = refl;
            must_change_kept = refl;
          },
          h,
        )))
        (λ e t' h. h)

  pub After-issue :
      (u : UserRow) (must_change : Bool) (t : AuthTables)
      → After
          (λ t'. t' ≡ t)
          (λ r t'. Issued u must_change t r t')
          (issue_session s now plain u.id u.email u.role must_change)
  unfolding issue_session
  After-issue u must_change t =
      After-bind {Mid = λ r t'. (t' ≡ t) × Holds (λ (x : AuthTables) token. IsSigned u token) t r} _
        _
        (Triple-lift _
          (λ t' e. (e, signed_token (s.sign_claims (claims_of s now u.id u.email u.role)) t)))
        (λ token. record { at = λ w p. (After-store u must_change t token p.1).at w p.0 })
        (λ e t' h. h.0)

-- ===== src/Auth/Granted.antt =====
-- Login of internal/auth/service.go: to whom it gives a session.
use mathlib.Core.Path.{subst}
use harbor_shield.Prelude.{
  ℕ, ◌≡◌, refl, inl, inr, true, Option, none, some, find, Text, text_eq_iff, find-test, Bool-cases,
}
use harbor_shield.Db.{World, query, lift, attempt}
use harbor_shield.Db.Errors.{Result, ok, err}
use harbor_shield.Db.Triples.{
  Triple, Always, Reads, Holds, Triple-bind, Triple-statement, Triple-attempt-lift, Triple-lift,
}
use harbor_shield.Db.Ensures.{After, Triple-from}
use harbor_shield.Auth.Tables.{UserRow, AuthTables, AuthService}
use harbor_shield.Auth.Sessions.{Session, issue_session}
use harbor_shield.Auth.Login.{
  by_email, is_local, check_password, as_invalid_credentials, user_or_no_rows, login,
}
use harbor_shield.Auth.Issued.{row_of, add_token, IsSessionOf, Issued, After-issue}

module _ (s : AuthService) (now : ℕ) (plain : Text) where
  -- The user of the address signs in by a password, and it is the right one.
  pub record IsVerified (email password : Text) (t : AuthTables) (u : UserRow) : Type 0 where
    pub found : find (by_email email) t.users ≡ some u
    pub local : is_local u ≡ true
    pub verified : s.compare_password u.password_hash password ≡ true

  abbrev pub LoggedIn : Text → Text → AuthTables → Result Session → AuthTables → Type 0
  LoggedIn email password t (ok session) t' =
      (u : UserRow) × IsVerified email password t u
      × IsSessionOf s now plain u u.must_change_password session
      × (t' ≡ add_token (row_of s now plain u.id) t)
  LoggedIn email password t (err e) t' = t' ≡ t

  abbrev IsFound : Text → AuthTables → UserRow → Type 0
  IsFound email t u = find (by_email email) t.users ≡ some u

  IsFound-user_or_no_rows :
      (email : Text) (t : AuthTables) (o : Option UserRow)
      → find (by_email email) t.users ≡ o
      → Holds (IsFound email) t (as_invalid_credentials (user_or_no_rows o))
  IsFound-user_or_no_rows email t none e = tt
  IsFound-user_or_no_rows email t (some u) e = e

  Reads-user :
      (email : Text)
      → Reads Always (IsFound email) (
          attempt
            (query (λ t. user_or_no_rows (find (by_email email) t.users)))
            (λ r. lift (as_invalid_credentials r)))
  unfolding query
  Reads-user email =
      Triple-attempt-lift _ _ (
        Triple-statement _ (λ t p. (refl, tt))
          λ t p. (refl, IsFound-user_or_no_rows email t _ refl))

  abbrev IsChecked : Text → UserRow → Type 0
  IsChecked password u = (is_local u ≡ true) × (s.compare_password u.password_hash password ≡ true)

  check_password-IsChecked :
      (password : Text) (u : UserRow) (t : AuthTables)
      → Holds
          (λ (x : AuthTables) (y : Unit {0}). IsChecked password u)
          t
          (check_password s password u)
  unfolding check_password
  check_password-IsChecked password u t = elim (Bool-cases (is_local u)) [
    | inl here ↦ elim (Bool-cases (s.compare_password u.password_hash password)) [
      | inl right ↦ rw here (rw right (refl, refl))
      | inr wrong ↦ rw here (rw wrong tt)
    ]
    | inr elsewhere ↦ rw elsewhere tt
  ]

  LoggedIn-of_Issued :
      (email password : Text) (t t' : AuthTables) (u : UserRow) (r : Result Session)
      → IsVerified email password t u
      → Issued s now plain u u.must_change_password t r t'
      → LoggedIn email password t r t'
  LoggedIn-of_Issued email password t t' u (ok session) v h = (u, v, h.0, h.1)
  LoggedIn-of_Issued email password t t' u (err e) v h = h

  Triple-issue :
      (email password : Text) (u : UserRow)
      → Triple
          (λ t. (Always t × IsFound email t u) × IsChecked password u)
          (LoggedIn email password)
          (issue_session s now plain u.id email u.role u.must_change_password)
  unfolding by_email
  Triple-issue email password u = Triple-from _ λ t p.
      let same : u.email ≡ email =
        (text_eq_iff u.email email).0 (find-test (by_email email) t.users u p.0.1) in
      let v : IsVerified email password t u = record {
        found = p.0.1;
        local = p.1.0;
        verified = p.1.1;
      } in
      subst
        (λ e.
          After (λ t'. t' ≡ t) (λ r t'. LoggedIn email password t r t')
            (issue_session s now plain u.id e u.role u.must_change_password))
        same
        (record {
          at = λ w e.
              LoggedIn-of_Issued email password t _ u _ v
                ((After-issue s now plain u u.must_change_password t).at w e);
        })

  Triple-login :
      (email password : Text)
      → Triple Always (LoggedIn email password) (login s now plain email password)
  unfolding login
  Triple-login email password =
      Triple-bind _ _ (Reads-user email) (λ t e p. refl)
        λ user.
          Triple-bind {P = λ t x. IsChecked password user} _ _
            (Triple-lift _ (λ t p. (refl, check_password-IsChecked password user t)))
            (λ t e p. refl) (λ x. Triple-issue email password user)

  -- A session that Login returns is one of the user whose address it is, who signs in by a password
  -- and gave the right one: the access token is signed for that user, and the tables have one more
  -- row, the refresh token's, of that user and expiring after the service's time. When Login
  -- returns an error, nothing was written. This holds for all tables and failures of the database.
  pub login-grants :
      (email password : Text) (w : World AuthTables)
      → LoggedIn email password w.tables
          (login s now plain email password w).0
          (login s now plain email password w).1.tables
  login-grants email password w = (Triple-login email password).at w tt

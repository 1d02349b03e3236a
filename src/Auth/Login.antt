-- ===== src/Auth/Login.antt =====
-- Passwords and sign-in of internal/auth/service.go: EnsureBootstrapAdmin, Login, ChangePassword and
-- LoginOIDC.
use harbor_shield.Prelude.{
  byte_length, ℕ, Bool, true, false, not, ◌&&◌, ◌||◌, Option, none, some, [], ◌∷◌, ◌++◌, Text,
  codes, text_eq, is_empty, find, any, update, ltb, ◌==◌, if◌then◌else◌,
}
use harbor_shield.Db.{
  Action, pure, raise, lift, query, statement, ◌>>=◌, ◌>>◌, attempt, transaction,
}
use harbor_shield.Db.Errors.{
  database, no_rows, invalid_credentials, password_too_short, user_not_found, wrong_password,
  hashing_failed, oidc_identity_missing, Result, ok, err,
}
use harbor_shield.Auth.Tables.{UserRow, AuthTables, AuthService}
use harbor_shield.Auth.Sessions.{Session, issue_session}

abbrev pub or_hashing_failed : Option Text → Result Text
or_hashing_failed none = err hashing_failed
or_hashing_failed (some hash) = ok hash

abbrev pub user_or_no_rows : Option UserRow → Result UserRow
user_or_no_rows none = err no_rows
user_or_no_rows (some u) = ok u

-- The primary key, the unique address, and the unique subject of a provider where there is one.
unfoldable pub clashes : UserRow → UserRow → Bool
unfolding text_eq
clashes u v =
    u.id == v.id
    || (text_eq u.email v.email
        || (not (is_empty v.external_subject)
            && (text_eq u.auth_provider v.auth_provider
                && text_eq u.external_subject v.external_subject)))

unfoldable pub insert_user : UserRow → AuthTables → Result UserRow × AuthTables
unfolding clashes any
insert_user v t =
    if any (λ u. clashes u v) t.users
    then (err database, t)
    else (ok v, record t { users = t.users ++ v ∷ [] })

unfoldable pub has_superadmin : AuthTables → Bool
unfolding any text_eq
has_superadmin t = any (λ (u : UserRow). text_eq u.role (codes "superadmin")) t.users

unfoldable pub by_email : Text → UserRow → Bool
unfolding text_eq
by_email email u = text_eq u.email email

unfoldable pub is_local : UserRow → Bool
unfolding text_eq
is_local u = text_eq u.auth_provider (codes "local")

abbrev pub as_invalid_credentials : Result UserRow → Result UserRow
as_invalid_credentials (ok u) = ok u
as_invalid_credentials (err no_rows) = err invalid_credentials
as_invalid_credentials (err e) = err e

abbrev pub as_user_not_found : Result UserRow → Result UserRow
as_user_not_found (ok u) = ok u
as_user_not_found (err e) = err user_not_found

-- `UPDATE users … WHERE id = $1`
unfoldable pub rewrite_user : ℕ → (UserRow → UserRow) → AuthTables → Result (Unit {0}) × AuthTables
rewrite_user id f t = (ok tt, record t { users = update (λ (u : UserRow). u.id == id) f t.users })

-- Another row has the subject of the provider, which is unique.
unfoldable pub takes_subject : ℕ → UserRow → UserRow → Bool
unfolding text_eq
takes_subject id linked u =
    not (u.id == id)
    && (text_eq u.auth_provider linked.auth_provider
        && text_eq u.external_subject linked.external_subject)

unfoldable pub link_user : ℕ → UserRow → AuthTables → Result (Unit {0}) × AuthTables
unfolding any takes_subject rewrite_user
link_user id linked t =
    if any (takes_subject id linked) t.users
    then (err database, t)
    else rewrite_user id
        (λ u. record u {
          auth_provider = linked.auth_provider;
          external_subject = linked.external_subject;
          role = linked.role;
        })
        t

unfoldable pub is_subject : Text → Text → UserRow → Bool
unfolding text_eq
is_subject issuer subject u = text_eq u.auth_provider issuer && text_eq u.external_subject subject

module _ (s : AuthService) where
  -- `id` and `salt` are drawn.
  unfoldable pub ensure_bootstrap_admin : ℕ → ℕ → Text → Text → Action AuthTables (Unit {0})
  unfolding has_superadmin
  ensure_bootstrap_admin id salt email password = do
    there ← query (λ t. ok (has_superadmin t))
    if there then pure tt else do
      hash ← lift (or_hashing_failed (s.hash_password salt password))
      statement (
          insert_user (record {
            id = id;
            email = email;
            password_hash = hash;
            role = codes "superadmin";
            must_change_password = true;
            auth_provider = codes "local";
            external_subject = [];
          }))
      pure tt

  -- The check of the password. The comparisons that only take time are left out.
  unfoldable pub check_password : Text → UserRow → Result (Unit {0})
  unfolding is_local
  check_password password u =
      if not (is_local u)
      then err invalid_credentials
      else if not (s.compare_password u.password_hash password)
      then err invalid_credentials
      else ok tt

  unfoldable pub login : ℕ → Text → Text → Text → Action AuthTables Session
  unfolding by_email check_password
  login now plain email password = do
    user ←
        attempt (query (λ t. user_or_no_rows (find (by_email email) t.users)))
          (λ r. lift (as_invalid_credentials r))
    lift (check_password password user)
    issue_session s now plain user.id email user.role user.must_change_password

  unfoldable pub change_password : ℕ → ℕ → Text → Text → Action AuthTables (Unit {0})
  change_password salt user_id current next =
      if ltb (byte_length next) 12 then raise password_too_short else do
        user ←
            attempt (query (λ t. user_or_no_rows (find (λ (u : UserRow). u.id == user_id) t.users)))
              (λ r. lift (as_user_not_found r))
        if not (s.compare_password user.password_hash current) then raise wrong_password else do
          hash ← lift (or_hashing_failed (s.hash_password salt next))
          statement (
              rewrite_user user_id (λ u. record u {
                password_hash = hash;
                must_change_password = false;
                auth_provider = codes "local";
              }))

  -- The user of the subject: its role follows the mapped one.
  unfoldable pub known_subject : Text → UserRow → Action AuthTables UserRow
  unfolding text_eq
  known_subject role u =
      if text_eq role u.role
      then pure u
      else statement (rewrite_user u.id (λ v. record v { role = role }))
        >> pure (record u { role = role })

  -- The account with the address is linked to the subject, or one is made.
  unfoldable pub link_or_make :
      ℕ → ℕ → Text → Text → Text → Text → Text → Result UserRow → Action AuthTables UserRow
  link_or_make id salt secret issuer subject email role (ok u) =
      let linked = record u { auth_provider = issuer; external_subject = subject; role = role } in
      statement (link_user u.id linked) >> pure linked
  link_or_make id salt secret issuer subject email role (err no_rows) = do
    hash ← lift (or_hashing_failed (s.hash_password salt secret))
    statement (
        insert_user (record {
          id = id;
          email = email;
          password_hash = hash;
          role = role;
          must_change_password = false;
          auth_provider = issuer;
          external_subject = subject;
        }))
  link_or_make id salt secret issuer subject email role (err e) = raise e

  unfoldable pub oidc_user :
      ℕ → ℕ → Text → Text → Text → Text → Text → Result UserRow → Action AuthTables UserRow
  unfolding by_email known_subject link_or_make
  oidc_user id salt secret issuer subject email role (ok u) = known_subject role u
  oidc_user id salt secret issuer subject email role (err no_rows) =
      attempt (query (λ t. user_or_no_rows (find (by_email email) t.users)))
        (link_or_make id salt secret issuer subject email role)
  oidc_user id salt secret issuer subject email role (err e) = raise e

  -- `id`, `salt` and `secret` (the uuid that is hashed as a password) are drawn.
  unfoldable pub login_oidc :
      ℕ → Text → ℕ → ℕ → Text → Text → Text → Text → Text → Action AuthTables Session
  unfolding is_subject oidc_user
  login_oidc now plain id salt secret issuer subject email mapped_role =
      if is_empty subject || is_empty email then raise oidc_identity_missing else do
        let role = if is_empty mapped_role then codes "admin" else mapped_role
        user ← transaction (
            attempt (query (λ t. user_or_no_rows (find (is_subject issuer subject) t.users)))
              (oidc_user id salt secret issuer subject email role))
        issue_session s now plain user.id email user.role user.must_change_password

-- ===== src/Auth/Rotation.antt =====
-- Which operations of internal/auth/service.go can bring a refresh token back: none.
use harbor_shield.Prelude.{
  ℕ, ◌≡◌, inl, inr, Bool, false, any, text_eq, Bool-cases, All, All-snoc, All-keep, ◌==◌, Text,
}
use harbor_shield.Db.{Action, statement}
use harbor_shield.Db.Errors.{Result, ok, err, no_rows}
use harbor_shield.Db.Keeps.{
  Keeps, IsPreorder, Keeps-pure, Keeps-raise, Keeps-lift, Keeps-statement, Keeps-query, Keeps-bind,
  Keeps-attempt, Keeps-transaction, Keeps-if,
}
use harbor_shield.Auth.Tables.{UserRow, TokenRow, AuthTables, AuthService}
use harbor_shield.Auth.Sessions.{
  insert_token, with_hash, delete_tokens, issue_session, refresh, logout, logout_all,
}
use harbor_shield.Auth.Login.{
  insert_user, clashes, rewrite_user, link_user, ensure_bootstrap_admin, login, change_password,
  known_subject, takes_subject, link_or_make, oidc_user, login_oidc,
}

-- The table has no token with the hash.
abbrev pub IsGone : Text → AuthTables → Type 0
IsGone hash t = All (λ row. with_hash hash row ≡ false) t.refresh_tokens

-- A token that is gone stays so.
abbrev pub StaysGone : Text → AuthTables → AuthTables → Type 0
StaysGone hash s t = IsGone hash s → IsGone hash t

pub StaysGone-preorder : (hash : Text) → IsPreorder (StaysGone hash)
StaysGone-preorder hash = record { reflexive = λ t h. h; transitive = λ s t u f g h. g (f h) }

module _ (s : AuthService) (hash : Text) where
  abbrev KeepsGone : {A : Type 0} → Action AuthTables A → Type 0
  KeepsGone m = Keeps (StaysGone hash) m

  abbrev pre : IsPreorder (StaysGone hash)
  pre = StaysGone-preorder hash

  -- The token that is drawn is another one.
  abbrev pub IsOther : Text → Type 0
  IsOther plain = text_eq (s.hash_secret plain) hash ≡ false

  pub KeepsGone-delete : (test : TokenRow → Bool) → KeepsGone (statement (delete_tokens test))
  unfolding delete_tokens
  KeepsGone-delete test =
      Keeps-statement pre _
        (λ t h. All-keep (λ row. with_hash hash row ≡ false) _ t.refresh_tokens h)

  KeepsGone-insert :
      (row : TokenRow) → with_hash hash row ≡ false → KeepsGone (statement (insert_token row))
  unfolding insert_token
  KeepsGone-insert row other = Keeps-statement pre _ λ t.
      elim (Bool-cases (any (λ (u : UserRow). u.id == row.user_id) t.users)) [
        | inl there ↦ rw there (λ h. All-snoc _ t.refresh_tokens row h other)
        | inr absent ↦ rw absent (λ h. h)
      ]

  pub KeepsGone-issue :
      (now : ℕ) (plain : Text) (id : ℕ) (email role : Text) (must_change : Bool)
      → IsOther plain
      → KeepsGone (issue_session s now plain id email role must_change)
  unfolding issue_session
  KeepsGone-issue now plain id email role must_change other =
      Keeps-bind pre _ _ (Keeps-lift pre _) λ token.
        Keeps-bind pre _ _
          (Keeps-attempt pre _ _ (KeepsGone-insert _ other) (λ r. Keeps-lift pre _))
          (λ _. Keeps-pure pre _)

  pub KeepsGone-refresh :
      (now : ℕ) (plain token : Text) → IsOther plain → KeepsGone (refresh s now plain token)
  unfolding refresh
  KeepsGone-refresh now plain token other = Keeps-transaction pre _ (
      Keeps-bind pre _ _ (Keeps-attempt pre _ _ (Keeps-query pre _) (λ r. Keeps-lift pre _)) λ user.
        Keeps-bind pre _ _ (KeepsGone-delete _) λ _.
          Keeps-bind pre _ _ (KeepsGone-issue now plain user.id user.email user.role false other)
            (λ session. Keeps-pure pre _))

  KeepsGone-insert_user : (v : UserRow) → KeepsGone (statement (insert_user v))
  unfolding insert_user
  KeepsGone-insert_user v = Keeps-statement pre _ λ t.
      elim (Bool-cases (any (λ u. clashes u v) t.users)) [
        | inl there ↦ rw there (λ h. h)
        | inr absent ↦ rw absent (λ h. h)
      ]

  KeepsGone-rewrite : (id : ℕ) (f : UserRow → UserRow) → KeepsGone (statement (rewrite_user id f))
  unfolding rewrite_user
  KeepsGone-rewrite id f = Keeps-statement pre _ (λ t h. h)

  KeepsGone-link : (id : ℕ) (linked : UserRow) → KeepsGone (statement (link_user id linked))
  unfolding link_user rewrite_user
  KeepsGone-link id linked = Keeps-statement pre _ λ t.
      elim (Bool-cases (any (takes_subject id linked) t.users)) [
        | inl taken ↦ rw taken (λ h. h)
        | inr free ↦ rw free (λ h. h)
      ]

  pub KeepsGone-bootstrap :
      (id salt : ℕ) (email password : Text)
      → KeepsGone (ensure_bootstrap_admin s id salt email password)
  unfolding ensure_bootstrap_admin
  KeepsGone-bootstrap id salt email password = Keeps-bind pre _ _ (Keeps-query pre _) λ there.
      Keeps-if pre there _ _ (Keeps-pure pre tt) (
        Keeps-bind pre _ _ (Keeps-lift pre _)
          λ h. Keeps-bind pre _ _ (KeepsGone-insert_user _) (λ _. Keeps-pure pre tt))

  pub KeepsGone-login :
      (now : ℕ) (plain email password : Text)
      → IsOther plain
      → KeepsGone (login s now plain email password)
  unfolding login
  KeepsGone-login now plain email password other =
      Keeps-bind pre _ _ (Keeps-attempt pre _ _ (Keeps-query pre _) (λ r. Keeps-lift pre _)) λ user.
        Keeps-bind pre _ _ (Keeps-lift pre _)
          (λ _. KeepsGone-issue now plain user.id email user.role user.must_change_password other)

  pub KeepsGone-change_password :
      (salt id : ℕ) (current next : Text) → KeepsGone (change_password s salt id current next)
  unfolding change_password
  KeepsGone-change_password salt id current next = Keeps-if pre _ _ _ (Keeps-raise pre _) (
      Keeps-bind pre _ _ (Keeps-attempt pre _ _ (Keeps-query pre _) (λ r. Keeps-lift pre _)) λ user.
        Keeps-if pre _ _ _ (Keeps-raise pre _)
          (Keeps-bind pre _ _ (Keeps-lift pre _) (λ h. KeepsGone-rewrite id _)))

  module _ (salt id : ℕ) (secret issuer subject email role : Text) where
    KeepsGone-link_or_make :
        (r : Result UserRow) → KeepsGone (link_or_make s id salt secret issuer subject email role r)
    unfolding link_or_make
    KeepsGone-link_or_make (ok u) =
        Keeps-bind pre _ _ (KeepsGone-link u.id _) (λ _. Keeps-pure pre _)
    KeepsGone-link_or_make (err no_rows) =
        Keeps-bind pre _ _ (Keeps-lift pre _) (λ h. KeepsGone-insert_user _)
    KeepsGone-link_or_make (err e) = Keeps-raise pre _

    KeepsGone-oidc_user :
        (r : Result UserRow) → KeepsGone (oidc_user s id salt secret issuer subject email role r)
    unfolding oidc_user known_subject
    KeepsGone-oidc_user (ok u) =
        Keeps-if pre _ _ _ (Keeps-pure pre u)
          (Keeps-bind pre _ _ (KeepsGone-rewrite u.id _) (λ _. Keeps-pure pre _))
    KeepsGone-oidc_user (err no_rows) =
        Keeps-attempt pre _ _ (Keeps-query pre _) KeepsGone-link_or_make
    KeepsGone-oidc_user (err e) = Keeps-raise pre _

  pub KeepsGone-login_oidc :
      (now : ℕ) (plain : Text) (id salt : ℕ) (secret issuer subject email role : Text)
      → IsOther plain
      → KeepsGone (login_oidc s now plain id salt secret issuer subject email role)
  unfolding login_oidc
  KeepsGone-login_oidc now plain id salt secret issuer subject email role other =
      Keeps-if pre _ _ _ (Keeps-raise pre _) (
        Keeps-bind pre _ _
          (Keeps-transaction pre _ (
            Keeps-attempt pre _ _ (Keeps-query pre _)
              (λ r. KeepsGone-oidc_user salt id secret issuer subject email _ r)))
          (λ user.
            KeepsGone-issue now plain user.id email user.role user.must_change_password other))

  pub KeepsGone-logout : (token : Text) → KeepsGone (logout s token)
  unfolding logout
  KeepsGone-logout token = KeepsGone-delete _

  pub KeepsGone-logout_all : (id : ℕ) → KeepsGone (logout_all id)
  unfolding logout_all
  KeepsGone-logout_all id = KeepsGone-delete _

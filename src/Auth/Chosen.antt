-- ===== src/Auth/Chosen.antt =====
-- The account that LoginOIDC of internal/auth/service.go chooses, in its transaction.
use mathlib.Core.Path.{subst}
use harbor_shield.Prelude.{
  ℕ, ◌≡◌, refl, sym, ap, inl, inr, Bool, false, Option, none, some, List, [], ◌∷◌, ◌++◌, find, any,
  update, ◌==◌, if◌then◌else◌, Text, text_eq, text_eq_iff, Bool-cases,
}
use harbor_shield.Db.{statement, query, attempt, transaction}
use harbor_shield.Db.Errors.{no_rows, Result, ok, err}
use harbor_shield.Db.Triples.{
  Triple, Always, Triple-statement, Triple-lift, Triple-pure, Triple-raise, Triple-if,
}
use harbor_shield.Db.Transactions.{OnOk, Triple-committed}
use harbor_shield.Db.Ensures.{After, After-bind, After-attempt}
use harbor_shield.Auth.Tables.{UserRow, AuthTables, AuthService}
use harbor_shield.Auth.Login.{
  by_email, is_subject, user_or_no_rows, rewrite_user, link_user, takes_subject, insert_user,
  clashes, known_subject, link_or_make, oidc_user,
}

module _ (issuer subject email role : Text) where
  -- The account gets the role, and nothing else is written; nothing is, if it has the role.
  abbrev pub WithRole : List UserRow → UserRow → UserRow → List UserRow → Type 0
  WithRole before v u after =
      (u ≡ record v { role = role })
      × (after ≡ (
          if text_eq role v.role
          then before
          else update (λ (x : UserRow). x.id == v.id) (λ x. record x { role = role }) before))

  -- The account is given to the subject, with the role, in its row.
  abbrev pub Linked : List UserRow → UserRow → UserRow → List UserRow → Type 0
  Linked before v u after =
      (u ≡ record v { auth_provider = issuer; external_subject = subject; role = role })
      × (after
          ≡ update (λ (x : UserRow). x.id == v.id)
              (λ x. record x { auth_provider = issuer; external_subject = subject; role = role })
              before)

  -- An account for the subject and the address.
  pub record IsMade (u : UserRow) : Type 0 where
    pub provider : u.auth_provider ≡ issuer
    pub of_subject : u.external_subject ≡ subject
    pub address : u.email ≡ email
    pub given_role : u.role ≡ role
    pub change_free : u.must_change_password ≡ false

  -- It is made as a new row.
  abbrev pub Made : List UserRow → UserRow → List UserRow → Type 0
  Made before u after = IsMade u × (after ≡ before ++ u ∷ [])

  -- The account that was sought by the address.
  abbrev pub ByAddress : List UserRow → Option UserRow → UserRow → List UserRow → Type 0
  ByAddress before (some v) = Linked before v
  ByAddress before none = Made before

  -- The account that was sought by the subject, and only then by the address.
  abbrev pub BySubject :
      List UserRow → Option UserRow → Option UserRow → UserRow → List UserRow → Type 0
  BySubject before (some v) address = WithRole before v
  BySubject before none address = ByAddress before address

  -- The account, and the users after it was chosen.
  abbrev pub Chosen : AuthTables → UserRow → List UserRow → Type 0
  Chosen t =
      BySubject t.users (find (is_subject issuer subject) t.users) (find (by_email email) t.users)

  -- What a look-up says, an error of the driver apart.
  abbrev Sought : Option UserRow → Result UserRow → Type 0
  Sought o (ok v) = o ≡ some v
  Sought o (err no_rows) = o ≡ none
  Sought o (err e) = Unit

  user_or_no_rows-Sought : (o : Option UserRow) → Sought o (user_or_no_rows o)
  user_or_no_rows-Sought none = refl
  user_or_no_rows-Sought (some u) = refl

  After-Sought :
      (q : UserRow → Bool) (t : AuthTables)
      → After
          (λ s. s ≡ t)
          (λ r s. (s ≡ t) × Sought (find q t.users) r)
          (query (λ s. user_or_no_rows (find q s.users)))
  unfolding query
  After-Sought q t =
      Triple-statement _ (λ s e. (e, tt))
        λ s e. (
          e,
          subst (λ (x : AuthTables). Sought (find q t.users) (user_or_no_rows (find q x.users)))
              (sym e) (user_or_no_rows-Sought (find q t.users)),
        )

  module _ (t : AuthTables) where
    -- The account and the users, and the tokens as they were.
    abbrev Resolved : (UserRow → List UserRow → Type 0) → Result UserRow → AuthTables → Type 0
    Resolved P (ok u) s = P u s.users × (s.refresh_tokens ≡ t.refresh_tokens)
    Resolved P (err e) s = Unit

    -- The users are these once a value is returned, and the tokens are as they were.
    abbrev Wrote : List UserRow → Result (Unit {0}) → AuthTables → Type 0
    Wrote users (ok x) s = (s.users ≡ users) × (s.refresh_tokens ≡ t.refresh_tokens)
    Wrote users (err e) s = Unit

    After-rewrite :
        (id : ℕ) (f : UserRow → UserRow)
        → After
            (λ s. s ≡ t)
            (Wrote (update (λ (x : UserRow). x.id == id) f t.users))
            (statement (rewrite_user id f))
    unfolding rewrite_user
    After-rewrite id f =
        Triple-statement _ (λ s e. tt)
          (λ s e. (
            ap (λ (x : AuthTables). update (λ (u : UserRow). u.id == id) f x.users) e,
            ap (λ (x : AuthTables). x.refresh_tokens) e,
          ))

    After-link :
        (id : ℕ) (linked : UserRow)
        → After
            (λ s. s ≡ t)
            (Wrote (
              update
                (λ (x : UserRow). x.id == id)
                (λ x. record x {
                  auth_provider = linked.auth_provider;
                  external_subject = linked.external_subject;
                  role = linked.role;
                })
                t.users))
            (statement (link_user id linked))
    unfolding link_user rewrite_user
    After-link id linked =
        Triple-statement _ (λ s e. tt)
          λ s e. elim (Bool-cases (any (takes_subject id linked) s.users)) [
            | inl taken ↦ rw taken tt
            | inr free ↦ rw free (
              ap
                  (λ (x : AuthTables).
                    update (λ (u : UserRow). u.id == id)
                      (λ u. record u {
                        auth_provider = linked.auth_provider;
                        external_subject = linked.external_subject;
                        role = linked.role;
                      })
                      x.users)
                  e,
              ap (λ (x : AuthTables). x.refresh_tokens) e,
            )
          ]

    After-insert_user :
        (v : UserRow)
        → IsMade v
        → After (λ s. s ≡ t) (Resolved (Made t.users)) (statement (insert_user v))
    unfolding insert_user
    After-insert_user v made =
        Triple-statement _ (λ s e. tt)
          λ s e. elim (Bool-cases (any (λ u. clashes u v) s.users)) [
            | inl there ↦ rw there tt
            | inr absent ↦ rw absent (
              (made, ap (λ (x : AuthTables). x.users ++ v ∷ []) e),
              ap (λ (x : AuthTables). x.refresh_tokens) e,
            )
          ]

    module _ (a : AuthService) where
      After-known :
          (v : UserRow)
          → After (λ s. s ≡ t) (Resolved (WithRole t.users v)) (known_subject a role v)
      unfolding known_subject
      After-known v =
          Triple-if (text_eq role v.role) _ _
            (λ same. Triple-pure v (λ s e. (
              (
                ap (λ r. record v { role = r }) (sym ((text_eq_iff role v.role).0 same)),
                rw same (ap (λ (x : AuthTables). x.users) e),
              ),
              ap (λ (x : AuthTables). x.refresh_tokens) e,
            )))
            (λ other.
              After-bind
                {Mid = Wrote
                  (update (λ (x : UserRow). x.id == v.id) (λ x. record x { role = role }) t.users)}
                _ _ (After-rewrite v.id _) (λ x. Triple-pure _ (λ s k. ((refl, rw other k.0), k.1)))
                (λ e s k. tt))

      module _ (id salt : ℕ) (secret : Text) where
        After-link_or_make :
            (o : Option UserRow) (r : Result UserRow)
            → Sought o r
            → After
                (λ s. s ≡ t)
                (Resolved (ByAddress t.users o))
                (link_or_make a id salt secret issuer subject email role r)
        unfolding link_or_make
        After-link_or_make o (ok v) h = rw h (
            After-bind _ _
              (After-link v.id
                (record v { auth_provider = issuer; external_subject = subject; role = role }))
              (λ x. Triple-pure _ (λ s k. ((refl, k.0), k.1))) (λ e s k. tt))
        After-link_or_make o (err no_rows) h = rw h (
            After-bind {Mid = λ r s. s ≡ t} _ _ (Triple-lift _ (λ s e. e))
              (λ hash. After-insert_user _ (record {
                provider = refl;
                of_subject = refl;
                address = refl;
                given_role = refl;
                change_free = refl;
              }))
              (λ e s k. tt))
        After-link_or_make o (err e) h = Triple-raise _ (λ s k. tt)

        After-oidc_user :
            (o : Option UserRow) (r : Result UserRow)
            → Sought o r
            → After
                (λ s. s ≡ t)
                (Resolved (BySubject t.users o (find (by_email email) t.users)))
                (oidc_user a id salt secret issuer subject email role r)
        unfolding oidc_user
        After-oidc_user o (ok v) h = rw h (After-known v)
        After-oidc_user o (err no_rows) h = rw h (
            After-attempt _ _ (After-Sought (by_email email) t)
              (λ r. record { at = λ w p. (After-link_or_make _ r p.1).at w p.0 }))
        After-oidc_user o (err e) h = Triple-raise _ (λ s k. tt)

  -- The account that was chosen, or an error and the tables as they were.
  abbrev pub Settled : AuthTables → Result UserRow → AuthTables → Type 0
  Settled t (ok u) s = Chosen t u s.users × (s.refresh_tokens ≡ t.refresh_tokens)
  Settled t (err e) s = s ≡ t

  Settled-of_Resolved :
      (t : AuthTables) (r : Result UserRow) (s : AuthTables)
      → Resolved t (Chosen t) r s
      → OnOk Settled t r s
  Settled-of_Resolved t (ok u) s h = h
  Settled-of_Resolved t (err e) s h = tt

  pub Triple-choose :
      (a : AuthService) (id salt : ℕ) (secret : Text)
      → Triple Always Settled (
          transaction (
            attempt
              (query (λ t. user_or_no_rows (find (is_subject issuer subject) t.users)))
              (oidc_user a id salt secret issuer subject email role)))
  Triple-choose a id salt secret =
      Triple-committed _ (λ t e p. refl)
        (record {
          at = λ w p. Settled-of_Resolved w.tables _ _ (
              (After-attempt {Post = Resolved w.tables (Chosen w.tables)} _ _
                  (After-Sought (is_subject issuer subject) w.tables)
                  (λ r. record {
                    at = λ w' q. (After-oidc_user w.tables a id salt secret _ r q.1).at w' q.0;
                  })).at
                w refl);
        })

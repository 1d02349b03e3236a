-- ===== src/Auth/Revoked.antt =====
-- A refresh token that was used, or that its owner logged out, is refused from then on: Refresh
-- and Logout of internal/auth/service.go with whatever is called between.
use harbor_shield.Prelude.{
  ℕ, ◌≡◌, refl, inl, inr, false, not, none, List, [], ◌∷◌, find, keep, Text, Bool-cases, All,
}
use harbor_shield.Db.{World, Action, statement, query, lift, attempt}
use harbor_shield.Db.Errors.{Result, ok, err}
use harbor_shield.Db.Keeps.{Keeps, Keeps-bind, Keeps-pure, Keeps-lift, Keeps-attempt}
use harbor_shield.Db.Triples.{Always, Triple-statement, Triple-attempt-lift}
use harbor_shield.Db.Transactions.{Triple-transaction}
use harbor_shield.Db.Ensures.{After, After-bind}
use harbor_shield.Auth.Tables.{TokenRow, AuthTables, AuthService}
use harbor_shield.Auth.Sessions.{
  with_hash, delete_tokens, is_live, token_owner, as_invalid_token, refresh, logout, logout_all,
}
use harbor_shield.Auth.Login.{ensure_bootstrap_admin, login, change_password, login_oidc}
use harbor_shield.Auth.Rotation.{
  IsGone, StaysGone, StaysGone-preorder, IsOther, KeepsGone-issue, KeepsGone-refresh,
  KeepsGone-bootstrap, KeepsGone-login, KeepsGone-change_password, KeepsGone-login_oidc,
  KeepsGone-logout, KeepsGone-logout_all,
}

pub data AuthCall : Type 0 where
  bootstrapping : (id salt : ℕ) → (email password : Text) → AuthCall
  logging_in : (now : ℕ) → (plain email password : Text) → AuthCall
  logging_in_oidc :
      (now : ℕ)
      → (plain : Text) → (id salt : ℕ) → (secret issuer subject email role : Text) → AuthCall
  refreshing : (now : ℕ) → (plain token : Text) → AuthCall
  logging_out : (token : Text) → AuthCall
  logging_out_all : (user_id : ℕ) → AuthCall
  changing_password : (salt user_id : ℕ) → (current next : Text) → AuthCall

abbrev done : {A : Type 0} → Result A → Result (Unit {0})
done (ok a) = ok tt
done (err e) = err e

abbrev silently : {A : Type 0} → Action AuthTables A → Action AuthTables (Unit {0})
silently m = attempt m (λ r. lift (done r))

-- An error is returned.
abbrev pub IsRefused : {A : Type 0} → Result A → Type 0
IsRefused (ok a) = ⊥
IsRefused (err e) = Unit

module _ (s : AuthService) where
  -- A call, of which only the error is looked at.
  unfoldable pub perform : AuthCall → Action AuthTables (Unit {0})
  perform (bootstrapping id salt email password) = ensure_bootstrap_admin s id salt email password
  perform (logging_in now plain email password) = silently (login s now plain email password)
  perform (logging_in_oidc now plain id salt secret issuer subject email role) =
      silently (login_oidc s now plain id salt secret issuer subject email role)
  perform (refreshing now plain token) = silently (refresh s now plain token)
  perform (logging_out token) = logout s token
  perform (logging_out_all user_id) = logout_all user_id
  perform (changing_password salt user_id current next) =
      change_password s salt user_id current next

  -- The calls one after another, whatever each of them returns.
  unfoldable pub perform_calls : World AuthTables → List AuthCall → World AuthTables
  unfolding perform
  perform_calls w [] = w
  perform_calls w (c ∷ calls) = perform_calls (perform c w).1 calls

  module _ (hash : Text) where
    -- No refresh token with the hash is drawn.
    abbrev pub DrawsOther : AuthCall → Type 0
    DrawsOther (logging_in now plain email password) = IsOther s hash plain
    DrawsOther (logging_in_oidc now plain id salt secret issuer subject email role) =
        IsOther s hash plain
    DrawsOther (refreshing now plain token) = IsOther s hash plain
    DrawsOther _ = Unit

    -- A refresh with the token or a logout of it.
    abbrev pub Spends : AuthCall → Type 0
    Spends (refreshing now plain token) = s.hash_secret token ≡ hash
    Spends (logging_out token) = s.hash_secret token ≡ hash
    Spends _ = ⊥

    silently-Keeps :
        {A : Type 0} (m : Action AuthTables A)
        → Keeps (StaysGone hash) m
        → Keeps (StaysGone hash) (silently m)
    silently-Keeps m h =
        Keeps-attempt (StaysGone-preorder hash) m _ h (λ r. Keeps-lift (StaysGone-preorder hash) _)

    perform-Keeps : (c : AuthCall) → DrawsOther c → Keeps (StaysGone hash) (perform c)
    unfolding perform
    perform-Keeps (bootstrapping id salt email password) h =
        KeepsGone-bootstrap s hash id salt email password
    perform-Keeps (logging_in now plain email password) h =
        silently-Keeps _ (KeepsGone-login s hash now plain email password h)
    perform-Keeps (logging_in_oidc now plain id salt secret issuer subject email role) h =
        silently-Keeps _
          (KeepsGone-login_oidc s hash now plain id salt secret issuer subject email role h)
    perform-Keeps (refreshing now plain token) h =
        silently-Keeps _ (KeepsGone-refresh s hash now plain token h)
    perform-Keeps (logging_out token) h = KeepsGone-logout s hash token
    perform-Keeps (logging_out_all user_id) h = KeepsGone-logout_all s hash user_id
    perform-Keeps (changing_password salt user_id current next) h =
        KeepsGone-change_password s hash salt user_id current next

    perform_calls-IsGone :
        (w : World AuthTables) (calls : List AuthCall)
        → All DrawsOther calls
        → IsGone hash w.tables
        → IsGone hash (perform_calls w calls).tables
    unfolding perform_calls
    perform_calls-IsGone w [] h g = g
    perform_calls-IsGone w (c ∷ calls) h g =
        perform_calls-IsGone (perform c w).1 calls h.1 ((perform-Keeps c h.0).at w g)

    -- If a value is returned, the token is gone.
    abbrev GoneIfOk : {A : Type 0} → Result A → AuthTables → Type 0
    GoneIfOk (ok a) t = IsGone hash t
    GoneIfOk (err e) t = Unit

    GoneIfOk-of_gone : {A : Type 0} (r : Result A) (t : AuthTables) → IsGone hash t → GoneIfOk r t
    GoneIfOk-of_gone (ok a) t h = h
    GoneIfOk-of_gone (err e) t h = tt

    GoneIfOk-done :
        {A : Type 0} (r : Result A) (t : AuthTables) → GoneIfOk r t → GoneIfOk (done r) t
    GoneIfOk-done (ok a) t h = h
    GoneIfOk-done (err e) t h = h

    Triple-done :
        {A : Type 0} (m : Action AuthTables A)
        → After Always GoneIfOk m
        → After Always (λ r t. GoneIfOk (done r) t) m
    Triple-done m h = record { at = λ w p. GoneIfOk-done (m w).0 (m w).1.tables (h.at w p) }

    deleted :
        (rows : List TokenRow)
        → All (λ row. with_hash hash row ≡ false) (keep (λ row. not (with_hash hash row)) rows)
    deleted [] = tt
    deleted (row ∷ rows) = elim (Bool-cases (with_hash hash row)) [
      | inl there ↦ rw there (deleted rows)
      | inr other ↦ rw other (other, deleted rows)
    ]

    After-delete : After Always GoneIfOk (statement (delete_tokens (with_hash hash)))
    unfolding delete_tokens
    After-delete = Triple-statement _ (λ t p. tt) (λ t p. deleted t.refresh_tokens)

    -- What follows the DELETE.
    After-kept :
        {A : Type 0} (m : Action AuthTables A)
        → Keeps (StaysGone hash) m
        → After (λ t. IsGone hash t) GoneIfOk m
    After-kept m h = record { at = λ w g. GoneIfOk-of_gone (m w).0 (m w).1.tables (h.at w g) }

    After-refresh :
        (now : ℕ) (plain token : Text)
        → IsOther s hash plain
        → s.hash_secret token ≡ hash
        → After Always GoneIfOk (refresh s now plain token)
    unfolding refresh
    After-refresh now plain token other e = rw e (
        Triple-transaction _ (λ t x p. tt)
          (After-bind {Mid = λ r t. Unit {0}} _ _ (record { at = λ w p. tt })
            (λ user.
              After-bind {Mid = GoneIfOk} _ _ After-delete
                (λ _. After-kept _ (
                  Keeps-bind (StaysGone-preorder hash) _ _
                    (KeepsGone-issue s hash now plain user.id user.email user.role false other)
                    (λ session. Keeps-pure (StaysGone-preorder hash) _)))
                (λ x t h. tt))
            (λ x t h. tt)))

    After-spend : (c : AuthCall) → DrawsOther c → Spends c → After Always GoneIfOk (perform c)
    unfolding perform logout
    After-spend (refreshing now plain token) other e =
        Triple-attempt-lift _ _ (Triple-done _ (After-refresh now plain token other e))
    After-spend (logging_out token) other e = rw e After-delete
    After-spend (bootstrapping id salt email password) other e = absurd e
    After-spend (logging_in now plain email password) other e = absurd e
    After-spend (logging_in_oidc now plain id salt secret issuer subject email role) other e =
        absurd e
    After-spend (logging_out_all user_id) other e = absurd e
    After-spend (changing_password salt user_id current next) other e = absurd e

    -- No token with the hash is found.
    none_found :
        (now : ℕ) (rows : List TokenRow)
        → All (λ row. with_hash hash row ≡ false) rows
        → find (is_live now hash) rows ≡ none
    unfolding is_live
    none_found now [] h = refl
    none_found now (row ∷ rows) h = rw h.0 (none_found now rows h.1)

    After-no_owner :
        (now : ℕ)
        → After
            (λ t. IsGone hash t)
            (λ r t. IsRefused r)
            (attempt (query (token_owner now hash)) (λ r. lift (as_invalid_token r)))
    unfolding query token_owner
    After-no_owner now =
        Triple-attempt-lift _ _
          (Triple-statement _ (λ t g. tt) (λ t g. rw (none_found now t.refresh_tokens g) tt))

    After-IsRefused :
        (now : ℕ) (plain token : Text)
        → s.hash_secret token ≡ hash
        → After (λ t. IsGone hash t) (λ r t. IsRefused r) (refresh s now plain token)
    unfolding refresh
    After-IsRefused now plain token e = rw e (
        Triple-transaction _ (λ t x p. tt)
          (After-bind {Mid = λ r t. IsRefused r} _ _ (After-no_owner now)
            (λ user. record { at = λ w p. absurd p }) (λ x t h. tt)))

    IsGone-of_ok :
        (r : Result (Unit {0})) (t : AuthTables) → GoneIfOk r t → r ≡ ok tt → IsGone hash t
    IsGone-of_ok (ok u) t h e = h
    IsGone-of_ok (err x) t h e = absurd (cc)

    -- After a Refresh that returned a pair, or a Logout that returned, the secret it was called with is
    -- refused by every later Refresh, whatever calls of the service stand between, whatever they
    -- return, and whichever statements fail, if no token that is drawn has the secret's hash. The
    -- calls run one after another.
    pub spent-IsRefused :
        (w : World AuthTables) (c : AuthCall) (calls : List AuthCall)
        → Spends c
        → (perform c w).0 ≡ ok tt
        → All DrawsOther (c ∷ calls)
        → (now : ℕ) (plain token : Text) → s.hash_secret token ≡ hash
        → IsRefused (refresh s now plain token (perform_calls (perform c w).1 calls)).0
    spent-IsRefused w c calls spends returned others now plain token e =
        (After-IsRefused now plain token e).at (perform_calls (perform c w).1 calls) (
          perform_calls-IsGone (perform c w).1 calls others.1
            (IsGone-of_ok _ _ ((After-spend c others.0 spends).at w tt) returned))

-- ===== src/Auth/Rotated.antt =====
-- Refresh of internal/auth/service.go: for whom it gives new tokens, and what it takes away.
use harbor_shield.Prelude.{ℕ, ◌≡◌, refl, ap, false, not, Option, none, some, find, keep, Text, ◌==◌}
use harbor_shield.Db.{World, statement, query, lift, attempt}
use harbor_shield.Db.Errors.{Result, ok, err}
use harbor_shield.Db.Triples.{
  Triple, Always, Reads, Holds, Triple-bind, Triple-statement, Triple-attempt-lift, Triple-pure,
}
use harbor_shield.Db.Transactions.{Triple-committed}
use harbor_shield.Db.Ensures.{After, After-bind, Triple-from}
use harbor_shield.Auth.Tables.{UserRow, TokenRow, AuthTables, AuthService}
use harbor_shield.Auth.Sessions.{
  claims_of, TokenPair, with_hash, delete_tokens, is_live, token_owner, owner, owner_of,
  as_invalid_token, refresh,
}
use harbor_shield.Auth.Issued.{row_of, add_token, Issued, After-issue}

module _ (s : AuthService) (now : ℕ) (plain : Text) where
  -- A token with the hash that has not expired, and the user it belongs to.
  pub record IsOwner (hash : Text) (t : AuthTables) (u : UserRow) : Type 0 where
    pub row : TokenRow
    pub found : find (is_live now hash) t.refresh_tokens ≡ some row
    pub owned : find (λ (v : UserRow). v.id == row.user_id) t.users ≡ some u

  abbrev pub spend : Text → AuthTables → AuthTables
  spend hash t = record t {
    refresh_tokens = keep (λ row. not (with_hash hash row)) t.refresh_tokens;
  }

  abbrev pub Rotated : Text → AuthTables → Result TokenPair → AuthTables → Type 0
  Rotated hash t (ok pair) t' =
      (u : UserRow) × IsOwner hash t u
      × (s.sign_claims (claims_of s now u.id u.email u.role) ≡ some pair.access_token)
      × (pair.refresh_token ≡ plain)
      × (t' ≡ add_token (row_of s now plain u.id) (spend hash t))
  Rotated hash t (err e) t' = t' ≡ t

  user_row-IsOwner :
      (hash : Text) (t : AuthTables) (row : TokenRow) (v : Option UserRow)
      → find (is_live now hash) t.refresh_tokens ≡ some row
      → find (λ (v : UserRow). v.id == row.user_id) t.users ≡ v
      → Holds (IsOwner hash) t (as_invalid_token (owner v))
  user_row-IsOwner hash t row none e k = tt
  user_row-IsOwner hash t row (some u) e k = record { row = row; found = e; owned = k }

  token_row-IsOwner :
      (hash : Text) (t : AuthTables) (o : Option TokenRow)
      → find (is_live now hash) t.refresh_tokens ≡ o
      → Holds (IsOwner hash) t (as_invalid_token (owner_of o t.users))
  token_row-IsOwner hash t none e = tt
  token_row-IsOwner hash t (some row) e = user_row-IsOwner hash t row _ e refl

  Reads-IsOwner :
      (hash : Text)
      → Reads Always
          (IsOwner hash)
          (attempt (query (token_owner now hash)) (λ r. lift (as_invalid_token r)))
  unfolding query token_owner
  Reads-IsOwner hash =
      Triple-attempt-lift _ _
        (Triple-statement _ (λ t p. (refl, tt)) λ t p. (refl, token_row-IsOwner hash t _ refl))

  abbrev Spent : Text → AuthTables → Result (Unit {0}) → AuthTables → Type 0
  Spent hash t (ok x) t' = t' ≡ spend hash t
  Spent hash t (err e) t' = Unit

  After-spend :
      (hash : Text) (t : AuthTables)
      → After (λ t'. t' ≡ t) (Spent hash t) (statement (delete_tokens (with_hash hash)))
  unfolding delete_tokens
  After-spend hash t = Triple-statement _ (λ t' e. tt) (λ t' e. ap (spend hash) e)

  Triple-refresh :
      (token : Text) → Triple Always (Rotated (s.hash_secret token)) (refresh s now plain token)
  unfolding refresh
  Triple-refresh token =
      let hash = s.hash_secret token in
      Triple-committed _ (λ t e p. refl)
        (Triple-bind _ _ (Reads-IsOwner hash) (λ t e p. tt)
          λ u. Triple-from _ λ t p.
            After-bind {Mid = Spent hash t} _ _ (record { at = λ w e. (After-spend hash t).at w e })
              (λ x.
                After-bind {Mid = Issued s now plain u false (spend hash t)} _ _
                  (After-issue s now plain u false (spend hash t))
                  (λ session. Triple-pure _ (λ t' h. (u, p.1, h.0.signed, h.0.drawn, h.1)))
                  (λ e t' h. tt))
              (λ e t' h. tt))

  -- A pair that Refresh returns is made for the owner of a token with the given secret that has not
  -- expired: the access token is signed for the owner, the tables lose every token with that secret
  -- and gain the new one. When Refresh returns an error, the tables are as they were, whichever
  -- statement failed.
  pub refresh-rotates :
      (token : Text) (w : World AuthTables)
      → Rotated
          (s.hash_secret token)
          w.tables
          (refresh s now plain token w).0
          (refresh s now plain token w).1.tables
  refresh-rotates token w = (Triple-refresh token).at w tt

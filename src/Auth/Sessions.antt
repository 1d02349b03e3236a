-- ===== src/Auth/Sessions.antt =====
-- The sessions of internal/auth/service.go: issueSession, Refresh, Logout and LogoutAll.
use harbor_shield.Prelude.{
  ℕ, ◌+◌, Bool, false, not, ◌&&◌, Option, none, some, List, [], ◌∷◌, ◌++◌, Text, codes, text_eq,
  keep, find, any, ltb, ◌==◌, if◌then◌else◌,
}
use harbor_shield.Db.{Action, pure, lift, query, statement, ◌>>=◌, ◌>>◌, attempt, transaction}
use harbor_shield.Db.Errors.{
  database, no_rows, signing_failed, store_refresh_token_failed, invalid_refresh_token, Result, ok,
  err,
}
use harbor_shield.Auth.Tables.{TokenClaims, UserRow, TokenRow, AuthTables, AuthService}

pub record Session : Type 0 where
  pub access_token : Text
  pub refresh_token : Text
  pub must_change_password : Bool
  pub user_id : ℕ
  pub email : Text
  pub role : Text

-- The access and the refresh token that Refresh returns.
pub record TokenPair : Type 0 where
  pub access_token : Text
  pub refresh_token : Text

abbrev pub or_signing_failed : Option Text → Result Text
or_signing_failed none = err signing_failed
or_signing_failed (some token) = ok token

-- The user id is a foreign key.
unfoldable pub insert_token : TokenRow → AuthTables → Result (Unit {0}) × AuthTables
unfolding any
insert_token row t =
    if any (λ (u : UserRow). u.id == row.user_id) t.users
    then (ok tt, record t { refresh_tokens = t.refresh_tokens ++ row ∷ [] })
    else (err database, t)

abbrev pub as_store_failed : Result (Unit {0}) → Result (Unit {0})
as_store_failed (ok _) = ok tt
as_store_failed (err e) = err store_refresh_token_failed

abbrev pub with_hash : Text → TokenRow → Bool
with_hash hash row = text_eq row.token_hash hash

unfoldable pub delete_tokens : (TokenRow → Bool) → AuthTables → Result (Unit {0}) × AuthTables
delete_tokens test t =
    (ok tt, record t { refresh_tokens = keep (λ row. not (test row)) t.refresh_tokens })

abbrev pub owner : Option UserRow → Result UserRow
owner none = err no_rows
owner (some u) = ok u

abbrev pub owner_of : Option TokenRow → List UserRow → Result UserRow
owner_of none users = err no_rows
owner_of (some row) users = owner (find (λ (u : UserRow). u.id == row.user_id) users)

unfoldable pub is_live : ℕ → Text → TokenRow → Bool
unfolding text_eq
is_live now hash row = with_hash hash row && ltb now row.expires_at

-- The user of a token that has not expired. The user of a token is there (a foreign key).
unfoldable pub token_owner : ℕ → Text → AuthTables → Result UserRow
unfolding is_live
token_owner now hash t = owner_of (find (is_live now hash) t.refresh_tokens) t.users

abbrev pub as_invalid_token : Result UserRow → Result UserRow
as_invalid_token (ok u) = ok u
as_invalid_token (err e) = err invalid_refresh_token

-- The claims that signToken signs.
abbrev pub claims_of : AuthService → ℕ → ℕ → Text → Text → TokenClaims
claims_of s now user_id email role = record {
  user_id = user_id;
  role = role;
  email = email;
  subject_type = codes "user";
  subject_id = user_id;
  subject = user_id;
  issuer = s.issuer;
  issued_at = now;
  expires_at = now + s.access_ttl;
}

module _ (s : AuthService) (now : ℕ) where
  -- issueSessionWithQuerier. `plain` is the uuid that is drawn for the refresh token.
  unfoldable pub issue_session : Text → ℕ → Text → Text → Bool → Action AuthTables Session
  issue_session plain user_id email role must_change = do
    token ← lift (or_signing_failed (s.sign_claims (claims_of s now user_id email role)))
    attempt
        (statement (
          insert_token (record {
            user_id = user_id;
            token_hash = s.hash_secret plain;
            expires_at = now + s.refresh_ttl;
          })))
        (λ r. lift (as_store_failed r))
    pure (record {
      access_token = token;
      refresh_token = plain;
      must_change_password = must_change;
      user_id = user_id;
      email = email;
      role = role;
    })

  unfoldable pub refresh : Text → Text → Action AuthTables TokenPair
  refresh plain token = transaction (do
    user ← attempt (query (token_owner now (s.hash_secret token))) (λ r. lift (as_invalid_token r))
    statement (delete_tokens (with_hash (s.hash_secret token)))
    session ← issue_session plain user.id user.email user.role false
    pure (record { access_token = session.access_token; refresh_token = session.refresh_token }))

unfoldable pub logout : AuthService → Text → Action AuthTables (Unit {0})
logout s token = statement (delete_tokens (with_hash (s.hash_secret token)))

unfoldable pub logout_all : ℕ → Action AuthTables (Unit {0})
logout_all user_id = statement (delete_tokens (λ row. row.user_id == user_id))

-- ===== src/Auth/Tests.antt =====
-- Concrete runs of the sign-in, and the theorems at them.
use harbor_shield.Prelude.{◌≡◌, refl, Bool, false, some, List, [], ◌∷◌, Text, codes, text_eq}
use harbor_shield.Db.{calm, lift, query, ◌>>=◌, transaction, attempt}
use harbor_shield.Db.Errors.{ok, err, invalid_credentials, invalid_refresh_token}
use harbor_shield.Auth.Tables.{UserRow, AuthTables, AuthService}
use harbor_shield.Auth.Sessions.{insert_token, token_owner, delete_tokens, refresh, issue_session}
use harbor_shield.Auth.Login.{login, link_user, login_oidc}
use harbor_shield.Auth.Granted.{LoggedIn, login-grants}
use harbor_shield.Auth.Rotated.{Rotated, refresh-rotates}
use harbor_shield.Auth.Linked.{SignedIn, login_oidc-links}
use harbor_shield.Auth.Revoked.{
  AuthCall, refreshing, logging_in, logging_out, perform, perform_calls, IsRefused, spent-IsRefused,
}

-- The salt stands before the password.
abbrev same_password : Text → Text → Bool
same_password [] password = false
same_password (salt ∷ kept) password = text_eq kept password

abbrev service : AuthService
service = record {
  hash_password = λ salt password. some (salt ∷ password);
  compare_password = same_password;
  hash_secret = λ secret. 0 ∷ secret;
  sign_claims = λ c. some (c.user_id ∷ c.expires_at ∷ c.role);
  issuer = codes "hs";
  access_ttl = 15;
  refresh_ttl = 100;
}

abbrev ada : UserRow
ada = record {
  id = 1;
  email = codes "ada@x";
  password_hash = 5 ∷ codes "pw";
  role = codes "admin";
  must_change_password = false;
  auth_provider = codes "local";
  external_subject = [];
}

abbrev tables : AuthTables
tables = record {
  users = ada ∷ [];
  refresh_tokens = record { user_id = 1; token_hash = 0 ∷ codes "t1"; expires_at = 50 } ∷ [];
}

abbrev first : AuthCall
first = refreshing 10 (codes "t2") (codes "t1")

abbrev calls : List AuthCall
calls = logging_in 11 (codes "t3") (codes "ada@x") (codes "pw") ∷ logging_out (codes "t2") ∷ []

first_returns : (perform service first (calm tables)).0 ≡ ok tt
unfolding perform refresh attempt lift transaction token_owner delete_tokens issue_session
    insert_token
first_returns = refl

spent-IsRefused_example :
    IsRefused
      (refresh service 12
        (codes "t4")
        (codes "t1")
        (perform_calls service (perform service first (calm tables)).1 calls)).0
unfolding text_eq
spent-IsRefused_example =
    spent-IsRefused service (0 ∷ codes "t1") (calm tables) first calls refl first_returns
      (refl, (refl, (tt, tt))) 12 (codes "t4") (codes "t1") refl

login-grants_example :
    LoggedIn service 10
      (codes "t2")
      (codes "ada@x")
      (codes "pw")
      tables
      (login service 10 (codes "t2") (codes "ada@x") (codes "pw") (calm tables)).0
      (login service 10 (codes "t2") (codes "ada@x") (codes "pw") (calm tables)).1.tables
login-grants_example =
    login-grants service 10 (codes "t2") (codes "ada@x") (codes "pw") (calm tables)

refresh-rotates_example :
    Rotated service 10
      (codes "t2")
      (0 ∷ codes "t1")
      tables
      (refresh service 10 (codes "t2") (codes "t1") (calm tables)).0
      (refresh service 10 (codes "t2") (codes "t1") (calm tables)).1.tables
refresh-rotates_example = refresh-rotates service 10 (codes "t2") (codes "t1") (calm tables)

login_oidc-links_example :
    SignedIn service 10
      (codes "t2")
      (codes "idp")
      (codes "sub")
      (codes "ada@x")
      []
      tables
      (login_oidc service 10
        (codes "t2")
        2
        6
        (codes "uuid")
        (codes "idp")
        (codes "sub")
        (codes "ada@x")
        []
        (calm tables)).0
      (login_oidc service 10
        (codes "t2")
        2
        6
        (codes "uuid")
        (codes "idp")
        (codes "sub")
        (codes "ada@x")
        []
        (calm tables)).1.tables
login_oidc-links_example =
    login_oidc-links service 10 (codes "t2") (codes "idp") (codes "sub") (codes "ada@x") [] 2 6
      (codes "uuid") (calm tables)

wrong_password_is_refused :
    (login service 10 (codes "t2") (codes "ada@x") (codes "no") (calm tables)).0
    ≡ err invalid_credentials
unfolding login query ◌>>=◌ attempt
wrong_password_is_refused = refl

expired_is_refused :
    (refresh service 50 (codes "t2") (codes "t1") (calm tables)).0 ≡ err invalid_refresh_token
unfolding refresh transaction attempt token_owner
expired_is_refused = refl

abbrev roles : List UserRow → List Text
roles [] = []
roles (u ∷ users) = u.role ∷ roles users

-- The account of an address is linked to the subject that comes with it, and has its role.
address_is_linked :
    roles
      (login_oidc service 10
        (codes "t2")
        2
        6
        (codes "uuid")
        (codes "idp")
        (codes "sub")
        (codes "ada@x")
        (codes "superadmin")
        (calm tables)).1.tables.users
    ≡ codes "superadmin" ∷ []
unfolding login_oidc ◌>>=◌ transaction attempt link_user issue_session insert_token
address_is_linked = refl

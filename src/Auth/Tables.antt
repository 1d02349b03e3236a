-- ===== src/Auth/Tables.antt =====
-- The tables of internal/auth/service.go, and the packages that it calls.
use harbor_shield.Prelude.{ℕ, Bool, Option, List, Text}

pub record UserRow : Type 0 where
  pub id : ℕ
  pub email : Text
  pub password_hash : Text
  pub role : Text
  pub must_change_password : Bool
  pub auth_provider : Text
  pub external_subject : Text

pub record TokenRow : Type 0 where
  pub user_id : ℕ
  pub token_hash : Text
  pub expires_at : ℕ

pub record AuthTables : Type 0 where
  pub users : List UserRow
  pub refresh_tokens : List TokenRow

pub record TokenClaims : Type 0 where
  pub user_id : ℕ
  pub role : Text
  pub email : Text
  pub subject_type : Text
  pub subject_id : ℕ
  pub subject : ℕ
  pub issuer : Text
  pub issued_at : ℕ
  pub expires_at : ℕ

-- bcrypt (`none` is an error; the number stands for the salt), SHA-256 in hexadecimal, and the
-- signature of a JWT. `issuer`, `access_ttl` and `refresh_ttl` are the service's.
pub record AuthService : Type 0 where
  pub hash_password : ℕ → Text → Option Text
  pub compare_password : Text → Text → Bool
  pub hash_secret : Text → Text
  pub sign_claims : TokenClaims → Option Text
  pub issuer : Text
  pub access_ttl : ℕ
  pub refresh_ttl : ℕ

-- ===== src/Db/Errors.antt =====
-- The errors of the services, by the names of their variables, and `(T, error)` results.
use harbor_shield.Prelude.{Text}

pub data Error : Type 0 where
  -- any error of the driver
  database : Error
  -- pgx.ErrNoRows
  no_rows : Error
  -- authz
  forbidden : Error
  authorize_failed : Text → Error → Error
  -- policies
  invalid_role_name invalid_effect invalid_action invalid_resource : Error
  invalid_subject_id invalid_subject_type protected_role_statement : Error
  statement_not_found binding_not_found : Error
  bucket_policy_not_found invalid_bucket_policy : Error
  -- quotas
  quota_exceeded : Error
  -- jobs
  no_due_jobs : Error
  -- storage: os.ErrNotExist, a failed call of the system or of a blob node, and a bad blob
  not_exist io_failed blob_too_short blob_header_mismatch decrypt_failed : Error
  unsupported_backend : Error
  -- auth
  invalid_credentials invalid_refresh_token password_too_short user_not_found : Error
  wrong_password hashing_failed signing_failed store_refresh_token_failed : Error
  oidc_identity_missing invalid_secret secret_unreadable : Error
  -- multipart
  invalid_part invalid_part_order : Error
  -- objects
  incomplete_body invalid_digest bad_digest retention_active legal_hold_active : Error
  no_restorable_version version_not_found distributed_unavailable no_active_nodes : Error

pub data Result {ℓ} (A : Type ℓ) : Type ℓ where
  ok : A → Result A
  err : Error → Result A

abbrev pub then_result {ℓ κ} : {A : Type ℓ} {B : Type κ} → Result A → (A → Result B) → Result B
then_result (ok a) f = f a
then_result (err e) f = err e

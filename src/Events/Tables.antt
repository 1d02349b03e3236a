-- ===== src/Events/Tables.antt =====
-- The tables that internal/events/service.go reads and writes. Times are numbers of seconds.
use harbor_shield.Prelude.{ℕ, Bool, Option, List, Text}

pub record TargetRow : Type 0 where
  pub id : ℕ
  pub name : Text
  pub endpoint_url : Text
  pub signing_secret_ciphertext : Text
  pub event_types : List Text
  pub enabled : Bool
  pub created_at : ℕ

pub data DeliveryStatus : Type 0 where
  pending retrying running delivered dead_letter : DeliveryStatus

pub record DeliveryRow : Type 0 where
  pub id : ℕ
  pub target_id : ℕ
  pub event_type : Text
  pub payload : Text
  pub status : DeliveryStatus
  pub attempts : ℕ
  pub next_attempt_at : ℕ
  pub last_error : Text
  pub last_response_code : Option ℕ
  pub created_at : ℕ
  pub updated_at : ℕ

-- What the entries of the audit log say of a delivery.
pub record AuditEntry : Type 0 where
  pub action : Text
  pub target_name : Text
  pub outcome : Text
  pub delivery_id : ℕ
  pub attempts : ℕ

pub record EventTables : Type 0 where
  pub targets : List TargetRow
  pub deliveries : List DeliveryRow
  pub audit_log : List AuditEntry

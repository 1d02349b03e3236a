-- ===== src/Events/Deliveries.antt =====
-- DeliverPending and what it calls: the claim of a delivery, the request, and the record of its outcome.
use harbor_shield.Prelude.{
  ℕ, zero, suc, ◌+◌, ◌*◌, Bool, true, false, ◌&&◌, Option, none, some, List, [], ◌∷◌, Text, codes,
  text_eq, any, find, first_of, keep, update, order_by, leb, ltb, ◌==◌, if◌then◌else◌,
}
use harbor_shield.Db.{Action, pure, statement, ◌>>◌, attempt, transaction}
use harbor_shield.Db.Errors.{Error, no_rows, Result, ok, err}
use harbor_shield.Events.Tables.{
  TargetRow, DeliveryStatus, pending, retrying, running, delivered, dead_letter, DeliveryRow,
  AuditEntry, EventTables,
}

pub record DeliveryJob : Type 0 where
  pub id : ℕ
  pub target_id : ℕ
  pub target_name : Text
  pub endpoint_url : Text
  pub signing_secret_ciphertext : Text
  pub event_type : Text
  pub payload : Text
  pub attempts : ℕ

pub data Response : Type 0 where
  failed : Text → Response
  answered : ℕ → Response

-- What is outside: NewRequest on the address (`some` is its error), OpenString of internal/crypto
-- with the message of its error, the HMAC, the client's Do, and the text of a status.
pub record Outside : Type 0 where
  pub bad_request : Text → Option Text
  pub open_secret : Text → Option Text
  pub open_error : Text
  pub sign : Text → Text → Text
  pub send : ℕ → DeliveryJob → Option Text → Response
  pub unexpected_status : ℕ → Text

abbrev pub is_open : DeliveryStatus → Bool
is_open pending = true
is_open retrying = true
is_open _ = false

abbrev enabled_target : ℕ → List TargetRow → Bool
enabled_target id targets = any (λ target. target.id == id && target.enabled) targets

unfoldable pub is_claimable : ℕ → EventTables → DeliveryRow → Bool
unfolding any
is_claimable now t d =
    is_open d.status && (leb d.next_attempt_at now && enabled_target d.target_id t.targets)

unfoldable pub is_sooner : DeliveryRow → DeliveryRow → Bool
is_sooner a b =
    if ltb a.next_attempt_at b.next_attempt_at
    then true
    else a.next_attempt_at == b.next_attempt_at && leb a.created_at b.created_at

unfoldable pub next_delivery : ℕ → EventTables → Option DeliveryRow
unfolding order_by
next_delivery now t = first_of (order_by is_sooner (keep (is_claimable now t) t.deliveries))

unfoldable pub job_of : DeliveryRow → TargetRow → DeliveryJob
job_of d target = record {
  id = d.id;
  target_id = d.target_id;
  target_name = target.name;
  endpoint_url = target.endpoint_url;
  signing_secret_ciphertext = target.signing_secret_ciphertext;
  event_type = d.event_type;
  payload = d.payload;
  attempts = d.attempts;
}

abbrev pub set_running : ℕ → DeliveryRow → DeliveryRow
set_running now d = record d { status = running; updated_at = now }

unfoldable pub joined : DeliveryRow → Option TargetRow → Result DeliveryJob
unfolding job_of
joined d none = err no_rows
joined d (some target) = ok (job_of d target)

unfoldable pub claim_delivery :
    ℕ → Option DeliveryRow → EventTables → Result DeliveryJob × EventTables
unfolding joined
claim_delivery now none t = (err no_rows, t)
claim_delivery now (some d) t = (
  joined d (find (λ target. target.id == d.target_id) t.targets),
  record t { deliveries = update (λ e. e.id == d.id) (set_running now) t.deliveries },
)

unfoldable pub claim_next_delivery : ℕ → Action EventTables DeliveryJob
claim_next_delivery now = transaction (statement (λ t. claim_delivery now (next_delivery now t) t))

-- The schedule of retries: the attempts end with the fifth.
unfoldable pub status_after : ℕ → DeliveryStatus
status_after next_attempts = if leb 5 next_attempts then dead_letter else retrying

unfoldable pub next_run : ℕ → ℕ → ℕ
next_run now next_attempts = if leb 5 next_attempts then now else now + next_attempts * 15

abbrev null_if_zero : ℕ → Option ℕ
null_if_zero code = if code == 0 then none else some code

unfoldable pub failed_row : ℕ → DeliveryJob → ℕ → Text → DeliveryRow → DeliveryRow
failed_row now item status_code message d = record d {
  status = status_after (item.attempts + 1);
  attempts = d.attempts + 1;
  next_attempt_at = next_run now (item.attempts + 1);
  last_error = message;
  last_response_code = null_if_zero status_code;
  updated_at = now;
}

unfoldable pub delivered_row : ℕ → ℕ → DeliveryRow → DeliveryRow
delivered_row now status_code d = record d {
  status = delivered;
  attempts = d.attempts + 1;
  last_error = [];
  last_response_code = some status_code;
  updated_at = now;
}

unfoldable pub rewrite_delivery :
    ℕ → (DeliveryRow → DeliveryRow) → EventTables → Result (Unit {0}) × EventTables
rewrite_delivery id f t = (ok tt, record t { deliveries = update (λ d. d.id == id) f t.deliveries })

-- The audit service may be absent.
unfoldable pub record_audit : Bool → AuditEntry → Action EventTables (Unit {0})
record_audit has_audit entry =
    if has_audit
    then statement (λ t. (ok tt, record t { audit_log = entry ∷ t.audit_log }))
    else pure tt

-- `err == pgx.ErrNoRows` is the end of the loop, and no error.
abbrev pub unless_no_rows : Error → Option Error
unless_no_rows no_rows = none
unless_no_rows e = some e

module _ (outside : Outside) (has_audit : Bool) (now : ℕ) where
  open outside use {bad_request, open_secret, open_error, sign, send, unexpected_status}

  unfoldable pub mark_failure : DeliveryJob → ℕ → Text → Action EventTables (Unit {0})
  mark_failure item status_code message = do
    statement (rewrite_delivery item.id (failed_row now item status_code message))
    record_audit has_audit (record {
      action = codes "event.delivery.failure";
      target_name = item.target_name;
      outcome = if leb 5 (item.attempts + 1) then codes "dead_letter" else codes "failure";
      delivery_id = item.id;
      attempts = item.attempts + 1;
    })

  unfoldable pub mark_delivered : DeliveryJob → ℕ → Action EventTables (Unit {0})
  mark_delivered item status_code = do
    statement (rewrite_delivery item.id (delivered_row now status_code))
    record_audit has_audit (record {
      action = codes "event.delivery.success";
      target_name = item.target_name;
      outcome = codes "success";
      delivery_id = item.id;
      attempts = item.attempts + 1;
    })

  unfoldable pub record_response : DeliveryJob → Response → Action EventTables (Unit {0})
  record_response item (failed message) = mark_failure item 0 message
  record_response item (answered status_code) =
      if leb 200 status_code && ltb status_code 300
      then mark_delivered item status_code
      else mark_failure item status_code (unexpected_status status_code)

  unfoldable pub send_signed : DeliveryJob → Option Text → Action EventTables (Unit {0})
  send_signed item none = mark_failure item 0 open_error
  send_signed item (some secret) =
      record_response item (send now item (some (sign secret item.payload)))

  unfoldable pub deliver_request : DeliveryJob → Option Text → Action EventTables (Unit {0})
  deliver_request item (some message) = mark_failure item 0 message
  deliver_request item none =
      if text_eq item.signing_secret_ciphertext []
      then record_response item (send now item none)
      else send_signed item (open_secret item.signing_secret_ciphertext)

  unfoldable pub deliver_one : DeliveryJob → Action EventTables (Unit {0})
  deliver_one item = deliver_request item (bad_request item.endpoint_url)

  -- The loop, with `fuel` rounds left: the number that was delivered, and the error if there is one.
  unfoldable pub deliver_loop : ℕ → ℕ → Action EventTables (ℕ × Option Error)
  deliver_loop zero count = pure (count, none)
  deliver_loop (suc fuel) count = attempt (claim_next_delivery now) λ r. elim r [
    | err e ↦ pure (count, unless_no_rows e)
    | ok item ↦
        attempt (deliver_one item)
          λ s. elim s [ err e ↦ pure (count, some e) | ok u ↦ deliver_loop fuel (count + 1) ]
  ]

  unfoldable pub deliver_pending : ℕ → Action EventTables (ℕ × Option Error)
  deliver_pending limit = deliver_loop (if limit == 0 then 10 else limit) 0

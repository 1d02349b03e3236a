-- ===== src/Events/Tries.antt =====
-- DeliverPending keeps every delivery on its schedule.
use harbor_shield.Prelude.{
  ℕ, zero, suc, ◌+◌, Bool, ◌&&◌, Option, none, some, [], ◌∷◌, Text, text_eq, leb, ltb, ◌==◌,
  if◌then◌else◌,
}
use harbor_shield.Db.{World, pure, statement, ◌>>=◌, attempt}
use harbor_shield.Db.Errors.{Result, ok, err}
use harbor_shield.Db.Triples.{Triple-pure, Triple-statement, Triple-if}
use harbor_shield.Db.Ensures.{After, After-attempt, After-bind}
use harbor_shield.Events.Tables.{DeliveryRow, AuditEntry, EventTables}
use harbor_shield.Events.Deliveries.{
  DeliveryJob, Response, failed, answered, Outside, rewrite_delivery, record_audit, mark_failure,
  mark_delivered, record_response, send_signed, deliver_request, deliver_one, unless_no_rows,
  deliver_loop, deliver_pending,
}
use harbor_shield.Events.Attempts.{Has}
use harbor_shield.Events.Schedule.{
  IsTracked, IsClaimed, Tracked, IsOutcome, claim_next_delivery-IsClaimed, rewritten-IsTracked,
  failed-IsOutcome, delivered-IsOutcome,
}

module _ (id : ℕ) where
  module _ (outside : Outside) (has_audit : Bool) (now : ℕ) where
    record_audit-Tracked :
        (entry : AuditEntry) → After (IsTracked id) (Tracked id) (record_audit has_audit entry)
    unfolding record_audit IsTracked Has
    record_audit-Tracked entry =
        Triple-if has_audit _ _
          (λ e.
            Triple-statement (λ t. (ok tt, record t { audit_log = entry ∷ t.audit_log })) (λ t h. h)
              (λ t h. h))
          (λ e. Triple-pure _ (λ t h. h))

    unwritten : (item : DeliveryJob) (t : EventTables) → IsClaimed id (ok item) t → IsTracked id t
    unfolding IsTracked
    unwritten item t (row, h, s, k) = (row, h, s)

    outcome-Tracked :
        (item : DeliveryJob) (f : DeliveryRow → DeliveryRow) (entry : AuditEntry)
        → IsOutcome id item f
        → After
            (IsClaimed id (ok item))
            (Tracked id)
            (statement (rewrite_delivery item.id f) >>= λ _. record_audit has_audit entry)
    unfolding rewrite_delivery
    outcome-Tracked item f entry o =
        After-bind {Mid = Tracked id} _ _
          (Triple-statement _ (λ t h. unwritten item t h)
            (λ t h. rewritten-IsTracked id item f t o h))
          (λ u. record_audit-Tracked entry) (λ e t h. h)

    mark_failure-Tracked :
        (item : DeliveryJob) (code : ℕ) (message : Text)
        → After
            (IsClaimed id (ok item))
            (Tracked id)
            (mark_failure outside has_audit now item code message)
    unfolding mark_failure
    mark_failure-Tracked item code message =
        outcome-Tracked item _ _ (failed-IsOutcome id now item code message)

    record_response-Tracked :
        (item : DeliveryJob) (r : Response)
        → After (IsClaimed id (ok item)) (Tracked id) (record_response outside has_audit now item r)
    unfolding record_response mark_delivered
    record_response-Tracked item (failed message) = mark_failure-Tracked item 0 message
    record_response-Tracked item (answered code) =
        Triple-if (leb 200 code && ltb code 300) _ _
          (λ e. outcome-Tracked item _ _ (delivered-IsOutcome id now item code))
          (λ e. mark_failure-Tracked item code _)

    send_signed-Tracked :
        (item : DeliveryJob) (secret : Option Text)
        → After
            (IsClaimed id (ok item))
            (Tracked id)
            (send_signed outside has_audit now item secret)
    unfolding send_signed
    send_signed-Tracked item none = mark_failure-Tracked item 0 _
    send_signed-Tracked item (some secret) = record_response-Tracked item _

    deliver_request-Tracked :
        (item : DeliveryJob) (bad : Option Text)
        → After
            (IsClaimed id (ok item))
            (Tracked id)
            (deliver_request outside has_audit now item bad)
    unfolding deliver_request
    deliver_request-Tracked item (some message) = mark_failure-Tracked item 0 message
    deliver_request-Tracked item none =
        Triple-if (text_eq item.signing_secret_ciphertext []) _ _
          (λ e. record_response-Tracked item _) (λ e. send_signed-Tracked item _)

    deliver_one-Tracked :
        (item : DeliveryJob)
        → After (IsClaimed id (ok item)) (Tracked id) (deliver_one outside has_audit now item)
    unfolding deliver_one
    deliver_one-Tracked item = deliver_request-Tracked item _

    next_round :
        (fuel count : ℕ) (r : Result (Unit {0}))
        → After (IsTracked id) (Tracked id) (deliver_loop outside has_audit now fuel (count + 1))
        → After (IsTracked id) (Tracked id) (elim r [
          | err e ↦ pure (count, some e)
          | ok u ↦ deliver_loop outside has_audit now fuel (count + 1)
        ])
    next_round fuel count (ok u) h = h
    next_round fuel count (err e) h = Triple-pure _ (λ t k. k)

    round :
        (fuel count : ℕ)
        → After (IsTracked id) (Tracked id) (deliver_loop outside has_audit now fuel (count + 1))
        → (r : Result DeliveryJob)
        → After (IsClaimed id r) (Tracked id) (elim r [
          | err e ↦ pure (count, unless_no_rows e)
          | ok item ↦ attempt (deliver_one outside has_audit now item) λ s. elim s [
            | err e ↦ pure (count, some e)
            | ok u ↦ deliver_loop outside has_audit now fuel (count + 1)
          ]
        ])
    round fuel count rest (err e) = Triple-pure _ (λ t h. h)
    round fuel count rest (ok item) =
        After-attempt {Mid = Tracked id} _ _ (deliver_one-Tracked item)
          (λ r. next_round fuel count r rest)

    deliver_loop-Tracked :
        (fuel count : ℕ)
        → After (IsTracked id) (Tracked id) (deliver_loop outside has_audit now fuel count)
    unfolding deliver_loop
    deliver_loop-Tracked zero count = Triple-pure _ (λ t h. h)
    deliver_loop-Tracked (suc fuel) count =
        After-attempt {Mid = IsClaimed id} _ _ (claim_next_delivery-IsClaimed id now)
          (round fuel count (deliver_loop-Tracked fuel (count + 1)))

-- Whatever the driver and the targets do, a delivery that has one row, with at most five attempts and
-- less than five while it may still be tried, has one such row after DeliverPending.
pub deliver_pending-keeps_schedule :
    (outside : Outside) (has_audit : Bool) (now limit id : ℕ) (w : World EventTables)
    → IsTracked id w.tables
    → IsTracked id (deliver_pending outside has_audit now limit w).1.tables
unfolding deliver_pending
deliver_pending-keeps_schedule outside has_audit now limit id w h =
    (deliver_loop-Tracked id outside has_audit now (if limit == 0 then 10 else limit) 0).at w h

-- ===== src/Events/Attempts.antt =====
-- Deliveries that are not waiting are not touched again.
use mathlib.Core.Path.{subst}
use harbor_shield.Prelude.{
  ◌≡◌, ◌≢◌, All-imp, refl, ◌∙◌, inl, inr, ℕ, zero, suc, ◌+◌, Bool, true, false, ◌&&◌, Option, none,
  some, List, [], Text, text_eq, arith, All, All-order_by, All-of_All, All-first_of, keep,
  keep-update, update, order_by, leb, ltb, ◌==◌, Bool-cases, if◌then◌else◌,
}
use harbor_shield.Prelude.Members.{In, All-In, All-at, In-keep, All-keep_test}
use harbor_shield.Db.{World, pure, statement, ◌>>=◌, attempt}
use harbor_shield.Db.Errors.{Result, ok, err}
use harbor_shield.Db.Triples.{Triple-pure, Triple-statement, Triple-if}
use harbor_shield.Db.Transactions.{Triple-transaction}
use harbor_shield.Db.Ensures.{After, After-attempt, After-bind}
use harbor_shield.Events.Tables.{
  DeliveryStatus, pending, retrying, running, delivered, dead_letter, TargetRow, DeliveryRow,
  AuditEntry, EventTables,
}
use harbor_shield.Events.Deliveries.{
  DeliveryJob, job_of, joined, Response, failed, answered, Outside, is_open, is_claimable,
  is_sooner, next_delivery, set_running, claim_delivery, claim_next_delivery, failed_row,
  delivered_row, rewrite_delivery, record_audit, mark_failure, mark_delivered, record_response,
  send_signed, deliver_request, deliver_one, unless_no_rows, deliver_loop, deliver_pending,
}

-- The delivery can be claimed, and is in the table.
pub record IsNextDelivery (now : ℕ) (t : EventTables) (d : DeliveryRow) : Type 0 where
  pub stored : In d t.deliveries
  pub claimable : is_claimable now t d ≡ true

pub next_delivery-IsNextDelivery :
    (now : ℕ) (t : EventTables) (d : DeliveryRow)
    → next_delivery now t ≡ some d
    → IsNextDelivery now t d
unfolding next_delivery
next_delivery-IsNextDelivery now t d h =
    let rows = keep (is_claimable now t) t.deliveries in
    let (stored, claimable) =
      All-first_of (λ e. In e t.deliveries × (is_claimable now t e ≡ true))
        (order_by is_sooner rows) d
        (All-order_by _ is_sooner rows (
          All-keep_test (λ e. In e t.deliveries) (is_claimable now t) t.deliveries
            (All-In t.deliveries)))
        h in
    record { stored = stored; claimable = claimable }

pub claimable-is_open :
    (now : ℕ) (t : EventTables) (d : DeliveryRow)
    → is_claimable now t d ≡ true
    → is_open d.status ≡ true
unfolding is_claimable
claimable-is_open now t d h = elim (Bool-cases (is_open d.status)) [
  | inl e ↦ e
  | inr e ↦ absurd (ground (arith, e))
]

module _ (id : ℕ) (rows : List DeliveryRow) where
  -- These are the rows of the delivery.
  unfoldable pub Has : EventTables → Type 0
  Has t = keep (λ d. d.id == id) t.deliveries ≡ rows

  pub Has-update :
      (i : ℕ) (f : DeliveryRow → DeliveryRow) (t : EventTables)
      → ((d : DeliveryRow) → (f d).id ≡ d.id)
      → (i == id) ≡ false
      → Has t
      → Has (record t { deliveries = update (λ d. d.id == i) f t.deliveries })
  unfolding Has
  Has-update i f t same other h =
      keep-update (λ d. d.id == id) (λ d. d.id == i) f t.deliveries
        (All-of_All _ t.deliveries
          λ d its. let e = same d in (ground (arith, other), ground (arith, other, e)))
      ∙ h

  -- The job is for another delivery.
  abbrev IsForOther : Result DeliveryJob → EventTables → Type 0
  IsForOther (ok item) t = Has t × ((item.id == id) ≡ false)
  IsForOther (err e) t = Has t

  joined-IsForOther :
      (d : DeliveryRow) (o : Option TargetRow) (t : EventTables)
      → (d.id == id) ≡ false
      → Has t
      → IsForOther (joined d o) t
  unfolding joined job_of
  joined-IsForOther d none t other h = h
  joined-IsForOther d (some target) t other h = (h, other)

  module _ (settled : All (λ d. is_open d.status ≡ false) rows) where
    claimed-is_other :
        (now : ℕ) (t : EventTables) (d : DeliveryRow)
        → IsNextDelivery now t d
        → Has t
        → (d.id == id) ≡ false
    unfolding Has
    claimed-is_other now t d next h = elim (Bool-cases (d.id == id)) [
      | inr other ↦ other
      | inl its ↦
          let kept = subst (In d) h (In-keep (λ e. e.id == id) d t.deliveries next.stored its) in
          let shut = All-at (λ e. is_open e.status ≡ false) d rows settled kept in
          let waiting = claimable-is_open now t d next.claimable in absurd (cc)
    ]

    claim_delivery-IsForOther :
        (now : ℕ) (t : EventTables) (o : Option DeliveryRow)
        → next_delivery now t ≡ o
        → Has t
        → IsForOther (claim_delivery now o t).0 (claim_delivery now o t).1
    unfolding claim_delivery
    claim_delivery-IsForOther now t none e h = h
    claim_delivery-IsForOther now t (some d) e h =
        let other = claimed-is_other now t d (next_delivery-IsNextDelivery now t d e) h in
        joined-IsForOther d _ _ other (Has-update d.id (set_running now) t (λ x. refl) other h)

    claim_next_delivery-IsForOther : (now : ℕ) → After Has IsForOther (claim_next_delivery now)
    unfolding claim_next_delivery
    claim_next_delivery-IsForOther now =
        Triple-transaction _ (λ t e h. h)
          (Triple-statement _ (λ t h. h)
            (λ t h. claim_delivery-IsForOther now t (next_delivery now t) refl h))

    abbrev Kept : {A : Type 0} → Result A → EventTables → Type 0
    Kept r t = Has t

    module _ (outside : Outside) (has_audit : Bool) (now : ℕ) where
      record_audit-Kept : (entry : AuditEntry) → After Has Kept (record_audit has_audit entry)
      unfolding record_audit Has
      record_audit-Kept entry =
          Triple-if has_audit _ _ (λ e. Triple-statement _ (λ t h. h) (λ t h. h))
            (λ e. Triple-pure _ (λ t h. h))

      rewritten :
          (item : DeliveryJob) (f : DeliveryRow → DeliveryRow) (entry : AuditEntry)
          → ((d : DeliveryRow) → (f d).id ≡ d.id)
          → (item.id == id) ≡ false
          → After Has Kept
              (statement (rewrite_delivery item.id f) >>= λ _. record_audit has_audit entry)
      unfolding rewrite_delivery
      rewritten item f entry same other =
          After-bind {Mid = Kept} _ _
            (Triple-statement _ (λ t h. h) (λ t h. Has-update item.id f t same other h))
            (λ u. record_audit-Kept entry) (λ e t h. h)

      mark_failure-Kept :
          (item : DeliveryJob) (code : ℕ) (message : Text)
          → (item.id == id) ≡ false
          → After Has Kept (mark_failure outside has_audit now item code message)
      unfolding mark_failure failed_row
      mark_failure-Kept item code message other = rewritten item _ _ (λ d. refl) other

      record_response-Kept :
          (item : DeliveryJob) (r : Response)
          → (item.id == id) ≡ false
          → After Has Kept (record_response outside has_audit now item r)
      unfolding record_response mark_delivered delivered_row
      record_response-Kept item (failed message) other = mark_failure-Kept item 0 message other
      record_response-Kept item (answered code) other =
          Triple-if (leb 200 code && ltb code 300) _ _ (λ e. rewritten item _ _ (λ d. refl) other)
            (λ e. mark_failure-Kept item code _ other)

      send_signed-Kept :
          (item : DeliveryJob) (secret : Option Text)
          → (item.id == id) ≡ false
          → After Has Kept (send_signed outside has_audit now item secret)
      unfolding send_signed
      send_signed-Kept item none other = mark_failure-Kept item 0 _ other
      send_signed-Kept item (some secret) other = record_response-Kept item _ other

      deliver_request-Kept :
          (item : DeliveryJob) (bad : Option Text)
          → (item.id == id) ≡ false
          → After Has Kept (deliver_request outside has_audit now item bad)
      unfolding deliver_request
      deliver_request-Kept item (some message) other = mark_failure-Kept item 0 message other
      deliver_request-Kept item none other =
          Triple-if (text_eq item.signing_secret_ciphertext []) _ _
            (λ e. record_response-Kept item _ other) (λ e. send_signed-Kept item _ other)

      delivered_or_error :
          (fuel count : ℕ) (r : Result (Unit {0}))
          → After Has Kept (deliver_loop outside has_audit now fuel (count + 1))
          → After Has Kept (elim r [
            | err e ↦ pure (count, some e)
            | ok u ↦ deliver_loop outside has_audit now fuel (count + 1)
          ])
      delivered_or_error fuel count (ok u) h = h
      delivered_or_error fuel count (err e) h = Triple-pure _ (λ t k. k)

      deliver_one-Kept :
          (item : DeliveryJob)
          → (item.id == id) ≡ false
          → After Has Kept (deliver_one outside has_audit now item)
      unfolding deliver_one
      deliver_one-Kept item other = deliver_request-Kept item _ other

      loop_after :
          (fuel count : ℕ)
          → After Has Kept (deliver_loop outside has_audit now fuel (count + 1))
          → (r : Result DeliveryJob)
          → After (IsForOther r) Kept (elim r [
            | err e ↦ pure (count, unless_no_rows e)
            | ok item ↦ attempt (deliver_one outside has_audit now item) λ s. elim s [
              | err e ↦ pure (count, some e)
              | ok u ↦ deliver_loop outside has_audit now fuel (count + 1)
            ]
          ])
      loop_after fuel count rest (err e) = Triple-pure _ (λ t h. h)
      loop_after fuel count rest (ok item) = record {
        at = λ w h.
            (After-attempt {Mid = Kept} _ _ (deliver_one-Kept item h.1)
                (λ r. delivered_or_error fuel count r rest)).at
              w h.0;
      }

      deliver_loop-Kept :
          (fuel count : ℕ) → After Has Kept (deliver_loop outside has_audit now fuel count)
      unfolding deliver_loop
      deliver_loop-Kept zero count = Triple-pure _ (λ t h. h)
      deliver_loop-Kept (suc fuel) count =
          After-attempt {Mid = IsForOther} _ _ (claim_next_delivery-IsForOther now)
            (loop_after fuel count (deliver_loop-Kept fuel (count + 1)))

-- The status is none of those of a delivery that waits.
abbrev pub IsNotWaiting : DeliveryStatus → Type 0
IsNotWaiting status = (status ≢ pending) × (status ≢ retrying)

is_open-of_IsNotWaiting : (status : DeliveryStatus) → IsNotWaiting status → is_open status ≡ false
is_open-of_IsNotWaiting pending h = absurd (h.0 refl)
is_open-of_IsNotWaiting retrying h = absurd (h.1 refl)
is_open-of_IsNotWaiting running h = refl
is_open-of_IsNotWaiting delivered h = refl
is_open-of_IsNotWaiting dead_letter h = refl

-- Whatever the driver and the targets do, DeliverPending leaves the rows of a delivery as they are if
-- none of them is pending or retrying: what was delivered or given up is not sent again, and what is
-- running is not claimed, not even after an error that left it running.
pub deliver_pending-keeps_settled :
    (outside : Outside) (has_audit : Bool) (now limit id : ℕ) (w : World EventTables)
    → All (λ d. IsNotWaiting d.status) (keep (λ d. d.id == id) w.tables.deliveries)
    → keep (λ d. d.id == id) (deliver_pending outside has_audit now limit w).1.tables.deliveries
      ≡ keep (λ d. d.id == id) w.tables.deliveries
unfolding deliver_pending Has
deliver_pending-keeps_settled outside has_audit now limit id w settled =
    let rows = keep (λ d. d.id == id) w.tables.deliveries in
    let shut =
      All-imp (λ d. IsNotWaiting d.status) (λ d. is_open d.status ≡ false) rows
        (λ d. is_open-of_IsNotWaiting d.status) settled in
    (deliver_loop-Kept id rows shut outside has_audit now (if limit == 0 then 10 else limit) 0).at w
      refl

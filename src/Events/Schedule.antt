-- ===== src/Events/Schedule.antt =====
-- A delivery is tried at most five times.
use mathlib.Core.Path.{subst}
use harbor_shield.Prelude.{
  ◌≡◌, refl, sym, ap, ◌∙◌, inl, inr, ℕ, ◌+◌, ◌≤◌, ◌<◌, Bool, true, false, Option, none, some, List,
  [], ◌∷◌, map, Text, arith, keep, update, leb, ◌==◌, ==_iff, Bool-cases,
}
use harbor_shield.Prelude.Members.{In, In-keep}
use harbor_shield.Db.Errors.{Result, ok, err}
use harbor_shield.Db.Triples.{Triple-statement}
use harbor_shield.Db.Transactions.{Triple-transaction}
use harbor_shield.Db.Ensures.{After}
use harbor_shield.Events.Tables.{
  TargetRow, DeliveryStatus, pending, retrying, running, delivered, dead_letter, DeliveryRow,
  EventTables,
}
use harbor_shield.Events.Deliveries.{
  DeliveryJob, job_of, joined, is_open, next_delivery, set_running, claim_delivery,
  claim_next_delivery, status_after, failed_row, delivered_row,
}
use harbor_shield.Events.Attempts.{
  IsNextDelivery, next_delivery-IsNextDelivery, claimable-is_open, Has, Has-update,
}

-- The delivery may still be tried.
abbrev pub is_unfinished : DeliveryStatus → Bool
is_unfinished pending = true
is_unfinished retrying = true
is_unfinished running = true
is_unfinished _ = false

-- At most five attempts, and less than five if it may still be tried.
pub record IsOnSchedule (d : DeliveryRow) : Type 0 where
  pub most : d.attempts ≤ 5
  pub unfinished : is_unfinished d.status ≡ true → d.attempts < 5

open_is_unfinished : (s : DeliveryStatus) → is_open s ≡ true → is_unfinished s ≡ true
open_is_unfinished pending h = refl
open_is_unfinished retrying h = refl
open_is_unfinished running h = refl
open_is_unfinished delivered h = h
open_is_unfinished dead_letter h = h

keep-update_same :
    (p : DeliveryRow → Bool) (f : DeliveryRow → DeliveryRow) (ds : List DeliveryRow)
    → ((d : DeliveryRow) → p (f d) ≡ p d)
    → keep p (update p f ds) ≡ map f (keep p ds)
keep-update_same p f [] k = refl
keep-update_same p f (d ∷ ds) k = elim (Bool-cases (p d)) [
  | inl here ↦ rw (here, k d, here, keep-update_same p f ds k)
  | inr there ↦ rw (there, there, keep-update_same p f ds k)
]

module _ (id : ℕ) where
  -- The table has one row of the delivery, and it is on schedule.
  unfoldable pub IsTracked : EventTables → Type 0
  IsTracked t = (row : DeliveryRow) × Has id (row ∷ []) t × IsOnSchedule row

  -- The row is that of the item, which may still be tried.
  abbrev IsOf : DeliveryJob → DeliveryRow → Type 0
  IsOf item row = (item.id == id) ≡ true → (row.attempts ≡ item.attempts) × (row.attempts < 5)

  abbrev pub IsClaimed : Result DeliveryJob → EventTables → Type 0
  IsClaimed (ok item) t =
      (row : DeliveryRow) × Has id (row ∷ []) t × IsOnSchedule row × IsOf item row
  IsClaimed (err e) t = IsTracked t

  Has-rewritten :
      (i : ℕ) (f : DeliveryRow → DeliveryRow) (t : EventTables) (row : DeliveryRow)
      → ((d : DeliveryRow) → (f d).id ≡ d.id)
      → (i ≡ id)
      → Has id (row ∷ []) t
      → Has id (f row ∷ []) (record t { deliveries = update (λ d. d.id == i) f t.deliveries })
  unfolding Has
  Has-rewritten i f t row same e h =
      subst (λ k. keep (λ d. d.id == id) (update (λ d. d.id == k) f t.deliveries) ≡ f row ∷ [])
        (sym e)
        (keep-update_same (λ d. d.id == id) f t.deliveries (λ d. ap (λ k. k == id) (same d))
          ∙ ap (map f) h)

  found_is_row :
      (now : ℕ) (t : EventTables) (d row : DeliveryRow)
      → IsNextDelivery now t d
      → d.id ≡ id
      → Has id (row ∷ []) t
      → d ≡ row
  unfolding Has
  found_is_row now t d row next e h =
      let its : (d.id == id) ≡ true = (==_iff d.id id).1 e in
      let kept = subst (In d) h (In-keep (λ x. x.id == id) d t.deliveries next.stored its) in
      elim kept [ inl same ↦ same | inr none_left ↦ absurd (none_left) ]

  joined-IsClaimed :
      (d : DeliveryRow) (o : Option TargetRow) (t : EventTables) (row : DeliveryRow)
      → Has id (row ∷ []) t
      → IsOnSchedule row
      → ((d.id == id) ≡ true → (row.attempts ≡ d.attempts) × (row.attempts < 5))
      → IsClaimed (joined d o) t
  unfolding joined job_of IsTracked
  joined-IsClaimed d none t row h s k = (row, h, s)
  joined-IsClaimed d (some target) t row h s k = (row, h, s, k)

  claim_delivery-IsClaimed :
      (now : ℕ) (t : EventTables) (o : Option DeliveryRow)
      → next_delivery now t ≡ o
      → IsTracked t
      → IsClaimed (claim_delivery now o t).0 (claim_delivery now o t).1
  unfolding claim_delivery IsTracked
  claim_delivery-IsClaimed now t none e h = h
  claim_delivery-IsClaimed now t (some d) e (row, h, s) =
      let next = next_delivery-IsNextDelivery now t d e in
      elim (Bool-cases (d.id == id)) [
        | inr other ↦
            joined-IsClaimed d _ _ row
              (Has-update id (row ∷ []) d.id (set_running now) t (λ x. refl) other h) s
              (λ its. absurd (cc))
        | inl its ↦
            let same_id : d.id ≡ id = (==_iff d.id id).0 its in
            let same : d ≡ row = found_is_row now t d row next same_id h in
            let open_now = claimable-is_open now t d next.claimable in
            let row_open : is_open row.status ≡ true =
              subst (λ x. is_open x.status ≡ true) same open_now in
            let low = s.unfinished (open_is_unfinished row.status row_open) in
            joined-IsClaimed d _ _ (set_running now row)
              (Has-rewritten d.id (set_running now) t row (λ x. refl) same_id h)
              (record { most = s.most; unfinished = λ u. low })
              (λ u. (sym (ap (λ x. x.attempts) same), low))
      ]

  pub claim_next_delivery-IsClaimed :
      (now : ℕ) → After IsTracked IsClaimed (claim_next_delivery now)
  unfolding claim_next_delivery
  claim_next_delivery-IsClaimed now =
      Triple-transaction _ (λ t e h. h)
        (Triple-statement _ (λ t h. h)
          (λ t h. claim_delivery-IsClaimed now t (next_delivery now t) refl h))

  abbrev pub Tracked : {A : Type 0} → Result A → EventTables → Type 0
  Tracked r t = IsTracked t

  -- What the outcome of a try makes of the row.
  abbrev pub IsOutcome : DeliveryJob → (DeliveryRow → DeliveryRow) → Type 0
  IsOutcome item f =
      ((d : DeliveryRow) → (f d).id ≡ d.id)
      × ((row : DeliveryRow)
          → row.attempts ≡ item.attempts
          → row.attempts < 5
          → IsOnSchedule (f row))

  pub rewritten-IsTracked :
      (item : DeliveryJob) (f : DeliveryRow → DeliveryRow) (t : EventTables)
      → IsOutcome item f
      → IsClaimed (ok item) t
      → IsTracked (record t { deliveries = update (λ d. d.id == item.id) f t.deliveries })
  unfolding IsTracked
  rewritten-IsTracked item f t (same, next) (row, h, s, k) = elim (Bool-cases (item.id == id)) [
    | inr other ↦ (row, Has-update id (row ∷ []) item.id f t same other h, s)
    | inl its ↦
        let (e, low) = k its in
        (f row, Has-rewritten item.id f t row same ((==_iff item.id id).0 its) h, next row e low)
  ]

  pub failed-IsOutcome :
      (now : ℕ) (item : DeliveryJob) (code : ℕ) (message : Text)
      → IsOutcome item (failed_row now item code message)
  unfolding failed_row status_after
  failed-IsOutcome now item code message = (
    (λ d. refl),
    λ row e low. elim (Bool-cases (leb 5 (item.attempts + 1))) [
      | inl last ↦ record { most = omega (arith, low); unfinished = rw last (λ u. absurd (cc)) }
      | inr early ↦ record { most = omega (arith, low); unfinished = λ u. ground (arith, e, early) }
    ],
  )

  pub delivered-IsOutcome :
      (now : ℕ) (item : DeliveryJob) (code : ℕ) → IsOutcome item (delivered_row now code)
  unfolding delivered_row
  delivered-IsOutcome now item code = (
    (λ d. refl),
    λ row e low. record { most = omega (arith, low); unfinished = λ u. absurd (cc) },
  )

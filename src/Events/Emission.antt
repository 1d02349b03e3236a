-- ===== src/Events/Emission.antt =====
-- Which deliveries Emit makes.
use harbor_shield.Prelude.{
  ◌≡◌, refl, sym, ap, ◌∙◌, inl, inr, ℕ, ◌+◌, Bool, true, ◌&&◌, none, List, [], ◌∷◌, ◌++◌, map, Text,
  arith, any, keep, is_empty, All, All-imp, ◌==◌, ==_refl, Bool-cases, if◌then◌else◌,
}
use harbor_shield.Db.{calm, pure, statement, query, ◌>>=◌}
use harbor_shield.Db.Errors.{ok}
use harbor_shield.Events.Tables.{TargetRow, pending, DeliveryRow, EventTables}
use harbor_shield.Events.Targets.{
  matches_event_type, matching_targets, insert_delivery, emit_to, emit,
}

-- One waiting delivery, not tried yet, for each of the targets.
pub waiting : ℕ → ℕ → Text → Text → List ℕ → List DeliveryRow
waiting now id event_type payload [] = []
waiting now id event_type payload (target ∷ targets) =
    (record {
      id = id;
      target_id = target;
      event_type = event_type;
      payload = payload;
      status = pending;
      attempts = 0;
      next_attempt_at = now;
      last_error = [];
      last_response_code = none;
      created_at = now;
      updated_at = now;
    })
    ∷ waiting now (id + 1) event_type payload targets

-- The enabled targets that have a matching event type.
pub listening : EventTables → Text → List ℕ
listening t event_type =
    map (λ target. target.id)
      (keep (λ target. target.enabled && matches_event_type target.event_types event_type)
        t.targets)

append-snoc :
    (xs : List DeliveryRow) (y : DeliveryRow) (ys : List DeliveryRow)
    → (xs ++ y ∷ []) ++ ys ≡ xs ++ y ∷ ys
append-snoc [] y ys = refl
append-snoc (x ∷ xs) y ys = ap (λ zs. x ∷ zs) (append-snoc xs y ys)

append-nil : (xs : List DeliveryRow) → xs ++ [] ≡ xs
append-nil [] = refl
append-nil (x ∷ xs) = ap (λ zs. x ∷ zs) (append-nil xs)

abbrev is_target : List TargetRow → ℕ → Bool
is_target targets id = any (λ row. row.id == id) targets

emit_to-calm :
    (now id : ℕ) (event_type payload : Text) (targets : List ℕ) (t : EventTables)
    → All (λ i. is_target t.targets i ≡ true) targets
    → emit_to now id event_type payload targets (calm t) ≡ (
      ok tt,
      calm (record t { deliveries = t.deliveries ++ waiting now id event_type payload targets }),
    )
unfolding emit_to waiting pure insert_delivery statement ◌>>=◌
emit_to-calm now id event_type payload [] t h =
    ap (λ ds. (ok tt, calm (record t { deliveries = ds }))) (sym (append-nil t.deliveries))
emit_to-calm now id event_type payload (target ∷ targets) t h =
    let row : DeliveryRow = record {
      id = id;
      target_id = target;
      event_type = event_type;
      payload = payload;
      status = pending;
      attempts = 0;
      next_attempt_at = now;
      last_error = [];
      last_response_code = none;
      created_at = now;
      updated_at = now;
    } in
    let rest =
      emit_to-calm now (id + 1) event_type payload targets
        (record t { deliveries = t.deliveries ++ row ∷ [] }) h.1 in
    rw h.0 (
      rest
      ∙ ap (λ ds. (ok tt, calm (record t { deliveries = ds })))
          (append-snoc t.deliveries row (waiting now (id + 1) event_type payload targets)))

is_target-map :
    (p : TargetRow → Bool) (all_targets : List TargetRow)
    → All (λ i. is_target all_targets i ≡ true) (map (λ target. target.id) (keep p all_targets))
unfolding any
is_target-map p [] = tt
is_target-map p (row ∷ rows) =
    let later =
      All-imp (λ i. is_target rows i ≡ true) (λ i. is_target (row ∷ rows) i ≡ true)
        (map (λ target. target.id) (keep p rows)) (λ i found. ground (arith, found))
        (is_target-map p rows) in
    elim (Bool-cases (p row)) [
      | inl here ↦ rw here (ground (arith, ==_refl row.id), later)
      | inr there ↦ rw there later
    ]

emit_unless_empty :
    (now id : ℕ) (event_type payload : Text) (targets : List ℕ) (t : EventTables)
    → All (λ i. is_target t.targets i ≡ true) targets
    → (if is_empty targets then pure tt else emit_to now id event_type payload targets) (calm t) ≡ (
      ok tt,
      calm (record t { deliveries = t.deliveries ++ waiting now id event_type payload targets }),
    )
unfolding pure waiting
emit_unless_empty now id event_type payload [] t h =
    ap (λ ds. (ok tt, calm (record t { deliveries = ds }))) (sym (append-nil t.deliveries))
emit_unless_empty now id event_type payload (target ∷ targets) t h =
    emit_to-calm now id event_type payload (target ∷ targets) t h

-- With a driver that does not fail, Emit adds one pending delivery with no attempt for every enabled
-- target that has a matching event type, in the order of the targets, and changes nothing else.
pub emit_lem :
    (now id : ℕ) (event_type payload : Text) (t : EventTables)
    → emit now id event_type payload (calm t) ≡ (
      ok tt,
      calm (record t {
        deliveries = t.deliveries ++ waiting now id event_type payload (listening t event_type);
      }),
    )
unfolding emit matching_targets listening query statement ◌>>=◌ pure
emit_lem now id event_type payload t =
    emit_unless_empty now id event_type payload (listening t event_type) t (
      is_target-map (λ target. target.enabled && matches_event_type target.event_types event_type)
        t.targets)

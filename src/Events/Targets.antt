-- ===== src/Events/Targets.antt =====
-- The event types of a target, and Emit.
use harbor_shield.Prelude.{
  ℕ, ◌+◌, Bool, true, ◌&&◌, ◌||◌, none, List, [], ◌∷◌, ◌++◌, map, keep, any, Text, codes, text_eq,
  trim_space, is_empty, ◌==◌, leb, order_by, if◌then◌else◌,
}
use harbor_shield.Db.{Action, pure, raise, statement, query, ◌>>=◌, ◌>>◌}
use harbor_shield.Db.Errors.{Result, ok, err, database}
use harbor_shield.Events.Tables.{TargetRow, pending, EventTables}

-- `seen[trimmed]`
unfoldable pub was_seen : Text → List Text → Bool
unfolding any
was_seen item seen = any (λ s. text_eq s item) seen

-- The loop over the items, with the ones that are in `out` so far.
unfoldable pub distinct_from : List Text → List Text → List Text
distinct_from out [] = out
distinct_from out (item ∷ items) =
    let trimmed = trim_space item in
    distinct_from
      (if text_eq trimmed []
        then out
        else if was_seen trimmed out
        then out
        else out ++ trimmed ∷ [])
      items

abbrev pub or_all : List Text → List Text
or_all [] = codes "*" ∷ []
or_all (item ∷ items) = item ∷ items

unfoldable pub normalize_event_types : List Text → List Text
normalize_event_types [] = codes "*" ∷ []
normalize_event_types (item ∷ items) = or_all (distinct_from [] (item ∷ items))

unfoldable pub matches_event_type : List Text → Text → Bool
unfolding any
matches_event_type items event_type =
    any (λ item. text_eq item (codes "*") || text_eq item event_type) items

-- `seal` is SealString of internal/crypto, and the id and the time are those of the new row.
module _ (seal : Text → Result Text) where
  sealed : Text → Result Text
  sealed secret = if text_eq secret [] then ok [] else seal secret

  insert_target : TargetRow → EventTables → Result TargetRow × EventTables
  insert_target target t = (ok target, record t { targets = t.targets ++ target ∷ [] })

  insert_sealed : ℕ → ℕ → Text → Text → List Text → Result Text → Action EventTables TargetRow
  unfolding insert_target
  insert_sealed now id name endpoint_url event_types (err e) = raise e
  insert_sealed now id name endpoint_url event_types (ok ciphertext) = statement (
      insert_target (record {
        id = id;
        name = name;
        endpoint_url = endpoint_url;
        signing_secret_ciphertext = ciphertext;
        event_types = normalize_event_types event_types;
        enabled = true;
        created_at = now;
      }))

  unfoldable pub create_target :
      ℕ → ℕ → Text → Text → Text → List Text → Action EventTables TargetRow
  unfolding sealed insert_sealed
  create_target now id name endpoint_url signing_secret event_types =
      insert_sealed now id name endpoint_url event_types (sealed signing_secret)

unfoldable pub list_targets : Action EventTables (List TargetRow)
list_targets = query (λ t. ok (order_by (λ a b. leb b.created_at a.created_at) t.targets))

unfoldable pub matching_targets : Text → Action EventTables (List ℕ)
matching_targets event_type = query (λ t. ok (
    map (λ target. target.id)
      (keep (λ target. target.enabled && matches_event_type target.event_types event_type)
        t.targets)))

unfoldable pub insert_delivery :
    ℕ → ℕ → Text → Text → ℕ → EventTables → Result (Unit {0}) × EventTables
unfolding any
insert_delivery now id event_type payload target t =
    if any (λ target_row. target_row.id == target) t.targets
    then (
      ok tt,
      record t {
        deliveries =
            t.deliveries
            ++ (record {
              id = id;
              target_id = target;
              event_type = event_type;
              payload = payload;
              status = pending;
              attempts = 0;
              next_attempt_at = now;
              last_error = [];
              last_response_code = none;
              created_at = now;
              updated_at = now;
            })
              ∷ [];
      },
    )
    else (err database, t)

-- The loop of Emit: the ids of the new rows count up from `id`.
unfoldable pub emit_to : ℕ → ℕ → Text → Text → List ℕ → Action EventTables (Unit {0})
emit_to now id event_type payload [] = pure tt
emit_to now id event_type payload (target ∷ targets) = do
  statement (insert_delivery now id event_type payload target)
  emit_to now (id + 1) event_type payload targets

unfoldable pub emit : ℕ → ℕ → Text → Text → Action EventTables (Unit {0})
emit now id event_type payload = do
  targets ← matching_targets event_type
  if is_empty targets then pure tt else emit_to now id event_type payload targets

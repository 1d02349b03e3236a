-- ===== src/Events/Listing.antt =====
-- ListDeliveries: the filters, the order, and the limit.
use harbor_shield.Prelude.{
  ℕ, zero, suc, Bool, true, ◌&&◌, ◌||◌, Option, none, some, List, [], ◌∷◌, Text, codes, text_eq,
  keep, find, order_by, leb, ltb, ◌==◌, if◌then◌else◌,
}
use harbor_shield.Db.{Action, query}
use harbor_shield.Db.Errors.{ok}
use harbor_shield.Events.Tables.{
  TargetRow, DeliveryStatus, pending, retrying, running, delivered, dead_letter, DeliveryRow,
  EventTables,
}

pub record Delivery : Type 0 where
  pub row : DeliveryRow
  pub target_name : Text

-- An absent target id is the empty text; a limit that is not positive is 0.
pub record DeliveryFilters : Type 0 where
  pub status : Text
  pub target_id : Option ℕ
  pub event_type : Text
  pub limit : ℕ

abbrev pub status_text : DeliveryStatus → Text
status_text pending = codes "pending"
status_text retrying = codes "retrying"
status_text running = codes "running"
status_text delivered = codes "delivered"
status_text dead_letter = codes "dead_letter"

abbrev pub is_wanted_target : Option ℕ → ℕ → Bool
is_wanted_target none id = true
is_wanted_target (some wanted) id = id == wanted

-- The conditions of the WHERE, each of them only if its filter is set.
unfoldable pub passes : DeliveryFilters → DeliveryRow → Bool
passes filters d =
    (text_eq filters.status [] || text_eq (status_text d.status) filters.status)
    && (is_wanted_target filters.target_id d.target_id
        && (text_eq filters.event_type [] || text_eq d.event_type filters.event_type))

unfoldable pub effective_limit : ℕ → ℕ
effective_limit limit = if limit == 0 || ltb 200 limit then 100 else limit

unfoldable pub take {ℓ} : {A : Type ℓ} → ℕ → List A → List A
take zero xs = []
take (suc n) [] = []
take (suc n) (x ∷ xs) = x ∷ take n xs

abbrev pub with_name : DeliveryRow → Option TargetRow → List Delivery → List Delivery
with_name d none rows = rows
with_name d (some target) rows = (record { row = d; target_name = target.name }) ∷ rows

-- JOIN event_targets t ON t.id = d.target_id
unfoldable pub join_targets : List TargetRow → List DeliveryRow → List Delivery
join_targets targets [] = []
join_targets targets (d ∷ ds) =
    let rows = join_targets targets ds in
    with_name d (find (λ target. target.id == d.target_id) targets) rows

unfoldable pub newest_delivery : Delivery → Delivery → Bool
newest_delivery a b = leb b.row.created_at a.row.created_at

unfoldable pub delivery_page : DeliveryFilters → EventTables → List Delivery
unfolding order_by
delivery_page filters t =
    take (effective_limit filters.limit)
      (order_by newest_delivery (join_targets t.targets (keep (passes filters) t.deliveries)))

unfoldable pub list_deliveries : DeliveryFilters → Action EventTables (List Delivery)
list_deliveries filters = query (λ t. ok (delivery_page filters t))

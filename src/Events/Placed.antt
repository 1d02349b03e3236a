-- ===== src/Events/Placed.antt =====
-- No row that the filters want is missing from a page of ListDeliveries, but for the limit:
-- internal/events/service.go.
use mathlib.Core.Path.{subst}
use harbor_shield.Prelude.{
  ◌≡◌, refl, ap, inl, inr, ◌⊎◌, ℕ, zero, suc, ◌≤◌, true, List, [], ◌∷◌, Option, none, some, ◌==◌,
  arith, keep, find, length, All, All-imp, AllPairs, In-order_by, order_by, Bool-cases,
}
use harbor_shield.Prelude.Members.{In, All-at, All-In, In-keep}
use harbor_shield.Events.Tables.{TargetRow, DeliveryRow, EventTables}
use harbor_shield.Events.Listing.{
  Delivery, DeliveryFilters, passes, newest_delivery, take, with_name, join_targets,
}
use harbor_shield.Events.Wanted.{IsWanted, passes_of_IsWanted}

-- The newer of two deliveries stands first.
abbrev pub NewestFirst : Delivery → Delivery → Type 0
NewestFirst a b = b.row.created_at ≤ a.row.created_at

-- The row is on the page.
abbrev pub IsOn : List Delivery → DeliveryRow → Type 0
IsOn page d = (e : Delivery) × In e page × (e.row ≡ d)

-- No target has the row's target id.
abbrev pub IsUntargeted : List TargetRow → DeliveryRow → Type 0
IsUntargeted targets d = All (λ (target : TargetRow). ¬ (target.id ≡ d.target_id)) targets

-- There are `n` rows on the page, none older than this one.
abbrev pub IsCut : ℕ → List Delivery → DeliveryRow → Type 0
IsCut n page d = (length page ≡ n) × All (λ (e : Delivery). d.created_at ≤ e.row.created_at) page

take-splits :
    (n : ℕ) (xs : List Delivery) (x : Delivery)
    → AllPairs NewestFirst xs
    → In x xs
    → In x (take n xs) ⊎ IsCut n (take n xs) x.row
unfolding take
take-splits zero xs x h i = inr (refl, tt)
take-splits (suc n) [] x h i = absurd i
take-splits (suc n) (y ∷ ys) x h (inl e) = inl (inl e)
take-splits (suc n) (y ∷ ys) x h (inr i) = elim (take-splits n ys x h.1 i) [
  | inl here ↦ inl (inr here)
  | inr cut ↦ inr (ap suc cut.0, (All-at (NewestFirst y) x ys h.0 i, cut.1))
]

In-with_name :
    (x : Delivery) (d : DeliveryRow) (o : Option TargetRow) (rows : List Delivery)
    → In x rows
    → In x (with_name d o rows)
In-with_name x d none rows i = i
In-with_name x d (some target) rows i = inr i

In-join_targets :
    (targets : List TargetRow) (target : TargetRow) (d : DeliveryRow) (ds : List DeliveryRow)
    → find (λ (x : TargetRow). x.id == d.target_id) targets ≡ some target
    → In d ds
    → In (record { row = d; target_name = target.name }) (join_targets targets ds)
unfolding join_targets
In-join_targets targets target d [] e i = i
In-join_targets targets target d (c ∷ ds) e (inl same) =
    subst (λ x. In (record { row = d; target_name = target.name }) (join_targets targets (x ∷ ds)))
      same (rw e (inl refl))
In-join_targets targets target d (c ∷ ds) e (inr i) =
    In-with_name _ c _ (join_targets targets ds) (In-join_targets targets target d ds e i)

none-IsUntargeted :
    (targets : List TargetRow) (d : DeliveryRow)
    → find (λ (x : TargetRow). x.id == d.target_id) targets ≡ none
    → IsUntargeted targets d
none-IsUntargeted [] d e = tt
none-IsUntargeted (x ∷ xs) d e = elim (Bool-cases (x.id == d.target_id)) [
  | inl here ↦ absurd ground arith
  | inr there ↦ (λ same. ground arith, none-IsUntargeted xs d ground arith)
]

-- A row that is not wanted, or has no target, or is on the page, or is older than all of the `n`
-- rows of the page.
pub IsPlaced : DeliveryFilters → EventTables → ℕ → List Delivery → DeliveryRow → Type 0
IsPlaced filters t n page d =
    (¬ IsWanted filters d) ⊎ (IsUntargeted t.targets d ⊎ (IsOn page d ⊎ IsCut n page d))

module _ (filters : DeliveryFilters) (t : EventTables) (n : ℕ) where
  unfoldable pub sorted_rows : List Delivery
  unfolding order_by
  sorted_rows =
      order_by newest_delivery (join_targets t.targets (keep (passes filters) t.deliveries))

  wanted-IsPlaced :
      (d : DeliveryRow) (o : Option TargetRow)
      → find (λ (x : TargetRow). x.id == d.target_id) t.targets ≡ o
      → AllPairs NewestFirst sorted_rows
      → In d t.deliveries
      → passes filters d ≡ true
      → IsPlaced filters t n (take n sorted_rows) d
  unfolding IsPlaced sorted_rows
  wanted-IsPlaced d none e ordered i h = inr (inl (none-IsUntargeted t.targets d e))
  wanted-IsPlaced d (some target) e ordered i h =
      let x : Delivery = record { row = d; target_name = target.name } in
      let kept = In-keep (passes filters) d t.deliveries i h in
      let joined = In-join_targets t.targets target d (keep (passes filters) t.deliveries) e kept in
      elim (take-splits n sorted_rows x ordered (In-order_by newest_delivery x _ joined)) [
        | inl here ↦ inr (inr (inl (x, here, refl)))
        | inr cut ↦ inr (inr (inr cut))
      ]

  row-IsPlaced :
      (d : DeliveryRow)
      → AllPairs NewestFirst sorted_rows
      → In d t.deliveries
      → IsPlaced filters t n (take n sorted_rows) d
  unfolding IsPlaced
  row-IsPlaced d ordered i = elim (Bool-cases (passes filters d)) [
    | inl h ↦ wanted-IsPlaced d _ refl ordered i h
    | inr h ↦ inl (λ wanted. let h' = passes_of_IsWanted filters d wanted in ground arith)
  ]

  pub rows-IsPlaced :
      AllPairs NewestFirst sorted_rows
      → All (IsPlaced filters t n (take n sorted_rows)) t.deliveries
  rows-IsPlaced ordered =
      All-imp (λ d. In d t.deliveries) (IsPlaced filters t n (take n sorted_rows)) t.deliveries
        (λ d. row-IsPlaced d ordered) (All-In t.deliveries)

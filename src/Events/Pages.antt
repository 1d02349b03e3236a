-- ===== src/Events/Pages.antt =====
-- How long a page of deliveries is, and what is on it.
use harbor_shield.Prelude.{
  ◌≡◌, refl, ◌⊎◌, ℕ, zero, suc, ◌≤◌, ◌<◌, true, List, [], ◌∷◌, Option, none, some, ==_iff, ◌==◌,
  arith, keep, find, length, All, AllPairs, All-order_by, AllPairs-order_by, All-find, find-test,
}
use harbor_shield.Prelude.Members.{In, All-In, All-keep_test}
use harbor_shield.Db.Triples.{Reads, Reads-query, Always}
use harbor_shield.Events.Tables.{TargetRow, DeliveryRow, EventTables}
use harbor_shield.Events.Wanted.{IsWanted, passes-IsWanted}
use harbor_shield.Events.Placed.{NewestFirst, IsPlaced, sorted_rows, rows-IsPlaced}
use harbor_shield.Events.Listing.{
  Delivery, DeliveryFilters, passes, effective_limit, take, with_name, join_targets,
  newest_delivery, delivery_page, list_deliveries,
}

length-take : (n : ℕ) (xs : List Delivery) → length (take n xs) ≤ n
unfolding take
length-take zero xs = omega arith
length-take (suc n) [] = omega arith
length-take (suc n) (x ∷ xs) = omega (arith, length-take n xs)

All-take : (P : Delivery → Type 0) (n : ℕ) (xs : List Delivery) → All P xs → All P (take n xs)
unfolding take
All-take P zero xs h = tt
All-take P (suc n) [] h = tt
All-take P (suc n) (x ∷ xs) h = (h.0, All-take P n xs h.1)

-- A delivery of the table that is wanted, with the name of a target that has its target id.
pub record IsListed (filters : DeliveryFilters) (t : EventTables) (d : Delivery) : Type 0 where
  pub stored : In d.row t.deliveries
  pub wanted : IsWanted filters d.row
  pub joined :
      (target : TargetRow) × In target t.targets
      × (target.id ≡ d.row.target_id)
      × (d.target_name ≡ target.name)

module _ (filters : DeliveryFilters) (t : EventTables) where
  All-with_name :
      (d : DeliveryRow) (o : Option TargetRow) (rows : List Delivery)
      → find (λ (target : TargetRow). target.id == d.target_id) t.targets ≡ o
      → In d t.deliveries
      → IsWanted filters d
      → All (IsListed filters t) rows
      → All (IsListed filters t) (with_name d o rows)
  All-with_name d none rows e i p h = h
  All-with_name d (some target) rows e i p h = (
    record {
      stored = i;
      wanted = p;
      joined = (
        target,
        All-find (λ (x : TargetRow). In x t.targets) _ t.targets target (All-In t.targets) e,
        (==_iff target.id d.target_id).0 (find-test _ t.targets target e),
        refl,
      );
    },
    h,
  )

  All-join_targets :
      (ds : List DeliveryRow)
      → All (λ d. In d t.deliveries × (passes filters d ≡ true)) ds
      → All (IsListed filters t) (join_targets t.targets ds)
  unfolding join_targets
  All-join_targets [] h = tt
  All-join_targets (d ∷ ds) h =
      All-with_name d _ _ refl h.0.0 (passes-IsWanted filters d h.0.1) (All-join_targets ds h.1)

AllPairs-take :
    (n : ℕ) (xs : List Delivery) → AllPairs NewestFirst xs → AllPairs NewestFirst (take n xs)
unfolding take
AllPairs-take zero xs h = tt
AllPairs-take (suc n) [] h = tt
AllPairs-take (suc n) (x ∷ xs) h = (All-take (NewestFirst x) n xs h.0, AllPairs-take n xs h.1)

-- How many rows a page may have: the limit that is asked for, from 1 to 200, and else 100.
abbrev pub IsBound : ℕ → ℕ → Type 0
IsBound limit n =
    ((0 < limit) × (limit ≤ 200) × (n ≡ limit)) ⊎ (((limit ≡ 0) ⊎ (200 < limit)) × (n ≡ 100))

effective_limit-IsBound : (limit : ℕ) → IsBound limit (effective_limit limit)
unfolding effective_limit
effective_limit-IsBound limit = ground arith

pub record IsPage (filters : DeliveryFilters) (t : EventTables) (page : List Delivery)
    : Type 0 where
  pub bound : ℕ
  pub asked : IsBound filters.limit bound
  pub bounded : length page ≤ bound
  pub listed : All (IsListed filters t) page
  pub ordered : AllPairs NewestFirst page
  pub placed : All (IsPlaced filters t bound page) t.deliveries

delivery_page-IsPage :
    (filters : DeliveryFilters) (t : EventTables) → IsPage filters t (delivery_page filters t)
unfolding delivery_page newest_delivery sorted_rows
delivery_page-IsPage filters t =
    let joined = join_targets t.targets (keep (passes filters) t.deliveries) in
    let sorted = sorted_rows filters t 0 in
    let n = effective_limit filters.limit in
    let newest =
      AllPairs-order_by NewestFirst newest_delivery (λ a b h. ground arith) (λ a b h. ground arith)
        (λ a b c g h. ground arith) joined in
    record {
      bound = n;
      asked = effective_limit-IsBound filters.limit;
      bounded = length-take n sorted;
      listed = All-take (IsListed filters t) n sorted (
          All-order_by (IsListed filters t) newest_delivery joined (
            All-join_targets filters t (keep (passes filters) t.deliveries) (
              All-keep_test (λ d. In d t.deliveries) (passes filters) t.deliveries
                (All-In t.deliveries))));
      ordered = AllPairs-take n sorted newest;
      placed = rows-IsPlaced filters t n newest;
    }

-- ListDeliveries changes nothing. On a page that it returns, each row is one of the table, of the
-- status, the target and the event type of those filters that are set, with the name of a target
-- that has its target id; no row is followed by a newer one; there are at most as many as the limit
-- that was asked for, if that is from 1 to 200, and else at most 100; and each row of the table that
-- the filters want and that has a target is on the page, unless the page has that many rows and none
-- of them is older.
pub list_deliveries-IsPage :
    (filters : DeliveryFilters)
    → Reads Always (λ t page. IsPage filters t page) (list_deliveries filters)
unfolding list_deliveries
list_deliveries-IsPage filters = Reads-query _ (λ t p. delivery_page-IsPage filters t)

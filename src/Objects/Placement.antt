-- ===== src/Objects/Placement.antt =====
-- Where a blob is written: resolvePlacementEndpoints, activePlacementEndpoints, recordPlacements and
-- the choice of the store, with the storage classes of internal/config/config.go.
use harbor_shield.Prelude.{
  ℕ, ◌+◌, ◌-◌, Bool, not, ◌&&◌, ◌||◌, Option, none, some, List, [], ◌∷◌, ◌++◌, map, Text, codes,
  text_eq, text_le, to_lower, trim_space, keep, find, order_by, is_empty, length, ltb, ◌==◌,
  if◌then◌else◌,
}
use harbor_shield.Db.{Action, pure, raise, query, statement, ◌>>=◌, ◌>>◌, attempt}
use harbor_shield.Db.Errors.{no_rows, distributed_unavailable, Result, ok, err}
use harbor_shield.Storage.Local.{Bytes, local_put, local_get, local_delete}
use harbor_shield.Storage.Distributed.{
  DistributedStore, first_texts, put_to_endpoints, distributed_get, distributed_delete,
}
use harbor_shield.Objects.Tables.{
  PlacementRow, NodeRow, BucketRow, ObjectTables, ObjectService, StoragePolicy, on_disk, on_network,
}

unfoldable pub normalize_storage_class : Text → Text
unfolding to_lower trim_space
normalize_storage_class value = to_lower (trim_space value)

unfoldable pub effective_replica_target : Text → ℕ → ℕ
unfolding normalize_storage_class text_eq
effective_replica_target storage_class cluster =
    let target = if cluster == 0 then 1 else cluster in
    let name = normalize_storage_class storage_class in
    if text_eq name (codes "reduced-redundancy")
    then (if ltb 1 target then target - 1 else 1)
    else if text_eq name (codes "archive-ready")
    then 1
    else target

-- `operator_state = 'active' ORDER BY name, endpoint`
unfoldable pub node_le : NodeRow → NodeRow → Bool
unfolding text_eq text_le
node_le a b = if text_eq a.name b.name then text_le a.endpoint b.endpoint else text_le a.name b.name

unfoldable pub active_endpoints : List NodeRow → List Text
unfolding order_by text_eq trim_space
active_endpoints nodes =
    map (λ (n : NodeRow). trim_space n.endpoint)
      (order_by node_le (keep (λ (n : NodeRow). text_eq n.operator_state (codes "active")) nodes))

abbrev pub is_distributed : Text → Bool
is_distributed backend = text_eq backend (codes "distributed")

abbrev is_unset : Text → Bool
is_unset name = is_empty name || text_eq name (codes "inherit")

-- The replicas of the class, where the policy names it with a number that is not 0.
unfoldable pub policy_replicas : Text → ℕ → List (Text × ℕ) → ℕ
unfolding text_eq
policy_replicas name target [] = target
policy_replicas name target ((n, replicas) ∷ policies) =
    if text_eq n name && ltb 0 replicas then replicas else policy_replicas name target policies

-- An error of the settings is as if they had no policy.
unfoldable pub policy_of :
    Option (Action ObjectTables StoragePolicy) → Action ObjectTables (Option StoragePolicy)
policy_of none = pure none
policy_of (some resolve) =
    attempt resolve (λ r. elim r [ ok p ↦ pure (some p) | err e ↦ pure none ])

unfoldable pub put_if_any :
    Option DistributedStore → Text → Bytes → List Text → Action ObjectTables (Unit {0})
put_if_any none path payload selected = raise distributed_unavailable
put_if_any (some store) path payload selected =
    on_network (put_to_endpoints store path payload selected)

module _ (s : ObjectService) where
  unfoldable pub active_placement_endpoints : Action ObjectTables (List Text)
  active_placement_endpoints = do
    endpoints ← query (λ t. ok (active_endpoints t.nodes))
    if not (is_empty endpoints) then pure endpoints else do
      total ← query (λ (t : ObjectTables). ok (length t.nodes))
      if ltb 0 total then pure [] else pure s.placement_endpoints

  unfoldable pub storage_policy : Action ObjectTables (Option StoragePolicy)
  unfolding policy_of
  storage_policy = policy_of s.resolve_storage_policy

  abbrev or_policy_class : Text → Option StoragePolicy → Text
  or_policy_class name none = name
  or_policy_class name (some p) = if is_empty p.default_class then name else p.default_class

  abbrev or_default_class : Text → Text
  or_default_class name = if is_unset name then s.default_storage_class else name

  unfoldable pub effective_class : Text → Action ObjectTables Text
  unfolding storage_policy
  effective_class storage_class =
      let name = normalize_storage_class storage_class in
      if is_unset name
      then storage_policy >>= (λ p. pure (or_default_class (or_policy_class name p)))
      else pure name

  abbrev or_policy_replicas : Text → Option StoragePolicy → ℕ
  or_policy_replicas name none = s.placement_replicas
  or_policy_replicas name (some p) = policy_replicas name s.placement_replicas p.policies

  abbrev or_class_replicas : Text → ℕ → ℕ
  or_class_replicas name target =
      if target == 0 then effective_replica_target name target else target

  -- The replica target, from the bucket's row if it was read.
  unfoldable pub replica_target : Result BucketRow → Action ObjectTables ℕ
  unfolding effective_class storage_policy
  replica_target (err e) = pure s.placement_replicas
  replica_target (ok b) =
      if ltb 0 b.replica_target
      then pure b.replica_target
      else effective_class b.storage_class >>= λ name.
          storage_policy >>= λ p. pure (or_class_replicas name (or_policy_replicas name p))

  abbrev or_no_rows : {A : Type 0} → Option A → Result A
  or_no_rows none = err no_rows
  or_no_rows (some a) = ok a

  -- availableEndpoints[:replicaTarget], with the target cut to what there is.
  unfoldable pub first_replicas : ℕ → List Text → List Text
  first_replicas target endpoints =
      if target == 0 || ltb (length endpoints) target
      then endpoints
      else first_texts target endpoints

  unfoldable pub resolve_placement_endpoints : ℕ → Action ObjectTables (List Text)
  resolve_placement_endpoints bucket =
      if not (is_distributed s.storage_backend) then pure [] else do
        available ← active_placement_endpoints
        if is_empty available
            then pure []
            else attempt
                (query (λ (t : ObjectTables).
                  or_no_rows (find (λ (b : BucketRow). b.id == bucket) t.buckets)))
                (λ r. replica_target r >>= λ target. pure (first_replicas target available))

  unfoldable pub resolve_write_backend : List Text → Text
  resolve_write_backend selected = elim s.distributed [
    | none ↦ codes "local"
    | some store ↦
        if is_distributed s.storage_backend && not (is_empty selected)
        then codes "distributed"
        else codes "local"
  ]

  unfoldable pub normalize_stored_backend : Text → Text
  normalize_stored_backend value =
      if is_distributed (to_lower (trim_space value)) then codes "distributed" else codes "local"

  -- storeForBackend: the distributed store, or `none` for the local one.
  unfoldable pub store_for_backend : Text → Option DistributedStore
  unfolding normalize_stored_backend
  store_for_backend backend =
      if is_distributed (normalize_stored_backend backend) then s.distributed else none

  unfoldable pub read_blob : Option DistributedStore → Text → Action ObjectTables Bytes
  read_blob none path = on_disk (local_get s.local_cipher s.local_root path)
  read_blob (some store) path = on_network (distributed_get store path)

  unfoldable pub delete_blob : Option DistributedStore → Text → Action ObjectTables (Unit {0})
  delete_blob none path = on_disk (local_delete s.local_root path)
  delete_blob (some store) path = on_network (distributed_delete store path)

  unfoldable pub write_blob :
      Bytes → Text → Text → Bytes → List Text → Action ObjectTables (Unit {0})
  unfolding put_if_any
  write_blob nonce backend path payload selected =
      if is_distributed backend
      then put_if_any s.distributed path payload selected
      else on_disk (local_put s.local_cipher s.local_root nonce path (ok payload))

-- The row of a placement. `(SELECT id … LIMIT 1)` is null where there is no such node.
abbrev node_id : Option NodeRow → Option ℕ
node_id none = none
node_id (some n) = some n.id

unfoldable pub place : ℕ → ℕ → Text → Text → ObjectTables → Result (Unit {0}) × ObjectTables
unfolding text_eq
place object index endpoint locator t = (
  ok tt,
  record t {
    placements =
        t.placements
        ++ record {
          object = object;
          replica_index = index;
          storage_node = node_id (find (λ (n : NodeRow). text_eq n.endpoint endpoint) t.nodes);
          locator = locator;
          endpoint = endpoint;
        }
          ∷ [];
  },
)

unfoldable pub unplace : ℕ → ObjectTables → Result (Unit {0}) × ObjectTables
unplace object t = (
  ok tt,
  record t { placements = keep (λ (p : PlacementRow). not (p.object == object)) t.placements },
)

-- `index` is that of the next endpoint, the empty ones counted.
unfoldable pub place_each : ℕ → Text → ℕ → List Text → Action ObjectTables (Unit {0})
unfolding place
place_each object locator index [] = pure tt
place_each object locator index (endpoint ∷ endpoints) =
    let spelled = trim_space endpoint in
    let rest = place_each object locator (index + 1) endpoints in
    if is_empty spelled then rest else statement (place object index spelled locator) >> rest

unfoldable pub record_placements :
    ObjectService → ℕ → Text → List Text → Action ObjectTables (Unit {0})
record_placements s object locator endpoints =
    if not (is_distributed s.storage_backend) || is_empty endpoints
    then pure tt
    else do statement (unplace object); place_each object locator 0 endpoints

-- ===== src/Storage/Distributed.antt =====
-- DistributedStore of internal/storage/storage.go: its endpoints and tokens, and the requests to the
-- blob nodes.
use harbor_shield.Prelude.{
  ℕ, zero, suc, Bool, not, ◌&&◌, ◌||◌, Option, none, some, List, [], ◌∷◌, ◌++◌, map, Text, codes,
  text_eq, any, keep, is_empty, to_lower, trim_space, ltb, length, if◌then◌else◌,
}
use harbor_shield.Db.{Action, pure, raise, ◌>>=◌, attempt}
use harbor_shield.Db.Errors.{Error, not_exist, unsupported_backend, Result, ok, err}
use harbor_shield.Storage.Paths.{trim_endpoint, trim_slashes_left}
use harbor_shield.Storage.Local.{Bytes}
use harbor_shield.Storage.Nodes.{Network, request, store_blob, remove_blob, fetch_blob, head_blob}

pub record DistributedStore : Type 0 where
  pub endpoints : List Text
  pub shared_token : Text
  pub endpoint_tokens : List (Text × Text)

unfoldable pub mentions : Text → List Text → Bool
unfolding any text_eq
mentions endpoint endpoints = any (λ e. text_eq e endpoint) endpoints

unfoldable pub spelled_endpoints : List Text → List Text
unfolding trim_endpoint
spelled_endpoints endpoints = keep (λ e. not (is_empty e)) (map trim_endpoint endpoints)

-- list[:n]
abbrev pub first_texts : ℕ → List Text → List Text
first_texts zero xs = []
first_texts (suc n) [] = []
first_texts (suc n) (x ∷ xs) = x ∷ first_texts n xs

-- A negative number of replicas is 0 here: both leave all the endpoints.
unfoldable pub new_distributed : List Text → ℕ → Text → DistributedStore
unfolding spelled_endpoints
new_distributed endpoints replicas token =
    let normalized = spelled_endpoints endpoints in
    record {
      endpoints =
          if ltb 0 replicas && ltb replicas (length normalized)
          then first_texts replicas normalized
          else normalized;
      shared_token = token;
      endpoint_tokens = [];
    }

-- The kind of store that NewStore makes.
pub data StoreKind : Type 0 where
  local_store distributed_store : StoreKind

unfoldable pub new_store : Text → List Text → Result StoreKind
unfolding text_eq to_lower trim_space
new_store backend endpoints =
    let name = to_lower (trim_space backend) in
    if text_eq name [] || text_eq name (codes "local")
    then ok local_store
    else if text_eq name (codes "distributed")
    then (if is_empty endpoints then err unsupported_backend else ok distributed_store)
    else err unsupported_backend

-- `seen` has what was taken before.
unfoldable pub distinct_endpoints : List Text → List Text → List Text
unfolding trim_endpoint mentions
distinct_endpoints seen [] = []
distinct_endpoints seen (endpoint ∷ endpoints) =
    let spelled = trim_endpoint endpoint in
    let skipped = distinct_endpoints seen endpoints in
    let taken = spelled ∷ distinct_endpoints (spelled ∷ seen) endpoints in
    if is_empty spelled then skipped else if mentions spelled seen then skipped else taken

unfoldable pub replace_endpoints : List Text → DistributedStore → DistributedStore
unfolding distinct_endpoints
replace_endpoints endpoints s = record s { endpoints = distinct_endpoints [] endpoints }

unfoldable pub token_of : Text → List (Text × Text) → Option Text
unfolding text_eq
token_of endpoint [] = none
token_of endpoint ((e, token) ∷ tokens) =
    if text_eq e endpoint then some token else token_of endpoint tokens

unfoldable pub without_token : Text → List (Text × Text) → List (Text × Text)
unfolding text_eq
without_token endpoint tokens = keep (λ (t : Text × Text). not (text_eq t.0 endpoint)) tokens

unfoldable pub set_endpoint_token : Text → Text → DistributedStore → DistributedStore
unfolding trim_endpoint without_token trim_space
set_endpoint_token endpoint token s =
    let spelled = trim_endpoint endpoint in
    let others = without_token spelled s.endpoint_tokens in
    if is_empty spelled
    then s
    else if is_empty (trim_space token)
    then record s { endpoint_tokens = others }
    else record s { endpoint_tokens = (spelled, token) ∷ others }

abbrev or_shared : Text → Option Text → Text
or_shared shared none = shared
or_shared shared (some token) = if is_empty token then shared else token

unfoldable pub token_for_endpoint : DistributedStore → Text → Text
unfolding token_of trim_endpoint
token_for_endpoint s endpoint =
    or_shared s.shared_token (token_of (trim_endpoint endpoint) s.endpoint_tokens)

-- The path in the address of a blob.
abbrev pub blob_path : Text → Text
blob_path path = trim_slashes_left path

unfoldable pub put_one : Text → Text → Bytes → Action Network (Unit {0})
put_one endpoint path payload = request endpoint (store_blob (blob_path path) payload)

unfoldable pub get_one : Text → Text → Action Network Bytes
get_one endpoint path = request endpoint (fetch_blob (blob_path path))

unfoldable pub delete_one : Text → Text → Action Network (Unit {0})
delete_one endpoint path = request endpoint (remove_blob (blob_path path))

unfoldable pub exists_on_endpoint : Text → Text → Action Network Bool
exists_on_endpoint endpoint path = request endpoint (head_blob (blob_path path))

unfoldable pub copy_between_endpoints : Text → Text → Text → Action Network (Unit {0})
copy_between_endpoints source target path = do
  payload ← get_one source path
  put_one target path payload

unfoldable pub allowed_endpoints : List Text → List Text → List Text
unfolding mentions spelled_endpoints
allowed_endpoints current endpoints = keep (λ e. mentions e current) (spelled_endpoints endpoints)

unfoldable pub normalize_target_endpoints : DistributedStore → List Text → List Text
unfolding allowed_endpoints
normalize_target_endpoints s endpoints =
    let out = allowed_endpoints s.endpoints endpoints in
    if is_empty endpoints then s.endpoints else if is_empty out then s.endpoints else out

-- What was written is deleted, and the errors of the deletes are thrown away.
unfoldable pub undo_writes : Text → List Text → Action Network (Unit {0})
undo_writes path [] = pure tt
undo_writes path (endpoint ∷ written) =
    attempt (delete_one endpoint path) (λ r. undo_writes path written)

-- After the request to one target: the next ones, or the end with an error.
unfoldable pub go_on :
    Text → List Text → Action Network (Unit {0}) → Result (Unit {0}) → Action Network (Unit {0})
go_on path written next (ok _) = next
go_on path written next (err e) = attempt (undo_writes path written) (λ s. raise e)

unfoldable pub put_each : Text → Bytes → List Text → List Text → Action Network (Unit {0})
unfolding go_on
put_each path payload written [] = pure tt
put_each path payload written (endpoint ∷ targets) =
    attempt (put_one endpoint path payload)
      (go_on path written (put_each path payload (written ++ endpoint ∷ []) targets))

module _ (s : DistributedStore) where
  unfoldable pub put_to_endpoints : Text → Bytes → List Text → Action Network (Unit {0})
  put_to_endpoints path payload endpoints =
      put_each path payload [] (normalize_target_endpoints s endpoints)

  unfoldable pub distributed_put : Text → Bytes → Action Network (Unit {0})
  distributed_put path payload = put_to_endpoints path payload s.endpoints

-- The first endpoint that has the blob; `last` is the last error.
unfoldable pub get_first : Text → Error → List Text → Action Network Bytes
get_first path last [] = raise last
get_first path last (endpoint ∷ endpoints) =
    attempt (get_one endpoint path)
      λ r. elim r [ ok payload ↦ pure payload | err e ↦ get_first path e endpoints ]

unfoldable pub distributed_get : DistributedStore → Text → Action Network Bytes
distributed_get s path = get_first path not_exist s.endpoints

abbrev or_last : Option Error → Action Network (Unit {0})
or_last none = pure tt
or_last (some e) = raise e

unfoldable pub delete_each : Text → Option Error → List Text → Action Network (Unit {0})
delete_each path last [] = or_last last
delete_each path last (endpoint ∷ endpoints) = attempt (delete_one endpoint path) λ r. elim r [
  | ok _ ↦ delete_each path last endpoints
  | err e ↦ delete_each path (some e) endpoints
]

unfoldable pub distributed_delete : DistributedStore → Text → Action Network (Unit {0})
distributed_delete s path = delete_each path none s.endpoints

-- ===== src/Storage/Nodes.antt =====
-- The blob nodes and the network, as the requests of internal/storage/storage.go meet them.
--
-- A node keeps a blob for each path; so does cmd/blobnode, which has a LocalStore below its root, for
-- the paths that filepath.Clean leaves as they are. What becomes of the coming requests is a schedule; a request
-- to an endpoint at which no node is gets no answer.
use harbor_shield.Prelude.{
  Bool, true, false, Option, none, some, List, [], ◌∷◌, Text, text_eq, if◌then◌else◌,
}
use harbor_shield.Db.{Action}
use harbor_shield.Db.Errors.{not_exist, io_failed, Result, ok, err}
use harbor_shield.Storage.Local.{Bytes, Files, find_file, without_file}

pub data Fate : Type 0 where
  -- The node answers as it should.
  delivered : Fate
  -- The request does not reach the node, or the node refuses it.
  refused : Fate
  -- The node does what it is asked, but its answer is lost.
  unheard : Fate

pub record Node : Type 0 where
  pub endpoint : Text
  pub blobs : Files

-- The schedule of the coming requests: after it all are delivered.
pub record Network : Type 0 where
  pub nodes : List Node
  pub fates : List Fate

-- What a node does with a request: its answer, and its blobs after it.
abbrev pub Handler : Type 0 → Type 0
Handler A = Files → Result A × Files

module _ {A : Type 0} where
  unfoldable pub answer : Text → Handler A → List Node → Result A
  unfolding text_eq
  answer endpoint f [] = err io_failed
  answer endpoint f (n ∷ nodes) =
      if text_eq n.endpoint endpoint then (f n.blobs).0 else answer endpoint f nodes

  unfoldable pub effect : Text → Handler A → List Node → List Node
  unfolding text_eq
  effect endpoint f [] = []
  effect endpoint f (n ∷ nodes) =
      if text_eq n.endpoint endpoint
      then record n { blobs = (f n.blobs).1 } ∷ nodes
      else n ∷ effect endpoint f nodes

  unfoldable pub meet : Text → Handler A → Fate → List Fate → List Node → Result A × Network
  unfolding answer effect
  meet endpoint f delivered fates nodes =
      (answer endpoint f nodes, record { nodes = effect endpoint f nodes; fates = fates })
  meet endpoint f refused fates nodes = (err io_failed, record { nodes = nodes; fates = fates })
  meet endpoint f unheard fates nodes =
      (err io_failed, record { nodes = effect endpoint f nodes; fates = fates })

  unfoldable pub meet_next : Text → Handler A → List Fate → List Node → Result A × Network
  unfolding meet
  meet_next endpoint f [] nodes = meet endpoint f delivered [] nodes
  meet_next endpoint f (fate ∷ fates) nodes = meet endpoint f fate fates nodes

  -- `client.Do`, and the test of the status.
  unfoldable pub request : Text → Handler A → Action Network A
  unfolding meet_next
  request endpoint f w =
      let (r, network) = meet_next endpoint f w.tables.fates w.tables.nodes in
      (r, record { tables = network; faults = w.faults })

-- StatusNoContent
abbrev pub store_blob : Text → Bytes → Handler (Unit {0})
store_blob path payload blobs = (ok tt, (path, payload) ∷ without_file path blobs)

-- StatusNotFound is no error of a delete.
abbrev pub remove_blob : Text → Handler (Unit {0})
remove_blob path blobs = (ok tt, without_file path blobs)

abbrev blob_or_not_exist : Option Bytes → Result Bytes
blob_or_not_exist none = err not_exist
blob_or_not_exist (some payload) = ok payload

abbrev pub fetch_blob : Text → Handler Bytes
fetch_blob path blobs = (blob_or_not_exist (find_file path blobs), blobs)

abbrev is_there : Option Bytes → Bool
is_there none = false
is_there (some payload) = true

abbrev pub head_blob : Text → Handler Bool
head_blob path blobs = (ok (is_there (find_file path blobs)), blobs)

-- What the node at an endpoint has under a path.
unfoldable pub blob_at : Text → Text → List Node → Option Bytes
unfolding text_eq find_file
blob_at endpoint path [] = none
blob_at endpoint path (n ∷ nodes) =
    if text_eq n.endpoint endpoint then find_file path n.blobs else blob_at endpoint path nodes

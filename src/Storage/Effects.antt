-- ===== src/Storage/Effects.antt =====
-- What a request to a blob node does to what each node has under a path.
use harbor_shield.Prelude.{
  ◌≡◌, refl, inl, inr, true, false, Option, none, some, List, [], ◌∷◌, Text, text_eq, text_eq_iff,
  text_eq_refl, any, arith, Bool-cases,
}
use harbor_shield.Db.Errors.{ok}
use harbor_shield.Storage.Local.{Bytes, Files, find_file}
use harbor_shield.Storage.RoundTrip.{find_file-without, find_file-eq}
use harbor_shield.Storage.Nodes.{
  Fate, delivered, refused, unheard, Node, Handler, answer, effect, store_blob, remove_blob,
  blob_at,
}

-- A node is at the endpoint.
abbrev pub HasNode : List Node → Text → Type 0
HasNode nodes endpoint = any (λ (n : Node). text_eq n.endpoint endpoint) nodes ≡ true

-- One of the coming requests fails, at most, and it is the last that is scheduled.
abbrev pub OneFault : List Fate → Type 0
OneFault [] = Unit
OneFault (delivered ∷ fates) = OneFault fates
OneFault (refused ∷ fates) = fates ≡ []
OneFault (unheard ∷ fates) = fates ≡ []

-- The targets whose requests are answered, one by one, before the request that fails.
unfoldable pub answered_targets : List Fate → List Text → List Text
answered_targets fates [] = []
answered_targets [] (e ∷ targets) = e ∷ answered_targets [] targets
answered_targets (delivered ∷ fates) (e ∷ targets) = e ∷ answered_targets fates targets
answered_targets (refused ∷ fates) (e ∷ targets) = []
answered_targets (unheard ∷ fates) (e ∷ targets) = []

pub HasNode-effect :
    {A : Type 0} (e endpoint : Text) (f : Handler A) (nodes : List Node)
    → HasNode nodes endpoint
    → HasNode (effect e f nodes) endpoint
unfolding effect any
HasNode-effect e endpoint f [] h = h
HasNode-effect e endpoint f (n ∷ nodes) h = elim (Bool-cases (text_eq n.endpoint e)) [
  | inl here ↦ rw here h
  | inr there ↦ rw there (ground (arith, HasNode-effect e endpoint f nodes))
]

pub answer-store :
    (path endpoint : Text) (payload : Bytes) (nodes : List Node)
    → HasNode nodes endpoint
    → answer endpoint (store_blob path payload) nodes ≡ ok tt
unfolding answer any
answer-store path endpoint payload [] h = cc
answer-store path endpoint payload (n ∷ nodes) h =
    ground (arith, answer-store path endpoint payload nodes)

-- A request to another endpoint.
pub blob_at-effect_elsewhere :
    {A : Type 0} (e endpoint path : Text) (f : Handler A) (nodes : List Node)
    → text_eq e endpoint ≡ false
    → blob_at endpoint path (effect e f nodes) ≡ blob_at endpoint path nodes
unfolding blob_at effect
blob_at-effect_elsewhere e endpoint path f [] h = refl
blob_at-effect_elsewhere e endpoint path f (n ∷ nodes) h =
    elim (Bool-cases (text_eq n.endpoint e)) [
      | inl here ↦
          let same : n.endpoint ≡ e = (text_eq_iff n.endpoint e).0 here in
          let no : text_eq n.endpoint endpoint ≡ false = rw same h in rw (here, no) refl
      | inr there ↦ rw there (ground (arith, blob_at-effect_elsewhere e endpoint path f nodes h))
    ]

-- A request that leaves a path of every node as it was.
pub blob_at-effect_aside :
    {A : Type 0} (e endpoint path : Text) (f : Handler A) (nodes : List Node)
    → ((blobs : Files) → find_file path (f blobs).1 ≡ find_file path blobs)
    → blob_at endpoint path (effect e f nodes) ≡ blob_at endpoint path nodes
unfolding blob_at effect
blob_at-effect_aside e endpoint path f [] h = refl
blob_at-effect_aside e endpoint path f (n ∷ nodes) h = elim (Bool-cases (text_eq n.endpoint e)) [
  | inl here ↦ rw here (ground (arith, h n.blobs))
  | inr there ↦ rw there (ground (arith, blob_at-effect_aside e endpoint path f nodes h))
]

-- What a request makes of a path, where it does that to every node that has one.
pub blob_at-effect :
    {A : Type 0} (e endpoint path : Text) (f : Handler A) (nodes : List Node) (after : Option Bytes)
    → ((blobs : Files) → find_file path (f blobs).1 ≡ after)
    → blob_at endpoint path nodes ≡ after
    → blob_at endpoint path (effect e f nodes) ≡ after
unfolding blob_at effect
blob_at-effect e endpoint path f [] after h k = k
blob_at-effect e endpoint path f (n ∷ nodes) after h k = elim (Bool-cases (text_eq n.endpoint e)) [
  | inl here ↦ rw here (ground (arith, h n.blobs))
  | inr there ↦ rw there (ground (arith, blob_at-effect e endpoint path f nodes after h))
]

module _ (path : Text) (payload : Bytes) where
  pub find_file-store :
      (blobs : Files) → find_file path (store_blob path payload blobs).1 ≡ some payload
  find_file-store blobs = find_file-eq path path payload _ (text_eq_refl path)

  pub blob_at-store :
      (e : Text) (nodes : List Node)
      → answer e (store_blob path payload) nodes ≡ ok tt
      → blob_at e path (effect e (store_blob path payload) nodes) ≡ some payload
  unfolding answer effect blob_at
  blob_at-store e [] h = absurd (cc)
  blob_at-store e (n ∷ nodes) h = elim (Bool-cases (text_eq n.endpoint e)) [
    | inl here ↦ rw here (ground (arith, find_file-store n.blobs))
    | inr there ↦ rw there (ground (arith, blob_at-store e nodes))
  ]

  pub blob_at-remove :
      (e : Text) (nodes : List Node) → blob_at e path (effect e (remove_blob path) nodes) ≡ none
  unfolding effect blob_at
  blob_at-remove e [] = refl
  blob_at-remove e (n ∷ nodes) = elim (Bool-cases (text_eq n.endpoint e)) [
    | inl here ↦ rw here (ground (arith, find_file-without path n.blobs))
    | inr there ↦ rw there (ground (arith, blob_at-remove e nodes))
  ]

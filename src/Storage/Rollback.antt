-- ===== src/Storage/Rollback.antt =====
-- DistributedStore.Put: what was written is taken back when a target fails, and no other path is touched.
use mathlib.Core.Path.{subst}
use mathlib.Core.List.{append-nil, append_assoc}
use harbor_shield.Prelude.{
  ◌≡◌, refl, sym, ap, ◌∙◌, Bool, false, none, List, [], ◌∷◌, ◌++◌, Text, text_eq, All, All-imp,
}
use harbor_shield.Db.{World, Action, pure, attempt}
use harbor_shield.Db.Errors.{Error, io_failed, Result, ok, err}
use harbor_shield.Db.Returns.{ByResult, by_result}
use harbor_shield.Db.Keeps.{Keeps, IsPreorder, Keeps-pure, Keeps-raise, Keeps-attempt}
use harbor_shield.Storage.Local.{Bytes, Files, find_file}
use harbor_shield.Storage.RoundTrip.{find_file-without, find_file-without_other}
use harbor_shield.Storage.Nodes.{
  Fate, delivered, refused, unheard, Node, Network, Handler, answer, effect, meet, meet_next,
  request, store_blob, remove_blob, blob_at,
}
use harbor_shield.Storage.Distributed.{
  DistributedStore, blob_path, put_one, delete_one, undo_writes, go_on, put_each,
  normalize_target_endpoints, put_to_endpoints,
}
use harbor_shield.Storage.Effects.{
  HasNode, OneFault, answered_targets, HasNode-effect, answer-store, blob_at-effect_aside,
  blob_at-effect, blob_at-remove,
}
use harbor_shield.Storage.Replication.{
  net, Holds, Lacks, put_each-ok, put_each-err, put_one-delivered, put_one-last, put_one-refused,
  put_one-unheard, put_each-Holds, stored,
}

module _ (path : Text) (payload : Bytes) where
  abbrev taken_back : List Text → List Node → List Bool → World Network
  taken_back written nodes faults = (undo_writes path written (net nodes [] faults)).1

  undo_writes-cons :
      (e : Text) (written : List Text) (nodes : List Node) (faults : List Bool)
      → taken_back (e ∷ written) nodes faults
        ≡ taken_back written (effect e (remove_blob (blob_path path)) nodes) faults
  unfolding undo_writes attempt delete_one request meet_next meet
  undo_writes-cons e written nodes faults = refl

  undo_writes-keeps :
      (written : List Text) (nodes : List Node) (faults : List Bool) (e : Text)
      → Lacks path payload (net nodes [] faults) e
      → Lacks path payload (taken_back written nodes faults) e
  unfolding undo_writes pure
  undo_writes-keeps [] nodes faults e h = h
  undo_writes-keeps (d ∷ written) nodes faults e h =
      let f = remove_blob (blob_path path) in
      let gone =
        blob_at-effect d e (blob_path path) f nodes none (find_file-without (blob_path path)) h in
      rw (undo_writes-cons d written nodes faults)
        (undo_writes-keeps written (effect d f nodes) faults e gone)

  undo_writes-Lacks :
      (written : List Text) (nodes : List Node) (faults : List Bool)
      → All (Lacks path payload (taken_back written nodes faults)) written
  undo_writes-Lacks [] nodes faults = tt
  undo_writes-Lacks (e ∷ written) nodes faults =
      let rest = effect e (remove_blob (blob_path path)) nodes in
      subst (λ w. All (Lacks path payload w) (e ∷ written))
        (sym (undo_writes-cons e written nodes faults))
        (
          undo_writes-keeps written rest faults e (blob_at-remove (blob_path path) payload e nodes),
          undo_writes-Lacks written rest faults,
        )

  -- A failed put: after the targets that answered comes one whose request failed, and no target that
  -- answered has a blob.
  abbrev pub TakenBack : List Text → List Fate → List Text → World Network → Type 0
  TakenBack written fates targets w =
      (failed : Text) × (after : List Text) × (targets
        ≡ answered_targets fates targets ++ failed ∷ after)
      × All (Lacks path payload w) (written ++ answered_targets fates targets)

  TakenBack-cons :
      (e : Text) (written targets : List Text) (fates later : List Fate) (w : World Network)
      → answered_targets fates (e ∷ targets) ≡ e ∷ answered_targets later targets
      → TakenBack (written ++ e ∷ []) later targets w
      → TakenBack written fates (e ∷ targets) w
  TakenBack-cons e written targets fates later w step (failed, after, split, gone) = (
    failed,
    after,
    ap (λ l. e ∷ l) split ∙ ap (λ l. l ++ failed ∷ after) (sym step),
    subst (λ l. All (Lacks path payload w) (written ++ l)) (sym step)
        (subst (All (Lacks path payload w))
          (append_assoc written (e ∷ []) (answered_targets later targets)) gone),
  )

  module _ (faults : List Bool) where
    abbrev run : List Text → List Text → List Node → List Fate → Result (Unit {0}) × World Network
    run written targets nodes fates = put_each path payload written targets (net nodes fates faults)

    takes_back :
        (e : Text) (targets written : List Text) (nodes nodes' : List Node) (fates : List Fate)
        (x : Error)
        → answered_targets fates (e ∷ targets) ≡ []
        → put_one e path payload (net nodes fates faults) ≡ (err x, net nodes' [] faults)
        → TakenBack written fates (e ∷ targets) (run written (e ∷ targets) nodes fates).1
    takes_back e targets written nodes nodes' fates x none_yet h =
        rw (put_each-err path payload e targets written _ _ x h, none_yet)
          (
            e,
            targets,
            refl,
            subst (All (Lacks path payload (taken_back written nodes' faults)))
                (sym (append-nil written)) (undo_writes-Lacks written nodes' faults),
          )

    no_error :
        (written : List Text) (nodes : List Node) (fates : List Fate) (x : Error)
        → (run written [] nodes fates).0 ≡ err x
        → ⊥
    unfolding put_each pure
    no_error written nodes fates x h = cc

    goes_on :
        (e : Text) (targets written : List Text) (fates later : List Fate) (nodes : List Node)
        (x : Error)
        → answered_targets fates (e ∷ targets) ≡ e ∷ answered_targets later targets
        → put_one e path payload (net nodes fates faults) ≡ (
          answer e (store_blob (blob_path path) payload) nodes,
          net (stored path payload nodes e) later faults,
        )
        → All (HasNode nodes) (e ∷ targets)
        → (run written (e ∷ targets) nodes fates).0 ≡ err x
        → (All (HasNode (stored path payload nodes e)) targets
            → (run (written ++ e ∷ []) targets (stored path payload nodes e) later).0 ≡ err x
            → TakenBack
                (written ++ e ∷ [])
                later
                targets
                (run (written ++ e ∷ []) targets (stored path payload nodes e) later).1)
        → TakenBack written fates (e ∷ targets) (run written (e ∷ targets) nodes fates).1
    unfolding stored
    goes_on e targets written fates later nodes x next_one o has failed more =
        let next = net (stored path payload nodes e) later faults in
        let a = answer-store (blob_path path) e payload nodes has.0 in
        let step =
          put_each-ok path payload e targets written (net nodes fates faults) next
            (o ∙ ap (λ (r : Result (Unit {0})). (r, next)) a) in
        rw step (
          TakenBack-cons e written targets fates later
            (run (written ++ e ∷ []) targets (stored path payload nodes e) later).1 next_one
            (more
              (All-imp (HasNode nodes) (HasNode (stored path payload nodes e)) targets
                (λ e'. HasNode-effect e e' (store_blob (blob_path path) payload) nodes) has.1)
              (sym (ap (λ p. p.0) step) ∙ failed)))

    put_each-takes_back :
        (targets written : List Text) (fates : List Fate) (nodes : List Node) (x : Error)
        → OneFault fates
        → All (HasNode nodes) targets
        → (run written targets nodes fates).0 ≡ err x
        → TakenBack written fates targets (run written targets nodes fates).1
    unfolding answered_targets
    put_each-takes_back [] written fates nodes x one has failed =
        absurd (no_error written nodes fates x failed)
    put_each-takes_back (e ∷ targets) written [] nodes x one has failed =
        goes_on e targets written [] [] nodes x refl (put_one-last path payload nodes [] faults e)
          has failed
          (λ h k.
            put_each-takes_back targets (written ++ e ∷ []) [] (stored path payload nodes e) x tt h
              k)
    put_each-takes_back (e ∷ targets) written (delivered ∷ fates) nodes x one has failed =
        goes_on e targets written (delivered ∷ fates) fates nodes x refl
          (put_one-delivered path payload nodes fates faults e) has failed
          (λ h k.
            put_each-takes_back targets (written ++ e ∷ []) fates (stored path payload nodes e) x
              one h k)
    put_each-takes_back (e ∷ targets) written (refused ∷ fates) nodes x one has failed =
        takes_back e targets written nodes nodes (refused ∷ fates) io_failed refl (
          put_one-refused path payload nodes fates faults e
          ∙ ap (λ l. (err io_failed, net nodes l faults)) one)
    put_each-takes_back (e ∷ targets) written (unheard ∷ fates) nodes x one has failed =
        takes_back e targets written nodes (stored path payload nodes e) (unheard ∷ fates) io_failed
          refl
          (put_one-unheard path payload nodes fates faults e
            ∙ ap (λ l. (err io_failed, net (stored path payload nodes e) l faults)) one)

-- Nothing is done to another path, on any node.
abbrev pub Aside : Text → Network → Network → Type 0
Aside path s t =
    (endpoint q : Text)
    → text_eq path q ≡ false
    → blob_at endpoint q t.nodes ≡ blob_at endpoint q s.nodes

Aside-preorder : (path : Text) → IsPreorder (Aside path)
Aside-preorder path = record {
  reflexive = λ t e q h. refl;
  transitive = λ s t u h k e q n. k e q n ∙ h e q n;
}

module _ (path : Text) where
  abbrev KeepsAside : {A : Type 0} → Action Network A → Type 0
  KeepsAside m = Keeps (Aside (blob_path path)) m

  Aside-meet :
      {A : Type 0} (e : Text) (f : Handler A) (fates : List Fate) (nodes : List Node)
      → ((q : Text) (blobs : Files)
          → text_eq (blob_path path) q ≡ false
          → find_file q (f blobs).1 ≡ find_file q blobs)
      → (endpoint q : Text) → text_eq (blob_path path) q ≡ false
      → blob_at endpoint q (meet_next e f fates nodes).1.nodes ≡ blob_at endpoint q nodes
  unfolding meet_next meet
  Aside-meet e f [] nodes h d q n = blob_at-effect_aside e d q f nodes (λ b. h q b n)
  Aside-meet e f (delivered ∷ fates) nodes h d q n =
      blob_at-effect_aside e d q f nodes (λ b. h q b n)
  Aside-meet e f (refused ∷ fates) nodes h d q n = refl
  Aside-meet e f (unheard ∷ fates) nodes h d q n = blob_at-effect_aside e d q f nodes (λ b. h q b n)

  put_one-KeepsAside : (e : Text) (payload : Bytes) → KeepsAside (put_one e path payload)
  unfolding put_one request find_file
  put_one-KeepsAside e payload = record {
    at = λ w.
        Aside-meet e (store_blob (blob_path path) payload) w.tables.fates w.tables.nodes
          (λ q blobs n. rw n (find_file-without_other (blob_path path) q blobs n));
  }

  delete_one-KeepsAside : (e : Text) → KeepsAside (delete_one e path)
  unfolding delete_one request
  delete_one-KeepsAside e = record {
    at = λ w.
        Aside-meet e (remove_blob (blob_path path)) w.tables.fates w.tables.nodes
          (λ q blobs n. find_file-without_other (blob_path path) q blobs n);
  }

  undo_writes-KeepsAside : (written : List Text) → KeepsAside (undo_writes path written)
  unfolding undo_writes
  undo_writes-KeepsAside [] = Keeps-pure (Aside-preorder (blob_path path)) tt
  undo_writes-KeepsAside (e ∷ written) =
      Keeps-attempt (Aside-preorder (blob_path path)) _ _ (delete_one-KeepsAside e)
        (λ r. undo_writes-KeepsAside written)

  go_on-KeepsAside :
      (written : List Text) (next : Action Network (Unit {0})) (r : Result (Unit {0}))
      → KeepsAside next
      → KeepsAside (go_on path written next r)
  unfolding go_on
  go_on-KeepsAside written next (ok _) h = h
  go_on-KeepsAside written next (err e) h =
      Keeps-attempt (Aside-preorder (blob_path path)) _ _ (undo_writes-KeepsAside written)
        (λ r. Keeps-raise (Aside-preorder (blob_path path)) e)

  put_each-KeepsAside :
      (payload : Bytes) (targets written : List Text)
      → KeepsAside (put_each path payload written targets)
  unfolding put_each
  put_each-KeepsAside payload [] written = Keeps-pure (Aside-preorder (blob_path path)) tt
  put_each-KeepsAside payload (e ∷ targets) written =
      Keeps-attempt (Aside-preorder (blob_path path)) _ _ (put_one-KeepsAside e payload) (λ r.
        go_on-KeepsAside written _ r (put_each-KeepsAside payload targets (written ++ e ∷ [])))

module _ (s : DistributedStore) (path : Text) (payload : Bytes) (endpoints : List Text)
    (nodes : List Node) (fates : List Fate) (faults : List Bool) where
  abbrev targets : List Text
  targets = normalize_target_endpoints s endpoints

  abbrev put : Result (Unit {0}) × World Network
  put = put_to_endpoints s path payload endpoints (net nodes fates faults)

  -- If a put to endpoints returns no error, every target has the payload under the path. If it returns
  -- an error, the put is taken back: the request to a target failed, and every target that was asked
  -- before it, and answered, has no blob under the path any more. (Nothing is said of the target that
  -- failed: if only its answer was lost, it has the payload.) In both cases no node's blob under another
  -- path changes. There is a node at every target, and at most one request fails, whatever it did on its
  -- node, and after it all are delivered.
  pub put_to_endpoints_decides :
      OneFault fates
      → All (HasNode nodes) targets
      → ByResult put.0
          (All (Holds path payload put.1) targets)
          (TakenBack path payload [] fates targets put.1)
        × Aside (blob_path path) (net nodes fates faults).tables put.1.tables
  unfolding put_to_endpoints
  put_to_endpoints_decides one has = (
    by_result put.0 (λ done. put_each-Holds path payload faults targets [] fates nodes tt done)
        (λ x failed.
          put_each-takes_back path payload faults targets [] fates nodes x one has failed),
    (put_each-KeepsAside path payload targets []).at (net nodes fates faults),
  )

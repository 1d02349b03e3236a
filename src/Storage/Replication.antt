-- ===== src/Storage/Replication.antt =====
-- DistributedStore.Put: on every target, or taken back from those that were written.
use mathlib.Core.Path.{subst}
use mathlib.Core.List.{append-nil, append_assoc}
use harbor_shield.Prelude.{
  ◌≡◌, refl, sym, ap, ◌∙◌, ◌⊎◌, inl, inr, Bool, none, some, List, [], ◌∷◌, ◌++◌, Text, All,
  All-snoc, All-imp,
}
use harbor_shield.Db.{World, pure, raise, attempt}
use harbor_shield.Db.Errors.{Error, io_failed, Result, ok, err}
use harbor_shield.Db.Returns.{attempt-eq}
use harbor_shield.Storage.Local.{Bytes}
use harbor_shield.Storage.Nodes.{
  Fate, delivered, refused, unheard, Node, Network, answer, effect, meet, meet_next, request,
  store_blob, blob_at,
}
use harbor_shield.Storage.Distributed.{blob_path, put_one, undo_writes, go_on, put_each}
use harbor_shield.Storage.Effects.{blob_at-effect, find_file-store, blob_at-store}

abbrev pub net : List Node → List Fate → List Bool → World Network
net nodes fates faults = record {
  tables = record { nodes = nodes; fates = fates };
  faults = faults;
}

Result-cases : (r : Result (Unit {0})) → (r ≡ ok tt) ⊎ ((e : Error) × (r ≡ err e))
Result-cases (ok _) = inl refl
Result-cases (err e) = inr (e, refl)

module _ (path : Text) (payload : Bytes) where
  abbrev name : Text
  name = blob_path path

  abbrev pub Holds : World Network → Text → Type 0
  Holds w endpoint = blob_at endpoint (blob_path path) w.tables.nodes ≡ some payload

  abbrev pub Lacks : World Network → Text → Type 0
  Lacks w endpoint = blob_at endpoint (blob_path path) w.tables.nodes ≡ none

  -- What a written node is after one more request of the loop that is answered.
  unfoldable pub stored : List Node → Text → List Node
  stored nodes e = effect e (store_blob name payload) nodes

  Holds-stored :
      (e : Text) (nodes : List Node) (fates : List Fate) (faults : List Bool) (written : List Text)
      → All (Holds (net nodes fates faults)) written
      → answer e (store_blob name payload) nodes ≡ ok tt
      → All (Holds (net (stored nodes e) fates faults)) (written ++ e ∷ [])
  unfolding stored
  Holds-stored e nodes fates faults written h a =
      All-snoc (Holds (net (stored nodes e) fates faults)) written e
        (All-imp _ _ written
          (λ e' k.
            blob_at-effect e e' name (store_blob name payload) nodes (some payload)
              (find_file-store name payload) k)
          h)
        (blob_at-store name payload e nodes a)

  pub put_each-ok :
      (e : Text) (targets written : List Text) (w w' : World Network)
      → put_one e path payload w ≡ (ok tt, w')
      → put_each path payload written (e ∷ targets) w
        ≡ put_each path payload (written ++ e ∷ []) targets w'
  unfolding put_each
  put_each-ok e targets written w w' h =
      attempt-eq (put_one e path payload)
        (go_on path written (put_each path payload (written ++ e ∷ []) targets)) w w' (ok tt) h

  pub put_each-err :
      (e : Text) (targets written : List Text) (w w' : World Network) (x : Error)
      → put_one e path payload w ≡ (err x, w')
      → put_each path payload written (e ∷ targets) w ≡ (err x, (undo_writes path written w').1)
  unfolding put_each attempt raise
  put_each-err e targets written w w' x h =
      attempt-eq (put_one e path payload)
        (go_on path written (put_each path payload (written ++ e ∷ []) targets)) w w' (err x) h

  module _ (nodes : List Node) (fates : List Fate) (faults : List Bool) (e : Text) where
    pub put_one-delivered :
        put_one e path payload (net nodes (delivered ∷ fates) faults)
        ≡ (answer e (store_blob name payload) nodes, net (stored nodes e) fates faults)
    unfolding put_one request meet_next meet stored
    put_one-delivered = refl

    pub put_one-last :
        put_one e path payload (net nodes [] faults)
        ≡ (answer e (store_blob name payload) nodes, net (stored nodes e) [] faults)
    unfolding put_one request meet_next meet stored
    put_one-last = refl

    pub put_one-refused :
        put_one e path payload (net nodes (refused ∷ fates) faults)
        ≡ (err io_failed, net nodes fates faults)
    unfolding put_one request meet_next meet
    put_one-refused = refl

    pub put_one-unheard :
        put_one e path payload (net nodes (unheard ∷ fates) faults)
        ≡ (err io_failed, net (stored nodes e) fates faults)
    unfolding put_one request meet_next meet stored
    put_one-unheard = refl

  module _ (faults : List Bool) where
    put_each-nil :
        (written : List Text) (fates : List Fate) (nodes : List Node)
        → All (Holds (net nodes fates faults)) written
        → All (Holds (put_each path payload written [] (net nodes fates faults)).1) (written ++ [])
    unfolding put_each pure
    put_each-nil written fates nodes h = rw (append-nil written) h

    -- The fate is the first of those to come, or none is scheduled.
    abbrev outcome : List Node → List Fate → Text → Result (Unit {0}) × World Network
    outcome nodes fates e = put_one e path payload (net nodes fates faults)

    module _ (e : Text) (targets written : List Text) (nodes : List Node) where
      abbrev run : List Fate → Result (Unit {0}) × World Network
      run fates = put_each path payload written (e ∷ targets) (net nodes fates faults)

      abbrev next : List Fate → Result (Unit {0}) × World Network
      next fates =
          put_each path payload (written ++ e ∷ []) targets (net (stored nodes e) fates faults)

      not_failed :
          (fates : List Fate) (w' : World Network) (x : Error)
          → outcome nodes fates e ≡ (err x, w')
          → (run fates).0 ≡ ok tt
          → ⊥
      not_failed fates w' x h done =
          let failed = put_each-err e targets written (net nodes fates faults) w' x h in
          let same : (run fates).0 ≡ err x = ap (λ p. p.0) failed in absurd (cc)

      abbrev answered : List Fate → Result (Unit {0}) → Result (Unit {0}) × World Network
      answered later r = (r, net (stored nodes e) later faults)

      with_answer :
          (later : List Fate) (r : Result (Unit {0}))
          → answer e (store_blob name payload) nodes ≡ r
          → answered later (answer e (store_blob name payload) nodes) ≡ answered later r
      with_answer later r a = ap (answered later) a

      -- A put that succeeds goes on after each target.
      goes_on :
          (fates later : List Fate)
          → outcome nodes fates e
            ≡ (answer e (store_blob name payload) nodes, net (stored nodes e) later faults)
          → (run fates).0 ≡ ok tt
          → (answer e (store_blob name payload) nodes ≡ ok tt) × (run fates ≡ next later)
      goes_on fates later h done = elim (Result-cases (answer e (store_blob name payload) nodes)) [
        | inl a ↦ (a, put_each-ok e targets written _ _ (h ∙ with_answer later (ok tt) a))
        | inr (x, a) ↦ absurd (not_failed fates _ x (h ∙ with_answer later (err x) a) done)
      ]

    Holds-next :
        (e : Text) (targets written : List Text) (fates later : List Fate) (nodes : List Node)
        → outcome nodes fates e
          ≡ (answer e (store_blob name payload) nodes, net (stored nodes e) later faults)
        → All (Holds (net nodes fates faults)) written
        → (run e targets written nodes fates).0 ≡ ok tt
        → (All (Holds (net (stored nodes e) later faults)) (written ++ e ∷ [])
            → (next e targets written nodes later).0 ≡ ok tt
            → All (Holds (next e targets written nodes later).1) ((written ++ e ∷ []) ++ targets))
        → All (Holds (run e targets written nodes fates).1) (written ++ e ∷ targets)
    Holds-next e targets written fates later nodes o h done more =
        let g = goes_on e targets written nodes fates later o done in
        let held =
          more (Holds-stored e nodes later faults written h g.0) (sym (ap (λ p. p.0) g.1) ∙ done) in
        rw g.1 (
          subst (All (Holds (next e targets written nodes later).1))
            (append_assoc written (e ∷ []) targets) held)

    pub put_each-Holds :
        (targets written : List Text) (fates : List Fate) (nodes : List Node)
        → All (Holds (net nodes fates faults)) written
        → (put_each path payload written targets (net nodes fates faults)).0 ≡ ok tt
        → All
            (Holds (put_each path payload written targets (net nodes fates faults)).1)
            (written ++ targets)
    put_each-Holds [] written fates nodes h done = put_each-nil written fates nodes h
    put_each-Holds (e ∷ targets) written [] nodes h done =
        Holds-next e targets written [] [] nodes (put_one-last nodes [] faults e) h done
          (put_each-Holds targets (written ++ e ∷ []) [] (stored nodes e))
    put_each-Holds (e ∷ targets) written (delivered ∷ fates) nodes h done =
        Holds-next e targets written (delivered ∷ fates) fates nodes
          (put_one-delivered nodes fates faults e) h done
          (put_each-Holds targets (written ++ e ∷ []) fates (stored nodes e))
    put_each-Holds (e ∷ targets) written (refused ∷ fates) nodes h done = absurd (
        not_failed e targets written nodes (refused ∷ fates) _ _
          (put_one-refused nodes fates faults e) done)
    put_each-Holds (e ∷ targets) written (unheard ∷ fates) nodes h done = absurd (
        not_failed e targets written nodes (unheard ∷ fates) _ _
          (put_one-unheard nodes fates faults e) done)

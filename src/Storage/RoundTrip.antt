-- ===== src/Storage/RoundTrip.antt =====
-- LocalStore: what Put writes, Get reads, and no other file is touched.
use harbor_shield.Prelude.{
  ℕ, zero, suc, ◌+◌, ◌≡◌, refl, sym, ◌∙◌, ap, true, false, none, some, [], ◌∷◌, ◌++◌, Text, text_eq,
  text_eq_iff, text_eq_refl, has_prefix, drop_prefix, length, length-append, ltb, arith, Bool-cases,
  inl, inr,
}
use harbor_shield.Db.{World, calm, lift, statement, attempt, ◌>>=◌, continue}
use harbor_shield.Db.Errors.{io_failed, Result, ok, err, then_result}
use harbor_shield.Db.Returns.{ByResult, by_result}
use harbor_shield.Db.Triples.{Triple-statement, Triple-attempt-lift}
use harbor_shield.Db.Ensures.{After, After-bind, After-lift-bind}
use harbor_shield.Storage.Paths.{join_path}
use harbor_shield.Storage.Local.{
  Bytes, Aead, Opens, Files, find_file, without_file, create_file, write_file, as_io, system_call,
  file_magic, or_not_exist, take_bytes, drop_bytes, open_payload, local_put, local_get,
}

-- Two names of one file.
pub find_file-eq :
    (path q : Text) (content : Bytes) (files : Files)
    → text_eq path q ≡ true
    → find_file q ((path, content) ∷ files) ≡ some content
unfolding find_file
find_file-eq path q content files h = rw h

pub find_file-without_other :
    (path q : Text) (files : Files)
    → text_eq path q ≡ false
    → find_file q (without_file path files) ≡ find_file q files
unfolding find_file without_file
find_file-without_other path q [] h = refl
find_file-without_other path q ((name, content) ∷ files) h = elim (Bool-cases (text_eq name path)) [
  | inl same ↦
      let e : name ≡ path = (text_eq_iff name path).0 same in
      rw (same, e, h) (find_file-without_other path q files h)
  | inr other ↦ rw other (ground (arith, find_file-without_other path q files h))
]

pub find_file-without :
    (path : Text) (files : Files) → find_file path (without_file path files) ≡ none
unfolding find_file without_file
find_file-without path [] = refl
find_file-without path ((name, content) ∷ files) = elim (Bool-cases (text_eq name path)) [
  | inl same ↦ rw same (find_file-without path files)
  | inr other ↦ rw other (ground (arith, find_file-without path files))
]

module _ (path : Text) (before : Files) where
  -- Every other file is what it was.
  abbrev Others : Files → Type 0
  Others files = (q : Text) → text_eq path q ≡ false → find_file q files ≡ find_file q before

  abbrev pub Kept : Bytes → Result (Unit {0}) → Files → Type 0
  Kept content (ok _) files = Others files × (find_file path files ≡ some content)
  Kept content (err e) files = Others files

  After-system_call :
      (Pre : Files → Type 0) (Post : Result (Unit {0}) → Files → Type 0)
      (f : Files → Result (Unit {0}) × Files)
      → ((files : Files) → Pre files → Post (err io_failed) files)
      → ((files : Files) → Pre files → Post (as_io (f files).0) (f files).1)
      → After Pre Post (system_call f)
  unfolding system_call
  After-system_call Pre Post f h k =
      Triple-attempt-lift (statement f) as_io (Triple-statement f h k)

  Others-write :
      (content : Bytes) (files : Files)
      → Others files
      → Others ((path, content) ∷ without_file path files)
  unfolding find_file
  Others-write content files h q e = rw e (find_file-without_other path q files e ∙ h q e)

  After-create : After Others (Kept []) (system_call (create_file path))
  unfolding create_file
  After-create =
      After-system_call Others (Kept []) (create_file path) (λ files h. h)
        (λ files h. (Others-write [] files h, find_file-eq path path [] _ (text_eq_refl path)))

  After-write :
      (content more : Bytes)
      → After (Kept content (ok tt)) (Kept (content ++ more)) (system_call (write_file path more))
  unfolding write_file
  After-write content more =
      After-system_call (Kept content (ok tt)) (Kept (content ++ more)) (write_file path more)
        (λ files h. h.0)
        (λ files h.
          rw h.1 (Others-write _ files h.0, find_file-eq path path _ _ (text_eq_refl path)))

  After-noop :
      (Pre : Files → Type 0) (Post : Result (Unit {0}) → Files → Type 0)
      → ((files : Files) → Pre files → Post (err io_failed) files)
      → ((files : Files) → Pre files → Post (ok tt) files)
      → After Pre Post (system_call (λ files. (ok tt, files)))
  After-noop Pre Post h k = After-system_call Pre Post (λ files. (ok tt, files)) h k

take_bytes-append :
    (n : ℕ) (s t : Bytes) → length s ≡ n → (take_bytes n (s ++ t) ≡ s) × (drop_bytes n (s ++ t) ≡ t)
take_bytes-append zero [] t h = (refl, refl)
take_bytes-append (suc n) [] t h = absurd (omega arith)
take_bytes-append zero (c ∷ s) t h = absurd (omega arith)
take_bytes-append (suc n) (c ∷ s) t h =
    let k = take_bytes-append n s t (omega arith) in (ap (λ r. c ∷ r) k.0, k.1)

pub open_payload-sealed :
    (a : Aead) (nonce plain : Bytes)
    → Opens a
    → length nonce ≡ a.nonce_size
    → open_payload a ((file_magic ++ nonce) ++ a.seal nonce plain) ≡ ok plain
unfolding open_payload has_prefix drop_prefix
open_payload-sealed a nonce plain opens n =
    let sealed = a.seal nonce plain in
    let parts = take_bytes-append a.nonce_size nonce sealed n in
    let long : ltb (length (file_magic ++ nonce ++ sealed)) (6 + a.nonce_size) ≡ false =
      ground (arith, length-append nonce sealed) in
    rw (long, parts.0, parts.1, opens nonce plain) refl

continue-calm :
    {A B : Type 0} (r : Result A) (g : A → Result B) (files : Files)
    → (continue r (λ x. lift (g x)) (calm files)).0 ≡ then_result r g
unfolding lift
continue-calm (ok x) g files = refl
continue-calm (err e) g files = refl

reads_calm :
    {A B : Type 0} (f : Files → Result A) (g : A → Result B) (files : Files)
    → ((system_call (λ t. (f t, t)) >>= λ x. lift (g x)) (calm files)).0
      ≡ then_result (as_io (f files)) g
unfolding system_call statement attempt lift ◌>>=◌
reads_calm f g files = continue-calm (as_io (f files)) g files

module _ (a : Aead) (root : Text) where
  abbrev pub full : Text → Text
  full path = join_path (root ∷ path ∷ [])

  pub local_get-calm :
      (path : Text) (files : Files)
      → (local_get a root path (calm files)).0
        ≡ then_result (as_io (or_not_exist (find_file (full path) files))) (open_payload a)
  unfolding local_get ◌>>=◌ attempt statement lift
  local_get-calm path files =
      reads_calm (λ t. or_not_exist (find_file (full path) t)) (open_payload a) files

  pub local_put_lem :
      (nonce path : Text) (plain : Bytes) (before : Files)
      → After
          (λ files. files ≡ before)
          (Kept (full path) before ((file_magic ++ nonce) ++ a.seal nonce plain))
          (local_put a root nonce path (ok plain))
  unfolding local_put
  local_put_lem nonce path plain before =
      let name = full path in
      After-bind {Mid = λ r files. Others name before files} _ _
        (After-noop name before (λ files. files ≡ before) (λ r. Others name before)
          (λ files e q k. ap (find_file q) e) (λ files e q k. ap (find_file q) e))
        (λ _.
          After-bind {Mid = Kept name before []} _ _ (After-create name before)
            (λ _. After-lift-bind plain _ (
              After-bind {Mid = Kept name before []} _ _
                (After-noop name before (Kept name before [] (ok tt)) (Kept name before [])
                  (λ files h. h.0) (λ files h. h))
                (λ _.
                  After-bind {Mid = Kept name before file_magic} _ _
                    (After-write name before [] file_magic)
                    (λ _.
                      After-bind {Mid = Kept name before (file_magic ++ nonce)} _ _
                        (After-write name before file_magic nonce)
                        (λ _. After-write name before (file_magic ++ nonce) (a.seal nonce plain))
                        (λ e files h. h))
                    (λ e files h. h))
                (λ e files h. h)))
            (λ e files h. h))
        (λ e files h. h)

Kept-Others :
    (path : Text) (before : Files) (content : Bytes) (r : Result (Unit {0})) (files : Files)
    → Kept path before content r files
    → Others path before files
Kept-Others path before content (ok _) files h = h.0
Kept-Others path before content (err e) files h = h

Kept-content :
    (path : Text) (before : Files) (content : Bytes) (r : Result (Unit {0})) (files : Files)
    → Kept path before content r files
    → r ≡ ok tt
    → find_file path files ≡ some content
Kept-content path before content (ok _) files h e = h.1
Kept-content path before content (err x) files h e = cc

module _ (a : Aead) (root nonce path : Text) (plain : Bytes) (w : World Files) where
  abbrev done : Result (Unit {0}) × World Files
  done = local_put a root nonce path (ok plain) w

  done-Kept :
      Kept
        (full a root path)
        w.tables
        ((file_magic ++ nonce) ++ a.seal nonce plain)
        done.0
        done.1.tables
  done-Kept = (local_put_lem a root nonce path plain w.tables).at w refl

  -- What Put stores under a path is what a later Get of the path returns, when Put returns no error
  -- and the nonce has the size that the cipher wants; and whether it does or not, a Get of a path that
  -- names another file returns what it would have returned before.
  pub local_get-put :
      Opens a
      → length nonce ≡ a.nonce_size
      → ByResult done.0 ((local_get a root path (calm done.1.tables)).0 ≡ ok plain) Unit
        × ((q : Text)
            → text_eq (join_path (root ∷ path ∷ [])) (join_path (root ∷ q ∷ [])) ≡ false
            → (local_get a root q (calm done.1.tables)).0 ≡ (local_get a root q (calm w.tables)).0)
  local_get-put opens n = (
    by_result done.0
        (λ h.
          local_get-calm a root path done.1.tables
          ∙ rw (Kept-content _ _ _ _ _ done-Kept h) (open_payload-sealed a nonce plain opens n))
        (λ e h. tt),
    λ q other.
        local_get-calm a root q done.1.tables
        ∙ rw (Kept-Others _ _ _ _ _ done-Kept (full a root q) other)
            (sym (local_get-calm a root q w.tables)),
  )

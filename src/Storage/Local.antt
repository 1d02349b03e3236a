-- ===== src/Storage/Local.antt =====
-- LocalStore of internal/storage/storage.go: encrypted files below a root.
--
-- The file system is an association list. Every call of the system may fail, and then it does
-- nothing; that a directory is made is no part of the state.
use harbor_shield.Prelude.{
  ℕ, zero, suc, ◌+◌, ◌≡◌, Option, none, some, List, [], ◌∷◌, ◌++◌, Text, codes, text_eq, has_prefix,
  drop_prefix, keep, length, not, ltb, if◌then◌else◌,
}
use harbor_shield.Db.{Action, lift, statement, ◌>>=◌, ◌>>◌, attempt}
use harbor_shield.Db.Errors.{
  database, not_exist, io_failed, blob_too_short, blob_header_mismatch, decrypt_failed, Result, ok,
  err,
}
use harbor_shield.Storage.Paths.{join_path}

abbrev pub Bytes : Type 0
Bytes = List ℕ

-- AES-GCM with the key of the store.
pub record Aead : Type 0 where
  pub nonce_size : ℕ
  pub seal : Bytes → Bytes → Bytes
  pub open_sealed : Bytes → Bytes → Option Bytes

-- What is sealed is opened with the same nonce.
abbrev pub Opens : Aead → Type 0
Opens a = (nonce plain : Bytes) → a.open_sealed nonce (a.seal nonce plain) ≡ some plain

abbrev pub Files : Type 0
Files = List (Text × Bytes)

unfoldable pub find_file : Text → Files → Option Bytes
unfolding text_eq
find_file path [] = none
find_file path ((name, content) ∷ files) =
    if text_eq name path then some content else find_file path files

unfoldable pub without_file : Text → Files → Files
unfolding text_eq
without_file path files = keep (λ (f : Text × Bytes). not (text_eq f.0 path)) files

-- os.Create truncates the file; a write appends to it.
abbrev append_to : Option Bytes → Bytes → Bytes
append_to none more = more
append_to (some content) more = content ++ more

unfoldable pub create_file : Text → Files → Result (Unit {0}) × Files
unfolding without_file
create_file path files = (ok tt, (path, []) ∷ without_file path files)

unfoldable pub write_file : Text → Bytes → Files → Result (Unit {0}) × Files
unfolding without_file find_file
write_file path more files =
    (ok tt, (path, append_to (find_file path files) more) ∷ without_file path files)

abbrev pub as_io : {A : Type 0} → Result A → Result A
as_io (ok a) = ok a
as_io (err database) = err io_failed
as_io (err e) = err e

-- One call of the system.
unfoldable pub system_call : {A : Type 0} → (Files → Result A × Files) → Action Files A
system_call f = attempt (statement f) (λ r. lift (as_io r))

abbrev pub file_magic : Bytes
file_magic = codes "HSENC1"

abbrev pub or_not_exist : Option Bytes → Result Bytes
or_not_exist none = err not_exist
or_not_exist (some content) = ok content

abbrev or_decrypt_failed : Option Bytes → Result Bytes
or_decrypt_failed none = err decrypt_failed
or_decrypt_failed (some plain) = ok plain

-- What payload[:n] and payload[n:] are.
abbrev pub take_bytes : ℕ → Bytes → Bytes
take_bytes zero s = []
take_bytes (suc n) [] = []
take_bytes (suc n) (c ∷ s) = c ∷ take_bytes n s

abbrev pub drop_bytes : ℕ → Bytes → Bytes
drop_bytes zero s = s
drop_bytes (suc n) [] = []
drop_bytes (suc n) (c ∷ s) = drop_bytes n s

unfoldable pub open_payload : Aead → Bytes → Result Bytes
unfolding has_prefix drop_prefix
open_payload a payload =
    let rest = drop_prefix payload file_magic in
    if ltb (length payload) (6 + a.nonce_size)
    then err blob_too_short
    else if not (has_prefix payload file_magic)
    then err blob_header_mismatch
    else or_decrypt_failed
        (a.open_sealed (take_bytes a.nonce_size rest) (drop_bytes a.nonce_size rest))

module _ (a : Aead) (root : Text) where
  -- `body` is what ReadAll makes of the reader, `nonce` what crypto/rand gives.
  unfoldable pub local_put : Bytes → Text → Result Bytes → Action Files (Unit {0})
  unfolding system_call
  local_put nonce path body = do
    let full_path = join_path (root ∷ path ∷ [])
    system_call (λ files. (ok tt, files))
    system_call (create_file full_path)
    plaintext ← lift body
    system_call (λ files. (ok tt, files))
    system_call (write_file full_path file_magic)
    system_call (write_file full_path nonce)
    system_call (write_file full_path (a.seal nonce plaintext))

  unfoldable pub local_get : Text → Action Files Bytes
  unfolding system_call open_payload
  local_get path = do
    payload ←
        system_call
          (λ files. (or_not_exist (find_file (join_path (root ∷ path ∷ [])) files), files))
    lift (open_payload a payload)

-- os.Remove of a file that is not there is no error.
unfoldable pub local_delete : Text → Text → Action Files (Unit {0})
unfolding system_call
local_delete root path =
    system_call (λ files. (ok tt, without_file (join_path (root ∷ path ∷ [])) files))

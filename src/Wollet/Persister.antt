-- ===== src/Wollet/Persister.antt =====
-- lwk_wollet/src/persister.rs, the encryption of update.rs and, of wollet.rs, what reads and feeds a
-- persister. The directory holds the file of each counter; the cipher of the descriptor and the file system
-- are the parameter `Disk`.
pub mod Stored
pub mod Reload
use Prim.Native.String.{String}
use satsails_lwk.Common.{
  ℕ, zero, suc, ◌+◌, ◌-◌, max, Bool, true, false, List, [], ◌∷◌, ◌++◌, Option, none, some, Result,
  ok, err, ◌>>=◌, ◌>>◌, reject_if, ltb, ◌==◌, nat_eq, if◌then◌else◌, length, take, drop,
}
use satsails_lwk.Common.HashMap.{HashMap, get, keys}
use satsails_lwk.Wollet.{Elements, Error}
use satsails_lwk.Wollet.Update.{Update, RawCache, default, apply_cache, only_tip}
use satsails_lwk.Wollet.Codec.{Bytes, Encodings, serialize, deserialize_partial}

pub record Disk : Type 1 where
  pub IoError : Type 0
  -- `fs::read` of a file that is not there
  pub not_found : IoError
  -- `encrypt_in_place` and `decrypt_in_place` with the cipher of the descriptor, under a nonce
  pub encrypt : Bytes → Bytes → Result String Bytes
  pub decrypt : Bytes → Bytes → Result String Bytes
  -- `fs::write`: what it leaves, and whether it succeeded
  pub write : HashMap ℕ Bytes → ℕ → Bytes → HashMap ℕ Bytes × Result IoError (Unit {0})

module _ {el : Elements} (en : Encodings el) (disk : Disk) where
  open disk use {IoError, not_found, encrypt, decrypt, write}

  -- What follows the update is left unread.
  unfoldable pub deserialize : Bytes → Result String (Update el)
  deserialize bs = deserialize_partial en bs >>= (λ r. ok r.0)

  unfoldable pub serialize_encrypted : Bytes → Update el → Result String Bytes
  serialize_encrypted nonce u =
      encrypt nonce (serialize en u) >>= (λ ciphertext. ok (nonce ++ ciphertext))

  -- Fewer than twelve bytes are an error here; the source panics.
  unfoldable pub deserialize_decrypted : Bytes → Result String (Update el)
  deserialize_decrypted bs =
      reject_if (ltb (length bs) 12) "range end index out of range"
      >> (decrypt (take 12 bs) (drop 12 bs) >>= deserialize)

  pub data PersistError : Type 0 where
    io : IoError → PersistError
    other : String → PersistError

  pub record FsPersister : Type 0 where
    pub files : HashMap ℕ Bytes
    pub next : ℕ

  -- The counter after the last in the directory.
  abbrev pub next_counter : List ℕ → ℕ
  next_counter [] = 0
  next_counter (counter ∷ rest) = max (next_counter rest) (counter + 1)

  unfoldable pub open_dir : HashMap ℕ Bytes → FsPersister
  open_dir files = record { files = files; next = next_counter (keys files) }

  abbrev pub decrypted : Result String (Update el) → Result PersistError (Option (Update el))
  decrypted (ok u) = ok (some u)
  decrypted (err e) = err (other e)

  abbrev pub read : Option Bytes → Result PersistError (Option (Update el))
  read none = err (io not_found)
  read (some bytes) = decrypted (deserialize_decrypted bytes)

  unfoldable pub get_update : FsPersister → ℕ → Result PersistError (Option (Update el))
  get_update p index = if ltb index p.next then read (get p.files index) else ok none

  unfoldable pub last : FsPersister → Result PersistError (Option (Update el))
  last p = if p.next == 0 then ok none else get_update p (p.next - 1)

  -- The counter of the file to write: the last one again for two tips in a row.
  abbrev pub place : ℕ → Result PersistError (Option (Update el)) → ℕ
  place next (ok (some prev)) = if only_tip el prev then next - 1 else next
  place next (ok none) = next
  place next (err e) = next

  abbrev pub target : FsPersister → Update el → ℕ
  target p u = if only_tip el u then place p.next (last p) else p.next

  abbrev pub written :
      ℕ → HashMap ℕ Bytes × Result IoError (Unit {0}) → FsPersister × Result PersistError (Unit {0})
  written next (files, ok _) = (record { files = files; next = next + 1 }, ok tt)
  written next (files, err e) = (record { files = files; next = next }, err (io e))

  abbrev pub store :
      FsPersister → ℕ → Result String Bytes → FsPersister × Result PersistError (Unit {0})
  store p next (ok bytes) = written next (write p.files next bytes)
  store p next (err e) = (record p { next = next }, err (other e))

  unfoldable pub push :
      FsPersister → Bytes → Update el → FsPersister × Result PersistError (Unit {0})
  push p nonce u = store p (target p u) (serialize_encrypted nonce u)

  -- The variants of the crate's `Error` that a wallet meets here.
  pub data WolletError : Type 0 where
    persist : PersistError → WolletError
    refused : Error → WolletError

  pub record Wollet : Type 0 where
    pub cache : RawCache el
    pub persister : FsPersister

  abbrev pub persisted :
      RawCache el
      → FsPersister × Result PersistError (Unit {0})
      → Wollet × Result WolletError (Unit {0})
  persisted c (p, ok _) = (record { cache = c; persister = p }, ok tt)
  persisted c (p, err e) = (record { cache = c; persister = p }, err (persist e))

  abbrev pub push_applied :
      Wollet
      → Bytes
      → Update el
      → Result Error (RawCache el)
      → Wollet × Result WolletError (Unit {0})
  push_applied w nonce u (ok c) = persisted c (push w.persister nonce u)
  push_applied w nonce u (err e) = (w, err (refused e))

  unfoldable pub apply_update : Wollet → Bytes → Update el → Wollet × Result WolletError (Unit {0})
  apply_update w nonce u = push_applied w nonce u (apply_cache el w.cache u)

  abbrev pub Loaded : Type 0
  Loaded = Option (Result WolletError (RawCache el))

  -- `apply_update_no_persist(update)?` and the turns after it
  abbrev pub after_apply : Result Error (RawCache el) → (RawCache el → Loaded) → Loaded
  after_apply (ok c) rest = rest c
  after_apply (err e) rest = some (err (refused e))

  abbrev pub after_get :
      Result PersistError (Option (Update el)) → RawCache el → (Update el → Loaded) → Loaded
  after_get (ok (some u)) c rest = rest u
  after_get (ok none) c rest = some (ok c)
  after_get (err e) c rest = some (err (persist e))

  -- `for i in 0..`, with as much fuel as there are turns; `none` is too little.
  unfoldable pub load : ℕ → FsPersister → ℕ → RawCache el → Loaded
  load zero p i c = none
  load (suc fuel) p i c =
      after_get (get_update p i) c
        (λ u. after_apply (apply_cache el c u) (λ c. load fuel p (suc i) c))

  abbrev pub with_persister : FsPersister → Loaded → Option (Result WolletError Wollet)
  with_persister p none = none
  with_persister p (some (err e)) = some (err e)
  with_persister p (some (ok c)) = some (ok (record { cache = c; persister = p }))

  -- `Wollet::new`
  unfoldable pub new_wollet : ℕ → FsPersister → Option (Result WolletError Wollet)
  new_wollet fuel p = with_persister p (load fuel p 0 (default el))

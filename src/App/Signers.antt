-- ===== src/App/Signers.antt =====
-- lwk_app/src/state.rs: `Signers`, the signers that are loaded by name.
pub mod Identity
pub mod Availability
use Prim.Native.String.{String}
use satsails_lwk.Common.{
  ℕ, true, List, [], ◌∷◌, Option, none, some, Result, ok, err, ◌>>=◌, ok_or, nat_eq, list_eq,
  if◌then◌else◌,
}
use satsails_lwk.Common.HashMap.{get, contains_key, insert as map_insert, remove as map_remove}
use satsails_lwk.App.Error.{
  Error, string_eq, feat_serial_disabled, generic, signer_not_exist, signer_already_loaded,
}
use satsails_lwk.App.Checked.{names_matching, insert_checked}
use satsails_lwk.App.Matching.{keys_where, names, materials}
use satsails_lwk.App.Signer.{
  Bytes, Devices, Signers, AppSigner, AppSignerInner, AnySigner, jade_id, available_signer,
  external_signer, software, jade_signer, fingerprint,
}

module _ (dev : Devices) where
  open dev use {from_serial_matching_id, unlock, jade_network, serial}

  unfoldable pub get_signer : Signers dev → String → Result Error (AppSigner dev)
  get_signer m name = ok_or (get m name) (signer_not_exist name)

  abbrev pub connected : Bytes → Option (dev.Jade) → Option (AppSignerInner dev)
  connected id (some j) = some (available_signer (jade_signer j id))
  connected id none = none

  abbrev pub disconnected :
      dev.Jade → Bytes → Result String (Unit {0}) → Option (AppSignerInner dev)
  disconnected j id (err e) = some (jade_id id (jade_network j))
  disconnected j id (ok _) = none

  -- The inner signer that replaces the entry, if any, or the early return.
  unfoldable pub replacement :
      AppSignerInner dev → Option ℕ → Result Error (Option (AppSignerInner dev))
  replacement (jade_id id network) timeout =
      if serial
      then ok (connected id (from_serial_matching_id network id timeout))
      else err feat_serial_disabled
  replacement (available_signer (jade_signer j id)) timeout = ok (disconnected j id (unlock j))
  replacement _ timeout = ok none

  unfoldable pub answer : AppSigner dev → Result Error (AnySigner dev)
  answer s = elim (s.inner) [
    | available_signer a ↦ ok a
    | external_signer f ↦ err (generic "Invalid operation for external signer")
    | jade_id id network ↦ err (generic "Invalid operation jade is not connected")
  ]

  unfoldable pub replace : Signers dev → String → Option (AppSignerInner dev) → Signers dev
  replace m name none = m
  replace m name (some inner) = map_insert m name (record { inner = inner; persist = true })

  abbrev pub settle :
      Signers dev
      → String
      → Result Error (Option (AppSignerInner dev))
      → Signers dev × Result Error (AnySigner dev)
  settle m name (err e) = (m, err e)
  settle m name (ok inner) = let m' = replace m name inner in (m', (get_signer m' name >>= answer))

  -- The signers afterwards and the outcome.
  unfoldable pub get_available :
      Signers dev → String → Option ℕ → Signers dev × Result Error (AnySigner dev)
  get_available m name timeout =
      settle m name (get_signer m name >>= λ s. replacement s.inner timeout)

  unfoldable pub names_matching_fingerprint : Signers dev → Bytes → Result Error (List String)
  names_matching_fingerprint = names_matching (fingerprint dev)

  unfoldable pub insert :
      Signers dev → String → AppSigner dev → Signers dev × Result Error (Unit {0})
  insert = insert_checked (fingerprint dev) signer_already_loaded

  unfoldable pub remove : Signers dev → String → Signers dev × Result Error (AppSigner dev)
  remove m name = let (m', old) = map_remove m name in (m', ok_or old (signer_not_exist name))

  abbrev pub one_name : Result Error (List String) → Option String × ℕ
  one_name (err e) = (none, 0)
  one_name (ok []) = (none, 0)
  one_name (ok (n ∷ [])) = (some n, 0)
  one_name (ok _) = (none, 1)

  -- The name, and the number of warnings that the call adds.
  unfoldable pub name_from_fingerprint : Signers dev → Bytes → Option String × ℕ
  name_from_fingerprint m f = one_name (names_matching_fingerprint m f)

-- ===== src/App/Signer.antt =====
-- lwk_app/src/state.rs: `AppSigner`. The signers of lwk_signer and lwk_jade are the
-- parameter `Devices`.
use Prim.Native.String.{String}
use satsails_lwk.Common.{
  ℕ, Bool, true, false, List, Option, none, some, Result, ok, err, ◌>>=◌, take, nat_eq, list_eq,
}
use satsails_lwk.Common.HashMap.{HashMap}
use satsails_lwk.App.Error.{Error, string_eq, jade, signer, signer_new}

abbrev pub Bytes : Type 0
Bytes = List ℕ

-- lwk_jade's networks
pub data Network : Type 0 where
  liquid testnet_liquid localtest_liquid : Network

pub record Devices : Type 1 where
  pub SwSigner : Type 0
  pub Jade : Type 0
  pub Xpub : Type 0
  -- `SwSigner::new(mnemonic, is_mainnet)` and `SwSigner::mnemonic`
  pub sw_new : String → Bool → Result String SwSigner
  pub sw_mnemonic : SwSigner → Option String
  -- `derive_xpub` at the master path, which asks the device when it is a Jade
  pub sw_master_xpub : SwSigner → Result String Xpub
  pub jade_master_xpub : Jade → Result String Xpub
  -- bitcoin's `Xpub::identifier` and `Xpub::fingerprint`
  pub xpub_identifier : Xpub → Bytes
  pub xpub_fingerprint : Xpub → Bytes
  -- the connection to a Jade, by the emulator's socket or by the serial port
  pub from_socket : String → Network → Result String Jade
  pub from_serial_matching_id : Network → Bytes → Option ℕ → Option Jade
  pub unlock : Jade → Result String (Unit {0})
  pub jade_network : Jade → Network
  -- the feature "serial"
  pub serial : Bool

-- `first 4 bytes of the identifier`
unfoldable pub id_to_fingerprint : Bytes → Bytes
id_to_fingerprint id = take 4 id

-- the error type of a foreign call, wrapped by `?`
abbrev pub wrap {κ} : {A : Type κ} → (String → Error) → Result String A → Result Error A
wrap f (ok a) = ok a
wrap f (err e) = err (f e)

module _ (dev : Devices) where
  open dev use {
    SwSigner, Jade, Xpub, sw_new, sw_mnemonic, sw_master_xpub, jade_master_xpub, xpub_identifier,
    xpub_fingerprint, from_socket, from_serial_matching_id, unlock, jade_network, serial,
  }

  -- lwk_signer's AnySigner
  pub data AnySigner : Type 0 where
    software : SwSigner → AnySigner
    jade_signer : Jade → Bytes → AnySigner

  pub data AppSignerInner : Type 0 where
    jade_id : Bytes → Network → AppSignerInner
    available_signer : AnySigner → AppSignerInner
    external_signer : Bytes → AppSignerInner

  pub record AppSigner : Type 0 where
    pub inner : AppSignerInner
    pub persist : Bool

  unfoldable pub new_sw : String → Bool → Bool → Result Error AppSigner
  new_sw mnemonic is_mainnet persist = do
    sw ← wrap signer_new (sw_new mnemonic is_mainnet)
    ok (record { inner = available_signer (software sw); persist = persist })

  unfoldable pub new_jade : Bytes → Option String → Network → Result Error AppSigner
  new_jade id none network = ok (record { inner = jade_id id network; persist = true })
  new_jade id (some socket) network = do
    j ← wrap jade (from_socket socket network)
    ok (record { inner = available_signer (jade_signer j id); persist = true })

  unfoldable pub new_external : Bytes → AppSigner
  new_external fingerprint = record { inner = external_signer fingerprint; persist = false }

  -- lwk_common's `Signer::xpub`, for both kinds of signer
  unfoldable pub any_xpub : AnySigner → Result Error Xpub
  any_xpub (software s) = wrap signer (sw_master_xpub s)
  any_xpub (jade_signer j id) = wrap signer (jade_master_xpub j)

  unfoldable pub fingerprint : AppSigner → Result Error Bytes
  fingerprint s = elim (s.inner) [
    | available_signer a ↦ do x ← any_xpub a; ok (xpub_fingerprint x)
    | external_signer f ↦ ok f
    | jade_id id network ↦ ok (id_to_fingerprint id)
  ]

  unfoldable pub xpub : AppSigner → Result Error (Option Xpub)
  xpub s = elim (s.inner) [ available_signer a ↦ do x ← any_xpub a; ok (some x) | _ ↦ ok none ]

  unfoldable pub id : AppSigner → Result Error (Option Bytes)
  id s = elim (s.inner) [
    | available_signer a ↦ do x ← any_xpub a; ok (some (xpub_identifier x))
    | jade_id i network ↦ ok (some i)
    | external_signer f ↦ ok none
  ]

  unfoldable pub mnemonic : AppSigner → Option String
  mnemonic s = elim (s.inner) [
    | available_signer a ↦ elim a [ software sw ↦ sw_mnemonic sw | jade_signer j i ↦ none ]
    | _ ↦ none
  ]

  unfoldable pub type_name : AppSigner → String
  type_name s = elim (s.inner) [
    | external_signer f ↦ "external"
    | jade_id i network ↦ "jade-id"
    | available_signer a ↦ elim a [ software sw ↦ "software" | jade_signer j i ↦ "jade" ]
  ]

  abbrev pub Signers : Type 0
  Signers = HashMap String AppSigner

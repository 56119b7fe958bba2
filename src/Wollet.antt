-- ===== src/Wollet.antt =====
-- lwk_wollet: the types of elements and miniscript that its cache holds, which are the parameter
-- `Elements`, and the modules of the crate. A release build is modelled: sums of u32 and u64 wrap.
pub mod Persister
pub mod Update
pub mod Codec
pub mod Utxos
pub mod Transactions
pub mod TxBuilder
pub mod Recipients
pub mod Scan
pub mod Issuance
use Prim.Native.String.{String, ◌++◌}
use satsails_lwk.Common.{
  Option, ℕ, List, PartialEq, ◌==◌, ◌&&◌, nat_eq, Bool, true, false, ◌≡◌, refl, arith, ==_refl,
  ==_sound, and_true, subst₂,
}

pub record Elements : Type 1 where
  pub Txid : Type 0
  pub Transaction : Type 0
  pub TxOut : Type 0
  pub TxIn : Type 0
  pub Script : Type 0
  pub AssetId : Type 0
  pub AssetFactor : Type 0
  pub ValueFactor : Type 0
  pub BlockHash : Type 0
  pub BlockHeader : Type 0
  pub txid_eq : PartialEq Txid
  pub script_eq : PartialEq Script
  pub asset_eq : PartialEq AssetId
  pub txid : Transaction → Txid
  pub inputs : Transaction → List TxIn
  pub outputs : Transaction → List TxOut
  pub script_pubkey : TxOut → Script
  pub height : BlockHeader → ℕ
  pub block_hash : BlockHeader → BlockHash
  -- an input: the output that it spends, and whether it issues an asset, or again
  pub previous_txid : TxIn → Txid
  pub previous_vout : TxIn → ℕ
  pub issuance_is_null : TxIn → Bool
  pub nonce_is_zero : TxIn → Bool
  pub script_is_empty : Script → Bool
  -- the value of an output that is not blinded
  pub explicit_value : TxOut → Option ℕ
  pub burn_script : Script
  pub txid_to_string : Txid → String
  -- `BlockHash::all_zeros`
  pub zero_hash : BlockHash

pub data Chain : Type 0 where
  external : Chain
  internal : Chain

-- bip32
pub data ChildNumber : Type 0 where
  normal : ℕ → ChildNumber
  hardened : ℕ → ChildNumber

abbrev pub same_chain : Chain → Chain → Bool
same_chain external external = true
same_chain internal internal = true
same_chain external internal = false
same_chain internal external = false

abbrev pub same_child : ChildNumber → ChildNumber → Bool
same_child (normal i) (normal j) = i == j
same_child (hardened i) (hardened j) = i == j
same_child (normal i) (hardened j) = false
same_child (hardened i) (normal j) = false

pub same_chain_refl : (c : Chain) → same_chain c c ≡ true
same_chain_refl external = refl
same_chain_refl internal = refl

pub same_chain_sound : (c d : Chain) → same_chain c d ≡ true → c ≡ d
same_chain_sound external external h = refl
same_chain_sound internal internal h = refl
same_chain_sound external internal h = cc
same_chain_sound internal external h = cc

pub same_child_refl : (c : ChildNumber) → same_child c c ≡ true
same_child_refl (normal i) = ==_refl i
same_child_refl (hardened i) = ==_refl i

pub same_child_sound : (c d : ChildNumber) → same_child c d ≡ true → c ≡ d
same_child_sound (normal i) (normal j) h = let e : i ≡ j = ==_sound i j h in cc
same_child_sound (hardened i) (hardened j) h = let e : i ≡ j = ==_sound i j h in cc
same_child_sound (normal i) (hardened j) h = cc
same_child_sound (hardened i) (normal j) h = cc

instance abbrev pub chain_eq : PartialEq Chain
chain_eq = record { same = same_chain; accepts = same_chain_refl; separates = same_chain_sound }

instance abbrev pub child_eq : PartialEq ChildNumber
child_eq = record { same = same_child; accepts = same_child_refl; separates = same_child_sound }

module _ (el : Elements) where
  open el use {Txid, TxIn, AssetId, AssetFactor, ValueFactor, previous_txid, previous_vout}

  pub record OutPoint : Type 0 where
    pub txid : Txid
    pub vout : ℕ

  abbrev pub previous_output : TxIn → OutPoint
  previous_output i = record { txid = previous_txid i; vout = previous_vout i }

  pub record TxOutSecrets : Type 0 where
    pub asset : AssetId
    pub asset_bf : AssetFactor
    pub value : ℕ
    pub value_bf : ValueFactor

  abbrev pub same_outpoint : OutPoint → OutPoint → Bool
  same_outpoint o p = ◌==◌ ⦃eq = el.txid_eq⦄ o.txid p.txid && o.vout == p.vout

  pub same_outpoint_refl : (o : OutPoint) → same_outpoint o o ≡ true
  same_outpoint_refl o = rw (==_refl ⦃eq = el.txid_eq⦄ o.txid, ==_refl o.vout) refl

  pub same_outpoint_sound : (o p : OutPoint) → same_outpoint o p ≡ true → o ≡ p
  same_outpoint_sound o p h =
      let (a, b) = and_true (◌==◌ ⦃eq = el.txid_eq⦄ o.txid p.txid) (o.vout == p.vout) h in
      let same : o.txid ≡ p.txid = ==_sound ⦃eq = el.txid_eq⦄ o.txid p.txid a in
      let here : o.vout ≡ p.vout = ==_sound o.vout p.vout b in
      subst₂ (λ t v. ◌≡◌ {A = OutPoint} o (record { txid = t; vout = v })) same here refl

module _ {el : Elements} where
  instance abbrev pub outpoint_eq : PartialEq (OutPoint el)
  outpoint_eq = record {
    same = same_outpoint el;
    accepts = same_outpoint_refl el;
    separates = same_outpoint_sound el;
  }

-- The variants of the crate's `Error` that the modules below build.
pub data Error : Type 0 where
  generic : String → Error
  update_height_too_old : ℕ → ℕ → Error
  script_not_mine : Error
  insufficient_funds : Error
  invalid_amount : Error
  issuance_already_set : Error
  missing_issuance : Error
  missing_transaction : Error
  missing_vout : Error
  missing_vin : Error
  not_confidential_address : Error
  -- an error of elements or miniscript, as its message
  foreign : String → Error

abbrev pub no_tx : String → String → Error
no_tx who id = generic (who ++ id)

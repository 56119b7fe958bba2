-- ===== src/Pset.antt =====
-- lwk_common/src/lib.rs and error.rs: what the crate reads of a partially signed transaction and of a
-- descriptor, and which scripts are the wallet's.
pub mod Balance
pub mod Signatures
pub mod Steps
pub mod Account
pub mod Secure
pub mod Checks
use Prim.Native.String.{String}
use satsails_lwk.Common.{
  ℕ, ◌+◌, ◌^◌, Bool, true, false, List, [], ◌∷◌, Option, none, some, Result, ok, err, ◌>>=◌, ◌>>◌,
  ok_or, reject_if, map, keep, not, ◌&&◌, ◌||◌, if◌then◌else◌, ◌==◌, PartialEq, nat_eq,
}
use satsails_lwk.Common.HashMap.{HashMap, get, insert, new}
use satsails_lwk.Wollet.{Elements, OutPoint, TxOutSecrets, ChildNumber, normal, hardened}
use satsails_lwk.Wollet.Transactions.{sub_i64, add_i64}
use satsails_lwk.Wollet.Utxos.{or_zero}

-- The blinding key of a confidential descriptor.
pub data Key (Slip77 Xprv Single : Type 0) : Type 0 where
  slip77 : Slip77 → Key Slip77 Xprv Single
  view_xprv : Xprv → Key Slip77 Xprv Single
  view_single : Single → Key Slip77 Xprv Single
  public_key : Key Slip77 Xprv Single

pub record Psets (el : Elements) : Type 1 where
  pub PublicKey : Type 0
  pub Fingerprint : Type 0
  pub SecretKey : Type 0
  pub Generator : Type 0
  pub Commitment : Type 0
  pub AssetProof : Type 0
  pub ValueProof : Type 0
  pub RangeProof : Type 0
  pub Slip77 : Type 0
  pub Xprv : Type 0
  pub Single : Type 0
  pub Descriptor : Type 0
  pub public_key_eq : PartialEq PublicKey
  pub generator_eq : PartialEq Generator
  pub commitment_eq : PartialEq Commitment
  -- a descriptor: its blinding key, and the scripts at an index; `none` is an error
  pub key : Descriptor → Key Slip77 Xprv Single
  pub scripts_at : Descriptor → Option (List (ℕ → Option el.Script))
  pub blinding_private_key : Slip77 → el.Script → SecretKey
  pub tweak_private_key : el.Script → SecretKey → SecretKey
  pub to_priv : Xprv → SecretKey
  pub single_key : Single → SecretKey
  -- the commitments of an output, where it is blinded, and its secrets, where the key unblinds it
  pub confidential_asset : el.TxOut → Option Generator
  pub confidential_value : el.TxOut → Option Commitment
  pub with_rangeproof : el.TxOut → Option RangeProof → el.TxOut
  pub unblind : el.TxOut → SecretKey → Option (TxOutSecrets el)
  -- the commitments to an asset and to a value
  pub new_blinded : el.AssetId → el.AssetFactor → Generator
  pub new_commitment : ℕ → el.ValueFactor → Generator → Commitment
  pub blind_asset_proof_verify : AssetProof → el.AssetId → Generator → Bool
  pub blind_value_proof_verify : ValueProof → ℕ → Generator → Commitment → Bool

abbrev pub to_u32 : ChildNumber → ℕ
to_u32 (normal i) = i
to_u32 (hardened i) = i + 2 ^ 31

abbrev pub last_child : List ChildNumber → Option ChildNumber
last_child [] = none
last_child (c ∷ []) = some c
last_child (c ∷ d ∷ cs) = last_child (d ∷ cs)

-- `is_mine(..).unwrap_or(false)`
abbrev pub or_false : Option Bool → Bool
or_false none = false
or_false (some b) = b

abbrev pub both {ℓ κ} : {A : Type ℓ} {B : Type κ} → Option A → Option B → Option (A × B)
both none b = none
both (some a) none = none
both (some a) (some b) = some (a, b)

abbrev pub is_some {ℓ} : {A : Type ℓ} → Option A → Bool
is_some none = false
is_some (some a) = true

module _ {el : Elements} (ps : Psets el) where
  open el use {Script, TxOut, AssetId, script_eq, script_pubkey}
  open ps use {
    PublicKey, Fingerprint, SecretKey, Generator, Commitment, AssetProof, ValueProof, RangeProof,
    Descriptor, generator_eq, commitment_eq, key, scripts_at, blinding_private_key,
    tweak_private_key, to_priv, single_key, new_blinded, new_commitment,
  }

  pub data Error : Type 0 where
    missing_previous_output : ℕ → OutPoint el → Error
    input_pegin_unsupported : ℕ → Error
    input_blinded_issuance : ℕ → Error
    input_not_blinded : ℕ → Error
    input_mine_not_unblindable : ℕ → Error
    input_commitments_mismatch : ℕ → Error
    output_asset_none : ℕ → Error
    output_value_none : ℕ → Error
    output_asset_value_none : ℕ → Error
    missing_fee : Error
    multiple_fee : Error
    blinded_fee : Error
    invalid_asset_blind_proof : ℕ → Error
    invalid_value_blind_proof : ℕ → Error
    output_not_blinded : ℕ → Error
    output_mine_not_unblindable : ℕ → Error
    output_commitments_mismatch : ℕ → Error
    missing_private_blinding_key : Error

  abbrev pub KeySource : Type 0
  KeySource = Fingerprint × List ChildNumber

  -- What the crate reads of an input and of an output of a PSET.
  pub record Input : Type 0 where
    pub previous_output : OutPoint el
    pub witness_utxo : Option TxOut
    pub bip32_derivation : List (PublicKey × KeySource)
    pub partial_sigs : List PublicKey
    pub is_pegin : Bool
    pub has_issuance : Bool
    pub issued_amount_is_confidential : Bool
    pub inflation_keys_is_confidential : Bool
    pub in_utxo_rangeproof : Option RangeProof

  pub record Output : Type 0 where
    pub script_pubkey : Script
    pub bip32_derivation : List (PublicKey × KeySource)
    pub asset : Option AssetId
    pub asset_comm : Option Generator
    pub blind_asset_proof : Option AssetProof
    pub amount : Option ℕ
    pub amount_comm : Option Commitment
    pub blind_value_proof : Option ValueProof
    pub to_txout : TxOut

  unfoldable pub derive_blinding_key : Descriptor → Script → Option SecretKey
  derive_blinding_key desc script = elim (key desc) [
    | slip77 k ↦ some (blinding_private_key k script)
    | view_xprv k ↦ some (tweak_private_key script (to_priv k))
    | view_single k ↦ some (tweak_private_key script (single_key k))
    | public_key ↦ none
  ]

  abbrev pub commitments : TxOutSecrets el → Generator × Commitment
  commitments s = (
    new_blinded s.asset s.asset_bf,
    new_commitment s.value s.value_bf (new_blinded s.asset s.asset_bf),
  )

  -- Whether the commitments are those of the secrets.
  abbrev pub committed : Generator → Commitment → TxOutSecrets el → Bool
  committed g c s =
      ◌==◌ ⦃eq = generator_eq⦄ g (commitments s).0 && ◌==◌ ⦃eq = commitment_eq⦄ c (commitments s).1

  -- `none` is an error
  unfoldable pub derives : List (ℕ → Option Script) → ℕ → Script → Option Bool
  derives [] index script = some false
  derives (script_at ∷ rest) index script =
      let later : Option Bool = derives rest index script in
      elim (script_at index) [
        | none ↦ none
        | some mine ↦ if ◌==◌ ⦃eq = script_eq⦄ mine script then some true else later
      ]

  abbrev pub derives_at : Descriptor → Script → Option ChildNumber → Option Bool
  derives_at desc script none = some false
  derives_at desc script (some c) = elim (scripts_at desc) [
    | none ↦ none
    | some ds ↦ derives ds (to_u32 c) script
  ]

  unfoldable pub is_mine : Script → Descriptor → List (PublicKey × KeySource) → Option Bool
  is_mine script desc [] = some false
  is_mine script desc ((pk, (fingerprint, path)) ∷ rest) =
      let later : Option Bool = is_mine script desc rest in
      elim (derives_at desc script (last_child path)) [
        | none ↦ none
        | some mine ↦ if mine then some true else later
      ]

  abbrev pub owns : Descriptor → Script → List (PublicKey × KeySource) → Bool
  owns desc script derivation = or_false (is_mine script desc derivation)

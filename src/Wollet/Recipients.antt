-- ===== src/Wollet/Recipients.antt =====
-- lwk_wollet/src/model.rs and tx_builder.rs: recipients and the methods that fill a `TxBuilder`.
pub mod Valid
use Prim.Native.String.{String}
use text.Mathlib.Text.{◌==◌ as str_eq}
use satsails_lwk.Common.{
  ℕ, Bool, List, [], ◌∷◌, ◌++◌, Option, none, some, Result, ok, err, ◌>>=◌, ◌>>◌, reject_if,
  if◌then◌else◌, ◌==◌, nat_eq,
}
use satsails_lwk.Wollet.{
  Elements, Error, invalid_amount, issuance_already_set, not_confidential_address,
}
use satsails_lwk.Wollet.TxBuilder.{Descriptor, Recipient, recipient_at}

-- The addresses and asset ids of elements, their texts, the networks and the registry's contracts.
pub record Addresses {el : Elements} (desc : Descriptor el) : Type 1 where
  pub Address : Type 0
  pub Network : Type 0
  pub Contract : Type 0
  pub policy_asset : Network → el.AssetId
  pub parse_with_params : Network → String → Result Error Address
  pub address_to_string : Address → String
  pub address_script : Address → el.Script
  pub blinding_pubkey : Address → Option desc.PublicKey
  pub parse_asset : String → Result Error el.AssetId
  pub asset_to_string : el.AssetId → String
  -- 100.0
  pub default_rate : desc.Rate

pub record UnvalidatedRecipient : Type 0 where
  pub satoshi : ℕ
  pub address : String
  pub asset : String

abbrev pub lbtc : String → ℕ → UnvalidatedRecipient
lbtc address satoshi = record { satoshi = satoshi; address = address; asset = "" }

abbrev pub burn : String → ℕ → UnvalidatedRecipient
burn asset satoshi = record { satoshi = satoshi; address = "burn"; asset = asset }

module _ {el : Elements} {desc : Descriptor el} (env : Addresses desc) where
  open env use {
    Address, Network, Contract, policy_asset, parse_with_params, address_to_string, address_script,
    blinding_pubkey, parse_asset, asset_to_string, default_rate,
  }

  unfoldable pub validate_address : String → Network → Result Error Address
  validate_address text network = parse_with_params network text >>= (λ address.
      elim (blinding_pubkey address) [ none ↦ err not_confidential_address | some _ ↦ ok address ])

  unfoldable pub validate_asset : UnvalidatedRecipient → Network → Result Error el.AssetId
  validate_asset r network =
      if str_eq r.asset "" then ok (policy_asset network) else parse_asset r.asset

  abbrev pub validate_satoshi : UnvalidatedRecipient → Result Error ℕ
  validate_satoshi r = if r.satoshi == 0 then err invalid_amount else ok r.satoshi

  abbrev pub from_address : ℕ → Address → el.AssetId → Recipient desc
  from_address satoshi address asset =
      recipient_at desc satoshi asset (address_script address, blinding_pubkey address)

  -- Where the amount, the asset and then the address are valid.
  unfoldable pub validate : UnvalidatedRecipient → Network → Result Error (Recipient desc)
  validate r network = validate_satoshi r >>= (λ satoshi. validate_asset r network >>= (λ asset.
      if str_eq r.address "burn"
      then ok (recipient_at desc satoshi asset (el.burn_script, none))
      else (validate_address r.address network
          >>= (λ address. ok (from_address r.satoshi address asset)))))

  pub data IssuanceRequest : Type 0 where
    no_request : IssuanceRequest
    issuance : ℕ → Option Address → ℕ → Option Address → Option Contract → IssuanceRequest
    reissuance : el.AssetId → ℕ → Option Address → Option el.Transaction → IssuanceRequest

  -- A `TxBuilder` with its network and its issuance request.
  pub record Builder : Type 0 where
    pub network : Network
    pub recipients : List (Recipient desc)
    pub fee_rate : desc.Rate
    pub issuance_request : IssuanceRequest

  abbrev pub new_builder : Network → Builder
  new_builder network = record {
    network = network;
    recipients = [];
    fee_rate = default_rate;
    issuance_request = no_request;
  }

  abbrev pub add_validated_recipient : Builder → Recipient desc → Builder
  add_validated_recipient b r = record b { recipients = b.recipients ++ (r ∷ []) }

  unfoldable pub add_unvalidated_recipient : Builder → UnvalidatedRecipient → Result Error Builder
  add_unvalidated_recipient b r =
      validate r b.network >>= (λ valid. ok (add_validated_recipient b valid))

  unfoldable pub add_recipient : Builder → Address → ℕ → el.AssetId → Result Error Builder
  add_recipient b address satoshi asset = add_unvalidated_recipient b (record {
    satoshi = satoshi;
    address = address_to_string address;
    asset = asset_to_string asset;
  })

  unfoldable pub add_unvalidated_recipients :
      Builder → List UnvalidatedRecipient → Result Error Builder
  add_unvalidated_recipients b [] = ok b
  add_unvalidated_recipients b (r ∷ rs) =
      add_unvalidated_recipient b r >>= (λ b. add_unvalidated_recipients b rs)

  unfoldable pub set_unvalidated_recipients :
      Builder → List UnvalidatedRecipient → Result Error Builder
  set_unvalidated_recipients b rs = add_unvalidated_recipients (record b { recipients = [] }) rs

  unfoldable pub add_lbtc_recipient : Builder → Address → ℕ → Result Error Builder
  add_lbtc_recipient b address satoshi =
      add_unvalidated_recipient b (lbtc (address_to_string address) satoshi)

  unfoldable pub add_burn : Builder → ℕ → el.AssetId → Result Error Builder
  add_burn b satoshi asset = add_unvalidated_recipient b (burn (asset_to_string asset) satoshi)

  abbrev pub set_fee_rate : Builder → Option desc.Rate → Builder
  set_fee_rate b rate = elim rate [ none ↦ b | some rate ↦ record b { fee_rate = rate } ]

  abbrev pub reject_second : Builder → Result Error (Unit {0})
  reject_second b = elim b.issuance_request [
    | no_request ↦ ok tt
    | issuance _ _ _ _ _ ↦ err issuance_already_set
    | reissuance _ _ _ _ ↦ err issuance_already_set
  ]

  -- The text of an address that is given is read back.
  abbrev pub check_receiver : Option Address → Network → Result Error (Unit {0})
  check_receiver receiver network = elim receiver [
    | none ↦ ok tt
    | some address ↦ validate_address (address_to_string address) network >>= (λ _. ok tt)
  ]

  unfoldable pub issue_asset :
      Builder → ℕ → Option Address → ℕ → Option Address → Option Contract → Result Error Builder
  issue_asset b asset_sats asset_receiver token_sats token_receiver contract =
      reject_second b
      >> (check_receiver asset_receiver b.network
          >> (check_receiver token_receiver b.network
              >> (reject_if (asset_sats == 0) invalid_amount
                  >> ok (record b {
                    issuance_request =
                        issuance asset_sats asset_receiver token_sats token_receiver contract;
                  }))))

  unfoldable pub reissue_asset :
      Builder → el.AssetId → ℕ → Option Address → Option el.Transaction → Result Error Builder
  reissue_asset b asset_to_reissue satoshi_to_reissue asset_receiver issuance_tx =
      reject_second b
      >> (check_receiver asset_receiver b.network
          >> (reject_if (satoshi_to_reissue == 0) invalid_amount
              >> ok (record b {
                issuance_request =
                    reissuance asset_to_reissue satoshi_to_reissue asset_receiver issuance_tx;
              })))

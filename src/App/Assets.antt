-- ===== src/App/Assets.antt =====
-- lwk_app/src/state.rs: `RegistryAssetData`, `AppAsset` and the assets of the `State`. The types of
-- elements and the contracts of lwk_wollet's registry are the parameter `Elements`.
pub mod Issuance
pub mod Insertion
use Prim.Native.String.{String, ◌++◌}
use satsails_lwk.Common.{
  ℕ, suc, ◌+◌, ◌%◌, ◌^◌, Bool, true, false, List, [], ◌∷◌, Option, none, some, Result, ok, err,
  ◌>>=◌, not, ◌&&◌, ◌||◌, ◌==◌, nat_eq, list_eq, if◌then◌else◌, get_elem?, and_then, ok_or, ◌≡◌,
  map,
}
use satsails_lwk.Common.HashMap.{HashMap, get, insert, remove as map_remove}
use satsails_lwk.App.Error.{
  Error, wollet, asset_not_exist, invalid_contract_for_asset, invalid_issuance_txt_for_asset,
  generic, string_eq,
}
use satsails_lwk.App.Signer.{Bytes, wrap}

pub record Elements : Type 1 where
  pub Transaction : Type 0
  pub TxIn : Type 0
  pub OutPoint : Type 0
  pub Contract : Type 0
  pub inputs : Transaction → List TxIn
  pub previous_output : TxIn → OutPoint
  -- the asset and the token that an input issues
  pub issuance_ids : TxIn → Bytes × Bytes
  -- the asset and the token that an input issues under a contract
  pub asset_ids : TxIn → Contract → Result String (Bytes × Bytes)
  pub contract_json : Contract → String
  pub contract_name : Contract → String
  pub contract_ticker : Contract → String
  pub transaction_hex : Transaction → String
  pub asset_to_string : Bytes → String
  pub asset_from_str : String → Result String Bytes

abbrev token_prefix : String
token_prefix = "reissuance token for "

module _ (el : Elements) where
  open el use {
    Transaction, TxIn, OutPoint, Contract, inputs, previous_output, issuance_ids, asset_ids,
    contract_json, contract_name, contract_ticker, asset_to_string, asset_from_str,
  }

  pub record RegistryAssetData : Type 0 where
    pub asset_id : Bytes
    pub token_id : Bytes
    pub issuance_vin : ℕ
    pub issuance_tx : Transaction
    pub contract : Contract

  -- The input `vin` issues the asset: the contract has to commit to it.
  abbrev pub registry_data : Bytes → Bytes → ℕ → Transaction → Contract → RegistryAssetData
  registry_data asset_id token_id vin tx contract = record {
    asset_id = asset_id;
    token_id = token_id;
    issuance_vin = vin % 2 ^ 32;
    issuance_tx = tx;
    contract = contract;
  }

  unfoldable pub committed :
      Bytes → Transaction → Contract → ℕ → TxIn → Result Error RegistryAssetData
  committed asset_id tx contract vin txin = do
    ids ← wrap wollet (asset_ids txin contract)
    if not (ids.0 == asset_id) || not (ids.1 == (issuance_ids txin).1)
        then err (invalid_contract_for_asset (asset_to_string asset_id))
        else ok (registry_data asset_id (issuance_ids txin).1 vin tx contract)

  -- The loop over the inputs, from `vin` on.
  unfoldable pub find_issuance :
      Bytes → Transaction → Contract → ℕ → List TxIn → Result Error RegistryAssetData
  find_issuance asset_id tx contract vin [] =
      err (invalid_issuance_txt_for_asset (asset_to_string asset_id))
  find_issuance asset_id tx contract vin (txin ∷ rest) =
      let later = find_issuance asset_id tx contract (vin + 1) rest in
      if (issuance_ids txin).0 == asset_id then committed asset_id tx contract vin txin else later

  unfoldable pub new_registry_asset :
      Bytes → Transaction → Contract → Result Error RegistryAssetData
  new_registry_asset asset_id tx contract = find_issuance asset_id tx contract 0 (inputs tx)

  -- `none` is the panic of an index out of bounds.
  unfoldable pub issuance_prevout : RegistryAssetData → Option OutPoint
  issuance_prevout d =
      and_then (get_elem? (inputs d.issuance_tx) d.issuance_vin) (λ i. some (previous_output i))

  pub data AppAsset : Type 0 where
    policy_asset : Bytes → AppAsset
    registry_asset reissuance_token : RegistryAssetData → AppAsset

  unfoldable pub name : AppAsset → String
  name (policy_asset a) = "liquid bitcoin"
  name (registry_asset d) = contract_name d.contract
  name (reissuance_token d) = token_prefix ++ contract_name d.contract

  unfoldable pub ticker : AppAsset → String
  ticker (policy_asset a) = "L-BTC"
  ticker (registry_asset d) = contract_ticker d.contract
  ticker (reissuance_token d) = token_prefix ++ contract_ticker d.contract

  -- The contract and the issuance's outpoint; the outer `none` is a panic.
  unfoldable pub asset_metadata : AppAsset → Option (Option (String × OutPoint))
  asset_metadata (policy_asset a) = some none
  asset_metadata (registry_asset d) =
      and_then (issuance_prevout d) (λ o. some (some (contract_json d.contract, o)))
  asset_metadata (reissuance_token d) =
      and_then (issuance_prevout d) (λ o. some (some (contract_json d.contract, o)))

  unfoldable pub asset_id_of : AppAsset → Bytes
  asset_id_of (policy_asset a) = a
  asset_id_of (registry_asset d) = d.asset_id
  asset_id_of (reissuance_token d) = d.token_id

  unfoldable pub issuance_tx_of : AppAsset → Option Transaction
  issuance_tx_of (registry_asset d) = some d.issuance_tx
  issuance_tx_of _ = none

  abbrev pub Assets : Type 0
  Assets = HashMap Bytes AppAsset

  unfoldable pub insert_policy_asset : Bytes → Assets → Assets
  insert_policy_asset asset_id m = insert m asset_id (policy_asset asset_id)

  unfoldable pub get_asset : Assets → Bytes → Result Error AppAsset
  get_asset m asset = ok_or (get m asset) (asset_not_exist (asset_to_string asset))

  abbrev pub with_registry_asset :
      Assets → Bytes → Result Error RegistryAssetData → Assets × Result Error (Unit {0})
  with_registry_asset m asset_id (err e) = (m, err e)
  with_registry_asset m asset_id (ok d) =
      (insert (insert m asset_id (registry_asset d)) d.token_id (reissuance_token d), ok tt)

  unfoldable pub insert_asset :
      Assets → Bytes → Transaction → Contract → Assets × Result Error (Unit {0})
  insert_asset m asset_id tx contract =
      with_registry_asset m asset_id (new_registry_asset asset_id tx contract)

  unfoldable pub remove_asset : Assets → Bytes → Assets × Result Error (Unit {0})
  remove_asset m asset =
      let (m', old) = map_remove m asset in
      (m', (ok_or old (asset_not_exist (asset_to_string asset)) >>= λ _. ok tt))

  unfoldable pub get_asset_from_str : Assets → String → Result Error AppAsset
  get_asset_from_str m s = do asset ← wrap generic (asset_from_str s); get_asset m asset

  unfoldable pub get_issuance_tx : Assets → Bytes → Option Transaction
  get_issuance_tx m asset = elim (get_asset m asset) [ ok a ↦ issuance_tx_of a | err e ↦ none ]

  unfoldable pub ticker_or_id : Assets → String → String
  ticker_or_id m s = elim (get_asset_from_str m s) [ ok a ↦ ticker a | err e ↦ s ]

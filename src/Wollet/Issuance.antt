-- ===== src/Wollet/Issuance.antt =====
-- lwk_wollet/src/tx_builder.rs, pset_create.rs and wollet.rs: the issuance or reissuance that a transaction
-- may carry, and `TxBuilder::finish` with it.
pub mod Receivers
pub mod Conserves
use Prim.Native.String.{String}
use satsails_lwk.Common.{
  ℕ, ◌+◌, ◌%◌, ◌^◌, Bool, List, [], ◌∷◌, ◌++◌, Option, none, some, Result, ok, err, ◌>>=◌, ok_or,
  map, concat, find, not, ◌⊎◌, inl, inr, ◌&&◌, length, get_elem?, if◌then◌else◌, ◌==◌, nat_eq,
}
use satsails_lwk.Wollet.{
  Elements, external, OutPoint, TxOutSecrets, Error, insufficient_funds, missing_issuance,
  missing_vin,
}
use satsails_lwk.Wollet.Update.{RawCache}
use satsails_lwk.Wollet.Utxos.{WalletTxOut, asset_utxos, enumerate}
use satsails_lwk.Wollet.Transactions.{transactions, WalletTx}
use satsails_lwk.Wollet.TxBuilder.{
  Descriptor, Recipient, Draft, TxBuilder, add_output, add_input, add_change, add_recipients,
  add_all_inputs, recipient_at, Weigher, begin, close, addressees_lbtc,
}
use satsails_lwk.Wollet.Recipients.{
  Addresses, Builder, IssuanceRequest, no_request, issuance, reissuance, from_address,
}

-- What elements says of the issuances of inputs, and what the registry and serde say of a contract.
pub record Issuances {el : Elements} {desc : Descriptor el} (env : Addresses desc) : Type 1 where
  pub ContractHash : Type 0
  pub Entropy : Type 0
  pub no_contract : ContractHash
  pub contract_hash : env.Contract → Result Error ContractHash
  pub contract_json : env.Contract → Result Error String
  -- the asset and the reissuance token of an issuance that spends an output
  pub issuance_ids : OutPoint el → ContractHash → el.AssetId × el.AssetId
  pub has_issuance : el.TxIn → Bool
  pub txin_entropy : el.TxIn → Entropy
  pub txin_ids : el.TxIn → el.AssetId × el.AssetId
  -- the amounts that are not blinded
  pub asset_amount : el.TxIn → Option ℕ
  pub token_amount : el.TxIn → Option ℕ
  -- the weight of the blinded transaction with the issuance data of the input at an index
  pub issued_weight :
      ℕ → ℕ → Option ℕ → Option el.AssetFactor → ContractHash ⊎ Entropy → Weigher desc
  -- the order of two txids
  pub id_geq : el.Txid → el.Txid → Bool

module _ {el : Elements} {desc : Descriptor el} {env : Addresses desc} (iss : Issuances env) where
  open iss use {
    ContractHash, Entropy, no_contract, contract_hash, contract_json, issuance_ids, has_issuance,
    txin_entropy, txin_ids, asset_amount, token_amount, issued_weight, id_geq,
  }
  open desc use {blinded_weight}
  open el use {Txid, Transaction, TxIn, AssetId, AssetFactor, asset_eq, txid, inputs}
  open env use {Address, Contract, policy_asset}

  pub record IssuanceDetails : Type 0 where
    pub txid : Txid
    pub vin : ℕ
    pub entropy : Entropy
    pub asset : AssetId
    pub token : AssetId
    pub is_reissuance : Bool
    pub asset_amount : Option ℕ
    pub token_amount : Option ℕ

  abbrev issuance_of : Transaction → ℕ × TxIn → List IssuanceDetails
  issuance_of tx (vin, txin) =
      if has_issuance txin
      then record {
        txid = txid tx;
        vin = vin % 2 ^ 32;
        entropy = txin_entropy txin;
        asset = (txin_ids txin).0;
        token = (txin_ids txin).1;
        is_reissuance = not (el.nonce_is_zero txin);
        asset_amount = asset_amount txin;
        token_amount = token_amount txin;
      }
        ∷ []
      else []

  unfoldable pub extract_issuances : Transaction → List IssuanceDetails
  extract_issuances tx = concat (map (issuance_of tx) (enumerate 0 (inputs tx)))

  unfoldable pub issuances : RawCache el → AssetId → Result Error (List IssuanceDetails)
  issuances c policy =
      transactions el id_geq c policy
      >>= (λ txs. ok (concat (map (λ (t : WalletTx el). extract_issuances t.tx) txs)))

  -- `Wollet::issuance`
  unfoldable pub wallet_issuance : RawCache el → AssetId → AssetId → Result Error IssuanceDetails
  wallet_issuance c policy a = issuances c policy >>= (λ all.
      ok_or
        (find (λ (d : IssuanceDetails). ◌==◌ ⦃eq = asset_eq⦄ d.asset a && not d.is_reissuance) all)
        missing_issuance)

  -- The issuance data of an input of the PSET, and the ids that they lead to.
  pub record IssuedInput : Type 0 where
    pub idx : ℕ
    pub issuance_value_amount : ℕ
    pub issuance_inflation_keys : Option ℕ
    pub asset : AssetId
    pub token : AssetId
    pub issuance_blinding_nonce : Option AssetFactor
    pub issuance_asset_entropy : ContractHash ⊎ Entropy
    pub asset_metadata : Option String

  abbrev pub hash_of : Option Contract → Result Error ContractHash
  hash_of none = ok no_contract
  hash_of (some contract) = contract_hash contract

  abbrev pub metadata_of : Option Contract → Result Error (Option String)
  metadata_of none = ok none
  metadata_of (some contract) = contract_json contract >>= (λ json. ok (some json))

  unfoldable pub set_issuance : Draft desc → ℕ → ℕ → ℕ → Option Contract → Result Error IssuedInput
  set_issuance d idx satoshi_asset satoshi_token contract =
      ok_or (get_elem? d.inputs idx) missing_vin >>= (λ input. hash_of contract >>= (λ hash.
        metadata_of contract >>= (λ json. ok (record {
          idx = idx;
          issuance_value_amount = satoshi_asset;
          issuance_inflation_keys = if satoshi_token == 0 then none else some satoshi_token;
          asset = (issuance_ids input.outpoint hash).0;
          token = (issuance_ids input.outpoint hash).1;
          issuance_blinding_nonce = none;
          issuance_asset_entropy = inl hash;
          asset_metadata = json;
        }))))

  unfoldable pub set_reissuance :
      Draft desc → ℕ → ℕ → AssetFactor → IssuanceDetails → Result Error IssuedInput
  set_reissuance d idx satoshi_asset token_asset_bf details =
      ok_or (get_elem? d.inputs idx) missing_vin >>= (λ input. ok (record {
        idx = idx;
        issuance_value_amount = satoshi_asset;
        issuance_inflation_keys = none;
        asset = details.asset;
        token = details.token;
        issuance_blinding_nonce = some token_asset_bf;
        issuance_asset_entropy = inr details.entropy;
        asset_metadata = none;
      }))

  -- The output for an address that is given, or for the next external address: `addressee_external`.
  unfoldable pub add_receiver :
      Draft desc → ℕ → AssetId → Option Address → Result Error (Draft desc)
  add_receiver d satoshi a (some address) =
      ok (add_output desc d (from_address env satoshi address a))
  add_receiver d satoshi a none = desc.address_at external d.last_unused_external >>= (λ address.
      ok (
        add_output desc (record d { last_unused_external = (d.last_unused_external + 1) % 2 ^ 32 })
          (recipient_at desc satoshi a address)))

  abbrev pub add_token_receiver :
      Draft desc → ℕ → AssetId → Option Address → Result Error (Draft desc)
  add_token_receiver d satoshi_token token address =
      if satoshi_token == 0 then ok d else add_receiver d satoshi_token token address

  unfoldable pub issue :
      Draft desc
      → ℕ
      → Option Address
      → ℕ
      → Option Address
      → Option Contract
      → Result Error (Draft desc × IssuedInput)
  issue d satoshi_asset address_asset satoshi_token address_token contract =
      set_issuance d 0 satoshi_asset satoshi_token contract >>= (λ issued.
        add_receiver d satoshi_asset issued.asset address_asset >>= (λ d.
          add_token_receiver d satoshi_token issued.token address_token >>= (λ d. ok (d, issued))))

  abbrev pub is_of : AssetId → IssuanceDetails → Bool
  is_of a d = ◌==◌ ⦃eq = asset_eq⦄ d.asset a

  unfoldable pub issuance_for :
      RawCache el → AssetId → AssetId → Option Transaction → Result Error IssuanceDetails
  issuance_for c policy a (some issuance_tx) =
      ok_or (find (is_of a) (extract_issuances issuance_tx)) missing_issuance
  issuance_for c policy a none = wallet_issuance c policy a

  -- An input that sends the token, and an output that receives it.
  unfoldable pub spend_token :
      RawCache el → Draft desc → AssetId → Result Error (Draft desc × ℕ × AssetFactor)
  spend_token c d token = asset_utxos el c token >>= (λ utxos_token.
      ok_or (get_elem? utxos_token 0) insufficient_funds >>= (λ utxo.
        add_input desc c d utxo >>= (λ e.
          add_change desc e utxo.unblinded.value token
          >>= (λ e. ok (e, length d.inputs, utxo.unblinded.asset_bf)))))

  -- The first input in an asset; the source looks in a hash map, whose order is open.
  abbrev pub holder_of : AssetId → List (WalletTxOut el) → Option (ℕ × WalletTxOut el)
  holder_of token inputs =
      find (λ (e : ℕ × WalletTxOut el). ◌==◌ ⦃eq = asset_eq⦄ e.1.unblinded.asset token)
        (enumerate 0 inputs)

  -- An input that holds the token, which is found or added.
  abbrev pub token_input :
      RawCache el
      → Draft desc
      → AssetId
      → Option (ℕ × WalletTxOut el)
      → Result Error (Draft desc × ℕ × AssetFactor)
  token_input c d token (some (idx, u)) = ok (d, idx, u.unblinded.asset_bf)
  token_input c d token none = spend_token c d token

  unfoldable pub reissue :
      RawCache el
      → AssetId
      → Draft desc
      → AssetId
      → ℕ
      → Option Address
      → Option Transaction
      → Result Error (Draft desc × IssuedInput)
  reissue c policy d a satoshi_asset address_asset issuance_tx =
      issuance_for c policy a issuance_tx >>= (λ details.
        token_input c d details.token (holder_of details.token d.inputs) >>= (λ t.
          set_reissuance t.0 t.1 satoshi_asset t.2 details
          >>= (λ issued. add_receiver t.0 satoshi_asset a address_asset >>= (λ d. ok (d, issued)))))

  unfoldable pub set_request :
      RawCache el
      → AssetId
      → Draft desc
      → IssuanceRequest env
      → Result Error (Draft desc × Option IssuedInput)
  set_request c policy d no_request = ok (d, none)
  set_request c policy d
        (issuance satoshi_asset address_asset satoshi_token address_token contract) =
      issue d satoshi_asset address_asset satoshi_token address_token contract
      >>= (λ r. ok (r.0, some r.1))
  set_request c policy d (reissuance a satoshi_asset address_asset issuance_tx) =
      reissue c policy d a satoshi_asset address_asset issuance_tx >>= (λ r. ok (r.0, some r.1))

  -- What `finish` reads of a builder but the issuance request.
  abbrev pub payment_of : Builder env → TxBuilder desc
  payment_of b = record {
    policy_asset = policy_asset b.network;
    recipients = b.recipients;
    fee_rate = b.fee_rate;
  }

  abbrev pub weigher : Option IssuedInput → Weigher desc
  weigher none = blinded_weight
  weigher (some i) =
      issued_weight i.idx i.issuance_value_amount i.issuance_inflation_keys
        i.issuance_blinding_nonce i.issuance_asset_entropy

  -- Up to the blinding and the details for the signers, which can still fail and leave the amounts alone. The wallet's policy asset is not read of the builder, whose network
  -- may be another.
  unfoldable pub finish :
      RawCache el → AssetId → Builder env → Result Error (Option (Draft desc) × Option IssuedInput)
  finish c policy b =
      let t : TxBuilder desc = payment_of b in
      begin desc c t >>= (λ d.
        let paid : Draft desc × ℕ = add_recipients desc d (addressees_lbtc desc t) 0 in
        asset_utxos el c policy >>= (λ utxos. add_all_inputs desc c utxos paid.0 0 >>= (λ e.
          set_request c policy e.0 b.issuance_request >>= (λ f.
            close desc (weigher f.1) policy b.fee_rate paid.1 e.1 f.0 >>= (λ o. ok (o, f.1))))))

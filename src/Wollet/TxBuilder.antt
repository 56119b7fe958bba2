-- ===== src/Wollet/TxBuilder.antt =====
-- lwk_wollet/src/tx_builder.rs and pset_create.rs: the transaction that `TxBuilder::finish` puts together.
-- A PSET is its inputs and, the last first, its outputs. The order of a hash set or map is left open.
pub mod Values
pub mod Selection
pub mod Conservation
pub mod Fee
use satsails_lwk.Common.{
  ℕ, ◌+◌, ◌-◌, ◌%◌, ◌^◌, ◌/◌, Bool, true, false, List, [], ◌∷◌, ◌++◌, Option, none, some, Result,
  ok, err, ◌>>=◌, ◌>>◌, ok_or, reject_if, map, keep, not, find, length, get_elem?, if◌then◌else◌,
  ◌==◌, nat_eq, ltb, leb, PartialEq,
}
use satsails_lwk.Common.HashMap.{HashMap, get, insert, new}
use satsails_lwk.Common.Extend.{contains}
use satsails_lwk.Wollet.{
  Elements, Chain, external, internal, OutPoint, TxOutSecrets, Error, insufficient_funds,
  invalid_amount, issuance_already_set, missing_transaction, missing_vout,
}
use satsails_lwk.Wollet.Update.{RawCache}
use satsails_lwk.Wollet.Utxos.{WalletTxOut, index, asset_utxos}

-- What finishing a transaction takes from the descriptor, elements and the floating point unit.
pub record Descriptor (el : Elements) : Type 1 where
  pub PublicKey : Type 0
  pub Rate : Type 0
  -- the script and the blinding key of an address
  pub address_at : Chain → ℕ → Result Error (el.Script × Option PublicKey)
  pub max_weight_to_satisfy : Chain → ℕ → Result Error ℕ
  pub empty_script : el.Script
  -- the weight of the blinded transaction with these inputs and outputs
  pub blinded_weight :
      List (WalletTxOut el) → List (ℕ × el.Script × el.AssetId × Option PublicKey) → Result Error ℕ
  -- `(vsize as f32 * fee_rate / 1000.0).ceil() as u64`
  pub fee_for : Rate → ℕ → ℕ

-- `a - b` on u64
abbrev pub sub_u64 : ℕ → ℕ → ℕ
sub_u64 a b = (a + (2 ^ 64 - b % 2 ^ 64)) % 2 ^ 64

abbrev pub temp_fee : ℕ
temp_fee = 1000

module _ {el : Elements} (desc : Descriptor el) where
  open desc use {
    PublicKey, Rate, address_at, max_weight_to_satisfy, empty_script, blinded_weight, fee_for,
  }
  open el use {AssetId, Script, asset_eq, txid_eq, outputs, Transaction}

  -- Also an output of the PSET: its amount, script, asset and blinding key.
  pub record Recipient : Type 0 where
    pub satoshi : ℕ
    pub script_pubkey : Script
    pub blinding_pubkey : Option PublicKey
    pub asset : AssetId

  pub record Draft : Type 0 where
    pub inputs : List (WalletTxOut el)
    pub outputs : List Recipient
    pub inp_weight : ℕ
    pub last_unused_internal : ℕ
    pub last_unused_external : ℕ

  abbrev pub add_output : Draft → Recipient → Draft
  add_output d r = record d { outputs = r ∷ d.outputs }

  -- `get_txout`, of which only the error matters here
  abbrev vout_of : List el.TxOut → ℕ → Result Error (Unit {0})
  vout_of os vout = elim (get_elem? os vout) [ none ↦ err missing_vout | some o ↦ ok tt ]

  unfoldable pub check_txout : RawCache el → OutPoint el → Result Error (Unit {0})
  check_txout c o =
      ok_or (get ⦃eq = txid_eq⦄ c.all_txs o.txid) missing_transaction
      >>= (λ tx. vout_of (outputs tx) o.vout)

  unfoldable pub add_input : RawCache el → Draft → WalletTxOut el → Result Error Draft
  add_input c d utxo = check_txout c utxo.outpoint >>= (λ _.
      index el c utxo.script_pubkey >>= (λ path. max_weight_to_satisfy path.0 path.1 >>= (λ weight.
        ok (record d { inputs = d.inputs ++ (utxo ∷ []); inp_weight = d.inp_weight + weight }))))

  abbrev pub recipient_at : ℕ → AssetId → Script × Option PublicKey → Recipient
  recipient_at satoshi asset (script, key) = record {
    satoshi = satoshi;
    script_pubkey = script;
    blinding_pubkey = key;
    asset = asset;
  }

  -- `addressee_change` and `add_output`
  unfoldable pub add_change : Draft → ℕ → AssetId → Result Error Draft
  add_change d satoshi asset = address_at internal d.last_unused_internal >>= (λ address. ok (
      add_output (record d { last_unused_internal = (d.last_unused_internal + 1) % 2 ^ 32 })
        (recipient_at satoshi asset address)))

  -- The outputs of some recipients and what they are paid.
  unfoldable pub add_recipients : Draft → List Recipient → ℕ → Draft × ℕ
  add_recipients d [] satoshi_out = (d, satoshi_out)
  add_recipients d (r ∷ rs) satoshi_out =
      add_recipients (add_output d r) rs ((satoshi_out + r.satoshi) % 2 ^ 64)

  -- Once the inputs reach the outputs, the rest goes to a change output.
  abbrev pub settle : Draft → AssetId → ℕ → ℕ → Result Error (Draft × ℕ)
  settle d asset satoshi_out satoshi_in =
      if ltb satoshi_out satoshi_in
      then (add_change d (sub_u64 satoshi_in satoshi_out) asset >>= (λ d. ok (d, satoshi_in)))
      else ok (d, satoshi_in)

  unfoldable pub select :
      RawCache el → AssetId → ℕ → List (WalletTxOut el) → Draft → ℕ → Result Error (Draft × ℕ)
  select c asset satoshi_out [] d satoshi_in = ok (d, satoshi_in)
  select c asset satoshi_out (utxo ∷ rest) d satoshi_in = add_input c d utxo >>= (λ d.
      let total : ℕ = (satoshi_in + utxo.unblinded.value) % 2 ^ 64 in
      let later : Result Error (Draft × ℕ) = select c asset satoshi_out rest d total in
      if leb satoshi_out total then settle d asset satoshi_out total else later)

  unfoldable pub add_asset : RawCache el → List Recipient → AssetId → Draft → Result Error Draft
  add_asset c addressees asset d =
      let paid : Draft × ℕ =
        add_recipients d (keep (λ (r : Recipient). ◌==◌ ⦃eq = asset_eq⦄ r.asset asset) addressees)
          0 in
      asset_utxos el c asset >>= (λ utxos.
        select c asset paid.1 utxos paid.0 0
        >>= (λ e. if ltb e.1 paid.1 then err insufficient_funds else ok e.0))

  unfoldable pub add_assets :
      RawCache el → List Recipient → List AssetId → Draft → Result Error Draft
  add_assets c addressees [] d = ok d
  add_assets c addressees (asset ∷ rest) d =
      add_asset c addressees asset d >>= (λ d. add_assets c addressees rest d)

  -- A set of the elements of a list.
  abbrev pub distinct : List AssetId → List AssetId
  distinct [] = []
  distinct (a ∷ more) =
      let rest : List AssetId = distinct more in
      if contains ⦃eq = asset_eq⦄ rest a then rest else a ∷ rest

  unfoldable pub add_all_inputs :
      RawCache el → List (WalletTxOut el) → Draft → ℕ → Result Error (Draft × ℕ)
  add_all_inputs c [] d satoshi_in = ok (d, satoshi_in)
  add_all_inputs c (utxo ∷ rest) d satoshi_in =
      add_input c d utxo
      >>= (λ d. add_all_inputs c rest d ((satoshi_in + utxo.unblinded.value) % 2 ^ 64))

  abbrev pub fee_output : ℕ → AssetId → Recipient
  fee_output fee policy_asset = record {
    satoshi = fee;
    script_pubkey = empty_script;
    blinding_pubkey = none;
    asset = policy_asset;
  }

  -- The last two outputs are the change and the fee; `none` is an index out of range.
  abbrev pub with_amounts : ℕ → ℕ → List Recipient → Option (List Recipient)
  with_amounts change fee [] = none
  with_amounts change fee (f ∷ []) = none
  with_amounts change fee (f ∷ c ∷ rest) =
      some (record f { satoshi = fee } ∷ record c { satoshi = change } ∷ rest)

  abbrev pub replaced : Draft → Option (List Recipient) → Option Draft
  replaced d none = none
  replaced d (some os) = some (record d { outputs = os })

  abbrev pub output_data : Recipient → ℕ × Script × AssetId × Option PublicKey
  output_data r = (r.satoshi, r.script_pubkey, r.asset, r.blinding_pubkey)

  abbrev pub enough : ℕ → ℕ → Result Error (Unit {0})
  enough satoshi_out satoshi_in =
      reject_if (ltb satoshi_in ((satoshi_out + temp_fee) % 2 ^ 64)) insufficient_funds

  abbrev pub fee_of : Rate → Draft → ℕ → ℕ
  fee_of rate d weight = fee_for rate ((d.inp_weight + weight + 4 - 1) / 4)

  -- The real change and fee.
  unfoldable pub final_amounts : Rate → ℕ → ℕ → Draft → ℕ → Result Error (Option Draft)
  final_amounts rate satoshi_out satoshi_in d weight =
      enough satoshi_out satoshi_in
      >> ok (
          replaced d (
            with_amounts (sub_u64 (sub_u64 satoshi_in satoshi_out) (fee_of rate d weight))
              (fee_of rate d weight) d.outputs))

  -- The weight of the blinded transaction, or why it cannot be blinded.
  abbrev pub Weigher : Type 0
  Weigher = List (WalletTxOut el) → List (ℕ × Script × AssetId × Option PublicKey) → Result Error ℕ

  -- The temporary fee, for the weight of the transaction.
  unfoldable pub add_fee : Weigher → AssetId → Rate → ℕ → ℕ → Draft → Result Error (Option Draft)
  add_fee weigh policy_asset rate satoshi_out satoshi_in d =
      let d : Draft = add_output d (fee_output temp_fee policy_asset) in
      weigh d.inputs (map output_data d.outputs) >>= final_amounts rate satoshi_out satoshi_in d

  -- The temporary change and fee, and then the real ones.
  unfoldable pub close : Weigher → AssetId → Rate → ℕ → ℕ → Draft → Result Error (Option Draft)
  close weigh policy_asset rate satoshi_out satoshi_in d =
      enough satoshi_out satoshi_in
      >> (add_change d (sub_u64 (sub_u64 satoshi_in satoshi_out) temp_fee) policy_asset
          >>= add_fee weigh policy_asset rate satoshi_out satoshi_in)

  -- The outputs and all the inputs in the policy asset.
  unfoldable pub add_lbtc :
      RawCache el → AssetId → Rate → List Recipient → Draft → Result Error (Option Draft)
  add_lbtc c policy_asset rate addressees d =
      let paid : Draft × ℕ = add_recipients d addressees 0 in
      asset_utxos el c policy_asset >>= (λ utxos.
        add_all_inputs c utxos paid.0 0
        >>= (λ e. close blinded_weight policy_asset rate paid.1 e.1 e.0))

  pub record TxBuilder : Type 0 where
    pub policy_asset : AssetId
    pub recipients : List Recipient
    pub fee_rate : Rate

  -- Both addresses are derived, and only their indices are kept.
  abbrev pub started : RawCache el → Result Error Draft
  started c = address_at internal c.last_unused_internal >>= (λ _.
      address_at external c.last_unused_external >>= (λ _. ok (record {
        inputs = [];
        outputs = [];
        inp_weight = 0;
        last_unused_internal = c.last_unused_internal;
        last_unused_external = c.last_unused_external;
      })))

  abbrev pub addressees_lbtc : TxBuilder → List Recipient
  addressees_lbtc b =
      keep (λ (r : Recipient). ◌==◌ ⦃eq = asset_eq⦄ r.asset b.policy_asset) b.recipients

  abbrev pub addressees_asset : TxBuilder → List Recipient
  addressees_asset b =
      keep (λ (r : Recipient). not (◌==◌ ⦃eq = asset_eq⦄ r.asset b.policy_asset)) b.recipients

  -- The inputs and outputs in the other assets.
  unfoldable pub begin : RawCache el → TxBuilder → Result Error Draft
  begin c b =
      started c
      >>= add_assets c (addressees_asset b)
          (distinct (map (λ (r : Recipient). r.asset) (addressees_asset b)))

  -- `finish` of a builder of the wallet's network without an issuance request, up to the last calls of elements:
  -- the blinding of the outputs and the details for the signers, which leave the amounts alone.
  unfoldable pub finish_payment : RawCache el → TxBuilder → Result Error (Option Draft)
  finish_payment c b = begin c b >>= add_lbtc c b.policy_asset b.fee_rate (addressees_lbtc b)

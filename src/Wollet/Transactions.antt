-- ===== src/Wollet/Transactions.antt =====
-- lwk_wollet/src/wollet.rs: a transaction as the wallet sees it. An i64 is the number below 2 ^ 64 of its
-- two's complement.
pub mod Balances
pub mod Types
use Prim.Native.String.{String}
use satsails_lwk.Common.{
  ℕ, suc, ◌+◌, ◌-◌, ◌%◌, ◌^◌, Bool, true, false, List, [], ◌∷◌, Option, none, some, Result, ok,
  ◌>>=◌, ok_or, and_then, map, any, keep, not, ◌&&◌, ◌||◌, if◌then◌else◌, ◌==◌, nat_eq, ltb, leb,
  length, is_empty,
}
use satsails_lwk.Common.HashMap.{HashMap, get, insert, new, values}
use satsails_lwk.Wollet.{Elements, OutPoint, previous_output, outpoint_eq, Error, no_tx}
use satsails_lwk.Wollet.Update.{RawCache}
use satsails_lwk.Wollet.Utxos.{WalletTxOut, or_zero, txos, enumerate}

-- `a - b` on i64
abbrev pub sub_i64 : ℕ → ℕ → ℕ
sub_i64 a b = (a + (2 ^ 64 - b % 2 ^ 64)) % 2 ^ 64

abbrev pub add_i64 : ℕ → ℕ → ℕ
add_i64 a b = (a + b) % 2 ^ 64

abbrev pub is_negative : ℕ → Bool
is_negative a = leb (2 ^ 63) a

abbrev pub is_positive : ℕ → Bool
is_positive a = ltb 0 a && ltb a (2 ^ 63)

abbrev pub all {ℓ} : {A : Type ℓ} → (A → Bool) → List A → Bool
all p [] = true
all p (x ∷ xs) = p x && all p xs

module _ (el : Elements) where
  open el use {
    Txid, Transaction, TxOut, TxIn, Script, AssetId, txid_eq, script_eq, asset_eq, txid, inputs,
    outputs, script_pubkey, script_is_empty, explicit_value, issuance_is_null, nonce_is_zero,
    burn_script, txid_to_string,
  }

  abbrev pub Txos : Type 0
  Txos = HashMap (OutPoint el) (WalletTxOut el)

  abbrev pub Balance : Type 0
  Balance = HashMap AssetId ℕ

  abbrev outpoint_at : Transaction → ℕ → OutPoint el
  outpoint_at tx vout = record { txid = txid tx; vout = vout % 2 ^ 32 }

  abbrev pub change_by : (ℕ → ℕ → ℕ) → Option (WalletTxOut el) → Balance → Balance
  change_by op none r = r
  change_by op (some txo) r =
      insert ⦃eq = asset_eq⦄ r txo.unblinded.asset
        (op (or_zero (get ⦃eq = asset_eq⦄ r txo.unblinded.asset)) txo.unblinded.value)

  unfoldable pub tx_inputs : Transaction → Txos → List (Option (WalletTxOut el))
  tx_inputs tx txos = map (λ i. get txos (previous_output el i)) (inputs tx)

  unfoldable pub tx_outputs : Transaction → Txos → List (Option (WalletTxOut el))
  tx_outputs tx txos = map (λ e. get txos (outpoint_at tx e.0)) (enumerate 0 (outputs tx))

  unfoldable pub add_tx_outputs : Txos → Txid → ℕ → List TxOut → Balance → Balance
  add_tx_outputs txos id out_idx [] balance = balance
  add_tx_outputs txos id out_idx (o ∷ os) balance =
      add_tx_outputs txos id (suc out_idx) os
        (change_by add_i64 (get txos (record { txid = id; vout = out_idx % 2 ^ 32 })) balance)

  unfoldable pub subtract_tx_inputs : Txos → List TxIn → Balance → Balance
  subtract_tx_inputs txos [] balance = balance
  subtract_tx_inputs txos (i ∷ is) balance =
      subtract_tx_inputs txos is (change_by sub_i64 (get txos (previous_output el i)) balance)

  unfoldable pub tx_balance : Transaction → Txos → Balance
  tx_balance tx txos =
      subtract_tx_inputs txos (inputs tx) (add_tx_outputs txos (txid tx) 0 (outputs tx) new)

  abbrev pub sum_u64 : List ℕ → ℕ
  sum_u64 [] = 0
  sum_u64 (n ∷ ns) = (n + sum_u64 ns) % 2 ^ 64

  unfoldable pub tx_fee : Transaction → ℕ
  tx_fee tx = sum_u64 (
      map (λ o. or_zero (explicit_value o))
        (keep (λ o. script_is_empty (script_pubkey o)) (outputs tx)))

  abbrev pub issues : TxIn → Bool
  issues i = not (issuance_is_null i) && nonce_is_zero i

  abbrev pub reissues : TxIn → Bool
  reissues i = not (issuance_is_null i) && not (nonce_is_zero i)

  abbrev pub is_fee : Option ℕ → ℕ → Bool
  is_fee (some amount) fee = amount == fee
  is_fee none fee = false

  unfoldable pub tx_type : Transaction → AssetId → Balance → ℕ → String
  tx_type tx policy_asset balance fee =
      if any issues (inputs tx)
      then "issuance"
      else if any reissues (inputs tx)
      then "reissuance"
      else if any (λ o. ◌==◌ ⦃eq = script_eq⦄ (script_pubkey o) burn_script) (outputs tx)
      then "burn"
      else if length balance.entries == 1 && is_fee (get ⦃eq = asset_eq⦄ balance policy_asset) fee
      then "redeposit"
      else if is_empty balance.entries
      then "unknown"
      else if all is_positive (values balance)
      then "incoming"
      else if all is_negative (values balance)
      then "outgoing"
      else "unknown"

  pub record WalletTx : Type 0 where
    pub tx : Transaction
    pub txid : Txid
    pub height : Option ℕ
    pub balance : Balance
    pub fee : ℕ
    pub type_name : String
    pub timestamp : Option ℕ
    pub inputs : List (Option (WalletTxOut el))
    pub outputs : List (Option (WalletTxOut el))

  abbrev pub wallet_tx : RawCache el → AssetId → Transaction → Txid → Option ℕ → Txos → WalletTx
  wallet_tx c policy_asset tx id height txos =
      let balance : Balance = tx_balance tx txos in
      let fee : ℕ = tx_fee tx in
      record {
        tx = tx;
        txid = id;
        height = height;
        balance = balance;
        fee = fee;
        type_name = tx_type tx policy_asset balance fee;
        timestamp = and_then height (λ h. get c.timestamps h);
        inputs = tx_inputs tx txos;
        outputs = tx_outputs tx txos;
      }

  abbrev known :
      RawCache el
      → AssetId
      → Txid
      → Option (Option ℕ)
      → Option Transaction
      → Result Error (Option WalletTx)
  known c policy_asset id (some height) (some tx) =
      txos el c >>= (λ os. ok (some (wallet_tx c policy_asset tx id height os)))
  known c policy_asset id none tx = ok none
  known c policy_asset id (some height) none = ok none

  unfoldable pub transaction : RawCache el → AssetId → Txid → Result Error (Option WalletTx)
  transaction c policy_asset id =
      known c policy_asset id (get ⦃eq = txid_eq⦄ c.heights id) (get ⦃eq = txid_eq⦄ c.all_txs id)

  -- An unconfirmed transaction counts as the highest.
  abbrev sort_height : Option ℕ → ℕ
  sort_height none = 2 ^ 32 - 1
  sort_height (some h) = h

  -- The order of the transactions: the highest first, then the greater id.
  abbrev pub precedes : (Txid → Txid → Bool) → Txid × Option ℕ → Txid × Option ℕ → Bool
  precedes id_geq (i, g) (j, h) =
      ltb (sort_height h) (sort_height g) || (sort_height h == sort_height g && id_geq i j)

  unfoldable pub insert_tx :
      (Txid → Txid → Bool) → Txid × Option ℕ → List (Txid × Option ℕ) → List (Txid × Option ℕ)
  insert_tx id_geq x [] = x ∷ []
  insert_tx id_geq x (y ∷ ys) =
      if precedes id_geq x y then x ∷ y ∷ ys else y ∷ insert_tx id_geq x ys

  unfoldable pub sort_txs : (Txid → Txid → Bool) → List (Txid × Option ℕ) → List (Txid × Option ℕ)
  sort_txs id_geq [] = []
  sort_txs id_geq (x ∷ xs) = insert_tx id_geq x (sort_txs id_geq xs)

  unfoldable pub list_txs :
      RawCache el → AssetId → Txos → List (Txid × Option ℕ) → Result Error (List WalletTx)
  list_txs c policy_asset txos [] = ok []
  list_txs c policy_asset txos ((id, height) ∷ es) =
      ok_or (get ⦃eq = txid_eq⦄ c.all_txs id) (no_tx "list_tx no tx " (txid_to_string id))
      >>= (λ tx.
          list_txs c policy_asset txos es
          >>= (λ rest. ok (wallet_tx c policy_asset tx id height txos ∷ rest)))

  unfoldable pub transactions :
      (Txid → Txid → Bool) → RawCache el → AssetId → Result Error (List WalletTx)
  transactions id_geq c policy_asset =
      txos el c >>= (λ os. list_txs c policy_asset os (sort_txs id_geq c.heights.entries))

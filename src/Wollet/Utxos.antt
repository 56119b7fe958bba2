-- ===== src/Wollet/Utxos.antt =====
-- lwk_wollet/src/wollet.rs and store.rs: the outputs of the wallet and what they add up to.
pub mod Listed
pub mod Sound
pub mod Sums
use satsails_lwk.Common.{
  ℕ, suc, ◌+◌, ◌%◌, ◌^◌, Bool, true, false, List, [], ◌∷◌, Option, none, some, Result, ok, err,
  ◌>>=◌, ok_or, map, ◌++◌, concat, not, keep, leb, if◌then◌else◌, ◌==◌, nat_eq,
}
use satsails_lwk.Common.HashMap.{HashMap, get, insert, new, values}
use satsails_lwk.Common.Extend.{contains, extend}
use satsails_lwk.Wollet.{
  Elements, Chain, ChildNumber, normal, hardened, OutPoint, TxOutSecrets, previous_output,
  outpoint_eq, Error, generic, script_not_mine, no_tx,
}
use satsails_lwk.Wollet.Update.{RawCache}

-- `iter().enumerate()` from a number on
abbrev pub enumerate {ℓ} : {A : Type ℓ} → ℕ → List A → List (ℕ × A)
enumerate i [] = []
enumerate i (x ∷ xs) = (i, x) ∷ enumerate (suc i) xs

-- What an absent sum is.
abbrev pub or_zero : Option ℕ → ℕ
or_zero none = 0
or_zero (some n) = n

module _ (el : Elements) where
  open el use {
    Txid, Transaction, TxOut, TxIn, Script, AssetId, txid_eq, script_eq, asset_eq, txid, inputs,
    outputs, script_pubkey, txid_to_string,
  }

  pub record WalletTxOut : Type 0 where
    pub outpoint : OutPoint el
    pub script_pubkey : Script
    pub height : Option ℕ
    pub unblinded : TxOutSecrets el
    pub wildcard_index : ℕ
    pub ext_int : Chain

  abbrev pub spent_by : Transaction → List (OutPoint el)
  spent_by tx = map (previous_output el) (inputs tx)

  -- The outputs that some transaction of the cache spends.
  unfoldable pub spent : RawCache el → List (OutPoint el)
  spent c = concat (map spent_by (values c.all_txs))

  abbrev pub index_of : Option (Chain × ChildNumber) → Result Error (Chain × ℕ)
  index_of none = err script_not_mine
  index_of (some (ext_int, normal index)) = ok (ext_int, index)
  index_of (some (ext_int, hardened index)) = err (generic "unexpected hardened derivation")

  unfoldable pub index : RawCache el → Script → Result Error (Chain × ℕ)
  index c script = index_of (get ⦃eq = script_eq⦄ c.paths script)

  abbrev pub mine :
      OutPoint el
      → Script
      → Option ℕ
      → TxOutSecrets el
      → Result Error (Chain × ℕ)
      → List WalletTxOut
  mine outpoint script height unblinded (err e) = []
  mine outpoint script height unblinded (ok (ext_int, index)) =
      record {
        outpoint = outpoint;
        script_pubkey = script;
        height = height;
        unblinded = unblinded;
        wildcard_index = index;
        ext_int = ext_int;
      }
      ∷ []

  -- The answer of `filter_map`, as a list of one or none.
  abbrev pub wallet_txo :
      RawCache el → Option ℕ → OutPoint el × TxOut → Option (TxOutSecrets el) → List WalletTxOut
  wallet_txo c height (outpoint, output) none = []
  wallet_txo c height (outpoint, output) (some unblinded) =
      mine outpoint (script_pubkey output) height unblinded (index c (script_pubkey output))

  abbrev pub with_outpoint : Transaction → ℕ × TxOut → OutPoint el × TxOut
  with_outpoint tx (vout, output) = (record { txid = txid tx; vout = vout % 2 ^ 32 }, output)

  unfoldable pub tx_txos :
      RawCache el → List (OutPoint el) → Option ℕ → Transaction → List WalletTxOut
  tx_txos c spent height tx = concat (
      map (λ e. wallet_txo c height e (get c.unblinded e.0))
        (keep (λ e. not (contains spent e.0)) (map (with_outpoint tx) (enumerate 0 (outputs tx)))))

  unfoldable pub all_txos :
      RawCache el → List (OutPoint el) → List (Txid × Option ℕ) → Result Error (List WalletTxOut)
  all_txos c spent [] = ok []
  all_txos c spent ((id, height) ∷ es) =
      ok_or (get ⦃eq = txid_eq⦄ c.all_txs id) (no_tx "txos no tx " (txid_to_string id))
      >>= (λ tx. all_txos c spent es >>= (λ rest. ok (tx_txos c spent height tx ++ rest)))

  unfoldable pub insert_by_value : WalletTxOut → List WalletTxOut → List WalletTxOut
  insert_by_value x [] = x ∷ []
  insert_by_value x (y ∷ ys) =
      if leb y.unblinded.value x.unblinded.value then x ∷ y ∷ ys else y ∷ insert_by_value x ys

  -- `sort_by`, which is stable, from the greatest value to the least
  unfoldable pub sort_by_value : List WalletTxOut → List WalletTxOut
  sort_by_value [] = []
  sort_by_value (x ∷ xs) = insert_by_value x (sort_by_value xs)

  unfoldable pub txos_inner : RawCache el → Bool → Result Error (List WalletTxOut)
  txos_inner c unspent =
      all_txos c (if unspent then spent c else []) c.heights.entries
      >>= (λ txos. ok (sort_by_value txos))

  abbrev pub utxos : RawCache el → Result Error (List WalletTxOut)
  utxos c = txos_inner c true

  unfoldable pub txos : RawCache el → Result Error (HashMap (OutPoint el) WalletTxOut)
  txos c =
      txos_inner c false >>= (λ os. ok (extend new (map (λ (o : WalletTxOut). (o.outpoint, o)) os)))

  -- `*r.entry(asset).or_default() += value`
  abbrev pub add_value : HashMap AssetId ℕ → AssetId → ℕ → HashMap AssetId ℕ
  add_value r asset value =
      insert ⦃eq = asset_eq⦄ r asset ((or_zero (get ⦃eq = asset_eq⦄ r asset) + value) % 2 ^ 64)

  unfoldable pub add_utxos : HashMap AssetId ℕ → List WalletTxOut → HashMap AssetId ℕ
  add_utxos r [] = r
  add_utxos r (u ∷ us) = add_utxos (add_value r u.unblinded.asset u.unblinded.value) us

  unfoldable pub balance_from_utxos : AssetId → List WalletTxOut → HashMap AssetId ℕ
  balance_from_utxos policy_asset us = add_utxos (insert ⦃eq = asset_eq⦄ new policy_asset 0) us

  unfoldable pub balance : AssetId → RawCache el → Result Error (HashMap AssetId ℕ)
  balance policy_asset c = utxos c >>= (λ us. ok (balance_from_utxos policy_asset us))

  -- pset_create.rs
  unfoldable pub asset_utxos : RawCache el → AssetId → Result Error (List WalletTxOut)
  asset_utxos c asset =
      utxos c
      >>= (λ us. ok (keep (λ (u : WalletTxOut). ◌==◌ ⦃eq = asset_eq⦄ u.unblinded.asset asset) us))

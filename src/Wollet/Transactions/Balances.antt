-- ===== src/Wollet/Transactions/Balances.antt =====
-- The net balance of a transaction that `tx_balance` of lwk_wollet/src/wollet.rs computes on i64.
use satsails_lwk.Common.{
  ℕ, suc, ◌+◌, ◌-◌, ◌%◌, ◌^◌, ◌<◌, List, [], ◌∷◌, Option, none, some, if◌then◌else◌, ◌==◌, ◌≡◌, sym,
  ap, ◌∙◌, arith, inl, inr, ==-cases,
}
use satsails_lwk.Common.HashMap.{new, get, lookup, get-insert}
use satsails_lwk.Wollet.{Elements, outpoint_eq}
use satsails_lwk.Wollet.Utxos.{WalletTxOut, or_zero}
use satsails_lwk.Wollet.Utxos.Sums.{amount}
use satsails_lwk.Wollet.Transactions.{
  sub_i64, add_i64, Txos, Balance, change_by, add_tx_outputs, subtract_tx_inputs, tx_balance,
}

module _ (el : Elements) where
  open el use {
    AssetId, asset_eq, Transaction, TxIn, TxOut, Txid, txid, inputs, outputs, previous_txid,
    previous_vout,
  }

  -- The value in an asset of an output that may not be the wallet's.
  abbrev pub value_in : AssetId → Option (WalletTxOut el) → ℕ
  value_in a none = 0
  value_in a (some txo) =
      if ◌==◌ ⦃eq = asset_eq⦄ txo.unblinded.asset a then txo.unblinded.value else 0

  -- What the wallet's outputs that some inputs spend hold of an asset.
  unfoldable pub sent : Txos el → AssetId → List TxIn → ℕ
  sent txos a [] = 0
  sent txos a (i ∷ is) =
      value_in a (get txos (record { txid = previous_txid i; vout = previous_vout i }))
      + sent txos a is

  -- What the wallet's outputs among the outputs of a transaction, from one index on, hold of an asset.
  unfoldable pub received : Txos el → AssetId → Txid → ℕ → List TxOut → ℕ
  received txos a id n [] = 0
  received txos a id n (o ∷ os) =
      value_in a (get txos (record { txid = id; vout = n % 2 ^ 32 }))
      + received txos a id (suc n) os

  amount-change_by :
      (op : ℕ → ℕ → ℕ) (o : Option (WalletTxOut el)) (r : Balance el) (a : AssetId)
      → ((n : ℕ) → n < 2 ^ 64 → op n 0 ≡ n)
      → amount el r a < 2 ^ 64
      → amount el (change_by el op o r) a ≡ op (amount el r a) (value_in a o)
  amount-change_by op none r a unit h = sym (unit (amount el r a) h)
  amount-change_by op (some txo) r a unit h =
      let b : AssetId = txo.unblinded.asset in
      ap or_zero (get-insert ⦃eq = asset_eq⦄ r b a (op (amount el r b) txo.unblinded.value))
      ∙ elim (==-cases ⦃eq = asset_eq⦄ b a) [
        | inl (same, e) ↦ rw e (ap (λ x. op (amount el r x) txo.unblinded.value) same)
        | inr (ne, e) ↦ rw e (sym (unit (amount el r a) h))
      ]

  add_zero : (n : ℕ) → n < 2 ^ 64 → add_i64 n 0 ≡ n
  add_zero n h = omega arith

  sub_zero : (n : ℕ) → n < 2 ^ 64 → sub_i64 n 0 ≡ n
  sub_zero n h = omega arith

  amount-add_tx_outputs :
      (txos : Txos el) (id : Txid) (n : ℕ) (os : List TxOut) (r : Balance el) (a : AssetId)
      → amount el r a < 2 ^ 64
      → amount el (add_tx_outputs el txos id n os r) a
        ≡ (amount el r a + received txos a id n os) % 2 ^ 64
  unfolding add_tx_outputs received
  amount-add_tx_outputs txos id n [] r a h = omega arith
  amount-add_tx_outputs txos id n (o ∷ os) r a h =
      let found : Option (WalletTxOut el) = get txos (record { txid = id; vout = n % 2 ^ 32 }) in
      let r' : Balance el = change_by el add_i64 found r in
      let now : amount el r' a ≡ (amount el r a + value_in a found) % 2 ^ 64 =
        amount-change_by add_i64 found r a add_zero h in
      amount-add_tx_outputs txos id (suc n) os r' a (omega arith) ∙ omega arith

  amount-subtract_tx_inputs :
      (txos : Txos el) (is : List TxIn) (r : Balance el) (a : AssetId)
      → amount el r a < 2 ^ 64
      → (amount el (subtract_tx_inputs el txos is r) a + sent txos a is) % 2 ^ 64 ≡ amount el r a
  unfolding subtract_tx_inputs sent
  amount-subtract_tx_inputs txos [] r a h = omega arith
  amount-subtract_tx_inputs txos (i ∷ is) r a h =
      let found : Option (WalletTxOut el) =
        get txos (record { txid = previous_txid i; vout = previous_vout i }) in
      let r' : Balance el = change_by el sub_i64 found r in
      let now : amount el r' a ≡ (amount el r a + (2 ^ 64 - value_in a found % 2 ^ 64)) % 2 ^ 64 =
        amount-change_by sub_i64 found r a sub_zero h in
      let ih = amount-subtract_tx_inputs txos is r' a (omega arith) in omega arith

  -- The balance of each asset and what the transaction's inputs spend of the wallet's outputs make up what
  -- the wallet's outputs among its own hold, on the wrapping numbers of 64 bits.
  pub tx_balance-conserves :
      (tx : Transaction) (txos : Txos el) (a : AssetId)
      → (amount el (tx_balance el tx txos) a + sent txos a (inputs tx)) % 2 ^ 64
        ≡ received txos a (txid tx) 0 (outputs tx) % 2 ^ 64
  unfolding tx_balance lookup
  tx_balance-conserves tx txos a =
      let added : Balance el = add_tx_outputs el txos (txid tx) 0 (outputs tx) new in
      let got : amount el added a ≡ (0 + received txos a (txid tx) 0 (outputs tx)) % 2 ^ 64 =
        amount-add_tx_outputs txos (txid tx) 0 (outputs tx) new a (omega arith) in
      let back = amount-subtract_tx_inputs txos (inputs tx) added a (omega arith) in
      back ∙ got ∙ omega arith

-- ===== src/Wollet/Transactions/Types.antt =====
-- What `tx_type` of lwk_wollet/src/wollet.rs answers for a payment of the wallet to itself.
use satsails_lwk.Common.{ℕ, ◌^◌, ◌<◌, true, false, any, ◌==◌, ==_refl, nat_eq, ◌≡◌, refl, arith}
use satsails_lwk.Common.HashMap.{insert, new, lookup, without}
use satsails_lwk.Wollet.{Elements}
use satsails_lwk.Wollet.Transactions.{sub_i64, tx_type, issues, reissues, is_negative, is_positive}

module _ (el : Elements) where
  open el use {
    AssetId, asset_eq, script_eq, Transaction, inputs, outputs, script_pubkey, burn_script,
  }

  -- A transaction without issuance and burn whose only cost to the wallet is a fee above zero has the
  -- type "outgoing", and never "redeposit".
  pub tx_type-self_payment :
      (tx : Transaction) (policy_asset : AssetId) (fee : ℕ)
      → any (issues el) (inputs tx) ≡ false
      → any (reissues el) (inputs tx) ≡ false
      → any (λ o. ◌==◌ ⦃eq = script_eq⦄ (script_pubkey o) burn_script) (outputs tx) ≡ false
      → 0 < fee
      → fee < 2 ^ 63
      → tx_type el tx policy_asset (insert ⦃eq = asset_eq⦄ new policy_asset (sub_i64 0 fee)) fee
        ≡ "outgoing"
  unfolding tx_type lookup without
  tx_type-self_payment tx policy_asset fee a b c pos small =
      let n : ℕ = sub_i64 0 fee in
      let differs : (n == fee) ≡ false = ground arith in
      let not_above : is_positive n ≡ false = ground arith in
      let below : is_negative n ≡ true = ground arith in
      rw (a, b, c, ==_refl ⦃eq = asset_eq⦄ policy_asset, differs, not_above, below) refl

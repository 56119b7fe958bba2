-- ===== src/Tests/Wollet.antt =====
-- update.rs, persister.rs and wollet.rs of lwk_wollet.
use mathlib.Core.List.{Memᴰ}
use mathlib.Core.List.{Memᴰ}
use satsails_lwk.Common.{
  ◌↔◌, true, ◌+◌, ◌<◌, ◌≤◌, ◌%◌, ◌^◌, [], ◌∷◌, some, ok, err, ◌≡◌, refl, nat_eq, pair_eq, length,
  arith,
}
use satsails_lwk.Common.HashMap.{get, new, lookup, without, insert}
use satsails_lwk.Common.Extend.{extend, last_of, retain_entries}
use satsails_lwk.Wollet.{external, normal, update_height_too_old, outpoint_eq, chain_eq, child_eq}
use satsails_lwk.Wollet.Update.{
  RawCache, default, apply_cache, updated, merged, txid_height, use_outputs, use_txs, only_tip,
  nothing_downloaded,
}
use satsails_lwk.Wollet.Update.Heights.{
  apply_cache-heights, HeightsUnblinded, apply_cache-HeightsUnblinded,
}
use satsails_lwk.Wollet.Update.Indices.{
  newly_used, highest, apply_cache-last_unused, apply_cache-fresh,
}
use satsails_lwk.Wollet.Update.Paths.{PathsInverse, apply_cache-PathsInverse}
use satsails_lwk.Wollet.Update.Tip.{replay, replay-tip, apply_cache-too_old}
use satsails_lwk.Wollet.Update.Coalesce.{apply_cache-coalesced, apply_cache-coalesced_refused}
use satsails_lwk.Wollet.Utxos.{
  WalletTxOut, utxos, txos_inner, all_txos, tx_txos, spent, index, sort_by_value, insert_by_value,
  balance, balance_from_utxos, add_utxos,
}
use satsails_lwk.Wollet.Utxos.Sound.{IsUtxo, Descending, utxos-IsUtxo}
use satsails_lwk.Wollet.Utxos.Sums.{amount}
use satsails_lwk.Wollet.Transactions.{Txos, tx_balance, tx_type, sub_i64}
use satsails_lwk.Wollet.Transactions.Balances.{sent, received, tx_balance-conserves}
use satsails_lwk.Wollet.Transactions.Types.{tx_type-self_payment}
use satsails_lwk.Tests.Coins.{coins, payment, tip_at, paid}

payment-paid : apply_cache coins (default coins) payment ≡ ok paid
unfolding apply_cache updated merged txid_height extend retain_entries use_txs use_outputs lookup
    without
payment-paid = refl

apply_cache-heights_example : get paid.heights 7 ≡ some (some 100)
unfolding last_of lookup
apply_cache-heights_example = apply_cache-heights (default coins) payment paid 7 payment-paid

nothing-HeightsUnblinded : HeightsUnblinded (default coins)
unfolding HeightsUnblinded lookup
nothing-HeightsUnblinded t o h = cc

paid-HeightsUnblinded : HeightsUnblinded paid
paid-HeightsUnblinded =
    apply_cache-HeightsUnblinded (default coins) payment paid nothing-HeightsUnblinded payment-paid

apply_cache-last_unused_example : paid.last_unused_external ≡ 4
unfolding newly_used highest updated merged txid_height extend retain_entries lookup without
apply_cache-last_unused_example =
    apply_cache-last_unused coins external (default coins) payment paid payment-paid

paid_fresh : 3 < paid.last_unused_external
unfolding newly_used updated merged txid_height extend retain_entries lookup without
paid_fresh =
    apply_cache-fresh coins external (default coins) payment paid 3 (omega arith, tt) payment-paid
      (Memᴰ.head refl)

nothing-PathsInverse : PathsInverse coins (λ p. p) (default coins)
unfolding lookup
nothing-PathsInverse = record {
  to_script = λ s p h. cc;
  to_path = λ s p h. cc;
  derived = λ s p h. cc;
}

apply_cache-PathsInverse_example : PathsInverse coins (λ p. p) paid
unfolding without
apply_cache-PathsInverse_example =
    apply_cache-PathsInverse coins (λ p. p) (default coins) payment paid (λ p q h. h) (refl, tt)
      nothing-PathsInverse payment-paid

abbrev lower : RawCache coins
lower = record paid { tip = (99, 99) }

tip-lower : apply_cache coins paid (tip_at 99) ≡ ok lower
unfolding apply_cache updated merged txid_height extend retain_entries use_txs lookup
tip-lower = refl

replay-lower : replay coins (default coins) (payment ∷ tip_at 99 ∷ []) ≡ ok lower
unfolding replay apply_cache updated merged txid_height extend retain_entries use_txs use_outputs
    lookup without
replay-lower = refl

replay_lower_bound : 0 ≤ 99 + length (payment ∷ tip_at 99 ∷ [])
replay_lower_bound =
    replay-tip coins (payment ∷ tip_at 99 ∷ []) (default coins) lower
      (omega arith, (omega arith, tt)) replay-lower

apply_cache-too_old_example :
    apply_cache coins paid (tip_at 98) ≡ err (update_height_too_old 98 100)
apply_cache-too_old_example = apply_cache-too_old coins paid (tip_at 98) (omega arith) (omega arith)

tip_at-only_tip : only_tip coins (tip_at 99) ≡ true
unfolding only_tip nothing_downloaded
tip_at-only_tip = refl

tip_at-only_tip_next : only_tip coins (tip_at 101) ≡ true
unfolding only_tip nothing_downloaded
tip_at-only_tip_next = refl

apply_cache-coalesced_example :
    apply_cache coins lower (tip_at 101) ≡ apply_cache coins paid (tip_at 101)
apply_cache-coalesced_example =
    apply_cache-coalesced coins paid lower (tip_at 99) (tip_at 101) tip_at-only_tip
      tip_at-only_tip_next (omega arith) (omega arith) (omega arith) tip-lower

apply_cache-coalesced_refused_example :
    (apply_cache coins lower (tip_at 98) ≡ ok (updated coins lower (tip_at 98)))
    × (apply_cache coins paid (tip_at 98) ≡ err (update_height_too_old 98 100))
apply_cache-coalesced_refused_example =
    apply_cache-coalesced_refused coins paid lower (tip_at 99) (tip_at 98) tip_at-only_tip
      (omega arith) (omega arith) (omega arith) tip-lower

abbrev coin : WalletTxOut coins
coin = record {
  outpoint = record { txid = 7; vout = 0 };
  script_pubkey = (external, normal 3);
  height = some 100;
  unblinded = record { asset = 1; asset_bf = 0; value = 500; value_bf = 0 };
  wildcard_index = 3;
  ext_int = external;
}

utxos-paid : utxos coins paid ≡ ok (coin ∷ [])
unfolding txos_inner all_txos tx_txos spent index sort_by_value insert_by_value lookup
utxos-paid = refl

utxos-IsUtxo_example :
    (Memᴰ coin (coin ∷ []) ↔ IsUtxo coins paid coin) × Descending coins (coin ∷ [])
utxos-IsUtxo_example = utxos-IsUtxo coins paid (coin ∷ []) coin utxos-paid

balance-paid : balance coins 1 paid ≡ ok (record { entries = (1, 500) ∷ [] })
unfolding balance balance_from_utxos add_utxos txos_inner all_txos tx_txos spent index sort_by_value
    insert_by_value lookup without
balance-paid = refl

abbrev payment_tx : coins.Transaction
payment_tx = (7, [], (external, normal 3) ∷ [])

abbrev known_txos : Txos coins
known_txos = record { entries = (record { txid = 7; vout = 0 }, coin) ∷ [] }

-- It spends the coin, and pays it to the same script.
abbrev spending_tx : coins.Transaction
spending_tx = (8, (7, 0) ∷ [], (external, normal 3) ∷ [])

abbrev two_txos : Txos coins
two_txos = record {
  entries =
      (record { txid = 7; vout = 0 }, coin)
      ∷ (
        record { txid = 8; vout = 0 },
        record coin {
          outpoint = record { txid = 8; vout = 0 };
          unblinded = record { asset = 1; asset_bf = 0; value = 450; value_bf = 0 };
        },
      )
      ∷ [];
}

spending_tx-sent : sent coins two_txos 1 (coins.inputs spending_tx) ≡ 500
unfolding sent lookup
spending_tx-sent = refl

tx_balance-conserves_example :
    (amount coins (tx_balance coins spending_tx two_txos) 1
        + sent coins two_txos 1 (coins.inputs spending_tx))
      % 2 ^ 64
    ≡ received coins two_txos 1 8 0 (coins.outputs spending_tx) % 2 ^ 64
tx_balance-conserves_example = tx_balance-conserves coins spending_tx two_txos 1

tx_type-self_payment_example :
    tx_type coins payment_tx 1 (insert ⦃eq = nat_eq⦄ new 1 (sub_i64 0 250)) 250 ≡ "outgoing"
tx_type-self_payment_example =
    tx_type-self_payment coins payment_tx 1 250 refl refl refl (omega arith) (omega arith)

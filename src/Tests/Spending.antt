-- ===== src/Tests/Spending.antt =====
-- tx_builder.rs of lwk_wollet.
use satsails_lwk.Common.{
  if◌then◌else◌, ℕ, ◌+◌, ◌-◌, ◌^◌, leb, [], ◌∷◌, none, some, ok, ◌≡◌, refl, nat_eq, pair_eq, arith,
}
use satsails_lwk.Common.HashMap.{lookup}
use satsails_lwk.Wollet.{external, internal, normal, hardened, outpoint_eq, chain_eq, child_eq}
use satsails_lwk.Wollet.Update.{RawCache}
use satsails_lwk.Wollet.Utxos.{
  txos_inner, all_txos, tx_txos, spent, index, sort_by_value, insert_by_value, asset_utxos,
  WalletTxOut,
}
use satsails_lwk.Wollet.TxBuilder.{
  Descriptor, Recipient, Draft, finish_payment, begin, add_assets, add_lbtc, add_recipients,
  add_all_inputs, add_input, check_txout, close, add_change, add_fee, final_amounts,
}
use satsails_lwk.Wollet.TxBuilder.Fee.{Closed, final_amounts-Closed}
use satsails_lwk.Tests.Coins.{coins, paid}

-- A rate is the fee that it leads to.
abbrev pub fixed_fee : Descriptor coins
fixed_fee = record {
  PublicKey = ℕ;
  Rate = ℕ;
  address_at = λ chain i. ok ((chain, normal i), none);
  max_weight_to_satisfy = λ chain i. ok 100;
  empty_script = (external, hardened 1);
  blinded_weight = λ ins outs. ok 1000;
  fee_for = λ rate vsize. rate;
}

abbrev pub rich : RawCache coins
rich = record paid {
  unblinded = record {
    entries =
        (
          record { txid = 7; vout = 0 },
          record { asset = 1; asset_bf = 0; value = 5000; value_bf = 0 },
        )
        ∷ [];
  };
}

abbrev pub rich_coin : WalletTxOut coins
rich_coin = record {
  outpoint = record { txid = 7; vout = 0 };
  script_pubkey = (external, normal 3);
  height = some 100;
  unblinded = record { asset = 1; asset_bf = 0; value = 5000; value_bf = 0 };
  wildcard_index = 3;
  ext_int = external;
}

abbrev pub output : ℕ → Recipient fixed_fee
output n = record {
  satoshi = n;
  script_pubkey = (external, normal 9);
  blinding_pubkey = none;
  asset = 1;
}

abbrev pub change : ℕ → Recipient fixed_fee
change n = record {
  satoshi = n;
  script_pubkey = (internal, normal 0);
  blinding_pubkey = none;
  asset = 1;
}

abbrev pub fee : ℕ → Recipient fixed_fee
fee n = record {
  satoshi = n;
  script_pubkey = (external, hardened 1);
  blinding_pubkey = none;
  asset = 1;
}

abbrev draft : ℕ → ℕ → Draft fixed_fee
draft c f = record {
  inputs = rich_coin ∷ [];
  outputs = fee f ∷ change c ∷ output 2000 ∷ [];
  inp_weight = 100;
  last_unused_internal = 1;
  last_unused_external = 4;
}

pay-finished :
    finish_payment fixed_fee rich
      (record { policy_asset = 1; recipients = output 2000 ∷ []; fee_rate = 250 })
    ≡ ok (some (draft 2750 250))
unfolding finish_payment begin add_assets add_lbtc add_recipients add_all_inputs add_input
    check_txout close add_change add_fee final_amounts asset_utxos txos_inner all_txos tx_txos spent
    index sort_by_value insert_by_value lookup
pay-finished = refl

-- A fee of 4000 that the inputs do not cover: the change is 2 ^ 64 - 1000.
final_amounts-Closed_example :
    (d' : Draft fixed_fee) × (final_amounts fixed_fee 4000 2000 5000 (draft 2000 1000) 1000
      ≡ ok (some d'))
    × Closed fixed_fee d' 4000
        (if leb (2000 + 4000) 5000 then 5000 - (2000 + 4000) else 5000 + 2 ^ 64 - (2000 + 4000))
final_amounts-Closed_example =
    final_amounts-Closed fixed_fee 4000 2000 5000 (draft 2000 1000) 1000 (fee 1000) (change 2000)
      (output 2000 ∷ []) refl (omega arith) (omega arith) (omega arith)

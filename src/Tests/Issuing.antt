-- ===== src/Tests/Issuing.antt =====
-- The issuances of lwk_wollet/src/tx_builder.rs.
use satsails_lwk.Common.{ℕ, [], ◌∷◌, none, some, ok, inl, true, leb}
use satsails_lwk.Wollet.{external, normal}
use satsails_lwk.Wollet.Utxos.{spent}
use satsails_lwk.Wollet.TxBuilder.{Draft}
use satsails_lwk.Wollet.Recipients.{Builder, new_builder, issuance}
use satsails_lwk.Wollet.Issuance.{Issuances, IssuedInput}
use satsails_lwk.Tests.Spending.{fixed_fee, rich_coin, output, change, fee}
use satsails_lwk.Tests.Recipients.{shop}

-- Every issuance makes the asset 20 with the token 21.
abbrev mint : Issuances shop
mint = record {
  ContractHash = ℕ;
  Entropy = ℕ;
  no_contract = 0;
  contract_hash = λ contract. ok contract;
  contract_json = λ contract. ok "{}";
  issuance_ids = λ spent hash. (20, 21);
  has_issuance = λ input. true;
  txin_entropy = λ input. 0;
  txin_ids = λ input. (20, 21);
  asset_amount = λ input. none;
  token_amount = λ input. none;
  issued_weight = λ idx amount keys nonce entropy ins outs. ok 1200;
  id_geq = λ a b. leb b a;
}

abbrev minting : Builder shop
minting = record (new_builder shop 0) {
  recipients = output 2000 ∷ [];
  fee_rate = 250;
  issuance_request = issuance 10 none 1 (some 7) none;
}

abbrev minted : Draft fixed_fee
minted = record {
  inputs = rich_coin ∷ [];
  outputs =
      fee 250
      ∷ change 2750
      ∷ record {
        satoshi = 1;
        script_pubkey = (external, normal 7);
        blinding_pubkey = some 33;
        asset = 21;
      }
      ∷ record {
        satoshi = 10;
        script_pubkey = (external, normal 4);
        blinding_pubkey = none;
        asset = 20;
      }
      ∷ output 2000
      ∷ [];
  inp_weight = 100;
  last_unused_internal = 1;
  last_unused_external = 5;
}

abbrev mint_data : IssuedInput mint
mint_data = record {
  idx = 0;
  issuance_value_amount = 10;
  issuance_inflation_keys = some 1;
  asset = 20;
  token = 21;
  issuance_blinding_nonce = none;
  issuance_asset_entropy = inl 0;
  asset_metadata = none;
}

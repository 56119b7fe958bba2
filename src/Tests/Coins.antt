-- ===== src/Tests/Coins.antt =====
-- A small chain: scripts are the paths that derive them, and hashes and headers are numbers.
use satsails_lwk.Common.{ℕ, true, false, List, [], ◌∷◌, some, none, nat_eq, pair_eq}
use satsails_lwk.Common.HashMap.{new, insert}
use satsails_lwk.Wollet.{
  Elements, Chain, external, ChildNumber, normal, hardened, chain_eq, child_eq,
}
use satsails_lwk.Wollet.Update.{Update, RawCache}

abbrev pub coins : Elements
coins = record {
  Txid = ℕ;
  Transaction = ℕ × List (ℕ × ℕ) × List (Chain × ChildNumber);
  TxOut = Chain × ChildNumber;
  TxIn = ℕ × ℕ;
  Script = Chain × ChildNumber;
  AssetId = ℕ;
  AssetFactor = ℕ;
  ValueFactor = ℕ;
  BlockHash = ℕ;
  BlockHeader = ℕ;
  txid_eq = nat_eq;
  script_eq = pair_eq;
  asset_eq = nat_eq;
  txid = λ tx. tx.0;
  inputs = λ tx. tx.1;
  outputs = λ tx. tx.2;
  script_pubkey = λ o. o;
  height = λ h. h;
  block_hash = λ h. h;
  previous_txid = λ i. i.0;
  previous_vout = λ i. i.1;
  issuance_is_null = λ i. true;
  nonce_is_zero = λ i. true;
  script_is_empty = λ s. false;
  explicit_value = λ o. none;
  burn_script = (external, hardened 0);
  txid_to_string = λ t. "txid";
  zero_hash = 0;
}

-- A payment of 500 of asset 1 to the wallet's external address 3, at height 100.
abbrev pub payment : Update coins
payment = record {
  new_txs = record {
    txs = (7, (7, [], (external, normal 3) ∷ [])) ∷ [];
    unblinds =
        (
          record { txid = 7; vout = 0 },
          record { asset = 1; asset_bf = 0; value = 500; value_bf = 0 },
        )
        ∷ [];
  };
  txid_height_new = (7, some 100) ∷ [];
  txid_height_delete = [];
  timestamps = (100, 1700) ∷ [];
  scripts = insert new (external, normal 3) (external, normal 3);
  tip = 100;
}

abbrev pub tip_at : ℕ → Update coins
tip_at h = record {
  new_txs = record { txs = []; unblinds = [] };
  txid_height_new = [];
  txid_height_delete = [];
  timestamps = [];
  scripts = new;
  tip = h;
}

abbrev pub paid : RawCache coins
paid = record {
  all_txs = record { entries = (7, (7, [], (external, normal 3) ∷ [])) ∷ [] };
  paths = record { entries = ((external, normal 3), (external, normal 3)) ∷ [] };
  scripts = record { entries = ((external, normal 3), (external, normal 3)) ∷ [] };
  heights = record { entries = (7, some 100) ∷ [] };
  unblinded = record {
    entries =
        (
          record { txid = 7; vout = 0 },
          record { asset = 1; asset_bf = 0; value = 500; value_bf = 0 },
        )
        ∷ [];
  };
  tip = (100, 100);
  timestamps = record { entries = (100, 1700) ∷ [] };
  last_unused_external = 4;
  last_unused_internal = 0;
}

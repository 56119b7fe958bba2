-- ===== src/Tests/Signing.antt =====
-- pset_balance of lwk_common.
use satsails_lwk.Common.{
  ℕ, ◌+◌, ◌-◌, ◌%◌, ◌^◌, false, List, [], ◌∷◌, none, some, ok, ◌≡◌, refl, nat_eq, pair_eq, ◌==◌,
  All, Option,
}
use satsails_lwk.Common.HashMap.{lookup, without}
use satsails_lwk.Wollet.{
  Elements, Chain, external, internal, ChildNumber, normal, hardened, chain_eq, child_eq,
}
use satsails_lwk.Pset.{Psets, Input, Output, slip77, derive_blinding_key, is_mine, derives}
use satsails_lwk.Pset.Balance.{
  PsetBalance, input_secrets, subtract_inputs, fee_amount, output_value, add_outputs, pset_balance,
}
use satsails_lwk.Pset.Account.{balance_of, spent_total, received_total, pset_balance-accounts}
use satsails_lwk.Pset.Secure.{InputSafe, OutputSafe, Explicit, fees, pset_balance-Secure}
use satsails_lwk.Tests.Coins.{coins}

-- The script of a fee is `(external, hardened 1)`.
abbrev paper : Elements
paper = record coins { script_is_empty = λ s. s == (external, hardened 1) }

-- An output is of the asset 1, and its value is the index of its script.
abbrev index_value : Chain × ChildNumber → ℕ
index_value (chain, normal i) = i
index_value (chain, hardened i) = i

abbrev pencil : Psets paper
pencil = record {
  PublicKey = ℕ;
  Fingerprint = ℕ;
  SecretKey = ℕ;
  Generator = ℕ;
  Commitment = ℕ;
  AssetProof = ℕ;
  ValueProof = ℕ;
  RangeProof = ℕ;
  Slip77 = ℕ;
  Xprv = ℕ;
  Single = ℕ;
  Descriptor = ℕ;
  public_key_eq = nat_eq;
  generator_eq = nat_eq;
  commitment_eq = nat_eq;
  key = λ desc. slip77 desc;
  scripts_at =
      λ desc. some ((λ i. some (external, normal i)) ∷ (λ i. some (internal, normal i)) ∷ []);
  blinding_private_key = λ k script. k;
  tweak_private_key = λ script k. k;
  to_priv = λ k. k;
  single_key = λ k. k;
  confidential_asset = λ o. some 1;
  confidential_value = λ o. some (index_value o + 1);
  with_rangeproof = λ o proof. o;
  unblind = λ o k. some (record { asset = 1; asset_bf = 0; value = index_value o; value_bf = 0 });
  new_blinded = λ asset factor. asset + factor;
  new_commitment = λ value factor generator. value + factor + generator;
  blind_asset_proof_verify = λ proof asset generator. asset == generator;
  blind_value_proof_verify = λ proof value generator commitment. value + generator == commitment;
}

abbrev spends : List (Input pencil)
spends =
    record {
      previous_output = record { txid = 7; vout = 0 };
      witness_utxo = some (external, normal 700);
      bip32_derivation = (5, (8, normal 700 ∷ [])) ∷ [];
      partial_sigs = [];
      is_pegin = false;
      has_issuance = false;
      issued_amount_is_confidential = false;
      inflation_keys_is_confidential = false;
      in_utxo_rangeproof = some 0;
    }
    ∷ []

abbrev pays : Chain × ChildNumber → ℕ → Option ℕ → List (ℕ × (ℕ × List ChildNumber)) → Output pencil
pays script n proof derivation = record {
  script_pubkey = script;
  bip32_derivation = derivation;
  asset = some 1;
  asset_comm = proof;
  blind_asset_proof = proof;
  amount = some n;
  amount_comm = elim proof [ none ↦ none | some p ↦ some (n + 1) ];
  blind_value_proof = proof;
  to_txout = script;
}

abbrev paid_to : List (Output pencil)
paid_to =
    pays (external, normal 9) 350 (some 1) []
    ∷ pays (internal, normal 300) 300 (some 1) ((5, (8, normal 300 ∷ [])) ∷ [])
    ∷ pays (external, hardened 1) 50 none []
    ∷ []

abbrev result : PsetBalance pencil
result = record { fee = 50; balances = record { entries = (1, 2 ^ 64 - 400) ∷ [] } }

spends-balance : pset_balance pencil spends paid_to 0 ≡ ok result
unfolding without pset_balance subtract_inputs add_outputs input_secrets fee_amount output_value
    is_mine derives derive_blinding_key lookup
spends-balance = refl

pset_balance-accounts_example :
    (balance_of pencil result.balances 1 + spent_total pencil 0 1 spends) % 2 ^ 64
    ≡ received_total pencil 0 1 paid_to % 2 ^ 64
pset_balance-accounts_example =
    pset_balance-accounts pencil spends paid_to 0 result 1 spends-balance

pset_balance-Secure_example :
    All (InputSafe pencil 0) spends
    × All (OutputSafe pencil 0) paid_to
    × ((o : Output pencil) × (fees pencil paid_to ≡ o ∷ []) × Explicit pencil o 50)
pset_balance-Secure_example = pset_balance-Secure pencil spends paid_to 0 result spends-balance

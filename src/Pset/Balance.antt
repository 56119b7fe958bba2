-- ===== src/Pset/Balance.antt =====
-- lwk_common/src/lib.rs: `pset_balance`. An i64 is the number below 2 ^ 64 of its two's complement.
use satsails_lwk.Common.{
  ℕ, ◌+◌, List, [], ◌∷◌, Option, none, some, Result, ok, err, ◌>>=◌, ◌>>◌, ok_or, reject_if, not,
  ◌&&◌, ◌||◌, if◌then◌else◌, nat_eq,
}
use satsails_lwk.Common.HashMap.{HashMap, get, insert, new}
use satsails_lwk.Wollet.{Elements, TxOutSecrets}
use satsails_lwk.Wollet.Transactions.{sub_i64, add_i64}
use satsails_lwk.Wollet.Utxos.{or_zero}
use satsails_lwk.Pset.{
  Psets, Error, Input, Output, derive_blinding_key, committed, owns, both, is_some,
  missing_previous_output, input_pegin_unsupported, input_blinded_issuance, input_not_blinded,
  input_mine_not_unblindable, input_commitments_mismatch, output_asset_none, output_value_none,
  output_asset_value_none, missing_fee, multiple_fee, blinded_fee, invalid_asset_blind_proof,
  invalid_value_blind_proof, output_not_blinded, output_mine_not_unblindable,
  output_commitments_mismatch, missing_private_blinding_key,
}

module _ {el : Elements} (ps : Psets el) where
  open el use {TxOut, AssetId, asset_eq, script_is_empty, script_pubkey}
  open ps use {
    Generator, Commitment, AssetProof, ValueProof, Descriptor, confidential_asset,
    confidential_value, with_rangeproof, unblind, blind_asset_proof_verify,
    blind_value_proof_verify,
  }

  pub record PsetBalance : Type 0 where
    pub fee : ℕ
    pub balances : HashMap AssetId ℕ

  -- The secrets of an output of the wallet that an input spends.
  unfoldable pub input_secrets :
      Descriptor → ℕ → Input ps → TxOut → Result (Error ps) (TxOutSecrets el)
  input_secrets desc idx input txout =
      reject_if input.is_pegin (input_pegin_unsupported idx)
      >> (reject_if
            (input.has_issuance
              && (input.issued_amount_is_confidential || input.inflation_keys_is_confidential))
            (input_blinded_issuance idx)
          >> (ok_or (both (confidential_asset txout) (confidential_value txout))
                (input_not_blinded idx)
              >>= (λ comms.
                  ok_or (derive_blinding_key ps desc (script_pubkey txout))
                    missing_private_blinding_key
                  >>= (λ k.
                      ok_or (unblind (with_rangeproof txout input.in_utxo_rangeproof) k)
                        (input_mine_not_unblindable idx)
                      >>= (λ s.
                          reject_if (not (committed ps comms.0 comms.1 s))
                            (input_commitments_mismatch idx)
                          >> ok s)))))

  abbrev pub change_entry : (ℕ → ℕ → ℕ) → HashMap AssetId ℕ → AssetId → ℕ → HashMap AssetId ℕ
  change_entry op m a n = insert ⦃eq = asset_eq⦄ m a (op (or_zero (get ⦃eq = asset_eq⦄ m a)) n)

  abbrev pub spent_txout : ℕ → Input ps → Result (Error ps) TxOut
  spent_txout idx input =
      ok_or input.witness_utxo (missing_previous_output idx input.previous_output)

  unfoldable pub subtract_inputs :
      Descriptor → ℕ → List (Input ps) → HashMap AssetId ℕ → Result (Error ps) (HashMap AssetId ℕ)
  subtract_inputs desc idx [] balances = ok balances
  subtract_inputs desc idx (input ∷ rest) balances = spent_txout idx input >>= (λ txout.
      if owns ps desc (script_pubkey txout) input.bip32_derivation
      then (input_secrets desc idx input txout >>= (λ s.
          subtract_inputs desc (idx + 1) rest (change_entry sub_i64 balances s.asset s.value)))
      else subtract_inputs desc (idx + 1) rest balances)

  -- The output without a script, which pays the fee.
  unfoldable pub fee_amount : Option ℕ → Output ps → Result (Error ps) ℕ
  fee_amount fee o =
      reject_if (is_some fee) multiple_fee
      >> (reject_if
            (not (is_some o.asset)
              || (is_some o.asset_comm || (not (is_some o.amount) || is_some o.amount_comm)))
            blinded_fee
          >> ok_or o.amount blinded_fee)

  -- The last two cases of the match on an output's fields.
  abbrev pub blinded_fields :
      ℕ → Output ps → Result (Error ps) ((Generator × AssetProof) × (Commitment × ValueProof))
  blinded_fields idx o =
      ok_or (both (both o.asset_comm o.blind_asset_proof) (both o.amount_comm o.blind_value_proof))
        (output_not_blinded idx)

  abbrev pub explicit_fields : ℕ → Option AssetId → Option ℕ → Result (Error ps) (AssetId × ℕ)
  explicit_fields idx none none = err (output_asset_value_none idx)
  explicit_fields idx none (some amount) = err (output_value_none idx)
  explicit_fields idx (some asset) none = err (output_asset_none idx)
  explicit_fields idx (some asset) (some amount) = ok (asset, amount)

  -- The asset and the amount of an output of the wallet.
  unfoldable pub output_value : Descriptor → ℕ → Output ps → Result (Error ps) (AssetId × ℕ)
  output_value desc idx o = explicit_fields idx o.asset o.amount >>= (λ e.
      blinded_fields idx o >>= (λ f.
        reject_if (not (blind_asset_proof_verify f.0.1 e.0 f.0.0)) (invalid_asset_blind_proof idx)
        >> (reject_if (not (blind_value_proof_verify f.1.1 e.1 f.0.0 f.1.0))
              (invalid_value_blind_proof idx)
            >> (ok_or (derive_blinding_key ps desc o.script_pubkey) missing_private_blinding_key
                >>= (λ k. ok_or (unblind o.to_txout k) (output_mine_not_unblindable idx) >>= (λ s.
                    reject_if (not (committed ps f.0.0 f.1.0 s)) (output_commitments_mismatch idx)
                    >> ok e))))))

  unfoldable pub add_outputs :
      Descriptor
      → ℕ
      → List (Output ps)
      → Option ℕ
      → HashMap AssetId ℕ
      → Result (Error ps) (Option ℕ × HashMap AssetId ℕ)
  add_outputs desc idx [] fee balances = ok (fee, balances)
  add_outputs desc idx (o ∷ rest) fee balances =
      if script_is_empty o.script_pubkey
      then (fee_amount fee o >>= (λ n. add_outputs desc (idx + 1) rest (some n) balances))
      else (if owns ps desc o.script_pubkey o.bip32_derivation
          then (output_value desc idx o >>= (λ e.
              add_outputs desc (idx + 1) rest fee (change_entry add_i64 balances e.0 e.1)))
          else add_outputs desc (idx + 1) rest fee balances)

  unfoldable pub pset_balance :
      List (Input ps) → List (Output ps) → Descriptor → Result (Error ps) PsetBalance
  pset_balance inputs outputs desc = subtract_inputs desc 0 inputs new >>= (λ spent.
      add_outputs desc 0 outputs none spent
      >>= (λ r. ok_or r.0 missing_fee >>= (λ fee. ok (record { fee = fee; balances = r.1 }))))

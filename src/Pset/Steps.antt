-- ===== src/Pset/Steps.antt =====
-- The turns of the loops of `pset_balance` in lwk_common/src/lib.rs that go through.
use satsails_lwk.Common.{
  ℕ, ◌+◌, true, false, List, ◌∷◌, Option, some, ok, >>=-eq-ok, ok_or-eq-ok, Bool-cases, inl, inr,
  ◌⊎◌, ◌≡◌,
}
use satsails_lwk.Common.HashMap.{HashMap}
use satsails_lwk.Wollet.{Elements, TxOutSecrets}
use satsails_lwk.Wollet.Transactions.{sub_i64, add_i64}
use satsails_lwk.Pset.{Psets, Input, Output, owns}
use satsails_lwk.Pset.Balance.{
  input_secrets, spent_txout, subtract_inputs, fee_amount, output_value, change_entry, add_outputs,
}

module _ {el : Elements} (ps : Psets el) where
  open el use {TxOut, AssetId, script_is_empty, script_pubkey}
  open ps use {Descriptor}

  -- An output that is not the wallet's is passed over, and the value of one that is gets subtracted.
  abbrev pub InputStep :
      Descriptor → ℕ → Input ps → List (Input ps) → HashMap AssetId ℕ → HashMap AssetId ℕ → Type 0
  InputStep desc idx i rest m m' =
      (t : TxOut) × (i.witness_utxo ≡ some t)
      × (((owns ps desc (script_pubkey t) i.bip32_derivation ≡ false)
            × (subtract_inputs ps desc (idx + 1) rest m ≡ ok m'))
          ⊎ ((owns ps desc (script_pubkey t) i.bip32_derivation ≡ true)
              × (s : TxOutSecrets el) × (input_secrets ps desc idx i t ≡ ok s)
              × (subtract_inputs ps desc (idx + 1) rest (change_entry ps sub_i64 m s.asset s.value)
                  ≡ ok m')))

  pub subtract_inputs-InputStep :
      (desc : Descriptor) (idx : ℕ) (i : Input ps) (rest : List (Input ps))
      (m m' : HashMap AssetId ℕ)
      → subtract_inputs ps desc idx (i ∷ rest) m ≡ ok m'
      → InputStep desc idx i rest m m'
  unfolding subtract_inputs
  subtract_inputs-InputStep desc idx i rest m m' h =
      let (t, ht, h1) = >>=-eq-ok (spent_txout ps idx i) _ m' h in
      (
        t,
        ok_or-eq-ok _ _ t ht,
        elim (Bool-cases (owns ps desc (script_pubkey t) i.bip32_derivation)) [
          | inl e ↦
              let (s, hs, h2) =
                >>=-eq-ok (input_secrets ps desc idx i t)
                  (λ s.
                    subtract_inputs ps desc (idx + 1) rest
                      (change_entry ps sub_i64 m s.asset s.value))
                  m' (rw e at h1) in
              inr (e, s, hs, h2)
          | inr e ↦ inl (e, rw e at h1)
        ],
      )

  -- The fee is noted, an output that is not the wallet's is passed over, and the amount of one that is gets
  -- added.
  abbrev pub OutputStep :
      Descriptor
      → ℕ
      → Output ps
      → List (Output ps)
      → Option ℕ
      → HashMap AssetId ℕ
      → Option ℕ × HashMap AssetId ℕ
      → Type 0
  OutputStep desc idx o rest fee m r =
      ((script_is_empty o.script_pubkey ≡ true)
        × (n : ℕ) × (fee_amount ps fee o ≡ ok n)
        × (add_outputs ps desc (idx + 1) rest (some n) m ≡ ok r))
      ⊎ ((script_is_empty o.script_pubkey ≡ false)
          × (((owns ps desc o.script_pubkey o.bip32_derivation ≡ false)
                × (add_outputs ps desc (idx + 1) rest fee m ≡ ok r))
              ⊎ ((owns ps desc o.script_pubkey o.bip32_derivation ≡ true)
                  × (e : AssetId × ℕ) × (output_value ps desc idx o ≡ ok e)
                  × (add_outputs ps desc (idx + 1) rest fee (change_entry ps add_i64 m e.0 e.1)
                      ≡ ok r))))

  pub add_outputs-OutputStep :
      (desc : Descriptor) (idx : ℕ) (o : Output ps) (rest : List (Output ps)) (fee : Option ℕ)
      (m : HashMap AssetId ℕ) (r : Option ℕ × HashMap AssetId ℕ)
      → add_outputs ps desc idx (o ∷ rest) fee m ≡ ok r
      → OutputStep desc idx o rest fee m r
  unfolding add_outputs
  add_outputs-OutputStep desc idx o rest fee m r h =
      elim (Bool-cases (script_is_empty o.script_pubkey)) [
        | inl empty ↦
            let (n, hn, h1) =
              >>=-eq-ok (fee_amount ps fee o) (λ n. add_outputs ps desc (idx + 1) rest (some n) m) r
                (rw empty at h) in
            inl (empty, n, hn, h1)
        | inr full ↦ inr (
          full,
          elim (Bool-cases (owns ps desc o.script_pubkey o.bip32_derivation)) [
            | inl e ↦
                let (v, hv, h1) =
                  >>=-eq-ok (output_value ps desc idx o)
                    (λ e.
                      add_outputs ps desc (idx + 1) rest fee (change_entry ps add_i64 m e.0 e.1))
                    r (rw (full, e) at h) in
                inr (e, v, hv, h1)
            | inr e ↦ inl (e, rw (full, e) at h)
          ],
        )
      ]

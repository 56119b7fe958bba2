-- ===== src/Pset/Secure.antt =====
-- That `pset_balance` of lwk_common/src/lib.rs answers only where its checks pass.
use satsails_lwk.Common.{
  ℕ, ◌+◌, Bool, true, false, List, [], ◌∷◌, Option, none, some, ok, >>=-eq-ok, ok_injective,
  ok_or-eq-ok, reject_if-eq-ok, ok_or, not, ◌||◌, keep, inl, inr, ◌⊎◌, ◌≡◌, refl, sym, ap, ◌∙◌,
  subst, All,
}
use satsails_lwk.Common.HashMap.{HashMap, new}
use satsails_lwk.Wollet.{Elements, TxOutSecrets}
use satsails_lwk.Wollet.Transactions.{sub_i64, add_i64}
use satsails_lwk.Pset.{Psets, Input, Output, owns, is_some, missing_fee, multiple_fee, blinded_fee}
use satsails_lwk.Pset.Balance.{
  PsetBalance, subtract_inputs, fee_amount, change_entry, add_outputs, pset_balance,
}
use satsails_lwk.Pset.Checks.{
  InputChecked, OutputChecked, input_secrets-Checked, output_value-Checked,
}
use satsails_lwk.Pset.Steps.{subtract_inputs-InputStep, add_outputs-OutputStep}

module _ {el : Elements} (ps : Psets el) where
  open el use {TxOut, AssetId, script_is_empty, script_pubkey}
  open ps use {Descriptor}

  -- The output that an input spends is known, and is another's or checked.
  abbrev pub InputSafe : Descriptor → Input ps → Type 0
  InputSafe desc i =
      (t : TxOut) × (i.witness_utxo ≡ some t)
      × ((owns ps desc (script_pubkey t) i.bip32_derivation ≡ false)
          ⊎ ((s : TxOutSecrets el) × InputChecked ps desc i t s))

  -- An output pays the fee, is another's, or is checked.
  abbrev pub OutputSafe : Descriptor → Output ps → Type 0
  OutputSafe desc o =
      (script_is_empty o.script_pubkey ≡ true)
      ⊎ ((owns ps desc o.script_pubkey o.bip32_derivation ≡ false)
          ⊎ ((e : AssetId × ℕ) × OutputChecked ps desc o e))

  abbrev pub fees : List (Output ps) → List (Output ps)
  fees os = keep (λ (o : Output ps). script_is_empty o.script_pubkey) os

  -- A fee that is not blinded.
  pub record Explicit (o : Output ps) (fee : ℕ) : Type 0 where
    pub asset : is_some o.asset ≡ true
    pub asset_comm : is_some o.asset_comm ≡ false
    pub amount : o.amount ≡ some fee
    pub amount_comm : is_some o.amount_comm ≡ false

  subtract_inputs-Safe :
      (desc : Descriptor) (idx : ℕ) (is : List (Input ps)) (m m' : HashMap AssetId ℕ)
      → subtract_inputs ps desc idx is m ≡ ok m'
      → All (InputSafe desc) is
  subtract_inputs-Safe desc idx [] m m' h = tt
  subtract_inputs-Safe desc idx (i ∷ is) m m' h =
      let (t, known, step) = subtract_inputs-InputStep ps desc idx i is m m' h in
      elim step [
        | inl (other, h1) ↦ ((t, known, inl other), subtract_inputs-Safe desc (idx + 1) is m m' h1)
        | inr (ours, s, hs, h1) ↦ (
          (t, known, inr (s, input_secrets-Checked ps desc idx i t s hs)),
          subtract_inputs-Safe desc (idx + 1) is (change_entry ps sub_i64 m s.asset s.value) m' h1,
        )
      ]

  -- After a fee there is no other, and before one there is none or one.
  abbrev FeeAfter : Option ℕ → List (Output ps) → Option ℕ → Type 0
  FeeAfter (some n) os left = (fees os ≡ []) × (left ≡ some n)
  FeeAfter none os left =
      ((fees os ≡ []) × (left ≡ none))
      ⊎ ((o : Output ps) × (n : ℕ) × (fees os ≡ o ∷ []) × Explicit o n × (left ≡ some n))

  fee_later :
      (fee : Option ℕ) (o : Output ps) (os : List (Output ps)) (left : Option ℕ)
      → script_is_empty o.script_pubkey ≡ false
      → FeeAfter fee os left
      → FeeAfter fee (o ∷ os) left
  fee_later (some n) o os left full (no_more, is) = (rw full no_more, is)
  fee_later none o os left full (inl (no_more, is)) = inl (rw full no_more, is)
  fee_later none o os left full (inr (f, n, one, explicit, is)) =
      inr (f, n, rw full one, explicit, is)

  all_false :
      (a b c d : Bool)
      → (not a || (b || (not c || d))) ≡ false
      → (a ≡ true) × (b ≡ false) × (d ≡ false)
  all_false true false true false h = (refl, refl, refl)
  all_false true false true true h = cc
  all_false true false false d h = cc
  all_false true true c d h = cc
  all_false false b c d h = cc

  fee_amount-Explicit :
      (fee : Option ℕ) (o : Output ps) (n : ℕ)
      → fee_amount ps fee o ≡ ok n
      → (fee ≡ none) × Explicit o n
  unfolding fee_amount
  fee_amount-Explicit (some m) o n h = cc
  fee_amount-Explicit none o n h =
      let (one, h1) = reject_if-eq-ok (is_some {A = ℕ} none) multiple_fee _ n h in
      let (fields, h2) = reject_if-eq-ok _ blinded_fee _ n h1 in
      let (a, b, d) =
        all_false (is_some o.asset) (is_some o.asset_comm) (is_some o.amount)
          (is_some o.amount_comm) fields in
      (
        refl,
        record {
          asset = a;
          asset_comm = b;
          amount = ok_or-eq-ok o.amount blinded_fee n h2;
          amount_comm = d;
        },
      )

  add_outputs-Safe :
      (desc : Descriptor) (idx : ℕ) (os : List (Output ps)) (fee : Option ℕ) (m : HashMap AssetId ℕ)
      (r : Option ℕ × HashMap AssetId ℕ)
      → add_outputs ps desc idx os fee m ≡ ok r
      → All (OutputSafe desc) os × FeeAfter fee os r.0
  unfolding add_outputs
  add_outputs-Safe desc idx [] (some n) m r h =
      (tt, (refl, ap (λ (x : Option ℕ × HashMap AssetId ℕ). x.0) (sym (ok_injective h))))
  add_outputs-Safe desc idx [] none m r h =
      (tt, inl (refl, ap (λ (x : Option ℕ × HashMap AssetId ℕ). x.0) (sym (ok_injective h))))
  add_outputs-Safe desc idx (o ∷ os) fee m r h =
      elim (add_outputs-OutputStep ps desc idx o os fee m r h) [
        | inl (empty, n, hn, h1) ↦
            let (before, explicit) = fee_amount-Explicit fee o n hn in
            let (safe, (no_more, is)) = add_outputs-Safe desc (idx + 1) os (some n) m r h1 in
            (
              (inl empty, safe),
              subst (λ x. FeeAfter x (o ∷ os) r.0) (sym before)
                  (inr (o, n, rw empty (ap (λ x. o ∷ x) no_more), explicit, is)),
            )
        | inr (full, inl (other, h1)) ↦
            let (safe, after) = add_outputs-Safe desc (idx + 1) os fee m r h1 in
            ((inr (inl other), safe), fee_later fee o os r.0 full after)
        | inr (full, inr (ours, e, he, h1)) ↦
            let (safe, after) =
              add_outputs-Safe desc (idx + 1) os fee (change_entry ps add_i64 m e.0 e.1) r h1 in
            (
              (inr (inr (e, output_value-Checked ps desc idx o e he)), safe),
              fee_later fee o os r.0 full after,
            )
      ]

  the_fee :
      (os : List (Output ps)) (left : Option ℕ) (fee : ℕ)
      → FeeAfter none os left
      → left ≡ some fee
      → (o : Output ps) × (fees os ≡ o ∷ []) × Explicit o fee
  the_fee os left fee (inl (_, nothing)) h = cc
  the_fee os left fee (inr (o, n, one, explicit, is)) h =
      let same : n ≡ fee = cc in (o, one, subst (Explicit o) same explicit)

  -- Where there is a balance, every spent output is known, each input and output is another's, or has
  -- passed all checks, but for one output, the only one without a script, which shows the fee in the clear.
  pub pset_balance-Secure :
      (is : List (Input ps)) (os : List (Output ps)) (desc : Descriptor) (r : PsetBalance ps)
      → pset_balance ps is os desc ≡ ok r
      → All (InputSafe desc) is
        × All (OutputSafe desc) os
        × ((o : Output ps) × (fees os ≡ o ∷ []) × Explicit o r.fee)
  unfolding pset_balance
  pset_balance-Secure is os desc r h =
      let (m, hm, h1) = >>=-eq-ok (subtract_inputs ps desc 0 is new) _ r h in
      let (s, hs, h2) = >>=-eq-ok (add_outputs ps desc 0 os none m) _ r h1 in
      let (fee, hf, h3) = >>=-eq-ok (ok_or s.0 missing_fee) _ r h2 in
      let same : fee ≡ r.fee = ap (λ (x : PsetBalance ps). x.fee) (ok_injective h3) in
      let (safe, after) = add_outputs-Safe desc 0 os none m s hs in
      (
        subtract_inputs-Safe desc 0 is new m hm,
        safe,
        the_fee os s.0 r.fee after (ok_or-eq-ok s.0 missing_fee fee hf ∙ ap some same),
      )

-- ===== src/Pset/Account.antt =====
-- The balances of `pset_balance` in lwk_common/src/lib.rs.
use satsails_lwk.Common.{
  ℕ, ◌+◌, ◌%◌, ◌^◌, ◌<◌, List, [], ◌∷◌, Option, none, some, ok, >>=-eq-ok, ok_injective, ok_or,
  if◌then◌else◌, and_then, inl, inr, ◌==◌, ==-cases, ◌≡◌, refl, sym, ap, ◌∙◌, arith,
}
use satsails_lwk.Common.HashMap.{HashMap, get, new, lookup, get-insert}
use satsails_lwk.Wollet.{Elements}
use satsails_lwk.Wollet.Utxos.{or_zero}
use satsails_lwk.Wollet.Transactions.{sub_i64, add_i64}
use satsails_lwk.Pset.{Psets, Input, Output, derive_blinding_key, owns, both, missing_fee}
use satsails_lwk.Pset.Balance.{
  PsetBalance, subtract_inputs, change_entry, add_outputs, pset_balance,
}
use satsails_lwk.Pset.Checks.{input_secrets-Checked, output_value-Checked}
use satsails_lwk.Pset.Steps.{subtract_inputs-InputStep, add_outputs-OutputStep}

module _ {el : Elements} (ps : Psets el) where
  open el use {TxOut, AssetId, asset_eq, script_is_empty, script_pubkey}
  open ps use {SecretKey, Descriptor, with_rangeproof, unblind}

  abbrev pub balance_of : HashMap AssetId ℕ → AssetId → ℕ
  balance_of m a = or_zero (get ⦃eq = asset_eq⦄ m a)

  abbrev pub value_in : AssetId → Option (AssetId × ℕ) → ℕ
  value_in a none = 0
  value_in a (some (b, n)) = if ◌==◌ ⦃eq = asset_eq⦄ b a then n else 0

  -- The asset and the value that the descriptor's key finds in an output that an input spends.
  abbrev pub unblinded_value : Descriptor → Input ps → TxOut → Option (AssetId × ℕ)
  unblinded_value desc i t = and_then (derive_blinding_key ps desc (script_pubkey t)) (λ k.
      and_then (unblind (with_rangeproof t i.in_utxo_rangeproof) k) (λ s. some (s.asset, s.value)))

  abbrev pub spent_value : Descriptor → Input ps → Option (AssetId × ℕ)
  spent_value desc i = and_then i.witness_utxo (λ t.
      if owns ps desc (script_pubkey t) i.bip32_derivation then unblinded_value desc i t else none)

  -- The asset and the amount that an output declares, where it is the wallet's and no fee.
  abbrev pub received_value : Descriptor → Output ps → Option (AssetId × ℕ)
  received_value desc o =
      if script_is_empty o.script_pubkey
      then none
      else (if owns ps desc o.script_pubkey o.bip32_derivation then both o.asset o.amount else none)

  unfoldable pub spent_total : Descriptor → AssetId → List (Input ps) → ℕ
  spent_total desc a [] = 0
  spent_total desc a (i ∷ is) = value_in a (spent_value desc i) + spent_total desc a is

  unfoldable pub received_total : Descriptor → AssetId → List (Output ps) → ℕ
  received_total desc a [] = 0
  received_total desc a (o ∷ os) = value_in a (received_value desc o) + received_total desc a os

  balance_of-change_entry :
      (op : ℕ → ℕ → ℕ) (m : HashMap AssetId ℕ) (b : AssetId) (n : ℕ) (a : AssetId)
      → ((k : ℕ) → k < 2 ^ 64 → op k 0 ≡ k)
      → balance_of m a < 2 ^ 64
      → balance_of (change_entry ps op m b n) a ≡ op (balance_of m a) (value_in a (some (b, n)))
  balance_of-change_entry op m b n a unit small =
      ap or_zero (get-insert ⦃eq = asset_eq⦄ m b a (op (balance_of m b) n))
      ∙ elim (==-cases ⦃eq = asset_eq⦄ b a) [
        | inl (same, e) ↦ rw e (ap (λ x. op (balance_of m x) n) same)
        | inr (ne, e) ↦ rw e (sym (unit (balance_of m a) small))
      ]

  subtract_inputs-total :
      (desc : Descriptor) (idx : ℕ) (is : List (Input ps)) (m m' : HashMap AssetId ℕ) (a : AssetId)
      → balance_of m a < 2 ^ 64
      → subtract_inputs ps desc idx is m ≡ ok m'
      → (balance_of m' a < 2 ^ 64)
        × ((balance_of m' a + spent_total desc a is) % 2 ^ 64 ≡ balance_of m a)
  unfolding subtract_inputs spent_total
  subtract_inputs-total desc idx [] m m' a small h =
      let e : balance_of m a ≡ balance_of m' a =
        ap (λ (x : HashMap AssetId ℕ). balance_of x a) (ok_injective h) in
      (omega arith, omega arith)
  subtract_inputs-total desc idx (i ∷ is) m m' a small h =
      let (t, known, step) = subtract_inputs-InputStep ps desc idx i is m m' h in
      elim step [
        | inl (other, h1) ↦
            let ih = subtract_inputs-total desc (idx + 1) is m m' a small h1 in
            let nothing : value_in a (spent_value desc i) ≡ 0 = rw (known, other) refl in
            (ih.0, omega arith)
        | inr (ours, s, hs, h1) ↦
            let checked = input_secrets-Checked ps desc idx i t s hs in
            let m1 : HashMap AssetId ℕ = change_entry ps sub_i64 m s.asset s.value in
            let now : balance_of m1 a
                ≡ sub_i64 (balance_of m a) (value_in a (some (s.asset, s.value))) =
              balance_of-change_entry sub_i64 m s.asset s.value a (λ k small. omega arith) small in
            let ih = subtract_inputs-total desc (idx + 1) is m1 m' a (omega arith) h1 in
            let found : value_in a (spent_value desc i) ≡ value_in a (some (s.asset, s.value)) =
              rw (known, ours, checked.has_key, checked.unblinds) refl in
            (ih.0, omega arith)
      ]

  add_outputs-total :
      (desc : Descriptor) (idx : ℕ) (os : List (Output ps)) (fee : Option ℕ) (m : HashMap AssetId ℕ)
      (r : Option ℕ × HashMap AssetId ℕ) (a : AssetId)
      → balance_of m a < 2 ^ 64
      → add_outputs ps desc idx os fee m ≡ ok r
      → balance_of r.1 a ≡ (balance_of m a + received_total desc a os) % 2 ^ 64
  unfolding add_outputs received_total
  add_outputs-total desc idx [] fee m r a small h =
      let e : balance_of m a ≡ balance_of r.1 a =
        ap (λ (x : Option ℕ × HashMap AssetId ℕ). balance_of x.1 a) (ok_injective h) in
      omega arith
  add_outputs-total desc idx (o ∷ os) fee m r a small h =
      elim (add_outputs-OutputStep ps desc idx o os fee m r h) [
        | inl (empty, n, _, h1) ↦
            let ih = add_outputs-total desc (idx + 1) os (some n) m r a small h1 in
            let nothing : value_in a (received_value desc o) ≡ 0 = rw empty refl in omega arith
        | inr (full, inl (other, h1)) ↦
            let ih = add_outputs-total desc (idx + 1) os fee m r a small h1 in
            let nothing : value_in a (received_value desc o) ≡ 0 = rw (full, other) refl in
            omega arith
        | inr (full, inr (ours, e, he, h1)) ↦
            let checked = output_value-Checked ps desc idx o e he in
            let m1 : HashMap AssetId ℕ = change_entry ps add_i64 m e.0 e.1 in
            let now : balance_of m1 a ≡ add_i64 (balance_of m a) (value_in a (some e)) =
              balance_of-change_entry add_i64 m e.0 e.1 a (λ k small. omega arith) small in
            let ih = add_outputs-total desc (idx + 1) os fee m1 r a (omega arith) h1 in
            let found : value_in a (received_value desc o) ≡ value_in a (some e) =
              rw (full, ours, checked.asset, checked.amount) refl in
            omega arith
      ]

  -- Of each asset, the balance of a PSET and what the wallet's key finds in the spent outputs that the wallet
  -- owns make up what the outputs that it owns declare, the fee's left out, on the wrapping numbers of 64 bits.
  pub pset_balance-accounts :
      (is : List (Input ps)) (os : List (Output ps)) (desc : Descriptor) (r : PsetBalance ps)
      (a : AssetId)
      → pset_balance ps is os desc ≡ ok r
      → (balance_of r.balances a + spent_total desc a is) % 2 ^ 64
        ≡ received_total desc a os % 2 ^ 64
  unfolding pset_balance lookup
  pset_balance-accounts is os desc r a h =
      let (m, hm, h1) = >>=-eq-ok (subtract_inputs ps desc 0 is new) _ r h in
      let (s, hs, h2) = >>=-eq-ok (add_outputs ps desc 0 os none m) _ r h1 in
      let (fee, _, h3) = >>=-eq-ok (ok_or s.0 missing_fee) _ r h2 in
      let same : balance_of s.1 a ≡ balance_of r.balances a =
        ap (λ (x : PsetBalance ps). balance_of x.balances a) (ok_injective h3) in
      let (small, spent) = subtract_inputs-total desc 0 is new m a (omega arith) hm in
      let got = add_outputs-total desc 0 os none m s a small hs in omega arith

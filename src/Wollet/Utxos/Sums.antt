-- ===== src/Wollet/Utxos/Sums.antt =====
-- What `balance_from_utxos` of lwk_wollet/src/wollet.rs adds up.
use satsails_lwk.Common.{
  ℕ, ◌+◌, ◌%◌, ◌^◌, ◌<◌, List, [], ◌∷◌, ok, >>=-eq-ok, if◌then◌else◌, ◌==◌, ◌≡◌, refl, sym, ap, ◌∙◌,
  arith, Bool-cases, inl, inr, ==-cases, nat_eq,
}
use satsails_lwk.Common.HashMap.{HashMap, get, insert, new, lookup, get-insert}
use satsails_lwk.Wollet.{Elements}
use satsails_lwk.Wollet.Update.{RawCache}
use satsails_lwk.Wollet.Utxos.{
  WalletTxOut, or_zero, add_value, add_utxos, balance_from_utxos, balance, utxos,
}

module _ (el : Elements) where
  open el use {AssetId, asset_eq}

  -- The sum of the values of one asset.
  unfoldable pub total : AssetId → List (WalletTxOut el) → ℕ
  total a [] = 0
  total a (u ∷ us) =
      let rest = total a us in
      if ◌==◌ ⦃eq = asset_eq⦄ u.unblinded.asset a then u.unblinded.value + rest else rest

  abbrev pub amount : HashMap AssetId ℕ → AssetId → ℕ
  amount r a = or_zero (get ⦃eq = asset_eq⦄ r a)

  amount-add_value :
      (r : HashMap AssetId ℕ) (b a : AssetId) (v : ℕ)
      → amount (add_value el r b v) a
        ≡ (if ◌==◌ ⦃eq = asset_eq⦄ b a then (amount r a + v) % 2 ^ 64 else amount r a)
  amount-add_value r b a v =
      let at : ℕ = (amount r b + v) % 2 ^ 64 in
      ap or_zero (get-insert ⦃eq = asset_eq⦄ r b a at) ∙ elim (==-cases ⦃eq = asset_eq⦄ b a) [
        | inl (same, e) ↦ rw e (ap (λ x. (amount r x + v) % 2 ^ 64) same)
        | inr (ne, e) ↦ rw e refl
      ]

  amount-add_utxos :
      (us : List (WalletTxOut el)) (r : HashMap AssetId ℕ) (a : AssetId)
      → amount r a < 2 ^ 64
      → amount (add_utxos el r us) a ≡ (amount r a + total a us) % 2 ^ 64
  unfolding add_utxos total
  amount-add_utxos [] r a h = omega arith
  amount-add_utxos (u ∷ us) r a h =
      let r' : HashMap AssetId ℕ = add_value el r u.unblinded.asset u.unblinded.value in
      let step : amount r' a ≡ (
          if ◌==◌ ⦃eq = asset_eq⦄ u.unblinded.asset a
          then (amount r a + u.unblinded.value) % 2 ^ 64
          else amount r a) =
        amount-add_value r u.unblinded.asset a u.unblinded.value in
      elim (Bool-cases (◌==◌ ⦃eq = asset_eq⦄ u.unblinded.asset a)) [
        | inl e ↦
            let now : amount r' a ≡ (amount r a + u.unblinded.value) % 2 ^ 64 = step ∙ rw e refl in
            let ih : amount (add_utxos el r' us) a ≡ (amount r' a + total a us) % 2 ^ 64 =
              amount-add_utxos us r' a (omega arith) in
            rw e (ih ∙ omega arith)
        | inr e ↦
            let now : amount r' a ≡ amount r a = step ∙ rw e refl in
            let ih : amount (add_utxos el r' us) a ≡ (amount r' a + total a us) % 2 ^ 64 =
              amount-add_utxos us r' a (omega arith) in
            rw e (ih ∙ omega arith)
      ]

  amount-empty : (p a : AssetId) → amount (insert ⦃eq = asset_eq⦄ new p 0) a ≡ 0
  unfolding lookup
  amount-empty p a =
      ap or_zero (get-insert ⦃eq = asset_eq⦄ new p a 0)
      ∙ elim (==-cases ⦃eq = asset_eq⦄ p a) [ inl (_, e) ↦ rw e refl | inr (_, e) ↦ rw e refl ]

  -- The balance of an asset is the sum of the values of its utxos, up to the wrap of a u64.
  pub amount-balance :
      (policy_asset a : AssetId) (c : RawCache el) (us : List (WalletTxOut el))
      (r : HashMap AssetId ℕ)
      → utxos el c ≡ ok us
      → balance el policy_asset c ≡ ok r
      → amount r a ≡ total a us % 2 ^ 64
  unfolding balance balance_from_utxos
  amount-balance policy_asset a c us r hu hr =
      let (vs, hv, e) = >>=-eq-ok (utxos el c) _ r hr in
      let same : vs ≡ us = cc in
      let made : balance_from_utxos el policy_asset us ≡ r = cc in
      let start : HashMap AssetId ℕ = insert ⦃eq = asset_eq⦄ new policy_asset 0 in
      let zero_start : amount start a ≡ 0 = amount-empty policy_asset a in
      let all : amount (add_utxos el start us) a ≡ (amount start a + total a us) % 2 ^ 64 =
        amount-add_utxos us start a (omega arith) in
      ap (λ r. amount r a) (sym made)
      ∙ all
      ∙ (let e : amount start a + total a us ≡ total a us = omega arith in ap (λ n. n % 2 ^ 64) e)

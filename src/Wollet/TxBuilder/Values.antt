-- ===== src/Wollet/TxBuilder/Values.antt =====
-- What each step of lwk_wollet/src/tx_builder.rs does to the values of the inputs and outputs.
use satsails_lwk.Common.{
  ℕ, ◌+◌, ◌%◌, ◌^◌, Bool, true, false, List, [], ◌∷◌, ◌++◌, ok, >>=-eq-ok, ◌==◌, ◌≡◌, refl, sym, ap,
  ◌∙◌, subst, arith, All,
}
use satsails_lwk.Wollet.{Elements}
use satsails_lwk.Wollet.Update.{RawCache}
use satsails_lwk.Wollet.Utxos.{WalletTxOut, index}
use satsails_lwk.Wollet.TxBuilder.{
  Descriptor, sub_u64, Recipient, Draft, add_output, add_input, check_txout, recipient_at,
  add_change, add_recipients,
}

-- What counts of a value for an asset: all of it or nothing.
abbrev pub share : Bool → ℕ → ℕ
share true n = n
share false n = 0

pub share_add :
    (b : Bool) (n m : ℕ) → share b ((n + m) % 2 ^ 64) % 2 ^ 64 ≡ (share b n + share b m) % 2 ^ 64
share_add true n m = omega arith
share_add false n m = omega arith

pub share_sub :
    (b : Bool) (n m : ℕ) → (share b (sub_u64 n m) + share b m) % 2 ^ 64 ≡ share b n % 2 ^ 64
share_sub true n m = omega arith
share_sub false n m = omega arith

module _ {el : Elements} (desc : Descriptor el) where
  open el use {AssetId, asset_eq}

  abbrev pub is_asset : AssetId → AssetId → Bool
  is_asset a b = ◌==◌ ⦃eq = asset_eq⦄ a b

  unfoldable pub input_total : AssetId → List (WalletTxOut el) → ℕ
  input_total b [] = 0
  input_total b (u ∷ us) = share (is_asset u.unblinded.asset b) u.unblinded.value + input_total b us

  unfoldable pub output_total : AssetId → List (Recipient desc) → ℕ
  output_total b [] = 0
  output_total b (r ∷ rs) = share (is_asset r.asset b) r.satoshi + output_total b rs

  abbrev pub paid_in : Draft desc → AssetId → ℕ
  paid_in d b = input_total b d.inputs

  abbrev pub paid_out : Draft desc → AssetId → ℕ
  paid_out d b = output_total b d.outputs

  input_total_last :
      (b : AssetId) (us : List (WalletTxOut el)) (u : WalletTxOut el)
      → input_total b (us ++ (u ∷ []))
        ≡ input_total b us + share (is_asset u.unblinded.asset b) u.unblinded.value
  unfolding input_total
  input_total_last b [] u = omega arith
  input_total_last b (v ∷ us) u = omega (arith, input_total_last b us u)

  pub add_input-totals :
      (c : RawCache el) (d : Draft desc) (u : WalletTxOut el) (d' : Draft desc) (b : AssetId)
      → add_input desc c d u ≡ ok d'
      → (paid_in d' b ≡ paid_in d b + share (is_asset u.unblinded.asset b) u.unblinded.value)
        × (d'.outputs ≡ d.outputs)
  unfolding add_input
  add_input-totals c d u d' b h =
      let (_, _, h1) = >>=-eq-ok (check_txout desc c u.outpoint) _ d' h in
      let (path, _, h2) = >>=-eq-ok (index el c u.script_pubkey) _ d' h1 in
      let (weight, _, h3) = >>=-eq-ok (desc.max_weight_to_satisfy path.0 path.1) _ d' h2 in
      let e : ◌≡◌ {A = Draft desc}
          (record d { inputs = d.inputs ++ (u ∷ []); inp_weight = d.inp_weight + weight }) d' =
        cc in
      (
        subst
            (λ (x : Draft desc).
              paid_in x b ≡ paid_in d b + share (is_asset u.unblinded.asset b) u.unblinded.value)
            e (input_total_last b d.inputs u),
        subst (λ (x : Draft desc). x.outputs ≡ d.outputs) e refl,
      )

  pub add_change-outputs :
      (d : Draft desc) (n : ℕ) (a : AssetId) (d' : Draft desc)
      → add_change desc d n a ≡ ok d'
      → (r : Recipient desc) × (r.satoshi ≡ n)
        × (r.asset ≡ a)
        × (d'.outputs ≡ r ∷ d.outputs)
        × (d'.inputs ≡ d.inputs)
  unfolding add_change
  add_change-outputs d n a d' h =
      let (address, _, h1) = >>=-eq-ok (desc.address_at _ d.last_unused_internal) _ d' h in
      let e : ◌≡◌ {A = Draft desc}
          (add_output desc
            (record d { last_unused_internal = (d.last_unused_internal + 1) % 2 ^ 32 })
            (recipient_at desc n a address))
          d' =
        cc in
      (
        recipient_at desc n a address,
        refl,
        refl,
        ap (λ (x : Draft desc). x.outputs) (sym e),
        ap (λ (x : Draft desc). x.inputs) (sym e),
      )

  pub add_change-totals :
      (d : Draft desc) (n : ℕ) (a : AssetId) (d' : Draft desc) (b : AssetId)
      → add_change desc d n a ≡ ok d'
      → (paid_out d' b ≡ share (is_asset a b) n + paid_out d b) × (d'.inputs ≡ d.inputs)
  unfolding output_total
  add_change-totals d n a d' b h =
      let (r, amount, asset, outs, ins) = add_change-outputs d n a d' h in
      let e : share (is_asset r.asset b) r.satoshi ≡ share (is_asset a b) n =
        ap (λ x. share (is_asset x b) r.satoshi) asset ∙ ap (share (is_asset a b)) amount in
      (ap (output_total b) outs ∙ ap (λ x. x + paid_out d b) e, ins)

  -- Recipients of one asset add what they are paid to the outputs.
  pub add_recipients-totals :
      (a : AssetId) (rs : List (Recipient desc)) (d : Draft desc) (out : ℕ) (b : AssetId)
      → All (λ (r : Recipient desc). r.asset ≡ a) rs
      → ((paid_out (add_recipients desc d rs out).0 b + share (is_asset a b) out) % 2 ^ 64
          ≡ (paid_out d b + share (is_asset a b) (add_recipients desc d rs out).1) % 2 ^ 64)
        × ((add_recipients desc d rs out).0.inputs ≡ d.inputs)
  unfolding add_recipients output_total
  add_recipients-totals a [] d out b all = (refl, refl)
  add_recipients-totals a (r ∷ rs) d out b all =
      let next : ℕ = (out + r.satoshi) % 2 ^ 64 in
      let (ih, ins) = add_recipients-totals a rs (add_output desc d r) next b all.1 in
      let same : share (is_asset r.asset b) r.satoshi ≡ share (is_asset a b) r.satoshi =
        ap (λ x. share (is_asset x b) r.satoshi) all.0 in
      let sum : share (is_asset a b) next % 2 ^ 64
          ≡ (share (is_asset a b) out + share (is_asset a b) r.satoshi) % 2 ^ 64 =
        share_add (is_asset a b) out r.satoshi in
      (omega arith, ins)

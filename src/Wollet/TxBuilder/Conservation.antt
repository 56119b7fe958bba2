-- ===== src/Wollet/TxBuilder/Conservation.antt =====
-- That lwk_wollet/src/tx_builder.rs neither makes nor loses value.
use satsails_lwk.Common.{
  ℕ, ◌+◌, ◌%◌, ◌^◌, List, [], ◌∷◌, Option, some, Result, ok, err, ◌>>=◌, ◌>>◌, >>=-eq-ok,
  ok_injective, ==_sound, ◌≡◌, sym, ap, ◌∙◌, arith, All, map,
}
use satsails_lwk.Wollet.{Elements, Error, internal, external}
use satsails_lwk.Wollet.Update.{RawCache}
use satsails_lwk.Wollet.Utxos.{WalletTxOut, asset_utxos}
use satsails_lwk.Wollet.TxBuilder.{
  Descriptor, sub_u64, Recipient, Draft, TxBuilder, begin, addressees_lbtc, addressees_asset,
  add_output, add_input, add_change, add_recipients, add_all_inputs, add_assets, close, Weigher,
  started, finish_payment, distinct, temp_fee, fee_output, replaced, with_amounts, enough, fee_of,
  final_amounts, add_fee, add_lbtc,
}
use satsails_lwk.Wollet.TxBuilder.Values.{
  share, share_add, share_sub, is_asset, input_total, output_total, paid_in, paid_out,
  add_input-totals, add_change-outputs, add_recipients-totals,
}
use satsails_lwk.Wollet.TxBuilder.Selection.{
  ok_pair, asset_utxos-OfAsset, All-keep_same, share_zero, Even, add_assets-Even,
}

module _ {el : Elements} (desc : Descriptor el) where
  open el use {AssetId, asset_eq}

  pub add_all_inputs-totals :
      (c : RawCache el) (a : AssetId) (us : List (WalletTxOut el)) (d : Draft desc) (inn : ℕ)
      (d' : Draft desc) (in' : ℕ) (b : AssetId)
      → All (λ (u : WalletTxOut el). u.unblinded.asset ≡ a) us
      → add_all_inputs desc c us d inn ≡ ok (d', in')
      → ((paid_in desc d' b + share (is_asset desc a b) inn) % 2 ^ 64
          ≡ (paid_in desc d b + share (is_asset desc a b) in') % 2 ^ 64)
        × (d'.outputs ≡ d.outputs)
  unfolding add_all_inputs
  add_all_inputs-totals c a [] d inn d' in' b all h =
      let (same, amount) = ok_pair d d' inn in' h in
      let ins : paid_in desc d b ≡ paid_in desc d' b =
        ap (λ (x : Draft desc). paid_in desc x b) same in
      let sums : share (is_asset desc a b) inn ≡ share (is_asset desc a b) in' =
        ap (share (is_asset desc a b)) amount in
      (omega arith, ap (λ (x : Draft desc). x.outputs) (sym same))
  add_all_inputs-totals c a (u ∷ us) d inn d' in' b all h =
      let t : ℕ = (inn + u.unblinded.value) % 2 ^ 64 in
      let (d1, hi, h1) =
        >>=-eq-ok (add_input desc c d u) (λ d. add_all_inputs desc c us d t) (d', in') h in
      let (ins, outs) = add_input-totals desc c d u d1 b hi in
      let one : share (is_asset desc u.unblinded.asset b) u.unblinded.value
          ≡ share (is_asset desc a b) u.unblinded.value =
        ap (λ x. share (is_asset desc x b) u.unblinded.value) all.0 in
      let sum : share (is_asset desc a b) t % 2 ^ 64
          ≡ (share (is_asset desc a b) inn + share (is_asset desc a b) u.unblinded.value) % 2 ^ 64 =
        share_add (is_asset desc a b) inn u.unblinded.value in
      let (ih, kept) = add_all_inputs-totals c a us d1 t d' in' b all.1 h1 in
      (omega arith, kept ∙ outs)

  -- The draft with the temporary change and fee, whose last two outputs then get the amounts.
  replaced_amounts :
      (a : AssetId) (d d1 : Draft desc) (r : Recipient desc) (change fee : ℕ) (b : AssetId)
      → r.asset ≡ a
      → d1.outputs ≡ r ∷ d.outputs
      → d1.inputs ≡ d.inputs
      → (d' : Draft desc) × (replaced desc
            (add_output desc d1 (fee_output desc temp_fee a))
            (with_amounts desc change fee (fee_output desc temp_fee a ∷ d1.outputs))
          ≡ some d')
        × (paid_in desc d' b ≡ paid_in desc d b)
        × (paid_out desc d' b
            ≡ share (is_asset desc a b) fee
              + (share (is_asset desc a b) change + paid_out desc d b))
  unfolding output_total
  replaced_amounts a d d1 r change fee b asset outs ins =
      let made : List (Recipient desc) =
        record (fee_output desc temp_fee a) { satoshi = fee }
        ∷ record r { satoshi = change }
        ∷ d.outputs in
      let d2 : Draft desc = record (add_output desc d1 (fee_output desc temp_fee a)) {
        outputs = made;
      } in
      (
        d2,
        ap
            (λ os.
              replaced desc (add_output desc d1 (fee_output desc temp_fee a))
                (with_amounts desc change fee (fee_output desc temp_fee a ∷ os)))
            outs,
        ap (input_total desc b) ins,
        ap
            (λ x.
              share (is_asset desc a b) fee
              + (share (is_asset desc x b) change + paid_out desc d b))
            asset,
      )

  after_reject :
      {A : Type 0} (r : Result Error (Unit {0})) (rest : Result Error A) (a : A)
      → (r >> rest) ≡ ok a
      → rest ≡ ok a
  after_reject (ok u) rest a h = h
  after_reject (err e) rest a h = cc

  final_amounts-eq-ok :
      (rate : desc.Rate) (out inn : ℕ) (d : Draft desc) (weight : ℕ) (o : Option (Draft desc))
      → final_amounts desc rate out inn d weight ≡ ok o
      → replaced desc d (
          with_amounts desc
            (sub_u64 (sub_u64 inn out) (fee_of desc rate d weight))
            (fee_of desc rate d weight)
            d.outputs)
        ≡ o
  unfolding final_amounts
  final_amounts-eq-ok rate out inn d weight o h =
      let e : ◌≡◌ {A = Result Error (Option (Draft desc))} (ok _) (ok o) =
        after_reject (enough desc out inn) _ o h in
      ok_injective e

  -- The change and the fee take up what the inputs have more than the other outputs.
  pub close-totals :
      (weigh : Weigher desc) (a : AssetId) (rate : desc.Rate) (out inn : ℕ) (d : Draft desc)
      (o : Option (Draft desc)) (b : AssetId)
      → close desc weigh a rate out inn d ≡ ok o
      → (d' : Draft desc) × (o ≡ some d')
        × (paid_in desc d' b ≡ paid_in desc d b)
        × ((paid_out desc d' b + share (is_asset desc a b) out) % 2 ^ 64
            ≡ (paid_out desc d b + share (is_asset desc a b) inn) % 2 ^ 64)
  unfolding close add_fee
  close-totals weigh a rate out inn d o b h =
      let h1 : (add_change desc d (sub_u64 (sub_u64 inn out) temp_fee) a
            >>= add_fee desc weigh a rate out inn)
          ≡ ok o =
        after_reject (enough desc out inn) _ o h in
      let (d1, hc, h2) =
        >>=-eq-ok (add_change desc d (sub_u64 (sub_u64 inn out) temp_fee) a)
          (add_fee desc weigh a rate out inn) o h1 in
      let d2 : Draft desc = add_output desc d1 (fee_output desc temp_fee a) in
      let (weight, _, h3) =
        >>=-eq-ok (weigh d2.inputs _) (final_amounts desc rate out inn d2) o h2 in
      let made = final_amounts-eq-ok rate out inn d2 weight o h3 in
      let fee : ℕ = fee_of desc rate d2 weight in
      let (r, _, asset, outs, ins) =
        add_change-outputs desc d (sub_u64 (sub_u64 inn out) temp_fee) a d1 hc in
      let (d', is, kept, paid) =
        replaced_amounts a d d1 r (sub_u64 (sub_u64 inn out) fee) fee b asset outs ins in
      let change : (share (is_asset desc a b) (sub_u64 (sub_u64 inn out) fee)
              + share (is_asset desc a b) fee)
            % 2 ^ 64
          ≡ share (is_asset desc a b) (sub_u64 inn out) % 2 ^ 64 =
        share_sub (is_asset desc a b) (sub_u64 inn out) fee in
      let rest : (share (is_asset desc a b) (sub_u64 inn out) + share (is_asset desc a b) out)
            % 2 ^ 64
          ≡ share (is_asset desc a b) inn % 2 ^ 64 =
        share_sub (is_asset desc a b) inn out in
      (d', sym made ∙ is, kept, omega arith)

  add_lbtc-totals :
      (c : RawCache el) (a : AssetId) (rate : desc.Rate) (rs : List (Recipient desc))
      (d : Draft desc) (o : Option (Draft desc)) (b : AssetId)
      → All (λ (r : Recipient desc). r.asset ≡ a) rs
      → add_lbtc desc c a rate rs d ≡ ok o
      → (d' : Draft desc) × (o ≡ some d') × Even desc d d' b
  unfolding add_lbtc
  add_lbtc-totals c a rate rs d o b to_a h =
      let paid : Draft desc × ℕ = add_recipients desc d rs 0 in
      let (us, hu, h1) = >>=-eq-ok (asset_utxos el c a) _ o h in
      let of_a : All (λ (u : WalletTxOut el). u.unblinded.asset ≡ a) us =
        asset_utxos-OfAsset desc c a us hu in
      let (e, hi, h2) = >>=-eq-ok (add_all_inputs desc c us paid.0 0) _ o h1 in
      let (outs, ins) = add_recipients-totals desc a rs d 0 b to_a in
      let (got, same) = add_all_inputs-totals c a us paid.0 0 e.0 e.1 b of_a hi in
      let (d', is, kept_in, out) = close-totals desc.blinded_weight a rate paid.1 e.1 e.0 o b h2 in
      let ins' : paid_in desc paid.0 b ≡ paid_in desc d b = ap (input_total desc b) ins in
      let outs' : paid_out desc e.0 b ≡ paid_out desc paid.0 b = ap (output_total desc b) same in
      let none : share (is_asset desc a b) 0 ≡ 0 = share_zero (is_asset desc a b) in
      (d', is, omega arith)

  started-empty :
      (c : RawCache el) (d : Draft desc) (b : AssetId)
      → started desc c ≡ ok d
      → (paid_in desc d b ≡ 0) × (paid_out desc d b ≡ 0)
  unfolding input_total output_total
  started-empty c d b h =
      let (_, _, h1) = >>=-eq-ok (desc.address_at internal c.last_unused_internal) _ d h in
      let (_, _, h2) = >>=-eq-ok (desc.address_at external c.last_unused_external) _ d h1 in
      let e = ok_injective h2 in
      (
        ap (λ (x : Draft desc). paid_in desc x b) (sym e),
        ap (λ (x : Draft desc). paid_out desc x b) (sym e),
      )

  -- What `begin` takes in of each asset, modulo 2 ^ 64, it pays out.
  pub begin-conserves :
      (c : RawCache el) (t : TxBuilder desc) (d : Draft desc) (b : AssetId)
      → begin desc c t ≡ ok d
      → paid_in desc d b % 2 ^ 64 ≡ paid_out desc d b % 2 ^ 64
  unfolding begin
  begin-conserves c t d b h =
      let assets : List AssetId =
        distinct desc (map (λ (r : Recipient desc). r.asset) (addressees_asset desc t)) in
      let (d0, h0, h1) =
        >>=-eq-ok (started desc c) (add_assets desc c (addressees_asset desc t) assets) d h in
      let (no_in, no_out) = started-empty c d0 b h0 in
      let all : Even desc d0 d b =
        add_assets-Even desc c (addressees_asset desc t) assets d0 d b h1 in
      omega arith

  -- Where no issuance is asked for, a finished transaction pays out of each asset what it takes in, the
  -- fee included, modulo 2 ^ 64, and its last two outputs are there to be set.
  pub finish_payment-conserves :
      (c : RawCache el) (t : TxBuilder desc) (o : Option (Draft desc)) (b : AssetId)
      → finish_payment desc c t ≡ ok o
      → (d : Draft desc) × (o ≡ some d) × (paid_in desc d b % 2 ^ 64 ≡ paid_out desc d b % 2 ^ 64)
  unfolding finish_payment
  finish_payment-conserves c t o b h =
      let (d1, h1, h2) =
        >>=-eq-ok (begin desc c t)
          (add_lbtc desc c t.policy_asset t.fee_rate (addressees_lbtc desc t)) o h in
      let first = begin-conserves c t d1 b h1 in
      let (d, is, second) =
        add_lbtc-totals c t.policy_asset t.fee_rate (addressees_lbtc desc t) d1 o b
          (All-keep_same _ _ t.recipients
            (λ r e. ==_sound ⦃eq = asset_eq⦄ r.asset t.policy_asset e))
          h2 in
      (d, is, omega arith)

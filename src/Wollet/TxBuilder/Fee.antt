-- ===== src/Wollet/TxBuilder/Fee.antt =====
-- The change that lwk_wollet/src/tx_builder.rs leaves once the fee is known.
use satsails_lwk.Common.{
  ℕ, ◌+◌, ◌-◌, ◌%◌, ◌^◌, ◌<◌, ◌≤◌, List, ◌∷◌, some, ok, ◌≡◌, refl, arith, leb, ltb, le→ltb, false,
  if◌then◌else◌,
}
use satsails_lwk.Wollet.{Elements}
use satsails_lwk.Wollet.TxBuilder.{
  Descriptor, sub_u64, Recipient, Draft, final_amounts, fee_of, temp_fee,
}

module _ {el : Elements} (desc : Descriptor el) where
  -- The amounts of the last two outputs, the fee and the change.
  pub record Closed (d : Draft desc) (fee change : ℕ) : Type 0 where
    pub fee_out : Recipient desc
    pub change_out : Recipient desc
    pub others : List (Recipient desc)
    pub last_two : d.outputs ≡ fee_out ∷ change_out ∷ others
    pub fee_amount : fee_out.satoshi ≡ fee
    pub change_amount : change_out.satoshi ≡ change

  change_of :
      (inn out fee : ℕ)
      → out ≤ inn
      → inn < 2 ^ 64
      → fee < 2 ^ 64
      → sub_u64 (sub_u64 inn out) fee
        ≡ (if leb (out + fee) inn then inn - (out + fee) else inn + 2 ^ 64 - (out + fee))
  change_of inn out fee le small small' = ground arith

  -- Where the inputs cover the outputs and the temporary fee of 1000, the transaction is closed, whatever
  -- the real fee is. The change is what the inputs have more than the outputs and the fee, and where they
  -- have less, it is 2 ^ 64 more than that.
  pub final_amounts-Closed :
      (rate : desc.Rate) (out inn : ℕ) (d : Draft desc) (weight : ℕ) (f c : Recipient desc)
      (rest : List (Recipient desc))
      → d.outputs ≡ f ∷ c ∷ rest
      → out + 1000 ≤ inn
      → inn < 2 ^ 64
      → fee_of desc rate d weight < 2 ^ 64
      → (d' : Draft desc) × (final_amounts desc rate out inn d weight ≡ ok (some d'))
        × Closed d' (fee_of desc rate d weight) (
            if leb (out + fee_of desc rate d weight) inn
            then inn - (out + fee_of desc rate d weight)
            else inn + 2 ^ 64 - (out + fee_of desc rate d weight))
  unfolding final_amounts
  final_amounts-Closed rate out inn d weight f c rest outs covered small small' =
      let fee : ℕ = fee_of desc rate d weight in
      let change : ℕ = sub_u64 (sub_u64 inn out) fee in
      let f' : Recipient desc = record f { satoshi = fee } in
      let c' : Recipient desc = record c { satoshi = change } in
      let funds : ltb inn ((out + temp_fee) % 2 ^ 64) ≡ false =
        le→ltb inn ((out + temp_fee) % 2 ^ 64) (omega arith) in
      (
        record d { outputs = f' ∷ c' ∷ rest },
        rw (funds, outs) refl,
        record {
          fee_out = f';
          change_out = c';
          others = rest;
          last_two = refl;
          fee_amount = refl;
          change_amount = change_of inn out fee (omega arith) small small';
        },
      )

-- ===== src/Wollet/Issuance/Receivers.antt =====
-- What an issuance request of lwk_wollet/src/tx_builder.rs adds to the inputs and outputs.
use satsails_lwk.Common.{
  ℕ, ◌+◌, Option, none, some, ok, >>=-eq-ok, ok_injective, ok_or-eq-ok, ok_or, find_sound, and_true,
  ◌≡◌, sym, ap, ◌∙◌, subst, arith, if◌then◌else◌, ==_sound, ◌==◌, nat_eq, Bool-cases, inl, inr,
  get_elem?, All-get_elem?,
}
use satsails_lwk.Wollet.{Elements, external, missing_vin, insufficient_funds}
use satsails_lwk.Wollet.Update.{RawCache}
use satsails_lwk.Wollet.Utxos.{WalletTxOut, asset_utxos}
use satsails_lwk.Wollet.TxBuilder.{
  Descriptor, Recipient, Draft, add_output, add_input, add_change, recipient_at,
}
use satsails_lwk.Wollet.TxBuilder.Values.{
  share, is_asset, input_total, output_total, paid_in, paid_out, add_input-totals,
  add_change-totals,
}
use satsails_lwk.Wollet.TxBuilder.Selection.{asset_utxos-OfAsset, ok_pair, share_zero}
use satsails_lwk.Wollet.Recipients.{
  Addresses, IssuanceRequest, no_request, issuance, reissuance, from_address,
}
use satsails_lwk.Wollet.Issuance.{
  Issuances, IssuanceDetails, IssuedInput, issuances, wallet_issuance, set_issuance, set_reissuance,
  add_receiver, add_token_receiver, issue, is_of, hash_of, metadata_of, extract_issuances,
  issuance_for, spend_token, token_input, holder_of, reissue, set_request,
}

module _ {el : Elements} {desc : Descriptor el} {env : Addresses desc} (iss : Issuances env) where
  open el use {AssetId, asset_eq, Transaction}
  open env use {Address, Contract}

  abbrev pub keys_of : Option ℕ → ℕ
  keys_of none = 0
  keys_of (some n) = n

  -- What the issuance of an input makes of an asset: the asset itself, or its reissuance token.
  abbrev pub issued_total : AssetId → Option (IssuedInput iss) → ℕ
  issued_total b none = 0
  issued_total b (some i) =
      share (is_asset desc i.asset b) i.issuance_value_amount
      + share (is_asset desc i.token b) (keys_of i.issuance_inflation_keys)

  -- What comes in and what is issued goes out.
  abbrev pub Covers : Draft desc → Draft desc → ℕ → AssetId → Type 0
  Covers d d' issued b =
      paid_in desc d' b + issued + paid_out desc d b ≡ paid_in desc d b + paid_out desc d' b

  output-Covers :
      (d : Draft desc) (r : Recipient desc) (b : AssetId)
      → Covers d (add_output desc d r) (share (is_asset desc r.asset b) r.satoshi) b
  unfolding output_total
  output-Covers d r b = omega arith

  add_receiver-Covers :
      (d : Draft desc) (n : ℕ) (a : AssetId) (o : Option Address) (d' : Draft desc) (b : AssetId)
      → add_receiver iss d n a o ≡ ok d'
      → Covers d d' (share (is_asset desc a b) n) b
  unfolding add_receiver output_total
  add_receiver-Covers d n a (some address) d' b h =
      let same : add_output desc d (from_address env n address a) ≡ d' = ok_injective h in
      subst (λ (x : Draft desc). Covers d x (share (is_asset desc a b) n) b) same
        (output-Covers d (from_address env n address a) b)
  add_receiver-Covers d n a none d' b h =
      let (address, _, h1) = >>=-eq-ok (desc.address_at external d.last_unused_external) _ d' h in
      let same = ok_injective h1 in
      subst (λ (x : Draft desc). Covers d x (share (is_asset desc a b) n) b) same
        (output-Covers d (recipient_at desc n a address) b)

  nothing_issued : (d : Draft desc) (b : AssetId) → Covers d d 0 b
  nothing_issued d b = omega arith

  add_token_receiver-Covers :
      (d : Draft desc) (n : ℕ) (a : AssetId) (o : Option Address) (d' : Draft desc) (b : AssetId)
      → add_token_receiver iss d n a o ≡ ok d'
      → Covers d d' (share (is_asset desc a b) (keys_of (if n == 0 then none else some n))) b
  add_token_receiver-Covers d n a o d' b h = elim (Bool-cases (n == 0)) [
    | inl e ↦
        let same : d ≡ d' = ok_injective (rw e at h) in
        rw (e, share_zero (is_asset desc a b))
          (subst (λ (x : Draft desc). Covers d x 0 b) same (nothing_issued d b))
    | inr e ↦ rw e (add_receiver-Covers d n a o d' b (rw e at h))
  ]

  in_turn :
      (d d1 d2 : Draft desc) (n m : ℕ) (b : AssetId)
      → Covers d d1 n b
      → Covers d1 d2 m b
      → Covers d d2 (n + m) b
  in_turn d d1 d2 n m b h k = omega arith

  issue-Covers :
      (d : Draft desc) (n : ℕ) (o : Option Address) (m : ℕ) (o' : Option Address)
      (contract : Option Contract) (d' : Draft desc) (i : IssuedInput iss) (b : AssetId)
      → issue iss d n o m o' contract ≡ ok (d', i)
      → Covers d d' (issued_total b (some i)) b
  unfolding issue set_issuance
  issue-Covers d n o m o' contract d' i b h =
      let (i1, hs, h1) = >>=-eq-ok (set_issuance iss d 0 n m contract) _ (d', i) h in
      let (d1, ha, h2) = >>=-eq-ok (add_receiver iss d n i1.asset o) _ (d', i) h1 in
      let (d2, ht, h3) = >>=-eq-ok (add_token_receiver iss d1 m i1.token o') _ (d', i) h2 in
      let (same, request) = ok_pair d2 d' i1 i h3 in
      let (input, _, k1) = >>=-eq-ok (ok_or (get_elem? d.inputs 0) missing_vin) _ i1 hs in
      let (hash, _, k2) = >>=-eq-ok (hash_of iss contract) _ i1 k1 in
      let (json, _, k3) = >>=-eq-ok (metadata_of iss contract) _ i1 k2 in
      let made = ok_injective k3 in
      let amount : n ≡ i1.issuance_value_amount =
        ap (λ (x : IssuedInput iss). x.issuance_value_amount) made in
      let keys : (if m == 0 then none else some m) ≡ i1.issuance_inflation_keys =
        ap (λ (x : IssuedInput iss). x.issuance_inflation_keys) made in
      let one : Covers d d1 (share (is_asset desc i1.asset b) i1.issuance_value_amount) b =
        subst (λ x. Covers d d1 (share (is_asset desc i1.asset b) x) b) amount
          (add_receiver-Covers d n i1.asset o d1 b ha) in
      let two : Covers d1 d2 (share (is_asset desc i1.token b) (keys_of i1.issuance_inflation_keys))
          b =
        subst (λ x. Covers d1 d2 (share (is_asset desc i1.token b) (keys_of x)) b) keys
          (add_token_receiver-Covers d1 m i1.token o' d2 b ht) in
      subst (λ (x : IssuedInput iss). Covers d d' (issued_total b (some x)) b) request
        (subst (λ (x : Draft desc). Covers d x (issued_total b (some i1)) b) same
          (in_turn d d1 d2 _ _ b one two))

  spend_token-Covers :
      (c : RawCache el) (d : Draft desc) (token : AssetId) (d' : Draft desc) (idx : ℕ)
      (bf : el.AssetFactor) (b : AssetId)
      → spend_token iss c d token ≡ ok (d', idx, bf)
      → Covers d d' 0 b
  unfolding spend_token
  spend_token-Covers c d token d' idx bf b h =
      let (us, hu, h1) = >>=-eq-ok (asset_utxos el c token) _ (d', idx, bf) h in
      let (u, hg, h2) = >>=-eq-ok (ok_or (get_elem? us 0) insufficient_funds) _ (d', idx, bf) h1 in
      let (d1, hi, h3) = >>=-eq-ok (add_input desc c d u) _ (d', idx, bf) h2 in
      let (d2, hc, h4) =
        >>=-eq-ok (add_change desc d1 u.unblinded.value token) _ (d', idx, bf) h3 in
      let same : d2 ≡ d' = ap (λ (x : Draft desc × ℕ × el.AssetFactor). x.0) (ok_injective h4) in
      let (ins, outs) = add_input-totals desc c d u d1 b hi in
      let (out, inp) = add_change-totals desc d1 u.unblinded.value token d2 b hc in
      let of_token : u.unblinded.asset ≡ token =
        All-get_elem? (λ (v : WalletTxOut el). v.unblinded.asset ≡ token) us 0 u
          (asset_utxos-OfAsset desc c token us hu) (ok_or-eq-ok _ _ u hg) in
      let moved : share (is_asset desc u.unblinded.asset b) u.unblinded.value
          ≡ share (is_asset desc token b) u.unblinded.value =
        ap (λ x. share (is_asset desc x b) u.unblinded.value) of_token in
      let ins2 : paid_in desc d2 b ≡ paid_in desc d1 b = ap (input_total desc b) inp in
      let outs1 : paid_out desc d1 b ≡ paid_out desc d b = ap (output_total desc b) outs in
      subst (λ (x : Draft desc). Covers d x 0 b) same (omega arith)

  token_input-Covers :
      (c : RawCache el) (d : Draft desc) (token : AssetId) (o : Option (ℕ × WalletTxOut el))
      (d' : Draft desc) (idx : ℕ) (bf : el.AssetFactor) (b : AssetId)
      → token_input iss c d token o ≡ ok (d', idx, bf)
      → Covers d d' 0 b
  token_input-Covers c d token none d' idx bf b h = spend_token-Covers c d token d' idx bf b h
  token_input-Covers c d token (some (n, u)) d' idx bf b h =
      let same : d ≡ d' = ap (λ (x : Draft desc × ℕ × el.AssetFactor). x.0) (ok_injective h) in
      subst (λ (x : Draft desc). Covers d x 0 b) same (nothing_issued d b)

  issuance_for-asset :
      (c : RawCache el) (policy a : AssetId) (o : Option Transaction) (i : IssuanceDetails iss)
      → issuance_for iss c policy a o ≡ ok i
      → i.asset ≡ a
  unfolding issuance_for wallet_issuance
  issuance_for-asset c policy a (some tx) i h =
      ==_sound ⦃eq = asset_eq⦄ i.asset a
        (find_sound (is_of iss a) (extract_issuances iss tx) i (ok_or-eq-ok _ _ i h))
  issuance_for-asset c policy a none i h =
      let (all, _, h1) = >>=-eq-ok (issuances iss c policy) _ i h in
      let both = find_sound _ all i (ok_or-eq-ok _ _ i h1) in
      ==_sound ⦃eq = asset_eq⦄ i.asset a (and_true _ _ both).0

  reissue-Covers :
      (c : RawCache el) (policy : AssetId) (d : Draft desc) (a : AssetId) (n : ℕ)
      (o : Option Address) (tx : Option Transaction) (d' : Draft desc) (i : IssuedInput iss)
      (b : AssetId)
      → reissue iss c policy d a n o tx ≡ ok (d', i)
      → Covers d d' (issued_total b (some i)) b
  unfolding reissue set_reissuance
  reissue-Covers c policy d a n o tx d' i b h =
      let (details, hd, h1) = >>=-eq-ok (issuance_for iss c policy a tx) _ (d', i) h in
      let (t, ht, h2) =
        >>=-eq-ok (token_input iss c d details.token (holder_of iss details.token d.inputs)) _
          (d', i) h1 in
      let (i1, hs, h3) = >>=-eq-ok (set_reissuance iss t.0 t.1 n t.2 details) _ (d', i) h2 in
      let (d1, ha, h4) = >>=-eq-ok (add_receiver iss t.0 n a o) _ (d', i) h3 in
      let (same, request) = ok_pair d1 d' i1 i h4 in
      let (input, _, k1) = >>=-eq-ok (ok_or (get_elem? t.0.inputs t.1) missing_vin) _ i1 hs in
      let made = ok_injective k1 in
      let of_a : details.asset ≡ a = issuance_for-asset c policy a tx details hd in
      let token : Covers d t.0 0 b =
        token_input-Covers c d details.token (holder_of iss details.token d.inputs) t.0 t.1 t.2 b
          ht in
      let received : Covers t.0 d1 (share (is_asset desc a b) n) b =
        add_receiver-Covers t.0 n a o d1 b ha in
      let none_of : share (is_asset desc details.token b) 0 ≡ 0 =
        share_zero (is_asset desc details.token b) in
      let kept : share (is_asset desc details.asset b) n + share (is_asset desc details.token b) 0
          ≡ share (is_asset desc details.asset b) n =
        omega arith in
      let moved : share (is_asset desc details.asset b) n ≡ share (is_asset desc a b) n =
        ap (λ x. share (is_asset desc x b) n) of_a in
      let total : issued_total b (some i1) ≡ share (is_asset desc a b) n =
        ap (λ (x : IssuedInput iss). issued_total b (some x)) (sym made) ∙ kept ∙ moved in
      subst (λ (x : IssuedInput iss). Covers d d' (issued_total b (some x)) b) request
        (subst (λ (x : Draft desc). Covers d x (issued_total b (some i1)) b) same (omega arith))

  pub set_request-Covers :
      (c : RawCache el) (policy : AssetId) (d : Draft desc) (r : IssuanceRequest env)
      (d' : Draft desc) (i : Option (IssuedInput iss)) (b : AssetId)
      → set_request iss c policy d r ≡ ok (d', i)
      → Covers d d' (issued_total b i) b
  unfolding set_request
  set_request-Covers c policy d no_request d' i b h =
      let (same, request) = ok_pair d d' none i h in
      subst (λ x. Covers d d' (issued_total b x) b) request
        (subst (λ (x : Draft desc). Covers d x 0 b) same (nothing_issued d b))
  set_request-Covers c policy d (issuance n o m o' contract) d' i b h =
      let (r, hr, h1) = >>=-eq-ok (issue iss d n o m o' contract) _ (d', i) h in
      let (same, request) = ok_pair r.0 d' (some r.1) i h1 in
      subst (λ x. Covers d d' (issued_total b x) b) request
        (subst (λ (x : Draft desc). Covers d x (issued_total b (some r.1)) b) same
          (issue-Covers d n o m o' contract r.0 r.1 b hr))
  set_request-Covers c policy d (reissuance a n o tx) d' i b h =
      let (r, hr, h1) = >>=-eq-ok (reissue iss c policy d a n o tx) _ (d', i) h in
      let (same, request) = ok_pair r.0 d' (some r.1) i h1 in
      subst (λ x. Covers d d' (issued_total b x) b) request
        (subst (λ (x : Draft desc). Covers d x (issued_total b (some r.1)) b) same
          (reissue-Covers c policy d a n o tx r.0 r.1 b hr))

-- ===== src/Pset/Checks.antt =====
-- What `pset_balance` of lwk_common/src/lib.rs checks of the inputs and outputs of the wallet, and of the fee.
use satsails_lwk.Common.{
  ℕ, Bool, true, false, Option, none, some, ok, >>=-eq-ok, ok_injective, ok_or-eq-ok,
  reject_if-eq-ok, ok_or, not, ◌&&◌, ◌||◌, ◌≡◌, refl, ap, ◌∙◌, subst,
}
use satsails_lwk.Wollet.{Elements, TxOutSecrets}
use satsails_lwk.Pset.{
  Psets, Input, Output, derive_blinding_key, committed, both, input_pegin_unsupported,
  input_blinded_issuance,
}
use satsails_lwk.Pset.Balance.{input_secrets, explicit_fields, blinded_fields, output_value}

unnegated : (b : Bool) → not b ≡ false → b ≡ true
unnegated true h = refl
unnegated false h = cc

module _ {el : Elements} (ps : Psets el) where
  open el use {Script, TxOut, AssetId, script_is_empty, script_pubkey}
  open ps use {
    SecretKey, Generator, Commitment, AssetProof, ValueProof, Descriptor, confidential_asset,
    confidential_value, with_rangeproof, unblind, blind_asset_proof_verify,
    blind_value_proof_verify,
  }

  -- A spent output of the wallet, which is blinded, and which the wallet's key unblinds to secrets that the
  -- commitments are made of. It is no peg-in, and the input issues nothing that is blinded.
  pub record InputChecked (desc : Descriptor) (i : Input ps) (t : TxOut) (s : TxOutSecrets el)
      : Type 0 where
    pub not_pegin : i.is_pegin ≡ false
    pub not_blinded :
        (i.has_issuance && (i.issued_amount_is_confidential || i.inflation_keys_is_confidential))
        ≡ false
    pub comms : Generator × Commitment
    pub blinded : both (confidential_asset t) (confidential_value t) ≡ some comms
    pub key : SecretKey
    pub has_key : derive_blinding_key ps desc (script_pubkey t) ≡ some key
    pub unblinds : unblind (with_rangeproof t i.in_utxo_rangeproof) key ≡ some s
    pub matches : committed ps comms.0 comms.1 s ≡ true

  -- An output of the wallet with an asset and an amount, whose proofs tie them to its commitments, and which
  -- the wallet's key unblinds to secrets that the commitments are made of.
  pub record OutputChecked (desc : Descriptor) (o : Output ps) (e : AssetId × ℕ) : Type 0 where
    pub asset : o.asset ≡ some e.0
    pub amount : o.amount ≡ some e.1
    pub fields : (Generator × AssetProof) × (Commitment × ValueProof)
    pub blinded :
        both (both o.asset_comm o.blind_asset_proof) (both o.amount_comm o.blind_value_proof)
        ≡ some fields
    pub asset_proved : blind_asset_proof_verify fields.0.1 e.0 fields.0.0 ≡ true
    pub amount_proved : blind_value_proof_verify fields.1.1 e.1 fields.0.0 fields.1.0 ≡ true
    pub key : SecretKey
    pub has_key : derive_blinding_key ps desc o.script_pubkey ≡ some key
    pub secrets : TxOutSecrets el
    pub unblinds : unblind o.to_txout key ≡ some secrets
    pub matches : committed ps fields.0.0 fields.1.0 secrets ≡ true

  pub input_secrets-Checked :
      (desc : Descriptor) (idx : ℕ) (i : Input ps) (t : TxOut) (s : TxOutSecrets el)
      → input_secrets ps desc idx i t ≡ ok s
      → InputChecked desc i t s
  unfolding input_secrets
  input_secrets-Checked desc idx i t s h =
      let (pegin, h1) = reject_if-eq-ok i.is_pegin (input_pegin_unsupported idx) _ s h in
      let (issued, h2) =
        reject_if-eq-ok
          (i.has_issuance && (i.issued_amount_is_confidential || i.inflation_keys_is_confidential))
          (input_blinded_issuance idx) _ s h1 in
      let (comms, hc, h3) = >>=-eq-ok (ok_or _ _) _ s h2 in
      let (k, hk, h4) = >>=-eq-ok (ok_or _ _) _ s h3 in
      let (s1, hs, h5) = >>=-eq-ok (ok_or _ _) _ s h4 in
      let (differ, h6) = reject_if-eq-ok (not (committed ps comms.0 comms.1 s1)) _ _ s h5 in
      let same : s1 ≡ s = ok_injective h6 in
      record {
        not_pegin = pegin;
        not_blinded = issued;
        comms = comms;
        blinded = ok_or-eq-ok _ _ comms hc;
        key = k;
        has_key = ok_or-eq-ok _ _ k hk;
        unblinds = ok_or-eq-ok _ _ s1 hs ∙ ap some same;
        matches =
            subst (λ (x : TxOutSecrets el). committed ps comms.0 comms.1 x ≡ true) same
              (unnegated _ differ);
      }

  explicit_fields-eq-ok :
      (idx : ℕ) (a : Option AssetId) (n : Option ℕ) (e : AssetId × ℕ)
      → explicit_fields ps idx a n ≡ ok e
      → (a ≡ some e.0) × (n ≡ some e.1)
  explicit_fields-eq-ok idx none none e h = cc
  explicit_fields-eq-ok idx none (some n) e h = cc
  explicit_fields-eq-ok idx (some a) none e h = cc
  explicit_fields-eq-ok idx (some a) (some n) e h =
      let same : (a, n) ≡ e = ok_injective h in
      (ap (λ (x : AssetId × ℕ). some x.0) same, ap (λ (x : AssetId × ℕ). some x.1) same)

  pub output_value-Checked :
      (desc : Descriptor) (idx : ℕ) (o : Output ps) (e : AssetId × ℕ)
      → output_value ps desc idx o ≡ ok e
      → OutputChecked desc o e
  unfolding output_value
  output_value-Checked desc idx o e h =
      let (e1, he, h1) = >>=-eq-ok (explicit_fields ps idx o.asset o.amount) _ e h in
      let (f, hf, h2) = >>=-eq-ok (blinded_fields ps idx o) _ e h1 in
      let (asset, h3) =
        reject_if-eq-ok (not (blind_asset_proof_verify f.0.1 e1.0 f.0.0)) _ _ e h2 in
      let (value, h4) =
        reject_if-eq-ok (not (blind_value_proof_verify f.1.1 e1.1 f.0.0 f.1.0)) _ _ e h3 in
      let (k, hk, h5) = >>=-eq-ok (ok_or _ _) _ e h4 in
      let (s, hs, h6) = >>=-eq-ok (ok_or _ _) _ e h5 in
      let (differ, h7) = reject_if-eq-ok (not (committed ps f.0.0 f.1.0 s)) _ _ e h6 in
      let (some_asset, some_amount) = explicit_fields-eq-ok idx o.asset o.amount e1 he in
      subst (λ (x : AssetId × ℕ). OutputChecked desc o x) (ok_injective h7)
        (record {
          asset = some_asset;
          amount = some_amount;
          fields = f;
          blinded = ok_or-eq-ok _ _ f hf;
          asset_proved = unnegated _ asset;
          amount_proved = unnegated _ value;
          key = k;
          has_key = ok_or-eq-ok _ _ k hk;
          secrets = s;
          unblinds = ok_or-eq-ok _ _ s hs;
          matches = unnegated _ differ;
        })

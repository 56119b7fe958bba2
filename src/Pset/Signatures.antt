-- ===== src/Pset/Signatures.antt =====
-- lwk_common/src/lib.rs and model.rs: who signed the inputs of a partially signed transaction, and who is to.
use satsails_lwk.Common.{
  Bool, true, false, List, [], ◌∷◌, ◌++◌, append-nil, append_assoc, ◌≡◌, refl, ap, ◌∙◌, Bool-cases,
  inl, inr, map, concat, keep, not,
}
use satsails_lwk.Common.Extend.{contains}
use satsails_lwk.Wollet.{Elements}
use satsails_lwk.Pset.{Psets, Input, KeySource}

module _ {el : Elements} (ps : Psets el) where
  open ps use {PublicKey, Fingerprint, public_key_eq}

  pub record PsetSignatures : Type 0 where
    pub has_signature : List (PublicKey × KeySource ps)
    pub missing_signature : List (PublicKey × KeySource ps)

  abbrev pub signed : Input ps → PublicKey × KeySource ps → Bool
  signed i (pk, source) = contains ⦃eq = public_key_eq⦄ i.partial_sigs pk

  abbrev pub push : Bool → PublicKey × KeySource ps → PsetSignatures → PsetSignatures
  push true k s = record s { has_signature = s.has_signature ++ (k ∷ []) }
  push false k s = record s { missing_signature = s.missing_signature ++ (k ∷ []) }

  unfoldable pub split_keys :
      Input ps → List (PublicKey × KeySource ps) → PsetSignatures → PsetSignatures
  split_keys i [] s = s
  split_keys i (k ∷ ks) s = split_keys i ks (push (signed i k) k s)

  unfoldable pub pset_signatures : List (Input ps) → List PsetSignatures
  pset_signatures inputs =
      map
        (λ (i : Input ps).
          split_keys i i.bip32_derivation (record { has_signature = []; missing_signature = [] }))
        inputs

  abbrev fingerprint : PublicKey × KeySource ps → Fingerprint
  fingerprint (pk, (f, path)) = f

  -- Sets of fingerprints, as lists.
  unfoldable pub fingerprints_has : List PsetSignatures → List Fingerprint
  fingerprints_has sigs =
      concat (map (λ (s : PsetSignatures). map fingerprint s.has_signature) sigs)

  unfoldable pub fingerprints_missing : List PsetSignatures → List Fingerprint
  fingerprints_missing sigs =
      concat (map (λ (s : PsetSignatures). map fingerprint s.missing_signature) sigs)

  -- What is signed and what is not, in the order of the keys.
  abbrev pub sorted_keys : Input ps → PsetSignatures
  sorted_keys i = record {
    has_signature = keep (signed i) i.bip32_derivation;
    missing_signature = keep (λ k. not (signed i k)) i.bip32_derivation;
  }

  split_keys-keep :
      (i : Input ps) (ks : List (PublicKey × KeySource ps)) (s : PsetSignatures)
      → split_keys i ks s ≡ record {
        has_signature = s.has_signature ++ keep (signed i) ks;
        missing_signature = s.missing_signature ++ keep (λ k. not (signed i k)) ks;
      }
  unfolding split_keys
  split_keys-keep i [] s = simp (append-nil s.has_signature, append-nil s.missing_signature)
  split_keys-keep i (k ∷ ks) s = elim (Bool-cases (signed i k)) [
    | inl e ↦ rw e (
        split_keys-keep i ks (push true k s)
        ∙ ap
            (λ x. record {
              has_signature = x;
              missing_signature = s.missing_signature ++ keep (λ k. not (signed i k)) ks;
            })
            (append_assoc s.has_signature (k ∷ []) (keep (signed i) ks)))
    | inr e ↦ rw e (
        split_keys-keep i ks (push false k s)
        ∙ ap
            (λ x. record {
              has_signature = s.has_signature ++ keep (signed i) ks;
              missing_signature = x;
            })
            (append_assoc s.missing_signature (k ∷ []) (keep (λ k. not (signed i k)) ks)))
  ]

  -- Each input's keys are sorted into those that signed it and those that did not, in their order.
  pub pset_signatures-sorted_keys :
      (inputs : List (Input ps)) → pset_signatures inputs ≡ map sorted_keys inputs
  unfolding pset_signatures
  pset_signatures-sorted_keys [] = refl
  pset_signatures-sorted_keys (i ∷ is) =
      let first : split_keys i i.bip32_derivation
            (record { has_signature = []; missing_signature = [] })
          ≡ sorted_keys i =
        split_keys-keep i i.bip32_derivation
          (record { has_signature = []; missing_signature = [] }) in
      let rest = pset_signatures-sorted_keys is in cc

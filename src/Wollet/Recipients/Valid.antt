-- ===== src/Wollet/Recipients/Valid.antt =====
-- The recipients that lwk_wollet/src/tx_builder.rs lets into a builder, and its issuance requests.
use satsails_lwk.Common.{
  ℕ, List, [], ◌∷◌, ◌++◌, Option, none, some, Result, ok, err, ◌>>=◌, ◌>>◌, >>=-eq-ok, ◌≡◌, ◌⊎◌,
  inl, inr, refl, ap, sym, append-nil, append_assoc, subst, ◌∙◌, All, arith, if◌then◌else◌, Bool,
  true, false, ◌==◌, nat_eq, ◌<◌, reject_if,
}
use Prim.Native.String.{String}
use text.Mathlib.Text.{◌==◌ as str_eq}
use satsails_lwk.Wollet.{
  Elements, Error, invalid_amount, not_confidential_address, issuance_already_set,
}
use satsails_lwk.Wollet.TxBuilder.{Descriptor, Recipient, recipient_at}
use satsails_lwk.Wollet.Recipients.{
  Addresses, UnvalidatedRecipient, validate_address, validate_satoshi, validate_asset, validate,
  from_address, add_validated_recipient, Builder, add_unvalidated_recipient,
  add_unvalidated_recipients, set_unvalidated_recipients, add_recipient, issue_asset, reissue_asset,
  reject_second, check_receiver, issuance, reissuance,
}

positive_amount : (n : ℕ) → 0 < n → (n == 0) ≡ false
positive_amount n h = ground arith

module _ {el : Elements} {desc : Descriptor el} (env : Addresses desc) where
  open env use {
    Address, Network, Contract, blinding_pubkey, parse_with_params, address_to_string,
    asset_to_string, parse_asset, address_script,
  }

  -- A recipient of a positive amount, whose output is blinded unless it is burnt.
  abbrev pub Sendable : Recipient desc → Type 0
  Sendable r =
      (¬ (r.satoshi ≡ 0))
      × ((r.script_pubkey ≡ el.burn_script)
          ⊎ ((key : desc.PublicKey) × (r.blinding_pubkey ≡ some key)))

  confidential :
      (a : Address) (key : Option desc.PublicKey) (address : Address)
      → blinding_pubkey a ≡ key
      → (elim key [ none ↦ err not_confidential_address | some _ ↦ ok a ]) ≡ ok address
      → (k : desc.PublicKey) × (blinding_pubkey address ≡ some k)
  confidential a none address e h = cc
  confidential a (some k) address e h =
      let same : a ≡ address = cc in (k, ap blinding_pubkey (sym same) ∙ e)

  validate_address-Blinded :
      (text : String) (network : Network) (address : Address)
      → validate_address env text network ≡ ok address
      → (key : desc.PublicKey) × (blinding_pubkey address ≡ some key)
  unfolding validate_address
  validate_address-Blinded text network address h =
      let (a, parsed, checked) = >>=-eq-ok (parse_with_params network text) _ address h in
      confidential a (blinding_pubkey a) address refl checked

  -- The output that an address or "burn" leads to, for the amount and asset it is given.
  recipient_of :
      (b : Bool) (r : UnvalidatedRecipient) (network : Network) (asset : el.AssetId) (n : ℕ)
      (valid : Recipient desc)
      → (n ≡ r.satoshi) × (¬ (n ≡ 0))
      → (if b
          then ok (recipient_at desc n asset (el.burn_script, none))
          else (validate_address env r.address network
              >>= (λ address. ok (from_address env r.satoshi address asset))))
        ≡ ok valid
      → Sendable valid
  recipient_of true r network asset n valid positive h =
      let same : recipient_at desc n asset (el.burn_script, none) ≡ valid = cc in
      subst Sendable same (positive.1, inl refl)
  recipient_of false r network asset n valid positive h =
      let (a, checked, built) = >>=-eq-ok (validate_address env r.address network) _ valid h in
      let same : from_address env r.satoshi a asset ≡ valid = cc in
      subst Sendable same (
        λ zero. positive.1 (positive.0 ∙ zero),
        inr (validate_address-Blinded r.address network a checked),
      )

  validate_satoshi-positive :
      (r : UnvalidatedRecipient) (n : ℕ)
      → validate_satoshi env r ≡ ok n
      → (n ≡ r.satoshi) × (¬ (n ≡ 0))
  validate_satoshi-positive r n h = ground arith

  validate-Sendable :
      (r : UnvalidatedRecipient) (network : Network) (valid : Recipient desc)
      → validate env r network ≡ ok valid
      → Sendable valid
  unfolding validate
  validate-Sendable r network valid h =
      let (n, positive, after) = >>=-eq-ok (validate_satoshi env r) _ valid h in
      let (asset, known, built) = >>=-eq-ok (validate_asset env r network) _ valid after in
      recipient_of (str_eq r.address "burn") r network asset n valid
        (validate_satoshi-positive r n positive) built

  -- The recipients in their order, or the first error.
  unfoldable pub validate_all :
      List UnvalidatedRecipient → Network → Result Error (List (Recipient desc))
  validate_all [] network = ok []
  validate_all (r ∷ rs) network =
      validate env r network >>= (λ valid. validate_all rs network >>= (λ rest. ok (valid ∷ rest)))

  abbrev pub with_recipients : Builder env → List (Recipient desc) → Builder env
  with_recipients b rs = record b { recipients = rs }

  regrouped :
      (b : Builder env) (x : Recipient desc) (later : Result Error (List (Recipient desc)))
      → (later >>= (λ vs. ok (with_recipients b ((b.recipients ++ (x ∷ [])) ++ vs)))) ≡ (
          (later >>= (λ vs. ok (x ∷ vs)))
          >>= (λ valid. ok (with_recipients b (b.recipients ++ valid))))
  regrouped b x (err e) = refl
  regrouped b x (ok vs) =
      ap (λ rs. ok (with_recipients b rs)) (append_assoc b.recipients (x ∷ []) vs)

  validated_first :
      (b : Builder env) (rs : List UnvalidatedRecipient) (first : Result Error (Recipient desc))
      → ((x : Recipient desc)
          → add_unvalidated_recipients env (add_validated_recipient env b x) rs ≡ (
              validate_all rs b.network
              >>= (λ vs. ok (with_recipients b ((b.recipients ++ (x ∷ [])) ++ vs)))))
      → ((first >>= (λ x. ok (add_validated_recipient env b x)))
          >>= (λ b. add_unvalidated_recipients env b rs))
        ≡ ((first >>= (λ x. validate_all rs b.network >>= (λ vs. ok (x ∷ vs))))
            >>= (λ valid. ok (with_recipients b (b.recipients ++ valid))))
  validated_first b rs (err e) rest = refl
  validated_first b rs (ok x) rest = rest x ∙ regrouped b x (validate_all rs b.network)

  add_unvalidated_recipients-validate_all :
      (b : Builder env) (rs : List UnvalidatedRecipient)
      → add_unvalidated_recipients env b rs
        ≡ (validate_all rs b.network >>= (λ valid. ok (with_recipients b (b.recipients ++ valid))))
  unfolding add_unvalidated_recipients add_unvalidated_recipient validate_all
  add_unvalidated_recipients-validate_all b [] =
      ap (λ rs. ok (with_recipients b rs)) (sym (append-nil b.recipients))
  add_unvalidated_recipients-validate_all b (r ∷ rs) =
      validated_first b rs (validate env r b.network)
        (λ x. add_unvalidated_recipients-validate_all (add_validated_recipient env b x) rs)

  validate_all-Sendable :
      (rs : List UnvalidatedRecipient) (network : Network) (valid : List (Recipient desc))
      → validate_all rs network ≡ ok valid
      → All Sendable valid
  unfolding validate_all
  validate_all-Sendable [] network valid h =
      let same : [] ≡ valid = cc in subst (All Sendable) same tt
  validate_all-Sendable (r ∷ rs) network valid h =
      let (v, checked, after) = >>=-eq-ok (validate env r network) _ valid h in
      let (vs, later, built) = >>=-eq-ok (validate_all rs network) _ valid after in
      let same : v ∷ vs ≡ valid = cc in
      subst (All Sendable) same
        (validate-Sendable r network v checked, validate_all-Sendable rs network vs later)

  -- Setting the recipients validates them in their order, stops at the first that is not valid, and forgets
  -- the recipients before.
  pub set_unvalidated_recipients-validate_all :
      (b : Builder env) (rs : List UnvalidatedRecipient)
      → set_unvalidated_recipients env b rs
        ≡ (validate_all rs b.network >>= (λ valid. ok (with_recipients b valid)))
  unfolding set_unvalidated_recipients
  set_unvalidated_recipients-validate_all b rs =
      add_unvalidated_recipients-validate_all (with_recipients b []) rs

  -- Where the recipients could be set, each has a positive amount, and is blinded or burnt.
  pub set_unvalidated_recipients-Sendable :
      (b : Builder env) (rs : List UnvalidatedRecipient) (b' : Builder env)
      → set_unvalidated_recipients env b rs ≡ ok b'
      → All Sendable b'.recipients
  set_unvalidated_recipients-Sendable b rs b' h =
      let (valid, checked, set) =
        >>=-eq-ok (validate_all rs b.network) _ b'
          (sym (set_unvalidated_recipients-validate_all b rs) ∙ h) in
      let same : with_recipients b valid ≡ b' = cc in
      subst (λ (c : Builder env). All Sendable c.recipients) same
        (validate_all-Sendable rs b.network valid checked)

  -- A recipient given by its address and asset is added as they are, where elements reads its own texts
  -- back, the address is confidential, the amount is positive, and no text is empty or "burn".
  pub add_recipient-adds :
      (b : Builder env) (address : Address) (satoshi : ℕ) (asset : el.AssetId)
      (key : desc.PublicKey)
      → parse_with_params b.network (address_to_string address) ≡ ok address
      → parse_asset (asset_to_string asset) ≡ ok asset
      → str_eq (address_to_string address) "burn" ≡ false
      → str_eq (asset_to_string asset) "" ≡ false
      → blinding_pubkey address ≡ some key
      → 0 < satoshi
      → add_recipient env b address satoshi asset
        ≡ ok (add_validated_recipient env b (from_address env satoshi address asset))
  unfolding add_recipient add_unvalidated_recipient validate validate_asset validate_address
  add_recipient-adds b address satoshi asset key ha hx nb ne hk pos =
      rw (positive_amount satoshi pos, ne, hx, nb, ha, hk)
        (ap
          (λ k. ok (
            add_validated_recipient env b
              (recipient_at desc satoshi asset (address_script address, k))))
          hk)

  -- Every further request is an error.
  abbrev pub Refuses : Builder env → Type 0
  Refuses b =
      ((sats : ℕ) (receiver : Option Address) (tokens : ℕ) (token_receiver : Option Address)
          (contract : Option Contract)
        → issue_asset env b sats receiver tokens token_receiver contract ≡ err issuance_already_set)
      × ((asset : el.AssetId) (sats : ℕ) (receiver : Option Address) (tx : Option el.Transaction)
          → reissue_asset env b asset sats receiver tx ≡ err issuance_already_set)

  result_of : {b c : Builder env} → ◌≡◌ {A = Result Error (Builder env)} (ok b) (ok c) → b ≡ c
  result_of h = cc

  after_checks :
      (r : Result Error (Unit {0})) (rest : Result Error (Builder env)) (b : Builder env)
      → (r >> rest) ≡ ok b
      → rest ≡ ok b
  after_checks (ok _) rest b h = h
  after_checks (err e) rest b h = cc

  rejected-Refuses : (b : Builder env) → reject_second env b ≡ err issuance_already_set → Refuses b
  unfolding issue_asset reissue_asset
  rejected-Refuses b h =
      (λ sats receiver tokens token_receiver contract. rw h, λ asset sats receiver tx. rw h)

  -- A builder with an issuance request refuses a second one of either kind.
  pub issue_asset-Refuses :
      (b : Builder env) (sats : ℕ) (receiver : Option Address) (tokens : ℕ)
      (token_receiver : Option Address) (contract : Option Contract) (b' : Builder env)
      → issue_asset env b sats receiver tokens token_receiver contract ≡ ok b'
      → Refuses b'
  unfolding issue_asset
  issue_asset-Refuses b sats receiver tokens token_receiver contract b' h =
      let h1 = after_checks (reject_second env b) _ b' h in
      let h2 = after_checks (check_receiver env receiver b.network) _ b' h1 in
      let h3 = after_checks (check_receiver env token_receiver b.network) _ b' h2 in
      let same : record b {
        issuance_request = issuance sats receiver tokens token_receiver contract;
      }
          ≡ b' =
        result_of (after_checks (reject_if (sats == 0) invalid_amount) _ b' h3) in
      subst Refuses same (rejected-Refuses _ refl)

  -- A builder with a reissuance request refuses a second request of either kind.
  pub reissue_asset-Refuses :
      (b : Builder env) (asset : el.AssetId) (sats : ℕ) (receiver : Option Address)
      (tx : Option el.Transaction) (b' : Builder env)
      → reissue_asset env b asset sats receiver tx ≡ ok b'
      → Refuses b'
  unfolding reissue_asset
  reissue_asset-Refuses b asset sats receiver tx b' h =
      let h1 = after_checks (reject_second env b) _ b' h in
      let h2 = after_checks (check_receiver env receiver b.network) _ b' h1 in
      let same : record b { issuance_request = reissuance asset sats receiver tx } ≡ b' =
        result_of (after_checks (reject_if (sats == 0) invalid_amount) _ b' h2) in
      subst Refuses same (rejected-Refuses _ refl)

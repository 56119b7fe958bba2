-- ===== src/Wollet/TxBuilder/Selection.antt =====
-- The values that the selection of coins in lwk_wollet/src/tx_builder.rs puts into a draft.
use satsails_lwk.Common.{
  ℕ, ◌+◌, ◌%◌, ◌^◌, ◌≤◌, Bool, true, false, List, [], ◌∷◌, Result, ok, err, ◌>>=◌, >>=-eq-ok,
  ok_injective, if◌then◌else◌, ==_sound, ◌≡◌, refl, sym, ap, ◌∙◌, subst, arith, Bool-cases, inl,
  inr, All, leb, ltb, leb→le, ltb→le, keep,
}
use satsails_lwk.Wollet.{Elements, Error, insufficient_funds}
use satsails_lwk.Wollet.Update.{RawCache}
use satsails_lwk.Wollet.Utxos.{WalletTxOut, asset_utxos, utxos}
use satsails_lwk.Wollet.TxBuilder.{
  Descriptor, sub_u64, Recipient, Draft, add_input, add_change, add_recipients, settle, select,
  add_asset, add_assets,
}
use satsails_lwk.Wollet.TxBuilder.Values.{
  share, share_add, share_sub, is_asset, input_total, output_total, paid_in, paid_out,
  add_input-totals, add_change-totals, add_recipients-totals,
}

pub if-eq-ok {ℓ κ} :
    {E : Type ℓ} {A : Type κ} (b : Bool) (e : E) (r : Result E A) (a : A)
    → (if b then err e else r) ≡ ok a
    → (b ≡ false) × (r ≡ ok a)
if-eq-ok true e r a h = cc
if-eq-ok false e r a h = (refl, h)

if-then {ℓ} : {A : Type ℓ} (b : Bool) (x y z : A) → b ≡ true → (if b then x else y) ≡ z → x ≡ z
if-then true x y z e h = h
if-then false x y z e h = cc

if-else {ℓ} : {A : Type ℓ} (b : Bool) (x y z : A) → b ≡ false → (if b then x else y) ≡ z → y ≡ z
if-else true x y z e h = cc
if-else false x y z e h = h

pub ok_pair {ℓ κ} :
    {A : Type ℓ} {B : Type κ} (a a' : A) (b b' : B)
    → ◌≡◌ {A = Result Error (A × B)} (ok (a, b)) (ok (a', b'))
    → (a ≡ a') × (b ≡ b')
ok_pair a a' b b' h = (cc, cc)

pub All-keep_same {ℓ κ} :
    {A : Type ℓ} (P : A → Type κ) (p : A → Bool) (xs : List A)
    → ((x : A) → p x ≡ true → P x)
    → All P (keep p xs)
All-keep_same P p [] h = tt
All-keep_same P p (x ∷ xs) h = elim (Bool-cases (p x)) [
  | inl e ↦ rw e (h x e, All-keep_same P p xs h)
  | inr e ↦ rw e (All-keep_same P p xs h)
]

pub share_zero : (b : Bool) → share b 0 ≡ 0
share_zero true = refl
share_zero false = refl

module _ {el : Elements} (desc : Descriptor el) where
  open el use {AssetId, asset_eq}

  settle-totals :
      (a : AssetId) (out inn : ℕ) (d : Draft desc) (d' : Draft desc) (in' : ℕ) (b : AssetId)
      → out ≤ inn
      → settle desc d a out inn ≡ ok (d', in')
      → (in' ≡ inn)
        × (d'.inputs ≡ d.inputs)
        × ((paid_out desc d' b + share (is_asset desc a b) out) % 2 ^ 64
            ≡ (paid_out desc d b + share (is_asset desc a b) inn) % 2 ^ 64)
  settle-totals a out inn d d' in' b le h = elim (Bool-cases (ltb out inn)) [
    | inl e ↦
        let h1 : (add_change desc d (sub_u64 inn out) a >>= (λ d. ok (d, inn))) ≡ ok (d', in') =
          if-then (ltb out inn) _ _ _ e h in
        let (d1, hc, h2) =
          >>=-eq-ok (add_change desc d (sub_u64 inn out) a) (λ d. ok (d, inn)) (d', in') h1 in
        let (same, amount) = ok_pair d1 d' inn in' h2 in
        let (outs, ins) = add_change-totals desc d (sub_u64 inn out) a d1 b hc in
        let sub : (share (is_asset desc a b) (sub_u64 inn out) + share (is_asset desc a b) out)
              % 2 ^ 64
            ≡ share (is_asset desc a b) inn % 2 ^ 64 =
          share_sub (is_asset desc a b) inn out in
        let sums : (paid_out desc d1 b + share (is_asset desc a b) out) % 2 ^ 64
            ≡ (paid_out desc d b + share (is_asset desc a b) inn) % 2 ^ 64 =
          omega arith in
        (
          sym amount,
          subst (λ (x : Draft desc). x.inputs ≡ d.inputs) same ins,
          subst
              (λ (x : Draft desc).
                (paid_out desc x b + share (is_asset desc a b) out) % 2 ^ 64
                ≡ (paid_out desc d b + share (is_asset desc a b) inn) % 2 ^ 64)
              same sums,
        )
    | inr e ↦
        let h1 : ◌≡◌ {A = Result Error (Draft desc × ℕ)} (ok (d, inn)) (ok (d', in')) =
          if-else (ltb out inn) _ _ _ e h in
        let (same, amount) = ok_pair d d' inn in' h1 in
        let le' : inn ≤ out = ltb→le out inn e in
        let equal : out ≡ inn = omega arith in
        (
          sym amount,
          ap (λ (x : Draft desc). x.inputs) (sym same),
          subst
              (λ (x : Draft desc).
                (paid_out desc x b + share (is_asset desc a b) out) % 2 ^ 64
                ≡ (paid_out desc d b + share (is_asset desc a b) inn) % 2 ^ 64)
              same (ap (λ n. (paid_out desc d b + share (is_asset desc a b) n) % 2 ^ 64) equal),
        )
  ]

  -- What a selection adds to the inputs and the outputs.
  abbrev Selected : Draft desc → Draft desc → AssetId → AssetId → ℕ → ℕ → ℕ → Type 0
  Selected d d' a b out inn in' =
      ((paid_in desc d' b + share (is_asset desc a b) inn) % 2 ^ 64
        ≡ (paid_in desc d b + share (is_asset desc a b) in') % 2 ^ 64)
      × ((paid_out desc d' b + share (is_asset desc a b) out) % 2 ^ 64
          ≡ (paid_out desc d b + share (is_asset desc a b) in') % 2 ^ 64)

  select-totals :
      (c : RawCache el) (a : AssetId) (out : ℕ) (us : List (WalletTxOut el)) (d : Draft desc)
      (inn : ℕ) (d' : Draft desc) (in' : ℕ) (b : AssetId)
      → All (λ (u : WalletTxOut el). u.unblinded.asset ≡ a) us
      → inn ≤ out
      → out ≤ in'
      → select desc c a out us d inn ≡ ok (d', in')
      → Selected d d' a b out inn in'
  unfolding select
  select-totals c a out [] d inn d' in' b all below reached h =
      let (same, amount) = ok_pair d d' inn in' h in
      let equal : out ≡ in' = omega arith in
      (
        ap (λ (x : Draft desc). (paid_in desc x b + share (is_asset desc a b) inn) % 2 ^ 64)
              (sym same)
            ∙ ap (λ n. (paid_in desc d b + share (is_asset desc a b) n) % 2 ^ 64) amount,
        ap (λ (x : Draft desc). (paid_out desc x b + share (is_asset desc a b) out) % 2 ^ 64)
              (sym same)
            ∙ ap (λ n. (paid_out desc d b + share (is_asset desc a b) n) % 2 ^ 64) equal,
      )
  select-totals c a out (u ∷ us) d inn d' in' b all below reached h =
      let t : ℕ = (inn + u.unblinded.value) % 2 ^ 64 in
      let (d1, hi, h1) = >>=-eq-ok (add_input desc c d u) _ (d', in') h in
      let (ins, outs) = add_input-totals desc c d u d1 b hi in
      let one : share (is_asset desc u.unblinded.asset b) u.unblinded.value
          ≡ share (is_asset desc a b) u.unblinded.value =
        ap (λ x. share (is_asset desc x b) u.unblinded.value) all.0 in
      let sum : share (is_asset desc a b) t % 2 ^ 64
          ≡ (share (is_asset desc a b) inn + share (is_asset desc a b) u.unblinded.value) % 2 ^ 64 =
        share_add (is_asset desc a b) inn u.unblinded.value in
      let outs_same : paid_out desc d1 b ≡ paid_out desc d b = ap (output_total desc b) outs in
      elim (Bool-cases (leb out t)) [
        | inl e ↦
            let enough : out ≤ t = leb→le out t e in
            let h2 : settle desc d1 a out t ≡ ok (d', in') =
              if-then (leb out t) _ (select desc c a out us d1 t) _ e h1 in
            let (amount, kept, paid) = settle-totals a out t d1 d' in' b enough h2 in
            let ins' : paid_in desc d' b ≡ paid_in desc d1 b = ap (input_total desc b) kept in
            let all_in : share (is_asset desc a b) in' ≡ share (is_asset desc a b) t =
              ap (share (is_asset desc a b)) amount in
            (omega arith, omega arith)
        | inr e ↦
            let less : t ≤ out = ground arith in
            let h2 : select desc c a out us d1 t ≡ ok (d', in') =
              if-else (leb out t) (settle desc d1 a out t) _ _ e h1 in
            let (ih, paid) = select-totals c a out us d1 t d' in' b all.1 less reached h2 in
            (omega arith, omega arith)
      ]

  -- What goes in and what goes out change alike.
  abbrev pub Even : Draft desc → Draft desc → AssetId → Type 0
  Even d d' b =
      (paid_in desc d' b + paid_out desc d b) % 2 ^ 64
      ≡ (paid_in desc d b + paid_out desc d' b) % 2 ^ 64

  pub asset_utxos-OfAsset :
      (c : RawCache el) (a : AssetId) (us : List (WalletTxOut el))
      → asset_utxos el c a ≡ ok us
      → All (λ (u : WalletTxOut el). u.unblinded.asset ≡ a) us
  unfolding asset_utxos
  asset_utxos-OfAsset c a us h =
      let (all_us, _, hk) =
        >>=-eq-ok (utxos el c)
          (λ us. ok (keep (λ (u : WalletTxOut el). is_asset desc u.unblinded.asset a) us)) us h in
      subst (All (λ (u : WalletTxOut el). u.unblinded.asset ≡ a)) (ok_injective hk)
        (All-keep_same _ _ all_us (λ u t. ==_sound ⦃eq = asset_eq⦄ u.unblinded.asset a t))

  add_asset-Even :
      (c : RawCache el) (rs : List (Recipient desc)) (a : AssetId) (d d' : Draft desc) (b : AssetId)
      → add_asset desc c rs a d ≡ ok d'
      → Even d d' b
  unfolding add_asset
  add_asset-Even c rs a d d' b h =
      let mine : List (Recipient desc) =
        keep (λ (r : Recipient desc). is_asset desc r.asset a) rs in
      let paid : Draft desc × ℕ = add_recipients desc d mine 0 in
      let (us, hu, h1) = >>=-eq-ok (asset_utxos el c a) _ d' h in
      let (e, hs, h2) = >>=-eq-ok (select desc c a paid.1 us paid.0 0) _ d' h1 in
      let (funds, h3) = if-eq-ok (ltb e.1 paid.1) insufficient_funds (ok e.0) d' h2 in
      let same : e.0 ≡ d' = cc in
      let of_a : All (λ (u : WalletTxOut el). u.unblinded.asset ≡ a) us =
        asset_utxos-OfAsset c a us hu in
      let to_a : All (λ (r : Recipient desc). r.asset ≡ a) mine =
        All-keep_same _ _ rs (λ r t. ==_sound ⦃eq = asset_eq⦄ r.asset a t) in
      let (outs, ins) = add_recipients-totals desc a mine d 0 b to_a in
      let (got, spent) =
        select-totals c a paid.1 us paid.0 0 e.0 e.1 b of_a (omega arith) (ltb→le e.1 paid.1 funds)
          hs in
      let ins' : paid_in desc paid.0 b ≡ paid_in desc d b = ap (input_total desc b) ins in
      let none : share (is_asset desc a b) 0 ≡ 0 = share_zero (is_asset desc a b) in
      subst (λ (x : Draft desc). Even d x b) same (omega arith)

  pub add_assets-Even :
      (c : RawCache el) (rs : List (Recipient desc)) (assets : List AssetId) (d d' : Draft desc)
      (b : AssetId)
      → add_assets desc c rs assets d ≡ ok d'
      → Even d d' b
  unfolding add_assets
  add_assets-Even c rs [] d d' b h =
      let same : d ≡ d' = cc in subst (λ (x : Draft desc). Even d x b) same (omega arith)
  add_assets-Even c rs (a ∷ rest) d d' b h =
      let (d1, h1, h2) = >>=-eq-ok (add_asset desc c rs a d) (add_assets desc c rs rest) d' h in
      let one : Even d d1 b = add_asset-Even c rs a d d1 b h1 in
      let more : Even d1 d' b = add_assets-Even c rs rest d1 d' b h2 in omega arith

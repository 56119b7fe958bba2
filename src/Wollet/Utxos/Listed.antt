-- ===== src/Wollet/Utxos/Listed.antt =====
-- Which outputs `txos_inner` of lwk_wollet/src/wollet.rs finds, with what its list of spent outpoints says.
use mathlib.Core.List.{Memᴰ}
use satsails_lwk.Common.{
  ℕ, zero, suc, ◌+◌, ◌%◌, ◌^◌, Bool, true, false, List, [], ◌∷◌, Option, none, some, Result, ok,
  err, >>=-eq-ok, ok_injective, ok_or-eq-ok, ok_or, map, not, get_elem?, nat_eq, inl, inr, ◌≡◌,
  refl, sym, ap, ◌∙◌, subst, arith,
}
use satsails_lwk.Common.HashMap.{get}
use satsails_lwk.Common.Extend.{contains}
use satsails_lwk.Common.Members.{
  mem-append_left, mem-append_right, mem-append-cases, mem-map, mem-map-inv, mem-concat_map,
  mem-concat_map-inv, mem-keep, mem-keep-inv, Mem-cases,
}
use satsails_lwk.Wollet.{
  Elements, Chain, ChildNumber, normal, hardened, OutPoint, TxOutSecrets, outpoint_eq, Error, no_tx,
}
use satsails_lwk.Wollet.Update.{RawCache}
use satsails_lwk.Wollet.Utxos.{
  WalletTxOut, index, index_of, mine, wallet_txo, tx_txos, all_txos, with_outpoint, enumerate,
}

mem-enumerate {ℓ} :
    {A : Type ℓ} (k : ℕ) (xs : List A) (n : ℕ) (x : A)
    → get_elem? xs n ≡ some x
    → Memᴰ (k + n, x) (enumerate k xs)
mem-enumerate k [] n x h = cc
mem-enumerate k (y ∷ ys) zero x h =
    let same : x ≡ y = cc in
    let at : k + 0 ≡ k = omega arith in Memᴰ.head (ap (λ z. (k + 0, z)) same ∙ ap (λ m. (m, y)) at)
mem-enumerate k (y ∷ ys) (suc n) x h =
    let at : suc k + n ≡ k + suc n = omega arith in
    subst (λ m. Memᴰ (m, x) (enumerate k (y ∷ ys))) at (Memᴰ.tail (mem-enumerate (suc k) ys n x h))

mem-enumerate-inv {ℓ} :
    {A : Type ℓ} (k : ℕ) (xs : List A) (e : ℕ × A)
    → Memᴰ e (enumerate k xs)
    → (n : ℕ) × (get_elem? xs n ≡ some e.1) × (e.0 ≡ k + n)
mem-enumerate-inv k [] e m = elim m [ ]
mem-enumerate-inv k (y ∷ ys) e (Memᴰ.head h) =
    let at : k ≡ k + 0 = omega arith in (0, ap (λ z. some z.1) (sym h), ap (λ z. z.0) h ∙ at)
mem-enumerate-inv k (y ∷ ys) e (Memᴰ.tail m) =
    let (n, there, at) = mem-enumerate-inv (suc k) ys e m in (suc n, there, omega arith)

some_injective {ℓ} : {A : Type ℓ} {a b : A} → ◌≡◌ {A = Option A} (some a) (some b) → a ≡ b
some_injective h = cc

not-true : (b : Bool) → not b ≡ true → b ≡ false
not-true true h = cc
not-true false h = refl

module _ (el : Elements) where
  open el use {Txid, Transaction, TxOut, txid_eq, script_eq, outputs, script_pubkey, txid_to_string}

  -- An output of a listed transaction that is unblinded, is paid to a path of the wallet, and is not among
  -- some outpoints.
  pub record Found (c : RawCache el) (sp : List (OutPoint el)) (e : Txid × Option ℕ)
      (u : WalletTxOut el) : Type 0 where
    pub tx : Transaction
    pub known : get ⦃eq = txid_eq⦄ c.all_txs e.0 ≡ some tx
    pub vout : ℕ
    pub output : TxOut
    pub present : get_elem? (outputs tx) vout ≡ some output
    pub outpoint : u.outpoint ≡ record { txid = el.txid tx; vout = vout % 2 ^ 32 }
    pub script : u.script_pubkey ≡ script_pubkey output
    pub height : u.height ≡ e.1
    pub seen : get c.unblinded u.outpoint ≡ some u.unblinded
    pub ours :
        get ⦃eq = script_eq⦄ c.paths u.script_pubkey ≡ some (u.ext_int, normal u.wildcard_index)
    pub free : contains sp u.outpoint ≡ false

  index_of-eq-ok :
      (o : Option (Chain × ChildNumber)) (r : Chain × ℕ)
      → index_of el o ≡ ok r
      → o ≡ some (r.0, normal r.1)
  index_of-eq-ok none r h = cc
  index_of-eq-ok (some (chain, hardened i)) r h = cc
  index_of-eq-ok (some (chain, normal i)) r h =
      ap (λ (x : Chain × ℕ). some (x.0, normal x.1)) (ok_injective h)

  abbrev output_of :
      OutPoint el → el.Script → Option ℕ → TxOutSecrets el → Chain × ℕ → WalletTxOut el
  output_of o script height s r = record {
    outpoint = o;
    script_pubkey = script;
    height = height;
    unblinded = s;
    wildcard_index = r.1;
    ext_int = r.0;
  }

  mem-mine-inv :
      (o : OutPoint el) (script : el.Script) (height : Option ℕ) (s : TxOutSecrets el)
      (r : Result Error (Chain × ℕ)) (u : WalletTxOut el)
      → Memᴰ u (mine el o script height s r)
      → (p : Chain × ℕ) × (r ≡ ok p) × (u ≡ output_of o script height s p)
  mem-mine-inv o script height s (err e) u m = elim m [ ]
  mem-mine-inv o script height s (ok p) u (Memᴰ.head e) = (p, refl, e)
  mem-mine-inv o script height s (ok p) u (Memᴰ.tail m) = elim m [ ]

  mem-wallet_txo-inv :
      (c : RawCache el) (height : Option ℕ) (e : OutPoint el × TxOut)
      (found : Option (TxOutSecrets el)) (u : WalletTxOut el)
      → Memᴰ u (wallet_txo el c height e found)
      → (s : TxOutSecrets el) × (found ≡ some s)
        × (p : Chain × ℕ) × (index el c (script_pubkey e.1) ≡ ok p)
        × (u ≡ output_of e.0 (script_pubkey e.1) height s p)
  mem-wallet_txo-inv c height e none u m = elim m [ ]
  mem-wallet_txo-inv c height e (some s) u m =
      let (p, path, same) =
        mem-mine-inv e.0 (script_pubkey e.1) height s (index el c (script_pubkey e.1)) u m in
      (s, refl, p, path, same)

  mem-tx_txos-inv :
      (c : RawCache el) (sp : List (OutPoint el)) (id : Txid) (height : Option ℕ) (tx : Transaction)
      (u : WalletTxOut el)
      → get ⦃eq = txid_eq⦄ c.all_txs id ≡ some tx
      → Memᴰ u (tx_txos el c sp height tx)
      → Found c sp (id, height) u
  unfolding tx_txos index
  mem-tx_txos-inv c sp id height tx u known m =
      let (e, kept, there) = mem-concat_map-inv _ u _ m in
      let (placed, free) = mem-keep-inv _ e _ kept in
      let (ne, at, made) = mem-map-inv (with_outpoint el tx) e _ placed in
      let (n, present, same_n) = mem-enumerate-inv 0 (outputs tx) ne at in
      let (s, seen, p, path, is) = mem-wallet_txo-inv c height e _ u there in
      let n_same : ne.0 ≡ n = omega arith in
      let point : e.0 ≡ record { txid = el.txid tx; vout = n % 2 ^ 32 } =
        ap (λ (x : OutPoint el × TxOut). x.0) made
        ∙ ap (λ k. record { txid = el.txid tx; vout = k % 2 ^ 32 }) n_same in
      let same_output : e.1 ≡ ne.1 = ap (λ (x : OutPoint el × TxOut). x.1) made in
      subst (λ (x : WalletTxOut el). Found c sp (id, height) x) (sym is)
        (record {
          tx = tx;
          known = known;
          vout = n;
          output = ne.1;
          present = present;
          outpoint = point;
          script = ap script_pubkey same_output;
          height = refl;
          seen = seen;
          ours = index_of-eq-ok _ p path;
          free = not-true _ free;
        })

  mem-tx_txos :
      (c : RawCache el) (sp : List (OutPoint el)) (e : Txid × Option ℕ) (u : WalletTxOut el)
      → (f : Found c sp e u) → Memᴰ u (tx_txos el c sp e.1 f.tx)
  unfolding tx_txos index
  mem-tx_txos c sp e u f =
      let placed : Memᴰ (u.outpoint, f.output)
          (map (with_outpoint el f.tx) (enumerate 0 (outputs f.tx))) =
        let at : 0 + f.vout ≡ f.vout = omega arith in
        subst
          (λ (o : OutPoint el).
            Memᴰ (o, f.output) (map (with_outpoint el f.tx) (enumerate 0 (outputs f.tx))))
          (ap (λ k. record { txid = el.txid f.tx; vout = k % 2 ^ 32 }) at ∙ sym f.outpoint)
          (mem-map (with_outpoint el f.tx) (0 + f.vout, f.output) (enumerate 0 (outputs f.tx))
            (mem-enumerate 0 (outputs f.tx) f.vout f.output f.present)) in
      let kept =
        mem-keep (λ (x : OutPoint el × TxOut). not (contains sp x.0)) (u.outpoint, f.output) _
          placed (ap not f.free) in
      let path : get ⦃eq = script_eq⦄ c.paths (script_pubkey f.output)
          ≡ some (u.ext_int, normal u.wildcard_index) =
        subst (λ x. get ⦃eq = script_eq⦄ c.paths x ≡ some (u.ext_int, normal u.wildcard_index))
          f.script f.ours in
      let same : u
          ≡ output_of u.outpoint (script_pubkey f.output) e.1 u.unblinded
              (u.ext_int, u.wildcard_index) =
        ap (λ x. record u { script_pubkey = x }) f.script
        ∙ ap (λ x. record u { script_pubkey = script_pubkey f.output; height = x }) f.height in
      mem-concat_map (λ (x : OutPoint el × TxOut). wallet_txo el c e.1 x (get c.unblinded x.0))
        (u.outpoint, f.output) u _ kept (rw (f.seen, path) (Memᴰ.head same))

  pub mem-all_txos-inv :
      (c : RawCache el) (sp : List (OutPoint el)) (es : List (Txid × Option ℕ))
      (us : List (WalletTxOut el)) (u : WalletTxOut el)
      → all_txos el c sp es ≡ ok us
      → Memᴰ u us
      → (e : Txid × Option ℕ) × Memᴰ e es × Found c sp e u
  unfolding all_txos
  mem-all_txos-inv c sp [] us u h m = elim (subst (Memᴰ u) (sym (ok_injective h)) m) [ ]
  mem-all_txos-inv c sp ((id, height) ∷ es) us u h m =
      let (tx, known, h1) =
        >>=-eq-ok
          (ok_or (get ⦃eq = txid_eq⦄ c.all_txs id) (no_tx "txos no tx " (txid_to_string id))) _ us
          h in
      let (rest, hr, h2) = >>=-eq-ok (all_txos el c sp es) _ us h1 in
      elim (mem-append-cases u (tx_txos el c sp height tx) rest
        (subst (Memᴰ u) (sym (ok_injective h2)) m)) [
          | inl l ↦ (
            (id, height),
            Memᴰ.head refl,
            mem-tx_txos-inv c sp id height tx u (ok_or-eq-ok _ _ tx known) l,
          )
          | inr r ↦
              let (e, there, found) = mem-all_txos-inv c sp es rest u hr r in
              (e, Memᴰ.tail there, found)
        ]

  pub mem-all_txos :
      (c : RawCache el) (sp : List (OutPoint el)) (es : List (Txid × Option ℕ))
      (us : List (WalletTxOut el)) (e : Txid × Option ℕ) (u : WalletTxOut el)
      → all_txos el c sp es ≡ ok us
      → Memᴰ e es
      → Found c sp e u
      → Memᴰ u us
  unfolding all_txos
  mem-all_txos c sp [] us e u h m f = elim m [ ]
  mem-all_txos c sp ((id, height) ∷ es) us e u h m f =
      let (tx, known, h1) =
        >>=-eq-ok
          (ok_or (get ⦃eq = txid_eq⦄ c.all_txs id) (no_tx "txos no tx " (txid_to_string id))) _ us
          h in
      let (rest, hr, h2) = >>=-eq-ok (all_txos el c sp es) _ us h1 in
      subst (Memᴰ u) (ok_injective h2) (elim (Mem-cases e (id, height) es m) [
        | inl here ↦
            let f' : Found c sp (id, height) u =
              subst (λ (x : Txid × Option ℕ). Found c sp x u) here f in
            let one : f'.tx ≡ tx = some_injective (sym f'.known ∙ ok_or-eq-ok _ _ tx known) in
            mem-append_left u (tx_txos el c sp height tx) rest (
              subst (λ t. Memᴰ u (tx_txos el c sp height t)) one
                (mem-tx_txos c sp (id, height) u f'))
        | inr there ↦
            mem-append_right u (tx_txos el c sp height tx) rest
              (mem-all_txos c sp es rest e u hr there f)
      ])

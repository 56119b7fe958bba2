-- ===== src/Wollet/Utxos/Sound.antt =====
-- Which outputs `utxos` of lwk_wollet/src/wollet.rs answers with, and in what order.
use mathlib.Core.List.{Memᴰ}
use satsails_lwk.Common.{
  ℕ, ◌≤◌, ◌%◌, ◌^◌, List, [], ◌∷◌, Option, some, ok, >>=-eq-ok, ok_injective, leb, leb→le, nat_eq,
  All, get_elem?, ◌≡◌, ◌≢◌, ◌↔◌, refl, sym, subst, arith, Bool-cases, inl, inr,
}
use satsails_lwk.Common.HashMap.{get, values}
use satsails_lwk.Common.Members.{
  mem-map, mem-map-inv, mem-concat_map, mem-concat_map-inv, Mem-cases, contains-none,
  contains-false,
}
use satsails_lwk.Wollet.{Elements, normal, OutPoint, previous_output, outpoint_eq}
use satsails_lwk.Wollet.Update.{RawCache}
use satsails_lwk.Wollet.Utxos.{
  WalletTxOut, spent, spent_by, all_txos, insert_by_value, sort_by_value, txos_inner, utxos,
}
use satsails_lwk.Wollet.Utxos.Listed.{Found, mem-all_txos-inv, mem-all_txos}

module _ (el : Elements) where
  open el use {Txid, Transaction, TxOut, inputs, txid_eq, script_eq}

  -- An output of a listed transaction that is unblinded, that is paid to a path of the wallet, and that no
  -- input of a known transaction spends.
  pub record IsUtxo (c : RawCache el) (u : WalletTxOut el) : Type 0 where
    pub id : Txid
    pub listed : Memᴰ (id, u.height) c.heights.entries
    pub tx : Transaction
    pub known : get ⦃eq = txid_eq⦄ c.all_txs id ≡ some tx
    pub vout : ℕ
    pub output : TxOut
    pub present : get_elem? (el.outputs tx) vout ≡ some output
    pub outpoint : u.outpoint ≡ record { txid = el.txid tx; vout = vout % 2 ^ 32 }
    pub script : u.script_pubkey ≡ el.script_pubkey output
    pub seen : get c.unblinded u.outpoint ≡ some u.unblinded
    pub ours :
        get ⦃eq = script_eq⦄ c.paths u.script_pubkey ≡ some (u.ext_int, normal u.wildcard_index)
    pub unspent :
        (e : Txid × Transaction)
        → Memᴰ e c.all_txs.entries
        → (i : el.TxIn) → Memᴰ i (inputs e.1)
        → (record { txid = el.previous_txid i; vout = el.previous_vout i }) ≢ u.outpoint

  mem-spent :
      (c : RawCache el) (e : Txid × Transaction) (i : el.TxIn)
      → Memᴰ e c.all_txs.entries
      → Memᴰ i (inputs e.1)
      → Memᴰ (record { txid = el.previous_txid i; vout = el.previous_vout i }) (spent el c)
  unfolding spent
  mem-spent c e i there spends =
      mem-concat_map (spent_by el) e.1 _ (values c.all_txs)
        (mem-map (λ (x : Txid × Transaction). x.1) e c.all_txs.entries there)
        (mem-map (previous_output el) i (inputs e.1) spends)

  mem-spent-inv :
      (c : RawCache el) (o : OutPoint el)
      → Memᴰ o (spent el c)
      → (e : Txid × Transaction) × Memᴰ e c.all_txs.entries
        × (i : el.TxIn) × Memᴰ i (inputs e.1)
        × (o ≡ record { txid = el.previous_txid i; vout = el.previous_vout i })
  unfolding spent
  mem-spent-inv c o m =
      let (tx, of_map, by) = mem-concat_map-inv (spent_by el) o (values c.all_txs) m in
      let (e, there, same) =
        mem-map-inv (λ (x : Txid × Transaction). x.1) tx c.all_txs.entries of_map in
      let (i, spends, at) = mem-map-inv (previous_output el) o (inputs tx) by in
      (e, there, i, subst (λ t. Memᴰ i (inputs t)) same spends, at)

  Found-IsUtxo :
      (c : RawCache el) (e : Txid × Option ℕ) (u : WalletTxOut el)
      → Memᴰ e c.heights.entries
      → Found el c (spent el c) e u
      → IsUtxo c u
  Found-IsUtxo c e u listed f = record {
    id = e.0;
    listed = subst (λ h. Memᴰ (e.0, h) c.heights.entries) (sym f.height) listed;
    tx = f.tx;
    known = f.known;
    vout = f.vout;
    output = f.output;
    present = f.present;
    outpoint = f.outpoint;
    script = f.script;
    seen = f.seen;
    ours = f.ours;
    unspent = λ e there i spends.
        contains-none (spent el c) u.outpoint _ f.free (mem-spent c e i there spends);
  }

  IsUtxo-Found :
      (c : RawCache el) (u : WalletTxOut el)
      → (is : IsUtxo c u) → Found el c (spent el c) (is.id, u.height) u
  IsUtxo-Found c u is = record {
    tx = is.tx;
    known = is.known;
    vout = is.vout;
    output = is.output;
    present = is.present;
    outpoint = is.outpoint;
    script = is.script;
    height = refl;
    seen = is.seen;
    ours = is.ours;
    free = contains-false (spent el c) u.outpoint (λ o m.
        let (e, there, i, spends, at) = mem-spent-inv c o m in
        subst (λ (x : OutPoint el). x ≢ u.outpoint) (sym at) (is.unspent e there i spends));
  }

  mem-insert_by_value :
      (u x : WalletTxOut el) (xs : List (WalletTxOut el))
      → Memᴰ u (insert_by_value el x xs) ↔ Memᴰ u (x ∷ xs)
  unfolding insert_by_value
  mem-insert_by_value u x [] = (λ m. m, λ m. m)
  mem-insert_by_value u x (y ∷ ys) = elim (Bool-cases (leb y.unblinded.value x.unblinded.value)) [
    | inl e ↦ rw e (λ m. m, λ m. m)
    | inr e ↦
        let (to, from) = mem-insert_by_value u x ys in
        rw e (
          λ m. elim (Mem-cases u y (insert_by_value el x ys) m) [
            | inl here ↦ Memᴰ.tail (Memᴰ.head here)
            | inr there ↦ elim (Mem-cases u x ys (to there)) [
              | inl here ↦ Memᴰ.head here
              | inr rest ↦ Memᴰ.tail (Memᴰ.tail rest)
            ]
          ],
          λ m. elim (Mem-cases u x (y ∷ ys) m) [
            | inl here ↦ Memᴰ.tail (from (Memᴰ.head here))
            | inr there ↦ elim (Mem-cases u y ys there) [
              | inl here ↦ Memᴰ.head here
              | inr rest ↦ Memᴰ.tail (from (Memᴰ.tail rest))
            ]
          ],
        )
  ]

  mem-sort_by_value :
      (u : WalletTxOut el) (xs : List (WalletTxOut el)) → Memᴰ u (sort_by_value el xs) ↔ Memᴰ u xs
  unfolding sort_by_value
  mem-sort_by_value u [] = (λ m. m, λ m. m)
  mem-sort_by_value u (x ∷ xs) =
      let (to, from) = mem-sort_by_value u xs in
      let (put, take) = mem-insert_by_value u x (sort_by_value el xs) in
      (
        λ m. elim (Mem-cases u x (sort_by_value el xs) (put m)) [
          | inl here ↦ Memᴰ.head here
          | inr there ↦ Memᴰ.tail (to there)
        ],
        λ m. elim (Mem-cases u x xs m) [
          | inl here ↦ take (Memᴰ.head here)
          | inr there ↦ take (Memᴰ.tail (from there))
        ],
      )

  All-insert_by_value :
      (P : WalletTxOut el → Type 0) (x : WalletTxOut el) (xs : List (WalletTxOut el))
      → P x
      → All P xs
      → All P (insert_by_value el x xs)
  unfolding insert_by_value
  All-insert_by_value P x [] hx h = (hx, tt)
  All-insert_by_value P x (y ∷ ys) hx h =
      elim (Bool-cases (leb y.unblinded.value x.unblinded.value)) [
        | inl e ↦ rw e (hx, h)
        | inr e ↦ rw e (h.0, All-insert_by_value P x ys hx h.1)
      ]

  -- From the greatest value to the least.
  unfoldable pub Descending : List (WalletTxOut el) → Type 0
  Descending [] = Unit
  Descending (u ∷ us) =
      All (λ (v : WalletTxOut el). v.unblinded.value ≤ u.unblinded.value) us × Descending us

  All-below :
      (a b : ℕ) (us : List (WalletTxOut el))
      → a ≤ b
      → All (λ (v : WalletTxOut el). v.unblinded.value ≤ a) us
      → All (λ (v : WalletTxOut el). v.unblinded.value ≤ b) us
  All-below a b [] le h = tt
  All-below a b (u ∷ us) le h =
      (let x : u.unblinded.value ≤ a = h.0 in omega arith, All-below a b us le h.1)

  insert_by_value-Descending :
      (x : WalletTxOut el) (xs : List (WalletTxOut el))
      → Descending xs
      → Descending (insert_by_value el x xs)
  unfolding insert_by_value Descending
  insert_by_value-Descending x [] h = (tt, tt)
  insert_by_value-Descending x (y ∷ ys) h =
      elim (Bool-cases (leb y.unblinded.value x.unblinded.value)) [
        | inl e ↦
            let le : y.unblinded.value ≤ x.unblinded.value = leb→le _ _ e in
            rw e ((le, All-below y.unblinded.value x.unblinded.value ys le h.0), h)
        | inr e ↦
            let le : x.unblinded.value ≤ y.unblinded.value = ground arith in
            rw e (
              All-insert_by_value (λ (v : WalletTxOut el). v.unblinded.value ≤ y.unblinded.value) x
                  ys le h.0,
              insert_by_value-Descending x ys h.1,
            )
      ]

  sort_by_value-Descending : (xs : List (WalletTxOut el)) → Descending (sort_by_value el xs)
  unfolding sort_by_value Descending
  sort_by_value-Descending [] = tt
  sort_by_value-Descending (x ∷ xs) =
      insert_by_value-Descending x (sort_by_value el xs) (sort_by_value-Descending xs)

  -- The utxos are exactly the outputs of listed transactions that are unblinded, are paid to a path of the
  -- wallet, and are spent by no input of a known transaction, and they come from the greatest value to the least.
  pub utxos-IsUtxo :
      (c : RawCache el) (us : List (WalletTxOut el)) (u : WalletTxOut el)
      → utxos el c ≡ ok us
      → (Memᴰ u us ↔ IsUtxo c u) × Descending us
  unfolding txos_inner
  utxos-IsUtxo c us u h =
      let (os, ho, h1) = >>=-eq-ok (all_txos el c (spent el c) c.heights.entries) _ us h in
      let same : sort_by_value el os ≡ us = ok_injective h1 in
      let (unsorted, sorted) = mem-sort_by_value u os in
      (
        (
          λ m.
              let (e, listed, found) =
                mem-all_txos-inv el c (spent el c) c.heights.entries os u ho
                  (unsorted (subst (Memᴰ u) (sym same) m)) in
              Found-IsUtxo c e u listed found,
          λ is. subst (Memᴰ u) same (
              sorted (
                mem-all_txos el c (spent el c) c.heights.entries os (is.id, u.height) u ho is.listed
                  (IsUtxo-Found c u is))),
        ),
        subst Descending same (sort_by_value-Descending os),
      )

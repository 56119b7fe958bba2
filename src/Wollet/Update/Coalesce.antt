-- ===== src/Wollet/Update/Coalesce.antt =====
-- Updates that are only a tip, of which lwk_wollet/src/persister.rs keeps the last of those in a row.
use satsails_lwk.Common.{
  ℕ, ◌+◌, ◌%◌, ◌^◌, ◌<◌, ◌≤◌, true, List, [], ◌∷◌, ok, err, is_empty, ◌≡◌, refl, sym, ap, ◌∙◌,
  subst, arith, and_true, PartialEq, nat_eq, le→ltb,
}
use satsails_lwk.Common.HashMap.{new}
use satsails_lwk.Common.Extend.{extend, retain_entries}
use satsails_lwk.Wollet.{
  Elements, Chain, ChildNumber, OutPoint, TxOutSecrets, update_height_too_old,
}
use satsails_lwk.Wollet.Update.{
  Update, RawCache, only_tip, nothing_downloaded, apply_cache, apply_cache-eq-ok, updated, merged,
  txid_height, use_txs,
}
use satsails_lwk.Wollet.Update.Tip.{apply_cache-too_old}

is_empty-nil {ℓ} : {A : Type ℓ} (xs : List A) → is_empty xs ≡ true → xs ≡ []
is_empty-nil [] h = refl
is_empty-nil (x ∷ xs) h = cc

retain_entries_all {ℓ κ} :
    {K : Type ℓ} {V : Type κ} ⦃eq : PartialEq K⦄ (es : List (K × V))
    → retain_entries (λ k. true) es ≡ es
unfolding retain_entries
retain_entries_all [] = refl
retain_entries_all (e ∷ es) = ap (λ xs. e ∷ xs) (retain_entries_all es)

module _ (el : Elements) where
  open el use {Txid, Transaction, Script, BlockHeader, height, block_hash}

  abbrev pub tip_update : BlockHeader → Update el
  tip_update tip = record {
    new_txs = record { txs = []; unblinds = [] };
    txid_height_new = [];
    txid_height_delete = [];
    timestamps = [];
    scripts = new;
    tip = tip;
  }

  tip_update-fields :
      (txs : List (Txid × Transaction)) (unblinds : List (OutPoint el × TxOutSecrets el))
      (at : List (Txid × _)) (gone : List Txid) (times : List (ℕ × ℕ))
      (scripts : List (Script × (Chain × ChildNumber))) (tip : BlockHeader)
      → txs ≡ []
      → unblinds ≡ []
      → at ≡ []
      → gone ≡ []
      → times ≡ []
      → scripts ≡ []
      → ◌≡◌ {A = Update el}
          (record {
            new_txs = record { txs = txs; unblinds = unblinds };
            txid_height_new = at;
            txid_height_delete = gone;
            timestamps = times;
            scripts = record { entries = scripts };
            tip = tip;
          })
          (tip_update tip)
  tip_update-fields txs unblinds at gone times scripts tip a b c d e f = cc

  pub only_tip-tip_update : (u : Update el) → only_tip el u ≡ true → u ≡ tip_update u.tip
  unfolding only_tip nothing_downloaded
  only_tip-tip_update u h =
      let (h1, scripts) = and_true _ (is_empty u.scripts.entries) h in
      let (h2, times) = and_true _ (is_empty u.timestamps) h1 in
      let (h3, gone) = and_true _ (is_empty u.txid_height_delete) h2 in
      let (h4, at) = and_true _ (is_empty u.txid_height_new) h3 in
      let (txs, unblinds) = and_true (is_empty u.new_txs.txs) (is_empty u.new_txs.unblinds) h4 in
      tip_update-fields u.new_txs.txs u.new_txs.unblinds u.txid_height_new u.txid_height_delete
        u.timestamps u.scripts.entries u.tip (is_empty-nil _ txs) (is_empty-nil _ unblinds)
        (is_empty-nil _ at) (is_empty-nil _ gone) (is_empty-nil _ times) (is_empty-nil _ scripts)

  abbrev pub at_tip : RawCache el → BlockHeader → RawCache el
  at_tip c tip = record c { tip = (height tip, block_hash tip) }

  updated-tip_update :
      (c : RawCache el) (tip : BlockHeader) → updated el c (tip_update tip) ≡ at_tip c tip
  unfolding updated merged txid_height use_txs extend
  updated-tip_update c tip =
      ap
        (λ es.
          let c' : RawCache el = record (at_tip c tip) { heights = record { entries = es } } in c')
        (retain_entries_all ⦃eq = el.txid_eq⦄ c.heights.entries)

  updated-only_tip :
      (c : RawCache el) (u : Update el) → only_tip el u ≡ true → updated el c u ≡ at_tip c u.tip
  updated-only_tip c u h = ap (updated el c) (only_tip-tip_update u h) ∙ updated-tip_update c u.tip

  apply_cache-eq-updated :
      (c : RawCache el) (u : Update el)
      → c.tip.0 ≤ height u.tip + 1
      → height u.tip + 1 < 2 ^ 32
      → apply_cache el c u ≡ ok (updated el c u)
  unfolding apply_cache
  apply_cache-eq-updated c u le small =
      let e : (height u.tip + 1) % 2 ^ 32 ≡ height u.tip + 1 = omega arith in
      rw (e, le→ltb (height u.tip + 1) c.tip.0 le) refl

  -- Of two tips in a row the first may be left out: the cache after both is the cache after the second
  -- alone, where the second is at most one block below the tip that was there before both.
  pub apply_cache-coalesced :
      (c d : RawCache el) (prev u : Update el)
      → only_tip el prev ≡ true
      → only_tip el u ≡ true
      → height u.tip + 1 < 2 ^ 32
      → c.tip.0 ≤ height u.tip + 1
      → height prev.tip ≤ height u.tip + 1
      → apply_cache el c prev ≡ ok d
      → apply_cache el d u ≡ apply_cache el c u
  apply_cache-coalesced c d prev u first second small le le' h =
      let same : at_tip c prev.tip ≡ d =
        sym (updated-only_tip c prev first) ∙ (apply_cache-eq-ok el c d prev h).1 in
      subst (λ (d : RawCache el). apply_cache el d u ≡ apply_cache el c u) same
        (apply_cache-eq-updated (at_tip c prev.tip) u le' small
          ∙ ap ok
              (updated-only_tip (at_tip c prev.tip) u second ∙ sym (updated-only_tip c u second))
          ∙ sym (apply_cache-eq-updated c u le small))

  -- Two tips in a row, each one block below the tip before, are both applied, while the second alone,
  -- which is what is kept of them, is refused.
  pub apply_cache-coalesced_refused :
      (c d : RawCache el) (prev u : Update el)
      → only_tip el prev ≡ true
      → c.tip.0 < 2 ^ 32
      → height prev.tip + 1 ≡ c.tip.0
      → height u.tip + 2 ≡ c.tip.0
      → apply_cache el c prev ≡ ok d
      → (apply_cache el d u ≡ ok (updated el d u))
        × (apply_cache el c u ≡ err (update_height_too_old (height u.tip) c.tip.0))
  apply_cache-coalesced_refused c d prev u first small one two h =
      let same : at_tip c prev.tip ≡ d =
        sym (updated-only_tip c prev first) ∙ (apply_cache-eq-ok el c d prev h).1 in
      let lower : height prev.tip ≡ d.tip.0 = ap (λ (d : RawCache el). d.tip.0) same in
      (
        apply_cache-eq-updated d u (omega arith) (omega arith),
        apply_cache-too_old el c u (omega arith) small,
      )

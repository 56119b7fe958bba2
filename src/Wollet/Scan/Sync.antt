-- ===== src/Wollet/Scan/Sync.antt =====
-- What the wallet knows once the update of lwk_wollet/src/clients/mod.rs has been applied.
use satsails_lwk.Common.{
  ℕ, List, Option, some, none, ok, >>=-eq-ok, Bool, true, false, ◌≡◌, refl, ap, ◌∙◌, subst, nat_eq,
  ==_sound, if◌then◌else◌, Bool-cases, Option-cases, inl, inr, keep, not,
}
use satsails_lwk.Common.HashMap.{get, contains_key, keys}
use satsails_lwk.Common.Extend.{contains, last_of, or_else}
use satsails_lwk.Wollet.{Elements}
use satsails_lwk.Wollet.Update.{
  RawCache, Update, apply_cache, txids_unblinded, updated, apply_cache-eq-ok, DownloadTxResult,
}
use satsails_lwk.Wollet.Update.Heights.{
  updated-heights, IsUnblinded, IsUnblinded-updated, HeightsUnblinded,
}
use satsails_lwk.Wollet.Scan.{Backend, Progress, same_height, scan_all, nothing_yet}
use satsails_lwk.Wollet.Scan.Download.{
  is_news, update_of, finish_scan, full_scan, full_scan-eq-ok, download_txs, download_headers,
  is_changed,
}
use satsails_lwk.Wollet.Scan.Maps.{if_kept, last_of-keep_entries, contains-keep, contains-keys}
use satsails_lwk.Wollet.Scan.Gathers.{ListedOnce, scan_all-ListedOnce}

same_height_sound : (a b : Option ℕ) → same_height a b ≡ true → a ≡ b
same_height_sound none none h = refl
same_height_sound (some a) (some b) h = ap some (==_sound a b h)
same_height_sound none (some b) h = cc
same_height_sound (some a) none h = cc

abbrev is_some {ℓ} : {A : Type ℓ} → Option A → Bool
is_some none = false
is_some (some a) = true

-- What is new about a transaction: how the server's height differs from the wallet's.
abbrev news : Option (Option ℕ) → Option (Option ℕ) → Option (Option ℕ)
news none old = none
news (some v) none = some v
news (some v) (some h) = if not (same_height h v) then some v else none

abbrev kept_height : Option (Option ℕ) → Option (Option ℕ) → Option (Option ℕ)
kept_height history old =
    if (if not (is_some history) then is_some old else false) then none else old

reconciled :
    (seen : Bool) (history old : Option (Option ℕ))
    → (seen ≡ false → old ≡ none)
    → or_else (if seen then news history old else none) (kept_height history old)
      ≡ (if seen then history else none)
reconciled true none none h = refl
reconciled true none (some o) h = refl
reconciled true (some v) none h = refl
reconciled true (some v) (some o) h = elim (Bool-cases (same_height o v)) [
  | inl e ↦ rw e (ap some (same_height_sound o v e))
  | inr e ↦ rw e refl
]
reconciled false none none h = refl
reconciled false (some v) none h = refl
reconciled false history (some o) h =
    let no : ◌≡◌ {A = Option (Option ℕ)} (some o) none = h refl in cc

module _ {el : Elements} (server : Backend el) where
  open el use {Txid, txid_eq}

  abbrev pub history_of : Progress server → Txid → Option (Option ℕ)
  history_of p t = get ⦃eq = txid_eq⦄ p.txid_height t

  abbrev pub height_of : RawCache el → Txid → Option (Option ℕ)
  height_of c t = get ⦃eq = txid_eq⦄ c.heights t

  listed_new :
      (c : RawCache el) (p : Progress server) (t : Txid)
      → ListedOnce server p
      → last_of ⦃eq = txid_eq⦄ t (keep (is_news server c) p.txid_height.entries)
        ≡ news (history_of p t) (height_of c t)
  listed_new c p t once =
      last_of-keep_entries ⦃eq = txid_eq⦄ (is_news server c) t p.txid_height.entries once
      ∙ by_height (history_of p t) (height_of c t) refl
    where
      by_height :
          (history old : Option (Option ℕ))
          → height_of c t ≡ old
          → if_kept (is_news server c) t history ≡ news history old
      by_height none old e = refl
      by_height (some v) none e = rw e refl
      by_height (some v) (some o) e = rw e refl

  listed_deleted :
      (c : RawCache el) (p : Progress server) (t : Txid)
      → contains ⦃eq = txid_eq⦄
          (keep (λ k. not (contains_key ⦃eq = txid_eq⦄ p.txid_height k)) (keys c.heights))
          t
        ≡ (if not (is_some (history_of p t)) then is_some (height_of c t) else false)
  listed_deleted c p t =
      contains-keep ⦃eq = txid_eq⦄ (λ k. not (contains_key ⦃eq = txid_eq⦄ p.txid_height k)) t
        (keys c.heights)
      ∙ ap (λ b. if not (contains_key ⦃eq = txid_eq⦄ p.txid_height t) then b else false)
          (contains-keys ⦃eq = txid_eq⦄ t c.heights)
      ∙ by_answer (history_of p t) (height_of c t)
    where
      by_answer :
          (history old : Option (Option ℕ))
          → (if not (elim history [ some _ ↦ true | none ↦ false ])
              then elim old [ some _ ↦ true | none ↦ false ]
              else false)
            ≡ (if not (is_some history) then is_some old else false)
      by_answer none none = refl
      by_answer none (some o) = refl
      by_answer (some v) old = refl

  -- A transaction whose outputs stay blinded had no height before.
  unseen :
      (c : RawCache el) (u : Update el) (t : Txid)
      → HeightsUnblinded c
      → contains ⦃eq = txid_eq⦄ (txids_unblinded el (updated el c u).unblinded) t ≡ false
      → height_of c t ≡ none
  unfolding HeightsUnblinded
  unseen c u t inv blind = elim (Option-cases (height_of c t)) [
    | inl e ↦ e
    | inr (o, e) ↦
        let seen : IsUnblinded (updated el c u) t = IsUnblinded-updated c u t (inv t o e) in cc
  ]

  updated-synced :
      (c : RawCache el) (p : Progress server) (d : DownloadTxResult el) (times : List (ℕ × ℕ))
      (header : el.BlockHeader) (t : Txid)
      → ListedOnce server p
      → HeightsUnblinded c
      → height_of (updated el c (update_of server c p d times header)) t ≡ (
          if contains ⦃eq = txid_eq⦄
            (txids_unblinded el (updated el c (update_of server c p d times header)).unblinded)
            t
          then history_of p t
          else none)
  updated-synced c p d times header t once inv =
      let u : Update el = update_of server c p d times header in
      let seen : Bool = contains ⦃eq = txid_eq⦄ (txids_unblinded el (updated el c u).unblinded) t in
      updated-heights c u t
      ∙ ap
          (λ new.
            or_else (if seen then new else none)
              (if contains ⦃eq = txid_eq⦄ u.txid_height_delete t then none else height_of c t))
          (listed_new c p t once)
      ∙ ap
          (λ gone.
            or_else (if seen then news (history_of p t) (height_of c t) else none)
              (if gone then none else height_of c t))
          (listed_deleted c p t)
      ∙ reconciled seen (history_of p t) (height_of c t) (unseen c u t inv)

  -- An answered update is made of what was scanned and downloaded.
  pub finish_scan-eq-ok :
      (c : RawCache el) (p : Progress server) (u : Update el)
      → finish_scan server c p ≡ ok (some u)
      → (d : DownloadTxResult el) × (times : List (ℕ × ℕ)) × (header : el.BlockHeader)
        × (download_txs server c p ≡ ok d)
        × (download_headers server c p ≡ ok times)
        × (update_of server c p d times header ≡ u)
  unfolding finish_scan
  finish_scan-eq-ok c p u h =
      let (d, txs, rest) = >>=-eq-ok (download_txs server c p) _ (some u) h in
      let (times, headers, rest) = >>=-eq-ok (download_headers server c p) _ (some u) rest in
      let (header, tip, same) = >>=-eq-ok server.tip _ (some u) rest in
      (
        d,
        times,
        header,
        txs,
        headers,
        some_of (is_changed server c p d times header) (update_of server c p d times header) u (cc),
      )
    where
      some_of : (b : Bool) (v u : Update el) → (if b then some v else none) ≡ some u → v ≡ u
      some_of true v u h = cc
      some_of false v u h = cc

  -- The heights of the second cache are those that a scan over the first was told, for the transactions that
  -- have an unblinded output there, and no others.
  abbrev pub Synced : ℕ → RawCache el → RawCache el → Type 0
  Synced fuel c c' =
      (ds : List server.Single) × (p : Progress server) × (server.into_single_descriptors ≡ ok ds)
      × (scan_all server fuel c ds (nothing_yet server) ≡ some (ok p))
      × ((t : Txid)
          → height_of c' t ≡ (
              if contains ⦃eq = txid_eq⦄ (txids_unblinded el c'.unblinded) t
              then history_of p t
              else none))

  -- Where every transaction with a height has an unblinded output, applying the update of a scan gives each
  -- transaction that has an unblinded output then the height that the scan recorded for it, if any, and no
  -- other transaction a height.
  pub full_scan-Synced :
      (fuel : ℕ) (c : RawCache el) (u : Update el) (c' : RawCache el)
      → HeightsUnblinded c
      → full_scan server fuel c ≡ some (ok (some u))
      → apply_cache el c u ≡ ok c'
      → Synced fuel c c'
  full_scan-Synced fuel c u c' inv scanned applied =
      let (ds, single, p, gathered, finished) = full_scan-eq-ok server fuel c (some u) scanned in
      let (d, times, header, txs, headers, same) = finish_scan-eq-ok c p u finished in
      let now : updated el c u ≡ c' = (apply_cache-eq-ok el c c' u applied).1 in
      (
        ds,
        p,
        single,
        gathered,
        λ t.
            subst
              (λ (e : RawCache el). height_of e t ≡ (
                if contains ⦃eq = txid_eq⦄ (txids_unblinded el e.unblinded) t
                then history_of p t
                else none))
              (ap (updated el c) same ∙ now)
              (updated-synced c p d times header t (scan_all-ListedOnce server fuel c ds p gathered)
                inv),
      )

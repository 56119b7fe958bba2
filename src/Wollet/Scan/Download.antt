-- ===== src/Wollet/Scan/Download.antt =====
-- lwk_wollet/src/clients/mod.rs: what `full_scan` downloads after the scan of the scripts, and the update that
-- it makes.
use satsails_lwk.Common.{
  ℕ, ◌%◌, ◌^◌, Bool, List, [], ◌∷◌, Option, none, some, Result, ok, err, ◌>>=◌, ◌≡◌, map, concat,
  keep, not, ◌&&◌, ◌||◌, is_empty, if◌then◌else◌, ◌==◌, nat_eq, pair_eq,
}
use satsails_lwk.Common.HashMap.{get, contains_key, keys}
use satsails_lwk.Wollet.{
  Elements, OutPoint, TxOutSecrets, chain_eq, child_eq, Error, generic, foreign,
}
use satsails_lwk.Wollet.Update.{DownloadTxResult, Update, RawCache}
use satsails_lwk.Wollet.Utxos.{enumerate}
use satsails_lwk.Wollet.Scan.{
  Backend, differs, and_then_ok, and_then_ok-eq-ok, difference, nothing_yet, scan_all, Progress,
}

module _ {el : Elements} (server : Backend el) where
  open server use {
    Single, into_single_descriptors, get_transactions, get_headers, tip, time, block_hash_eq,
    is_confidential, derive_blinding_key, unblind,
  }
  open el use {
    Txid, Transaction, TxOut, BlockHeader, txid_eq, script_eq, txid, outputs, script_pubkey, height,
    block_hash,
  }

  unfoldable pub try_unblind : TxOut → Result Error (TxOutSecrets el)
  try_unblind output =
      if is_confidential output
      then elim (derive_blinding_key (script_pubkey output)) [
        | none ↦ err (foreign "MissingPrivateBlindingKey")
        | some key ↦ unblind output key
      ]
      else err (generic "received unconfidential or null asset/value/nonce")

  abbrev unblinded :
      OutPoint el → Result Error (TxOutSecrets el) → List (OutPoint el × TxOutSecrets el)
  unblinded outpoint (ok secrets) = (outpoint, secrets) ∷ []
  unblinded outpoint (err e) = []

  -- The outputs to a script of the cache or of this scan that can be unblinded.
  unfoldable pub unblinds_of :
      RawCache el → Progress server → Transaction → List (OutPoint el × TxOutSecrets el)
  unblinds_of c p tx = concat (
      map
        (λ (e : ℕ × TxOut).
          if contains_key ⦃eq = script_eq⦄ c.paths (script_pubkey e.1)
            || contains_key ⦃eq = script_eq⦄ p.scripts (script_pubkey e.1)
          then unblinded (record { txid = txid tx; vout = e.0 % 2 ^ 32 }) (try_unblind e.1)
          else [])
        (enumerate 0 (outputs tx)))

  -- The set of the previous transactions stays empty, so nothing is downloaded for it.
  unfoldable pub download_txs : RawCache el → Progress server → Result Error (DownloadTxResult el)
  download_txs c p =
      let txs_to_download : List Txid =
        difference ⦃eq = txid_eq⦄ (keys p.txid_height) (keys c.all_txs) in
      if is_empty txs_to_download
      then ok (record { txs = []; unblinds = [] })
      else (get_transactions txs_to_download >>= (λ txs. ok (record {
        txs = map (λ (tx : Transaction). (txid tx, tx)) txs;
        unblinds = concat (map (unblinds_of c p) txs);
      })))

  -- The heights of the transactions that are confirmed.
  unfoldable pub confirmed_at : List (Txid × Option ℕ) → List ℕ
  confirmed_at [] = []
  confirmed_at ((t, none) ∷ es) = confirmed_at es
  confirmed_at ((t, some h) ∷ es) = h ∷ confirmed_at es

  unfoldable pub download_headers : RawCache el → Progress server → Result Error (List (ℕ × ℕ))
  download_headers c p =
      let heights_to_download : List ℕ =
        difference (confirmed_at p.txid_height.entries) (confirmed_at c.heights.entries) in
      if is_empty heights_to_download
      then ok []
      else (get_headers heights_to_download p.height_blockhash
          >>= (λ headers. ok (map (λ (h : BlockHeader). (height h, time h)) headers)))

  -- `changed`
  unfoldable pub is_changed :
      RawCache el → Progress server → DownloadTxResult el → List (ℕ × ℕ) → BlockHeader → Bool
  is_changed c p new_txs timestamps header =
      not (is_empty new_txs.txs)
      || not (c.last_unused_external == p.last_unused_external)
      || not (c.last_unused_internal == p.last_unused_internal)
      || not (is_empty p.scripts.entries)
      || not (is_empty timestamps)
      || not (c.tip.0 == height header && ◌==◌ ⦃eq = block_hash_eq⦄ c.tip.1 (block_hash header))

  abbrev pub is_news : RawCache el → Txid × Option ℕ → Bool
  is_news c e = differs (get ⦃eq = txid_eq⦄ c.heights e.0) e.1

  abbrev pub update_of :
      RawCache el → Progress server → DownloadTxResult el → List (ℕ × ℕ) → BlockHeader → Update el
  update_of c p new_txs timestamps header = record {
    new_txs = new_txs;
    txid_height_new = keep (is_news c) p.txid_height.entries;
    txid_height_delete =
        keep (λ k. not (contains_key ⦃eq = txid_eq⦄ p.txid_height k)) (keys c.heights);
    timestamps = timestamps;
    scripts = p.scripts;
    tip = header;
  }

  -- What is downloaded after the scan, and the update if something changed.
  unfoldable pub finish_scan : RawCache el → Progress server → Result Error (Option (Update el))
  finish_scan c p = download_txs c p >>= (λ new_txs. download_headers c p >>= (λ timestamps.
      tip >>= (λ header. ok (
        if is_changed c p new_txs timestamps header
        then some (update_of c p new_txs timestamps header)
        else none))))

  unfoldable pub full_scan : ℕ → RawCache el → Option (Result Error (Option (Update el)))
  full_scan fuel c = and_then_ok (some into_single_descriptors) (λ ds.
      and_then_ok (scan_all server fuel c ds (nothing_yet server)) (λ p. some (finish_scan c p)))

  -- An answered scan gathered something, and finished with that.
  pub full_scan-eq-ok :
      (fuel : ℕ) (c : RawCache el) (u : Option (Update el))
      → full_scan fuel c ≡ some (ok u)
      → (ds : List Single) × (into_single_descriptors ≡ ok ds)
        × (p : Progress server) × (scan_all server fuel c ds (nothing_yet server) ≡ some (ok p))
        × (finish_scan c p ≡ ok u)
  unfolding full_scan
  full_scan-eq-ok fuel c u h =
      let (ds, single, rest) = and_then_ok-eq-ok (some into_single_descriptors) _ u h in
      let (p, gathered, finished) =
        and_then_ok-eq-ok (scan_all server fuel c ds (nothing_yet server)) _ u rest in
      (ds, cc, p, gathered, cc)

-- ===== src/Wollet/Scan/Complete.antt =====
-- That the updates of lwk_wollet/src/clients/mod.rs leave no transaction and no timestamp out.
use satsails_lwk.Common.{
  ℕ, List, [], Option, some, ok, err, >>=-eq-ok, true, false, ◌≡◌, sym, ap, ◌∙◌, subst, nat_eq,
  Bool-cases, inl, inr, map, is_empty,
}
use satsails_lwk.Common.HashMap.{HashMap, get, contains_key, keys}
use satsails_lwk.Common.Extend.{contains, last_of}
use satsails_lwk.Wollet.{Elements}
use satsails_lwk.Wollet.Update.{
  RawCache, Update, DownloadTxResult, apply_cache, updated, merged, txid_height, apply_cache-eq-ok,
  txids_unblinded,
}
use satsails_lwk.Wollet.Update.Heights.{updated-heights}
use satsails_lwk.Wollet.Scan.{Backend, Progress, difference}
use satsails_lwk.Wollet.Scan.Download.{
  is_news, update_of, full_scan, full_scan-eq-ok, download_txs, download_headers, confirmed_at,
}
use satsails_lwk.Wollet.Scan.Maps.{contains-keys}
use satsails_lwk.Wollet.Scan.Sync.{finish_scan-eq-ok}
use satsails_lwk.Wollet.Scan.Missing.{
  contains_key-extend_old, contains_key-extend_new, last_of-contains, contains-map-keep,
  difference-splits, either_said, map_pairs, contains_none,
}
use satsails_lwk.Wollet.Scan.Confirmed.{
  IsConfirmed, IsConfirmed-keep, IsConfirmed-retain, IsConfirmed-extend,
}

module _ {el : Elements} (server : Backend el) where
  open el use {Txid, txid_eq}

  -- Every transaction with a height is known, and every height has a timestamp.
  pub record IsComplete (c : RawCache el) : Type 0 where
    pub known :
        (t : Txid) (o : Option ℕ)
        → get ⦃eq = txid_eq⦄ c.heights t ≡ some o
        → contains_key ⦃eq = txid_eq⦄ c.all_txs t ≡ true
    pub timed :
        (h : ℕ) → IsConfirmed server h c.heights.entries → contains_key c.timestamps h ≡ true

  -- What a server answers of what it is asked for.
  abbrev pub AnswersTransactions : Type 0
  AnswersTransactions =
      (ids : List Txid) (txs : List el.Transaction)
      → server.get_transactions ids ≡ ok txs
      → (t : Txid) → contains ⦃eq = txid_eq⦄ ids t ≡ true
      → contains ⦃eq = txid_eq⦄ (map el.txid txs) t ≡ true

  abbrev pub AnswersHeaders : Type 0
  AnswersHeaders =
      (heights : List ℕ) (hashes : HashMap ℕ el.BlockHash) (headers : List el.BlockHeader)
      → server.get_headers heights hashes ≡ ok headers
      → (h : ℕ) → contains heights h ≡ true
      → contains (map el.height headers) h ≡ true

  -- The transactions that are missing are downloaded.
  downloaded_txs :
      (answers : AnswersTransactions) (c : RawCache el) (p : Progress server)
      (d : DownloadTxResult el) (t : Txid)
      → download_txs server c p ≡ ok d
      → contains ⦃eq = txid_eq⦄ (difference ⦃eq = txid_eq⦄ (keys p.txid_height) (keys c.all_txs)) t
        ≡ true
      → contains ⦃eq = txid_eq⦄ (map (λ e. e.0) d.txs) t ≡ true
  unfolding download_txs
  downloaded_txs answers c p d t h missing =
      let ids : List Txid = difference ⦃eq = txid_eq⦄ (keys p.txid_height) (keys c.all_txs) in
      elim (Bool-cases (is_empty ids)) [
        | inl e ↦
            let no : contains ⦃eq = txid_eq⦄ ids t ≡ false = contains_none ⦃eq = txid_eq⦄ t ids e in
            cc
        | inr e ↦
            let (txs, told, same) = >>=-eq-ok (server.get_transactions ids) _ d (rw e at h) in
            let listed : map (λ (tx : el.Transaction). (el.txid tx, tx)) txs ≡ d.txs =
              ap (λ r. elim r [ ok d ↦ d.txs | err e ↦ [] ]) same in
            subst (λ es. contains ⦃eq = txid_eq⦄ (map (λ e. e.0) es) t ≡ true) listed
              (subst (λ ts. contains ⦃eq = txid_eq⦄ ts t ≡ true)
                (sym (map_pairs el.txid (λ tx. tx) txs)) (answers ids txs told t missing))
      ]

  -- The headers of the heights that are missing are downloaded.
  downloaded_headers :
      (answers : AnswersHeaders) (c : RawCache el) (p : Progress server) (times : List (ℕ × ℕ))
      (h : ℕ)
      → download_headers server c p ≡ ok times
      → contains
          (difference
            (confirmed_at server p.txid_height.entries)
            (confirmed_at server c.heights.entries))
          h
        ≡ true
      → contains (map (λ e. e.0) times) h ≡ true
  unfolding download_headers
  downloaded_headers answers c p times h got missing =
      let heights : List ℕ =
        difference (confirmed_at server p.txid_height.entries)
          (confirmed_at server c.heights.entries) in
      elim (Bool-cases (is_empty heights)) [
        | inl e ↦ let no : contains heights h ≡ false = contains_none h heights e in cc
        | inr e ↦
            let (headers, told, same) =
              >>=-eq-ok (server.get_headers heights p.height_blockhash) _ times (rw e at got) in
            let listed : map (λ (b : el.BlockHeader). (el.height b, server.time b)) headers
                ≡ times =
              ap (λ r. elim r [ ok ts ↦ ts | err e ↦ [] ]) same in
            subst (λ es. contains (map (λ e. e.0) es) h ≡ true) listed
              (subst (λ hs. contains hs h ≡ true) (sym (map_pairs el.height server.time headers))
                (answers heights p.height_blockhash headers told h missing))
      ]

  module _ (transactions : AnswersTransactions) (headers : AnswersHeaders) (c : RawCache el)
      (p : Progress server) (d : DownloadTxResult el) (times : List (ℕ × ℕ))
      (header : el.BlockHeader) (txs_of : download_txs server c p ≡ ok d)
      (times_of : download_headers server c p ≡ ok times) (complete : IsComplete c) where
    known_after :
        (t : Txid) (o : Option ℕ)
        → get ⦃eq = txid_eq⦄ (updated el c (update_of server c p d times header)).heights t ≡ some o
        → contains_key ⦃eq = txid_eq⦄ (updated el c (update_of server c p d times header)).all_txs t
          ≡ true
    unfolding updated merged
    known_after t o h =
        let u : Update el = update_of server c p d times header in
        elim (either_said
          (contains ⦃eq = txid_eq⦄ (txids_unblinded el (updated el c u).unblinded) t)
          (contains ⦃eq = txid_eq⦄ u.txid_height_delete t)
          (last_of ⦃eq = txid_eq⦄ t u.txid_height_new) (get ⦃eq = txid_eq⦄ c.heights t) o
          (sym (updated-heights c u t) ∙ h)) [
            | inl new ↦
                let listed : contains ⦃eq = txid_eq⦄ (keys p.txid_height) t ≡ true =
                  contains-map-keep ⦃eq = txid_eq⦄ (is_news server c) t p.txid_height.entries
                    (last_of-contains ⦃eq = txid_eq⦄ t o u.txid_height_new new) in
                elim (difference-splits ⦃eq = txid_eq⦄ t (keys p.txid_height) (keys c.all_txs)
                  listed) [
                    | inl had ↦
                        contains_key-extend_old ⦃eq = txid_eq⦄ c.all_txs d.txs t
                          (sym (contains-keys ⦃eq = txid_eq⦄ t c.all_txs) ∙ had)
                    | inr missing ↦
                        contains_key-extend_new ⦃eq = txid_eq⦄ c.all_txs d.txs t
                          (downloaded_txs transactions c p d t txs_of missing)
                  ]
            | inr old ↦
                contains_key-extend_old ⦃eq = txid_eq⦄ c.all_txs d.txs t (complete.known t o old)
          ]

    timed_after :
        (h : ℕ)
        → IsConfirmed server h (updated el c (update_of server c p d times header)).heights.entries
        → contains_key (updated el c (update_of server c p d times header)).timestamps h ≡ true
    unfolding updated merged txid_height
    timed_after h confirmed = elim (IsConfirmed-extend server h _ _ confirmed) [
      | inl old ↦
          contains_key-extend_old c.timestamps times h
            (complete.timed h (IsConfirmed-retain server h _ c.heights.entries old))
      | inr new ↦
          let scanned : IsConfirmed server h p.txid_height.entries =
            IsConfirmed-keep server h (is_news server c) p.txid_height.entries
              (IsConfirmed-keep server h _ _ new) in
          elim (difference-splits h (confirmed_at server p.txid_height.entries)
            (confirmed_at server c.heights.entries) scanned) [
              | inl had ↦ contains_key-extend_old c.timestamps times h (complete.timed h had)
              | inr missing ↦
                  contains_key-extend_new c.timestamps times h
                    (downloaded_headers headers c p times h times_of missing)
            ]
    ]

  -- Where the server answers with what it is asked for, applying the update of a scan keeps every transaction
  -- with a height known and every height with a timestamp.
  pub full_scan-IsComplete :
      (transactions : AnswersTransactions) (headers : AnswersHeaders) (fuel : ℕ) (c : RawCache el)
      (u : Update el) (c' : RawCache el)
      → IsComplete c
      → full_scan server fuel c ≡ some (ok (some u))
      → apply_cache el c u ≡ ok c'
      → IsComplete c'
  full_scan-IsComplete transactions headers fuel c u c' complete scanned applied =
      let (ds, single, p, gathered, finished) = full_scan-eq-ok server fuel c (some u) scanned in
      let (d, times, header, txs, stamps, same) = finish_scan-eq-ok server c p u finished in
      subst IsComplete (ap (updated el c) same ∙ (apply_cache-eq-ok el c c' u applied).1) (record {
        known = known_after transactions headers c p d times header txs stamps complete;
        timed = timed_after transactions headers c p d times header txs stamps complete;
      })

-- ===== src/Wollet/Update.antt =====
-- lwk_wollet/src/update.rs and store.rs: `Update`, `RawCache` and the application of an update.
pub mod Heights
pub mod Indices
pub mod Paths
pub mod Tip
pub mod Coalesce
use satsails_lwk.Common.{
  ℕ, ◌+◌, ◌%◌, ◌^◌, Bool, List, [], ◌∷◌, Option, none, some, Result, ok, err, map, not, ◌&&◌, keep,
  is_empty, ltb, if◌then◌else◌, pair_eq, nat_eq, ◌≡◌, subst, Bool-cases, inl, inr, false,
}
use satsails_lwk.Common.HashMap.{HashMap, get, new, keys}
use satsails_lwk.Common.Extend.{extend, retain, contains}
use satsails_lwk.Wollet.{
  Elements, Chain, external, internal, ChildNumber, normal, hardened, OutPoint, TxOutSecrets,
  chain_eq, child_eq, outpoint_eq, Error, update_height_too_old,
}

-- The greater of the greatest index yet and the index of one more output.
abbrev pub later : ℕ → Option ℕ → Option ℕ
later index none = some index
later index (some last) = if ltb last index then some index else some last

-- `last_used_external` and `last_used_internal`
abbrev pub LastUsed : Type 0
LastUsed = Option ℕ × Option ℕ

abbrev pub use_path : Option (Chain × ChildNumber) → LastUsed → LastUsed
use_path (some (external, normal index)) (e, i) = (later index e, i)
use_path (some (internal, normal index)) (e, i) = (e, later index i)
use_path (some (chain, hardened index)) used = used
use_path none used = used

-- `last_used + 1`, or what was there.
abbrev pub next_index : Option ℕ → ℕ → ℕ
next_index (some last) unused = (last + 1) % 2 ^ 32
next_index none unused = unused

module _ (el : Elements) where
  open el use {
    Txid, Transaction, TxOut, Script, BlockHash, BlockHeader, txid_eq, script_eq, outputs,
    script_pubkey, height, block_hash, zero_hash,
  }

  pub record DownloadTxResult : Type 0 where
    pub txs : List (Txid × Transaction)
    pub unblinds : List (OutPoint el × TxOutSecrets el)

  unfoldable pub nothing_downloaded : DownloadTxResult → Bool
  nothing_downloaded d = is_empty d.txs && is_empty d.unblinds

  pub record Update : Type 0 where
    pub new_txs : DownloadTxResult
    pub txid_height_new : List (Txid × Option ℕ)
    pub txid_height_delete : List Txid
    pub timestamps : List (ℕ × ℕ)
    pub scripts : HashMap Script (Chain × ChildNumber)
    pub tip : BlockHeader

  unfoldable pub only_tip : Update → Bool
  only_tip u =
      nothing_downloaded u.new_txs
      && is_empty u.txid_height_new
      && is_empty u.txid_height_delete
      && is_empty u.timestamps
      && is_empty u.scripts.entries

  -- The `Store` holds nothing else.
  pub record RawCache : Type 0 where
    pub all_txs : HashMap Txid Transaction
    pub paths : HashMap Script (Chain × ChildNumber)
    pub scripts : HashMap (Chain × ChildNumber) Script
    pub heights : HashMap Txid (Option ℕ)
    pub unblinded : HashMap (OutPoint el) (TxOutSecrets el)
    pub tip : ℕ × BlockHash
    pub timestamps : HashMap ℕ ℕ
    pub last_unused_external : ℕ
    pub last_unused_internal : ℕ

  abbrev pub default : RawCache
  default = record {
    all_txs = new;
    paths = new;
    scripts = new;
    heights = new;
    unblinded = new;
    tip = (0, zero_hash);
    timestamps = new;
    last_unused_external = 0;
    last_unused_internal = 0;
  }

  unfoldable pub use_outputs :
      HashMap Script (Chain × ChildNumber) → List TxOut → LastUsed → LastUsed
  use_outputs paths [] used = used
  use_outputs paths (o ∷ os) used =
      use_outputs paths os (use_path (get ⦃eq = script_eq⦄ paths (script_pubkey o)) used)

  abbrev pub use_tx :
      HashMap Script (Chain × ChildNumber) → Option Transaction → LastUsed → LastUsed
  use_tx paths (some tx) used = use_outputs paths (outputs tx) used
  use_tx paths none used = used

  unfoldable pub use_txs : RawCache → List (Txid × Option ℕ) → LastUsed → LastUsed
  use_txs cache [] used = used
  use_txs cache ((txid, _) ∷ rest) used =
      use_txs cache rest (use_tx cache.paths (get ⦃eq = txid_eq⦄ cache.all_txs txid) used)

  -- The set of the transactions with an unblinded output.
  abbrev pub txids_unblinded : HashMap (OutPoint el) (TxOutSecrets el) → List Txid
  txids_unblinded unblinded = map (λ (o : OutPoint el). o.txid) (keys unblinded)

  -- What an update that is not too old does to the maps and the tip.
  unfoldable pub merged : RawCache → Update → List (Txid × Option ℕ) → RawCache
  merged cache u txid_height = record cache {
    tip = (height u.tip, block_hash u.tip);
    all_txs = extend ⦃eq = txid_eq⦄ cache.all_txs u.new_txs.txs;
    unblinded = extend cache.unblinded u.new_txs.unblinds;
    heights =
        extend ⦃eq = txid_eq⦄
          (retain ⦃eq = txid_eq⦄ (λ k. not (contains ⦃eq = txid_eq⦄ u.txid_height_delete k))
            cache.heights)
          txid_height;
    timestamps = extend cache.timestamps u.timestamps;
    scripts = extend cache.scripts (map (λ e. (e.1, e.0)) u.scripts.entries);
    paths = extend ⦃eq = script_eq⦄ cache.paths u.scripts.entries;
  }

  unfoldable pub txid_height : RawCache → Update → List (Txid × Option ℕ)
  txid_height cache u =
      let unblinded = txids_unblinded (extend cache.unblinded u.new_txs.unblinds) in
      keep (λ e. contains ⦃eq = txid_eq⦄ unblinded e.0) u.txid_height_new

  abbrev pub with_indices : RawCache → LastUsed → RawCache
  with_indices cache (e, i) = record cache {
    last_unused_external = next_index e cache.last_unused_external;
    last_unused_internal = next_index i cache.last_unused_internal;
  }

  unfoldable pub updated : RawCache → Update → RawCache
  updated cache u =
      let heights = txid_height cache u in
      let cache = merged cache u heights in with_indices cache (use_txs cache heights (none, none))

  -- `apply_update_inner` without what is persisted.
  unfoldable pub apply_cache : RawCache → Update → Result Error RawCache
  apply_cache cache u =
      if ltb ((height u.tip + 1) % 2 ^ 32) cache.tip.0
      then err (update_height_too_old (height u.tip) cache.tip.0)
      else ok (updated cache u)

  pub apply_cache-eq-ok :
      (c c' : RawCache) (u : Update)
      → apply_cache c u ≡ ok c'
      → (ltb ((height u.tip + 1) % 2 ^ 32) c.tip.0 ≡ false) × (updated c u ≡ c')
  unfolding apply_cache
  apply_cache-eq-ok c c' u h = elim (Bool-cases (ltb ((height u.tip + 1) % 2 ^ 32) c.tip.0)) [
    | inl e ↦
        let no : ◌≡◌ {A = Result Error RawCache}
            (err (update_height_too_old (height u.tip) c.tip.0)) (ok c') =
          subst
            (λ b.
              (if b then err (update_height_too_old (height u.tip) c.tip.0) else ok (updated c u))
              ≡ ok c')
            e h in
        cc
    | inr e ↦
        let yes : ◌≡◌ {A = Result Error RawCache} (ok (updated c u)) (ok c') =
          subst
            (λ b.
              (if b then err (update_height_too_old (height u.tip) c.tip.0) else ok (updated c u))
              ≡ ok c')
            e h in
        (e, cc)
  ]

-- ===== src/Tests/Scanning.antt =====
-- clients/mod.rs of lwk_wollet.
use satsails_lwk.Common.{
  Defined, ℕ, ◌^◌, List, [], ◌∷◌, Option, some, none, Result, ok, err, true, ◌≡◌, refl, sym, ap,
  subst, nat_eq, pair_eq, ltb, le→ltb, if◌then◌else◌, map, arith, All, ◌==◌,
}
use satsails_lwk.Common.HashMap.{get, lookup, without}
use satsails_lwk.Common.Extend.{contains, extend, retain_entries}
use satsails_lwk.Wollet.{
  Chain, external, internal, ChildNumber, normal, Error, foreign, chain_eq, child_eq, outpoint_eq,
}
use satsails_lwk.Wollet.Update.{
  RawCache, Update, default, apply_cache, updated, merged, txid_height, use_txs, use_outputs,
}
use satsails_lwk.Wollet.Update.Heights.{HeightsUnblinded}
use satsails_lwk.Wollet.Scan.{
  Backend, ℤ, pos, Progress, nothing_yet, scan_all, scan_loop, scan_batch, get_script_batch,
  scripts_from, known_script, noted, max_used, record_history,
}
use satsails_lwk.Wollet.Scan.Download.{
  full_scan, finish_scan, download_txs, unblinds_of, try_unblind, download_headers, confirmed_at,
  is_changed,
}
use satsails_lwk.Wollet.Scan.Ends.{RefusesHardened, full_scan-Defined}
use satsails_lwk.Wollet.Scan.Unused.{Covered, scan_loop-Covered}
use satsails_lwk.Wollet.Scan.Found.{Lists, scan_all-Lists}
use satsails_lwk.Wollet.Scan.Sync.{Synced, full_scan-Synced}
use satsails_lwk.Wollet.Scan.Complete.{
  IsComplete, AnswersTransactions, AnswersHeaders, full_scan-IsComplete,
}
use satsails_lwk.Tests.Coins.{coins, payment}

-- Only the external script 3 has a history: a transaction at height 100 that pays to it.
abbrev told : Chain × ChildNumber → List (ℕ × ℤ × Option ℕ)
told s = if s == (external, normal 3) then (7, pos 100, none) ∷ [] else []

abbrev market : Backend coins
market = record {
  Single = Chain;
  SecretKey = ℕ;
  into_single_descriptors = ok (external ∷ internal ∷ []);
  last_step = λ chain. elim chain [ external ↦ some (normal 0) | internal ↦ some (normal 1) ];
  from_normal_idx = λ j. if ltb j (2 ^ 31) then ok (normal j) else err (foreign "hardened");
  script_at = λ chain j. ok (chain, normal j);
  get_scripts_history = λ scripts. ok (map told scripts);
  get_transactions = λ ids. ok (map (λ t. (t, [], (external, normal 3) ∷ [])) ids);
  get_headers = λ heights hashes. ok heights;
  tip = ok 100;
  time = λ header. 1700;
  block_hash_eq = nat_eq;
  is_confidential = λ o. true;
  derive_blinding_key = λ script. some 0;
  unblind = λ o key. ok (record { asset = 1; asset_bf = 0; value = 500; value_bf = 0 });
}

market-RefusesHardened : RefusesHardened market
market-RefusesHardened j h = (foreign "hardened", rw (le→ltb j (2 ^ 31) h) refl)

full_scan-Defined_example : Defined (full_scan market 107374183 (default coins))
full_scan-Defined_example =
    full_scan-Defined market market-RefusesHardened 107374183 (default coins) (omega arith)

abbrev progress_of : Option (Result Error (Progress market)) → Progress market
progress_of (some (ok p)) = p
progress_of _ = nothing_yet market

unfoldable looped : Progress market
unfolding scan_loop scan_batch get_script_batch scripts_from known_script noted max_used
    record_history lookup extend without
looped = progress_of (scan_loop market 3 (default coins) external 0 (nothing_yet market))

looped_index : looped.last_unused_external ≡ 4
unfolding looped
looped_index = refl

looped_scan : scan_loop market 3 (default coins) external 0 (nothing_yet market) ≡ some (ok looped)
unfolding looped
looped_scan = refl

scan_loop-Covered_example :
    Covered market told
      (λ scripts. refl)
      market-RefusesHardened
      (default coins)
      external
      0
      looped.last_unused_external
scan_loop-Covered_example =
    scan_loop-Covered market told (λ scripts. refl) market-RefusesHardened 3 (default coins)
      external (nothing_yet market) looped looped_scan

unfoldable gathered : Progress market
unfolding scan_all looped
gathered =
    progress_of (scan_all market 3 (default coins) (external ∷ internal ∷ []) (nothing_yet market))

gathered_scan :
    scan_all market 3 (default coins) (external ∷ internal ∷ []) (nothing_yet market)
    ≡ some (ok gathered)
unfolding gathered
gathered_scan = refl

scan_all-Lists_example :
    All
      (Lists market told (λ scripts. refl) market-RefusesHardened (default coins) gathered)
      (external ∷ internal ∷ [])
scan_all-Lists_example =
    scan_all-Lists market told (λ scripts. refl) market-RefusesHardened 3 (default coins)
      (external ∷ internal ∷ []) (nothing_yet market) gathered gathered_scan

abbrev update_in : Option (Result Error (Option (Update coins))) → Update coins
update_in (some (ok (some u))) = u
update_in _ = payment

unfoldable found : Update coins
unfolding full_scan finish_scan download_txs unblinds_of try_unblind download_headers confirmed_at
    is_changed gathered
found = update_in (full_scan market 3 (default coins))

found_scan : full_scan market 3 (default coins) ≡ some (ok (some found))
unfolding found
found_scan = refl

abbrev cache_in : Result Error (RawCache coins) → RawCache coins
cache_in (ok c) = c
cache_in (err e) = default coins

unfoldable held : RawCache coins
unfolding apply_cache updated merged txid_height use_txs use_outputs retain_entries found
held = cache_in (apply_cache coins (default coins) found)

held_applied : apply_cache coins (default coins) found ≡ ok held
unfolding held
held_applied = refl

held_height : get held.heights 7 ≡ some (some 100)
unfolding held
held_height = refl

default-HeightsUnblinded : HeightsUnblinded (default coins)
unfolding HeightsUnblinded lookup
default-HeightsUnblinded t o h = cc

full_scan-Synced_example : Synced market 3 (default coins) held
full_scan-Synced_example =
    full_scan-Synced market 3 (default coins) found held default-HeightsUnblinded found_scan
      held_applied

txids_of : (ids : List ℕ) → map coins.txid (map (λ t. (t, [], (external, normal 3) ∷ [])) ids) ≡ ids
txids_of [] = refl
txids_of (t ∷ ts) = ap (λ r. t ∷ r) (txids_of ts)

heights_of : (hs : List ℕ) → map coins.height hs ≡ hs
heights_of [] = refl
heights_of (h ∷ hs) = ap (λ r. h ∷ r) (heights_of hs)

told_txs : AnswersTransactions market
told_txs ids txs h t asked =
    let same : map (λ t. (t, [], (external, normal 3) ∷ [])) ids ≡ txs = cc in
    subst (λ ts. contains (map coins.txid ts) t ≡ true) same
      (subst (λ ts. contains ts t ≡ true) (sym (txids_of ids)) asked)

told_headers : AnswersHeaders market
told_headers heights hashes headers h n asked =
    let same : heights ≡ headers = cc in
    subst (λ hs. contains (map coins.height hs) n ≡ true) same
      (subst (λ hs. contains hs n ≡ true) (sym (heights_of heights)) asked)

default-IsComplete : IsComplete market (default coins)
unfolding lookup confirmed_at
default-IsComplete = record { known = λ t o h. cc; timed = λ h c. cc }

full_scan-IsComplete_example : IsComplete market held
full_scan-IsComplete_example =
    full_scan-IsComplete market told_txs told_headers 3 (default coins) found held
      default-IsComplete found_scan held_applied

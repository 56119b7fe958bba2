-- ===== src/Wollet/Scan/Unused.antt =====
-- The last unused index that the scan in lwk_wollet/src/clients/mod.rs finds, and how far it looks.
use satsails_lwk.Common.{
  ℕ, zero, suc, ◌+◌, ◌*◌, ◌%◌, ◌^◌, ◌-◌, ◌<◌, ◌≤◌, List, Option, some, none, Result, ok, Bool, true,
  false, not, is_empty, concat, map, ◌≡◌, ◌≢◌, sym, ap, ◌∙◌, subst, arith, ◌⊎◌, inl, inr,
  if◌then◌else◌, ltb, Bool-cases, nat_eq,
}
use satsails_lwk.Wollet.{Elements, Error}
use satsails_lwk.Wollet.Update.{RawCache}
use satsails_lwk.Wollet.Scan.{
  Backend, ScriptBatch, scripts_from, get_script_batch, Progress, History, max_used, noted,
  scan_batch, scan_loop, chain_of,
}
use satsails_lwk.Wollet.Scan.Gathers.{scan_batch-eq-ok, turn-eq-ok}
use satsails_lwk.Wollet.Scan.Ends.{RefusesHardened, last_batch, answered_early}
use satsails_lwk.Wollet.Scan.Gap.{used_at, Greatest, histories, max_used-Greatest}
use satsails_lwk.Wollet.Scan.Raised.{
  is_some, empty-max_used, last_unused, raised, last_unused-noted,
}

module _ {el : Elements} (server : Backend el) where
  open server use {Single, get_scripts_history}

  module _ (told : el.Script → List (History server))
      (answers : (xs : List el.Script) → get_scripts_history xs ≡ ok (map told xs))
      (refuses : RefusesHardened server) where
    pub small_batch :
        (c : RawCache el) (d : Single) (batch : ℕ) (b : ScriptBatch server)
        → batch ≤ last_batch
        → get_script_batch server c batch d ≡ ok b
        → scripts_from server c d 20 (batch * 20) ≡ ok b
    unfolding get_script_batch
    small_batch c d batch b le h =
        let start : (batch * 20) % 2 ^ 32 ≡ batch * 20 = omega arith in
        let count : (batch * 20 + 20) % 2 ^ 32 - batch * 20 ≡ 20 = omega arith in
        subst (λ n. scripts_from server c d n (batch * 20) ≡ ok b) count
          (subst (λ s. scripts_from server c d ((s + 20) % 2 ^ 32 - s) s ≡ ok b) start h)

    -- A turn that answered: what it found in its batch, whether it is the last, and the index after it.
    scanned_batch :
        (c : RawCache el) (d : Single) (batch : ℕ) (p p' : Progress server) (last : Bool)
        → batch ≤ last_batch
        → scan_batch server c d batch p ≡ ok (p', last)
        → (m : Option ℕ) × Greatest server told c d (batch * 20) 0 20 m
          × (last ≡ not (is_some m))
          × (last_unused server (chain_of server d) p'
              ≡ raised batch m (last_unused server (chain_of server d) p))
    unfolding noted
    scanned_batch c d batch p p' last le h =
        let (b, result, derived, heard, same) = scan_batch-eq-ok server c d batch p p' last h in
        let agreed : histories server told b ≡ result =
          let both : ◌≡◌ {A = Result Error (List (List (History server)))}
              (ok (histories server told b)) (ok result) =
            sym (answers (map (λ e. e.0) b.value)) ∙ heard in
          cc in
        let ended : last ≡ is_empty (concat result) =
          sym (ap (λ (r : Progress server × Bool). r.1) same) in
        (
          max_used server 0 result,
          subst (λ hs. Greatest server told c d (batch * 20) 0 20 (max_used server 0 hs)) agreed
              (max_used-Greatest server told c d 20 (batch * 20) 0 (batch * 20) b (omega arith)
                (omega arith) (small_batch c d batch b le derived)),
          ended ∙ empty-max_used server 0 result,
          ap (λ (r : Progress server × Bool). last_unused server (chain_of server d) r.0) (sym same)
              ∙ last_unused-noted server d batch b result p,
        )

    -- The loop stopped at a batch without a history, below which the index covers all that are used; it
    -- follows a used one, or is what was there.
    pub record Covered (c : RawCache el) (d : Single) (before after : ℕ) : Type 0 where
      pub last_scanned : ℕ
      pub nothing_there :
          (j : ℕ)
          → last_scanned * 20 ≤ j
          → j < last_scanned * 20 + 20
          → used_at server told c d j ≡ false
      pub covers :
          (j : ℕ) → j < last_scanned * 20 + 20 → used_at server told c d j ≡ true → j < after
      pub follows :
          (after ≡ before) ⊎ ((m : ℕ) × (after ≡ m + 1) × (used_at server told c d m ≡ true))

    going_on :
        (c : RawCache el) (d : Single) (batch m l l' : ℕ)
        → batch < last_batch
        → Greatest server told c d (batch * 20) 0 20 (some m)
        → ((j : ℕ) → j < batch * 20 → used_at server told c d j ≡ true → j < l)
        → l' ≡ raised batch (some m) l
        → (l' ≡ batch * 20 + m + 1)
          × ((j : ℕ) → j < (batch + 1) * 20 → used_at server told c d j ≡ true → j < l')
    going_on c d batch m l l' le (lo, hi, used, top) below e = (
      omega arith,
      λ j lt u. elim (Bool-cases (ltb j (batch * 20))) [
        | inl small ↦ ground arith
        | inr big ↦
            let bound : j ≤ batch * 20 + m = top j (ground arith) (omega arith) u in omega arith
      ],
    )

    follows_used :
        (c : RawCache el) (d : Single) (l l' m : ℕ)
        → l ≡ m + 1
        → used_at server told c d m ≡ true
        → (l' ≡ l) ⊎ ((m : ℕ) × (l' ≡ m + 1) × (used_at server told c d m ≡ true))
        → (m : ℕ) × (l' ≡ m + 1) × (used_at server told c d m ≡ true)
    follows_used c d l l' m e used (inl same) = (m, same ∙ e, used)
    follows_used c d l l' m e used (inr found) = found

    at_turn :
        (c : RawCache el) (d : Single) (batch : ℕ) (p p' q : Progress server)
        (o : Option (Result Error (Progress server))) (last : Bool) (m : Option ℕ)
        → batch < last_batch
        → Greatest server told c d (batch * 20) 0 20 m
        → last ≡ not (is_some m)
        → last_unused server (chain_of server d) p'
          ≡ raised batch m (last_unused server (chain_of server d) p)
        → ((j : ℕ)
            → j < batch * 20
            → used_at server told c d j ≡ true
            → j < last_unused server (chain_of server d) p)
        → (((j : ℕ)
              → j < ((batch + 1) % 2 ^ 32) * 20
              → used_at server told c d j ≡ true
              → j < last_unused server (chain_of server d) p')
            → o ≡ some (ok q)
            → Covered c d
                (last_unused server (chain_of server d) p')
                (last_unused server (chain_of server d) q))
        → (if last then some (ok p') else o) ≡ some (ok q)
        → Covered c d
            (last_unused server (chain_of server d) p)
            (last_unused server (chain_of server d) q)
    at_turn c d batch p p' q o true (some m) le g ended index below next h = cc
    at_turn c d batch p p' q o false none le g ended index below next h = cc
    at_turn c d batch p p' q o true none le g ended index below next h =
        let same : p' ≡ q = cc in
        let kept : last_unused server (chain_of server d) q
            ≡ last_unused server (chain_of server d) p =
          ap (last_unused server (chain_of server d)) (sym same) ∙ index in
        record {
          last_scanned = batch;
          nothing_there = λ j lo hi. g j (omega arith) (omega arith);
          covers = λ j lt u. elim (Bool-cases (ltb j (batch * 20))) [
            | inl small ↦ let lower = below j (ground arith) u in omega arith
            | inr big ↦
                let no : used_at server told c d j ≡ false = g j (ground arith) (omega arith) in cc
          ];
          follows = inl kept;
        }
    at_turn c d batch p p' q o false (some m) le g ended index below next h =
        let (here, below') =
          going_on c d batch m (last_unused server (chain_of server d) p)
            (last_unused server (chain_of server d) p') le g below index in
        let whole : (batch + 1) % 2 ^ 32 ≡ batch + 1 = omega arith in
        let later_on : Covered c d (last_unused server (chain_of server d) p')
            (last_unused server (chain_of server d) q) =
          next (λ j lt u. below' j (omega arith) u) h in
        record {
          last_scanned = later_on.last_scanned;
          nothing_there = later_on.nothing_there;
          covers = later_on.covers;
          follows = inr (
              follows_used c d (last_unused server (chain_of server d) p')
                (last_unused server (chain_of server d) q) (batch * 20 + m) here g.2
                later_on.follows);
        }

    loop-Covered :
        (fuel : ℕ) (c : RawCache el) (d : Single) (batch : ℕ) (p q : Progress server)
        → batch ≤ last_batch
        → ((j : ℕ)
            → j < batch * 20
            → used_at server told c d j ≡ true
            → j < last_unused server (chain_of server d) p)
        → scan_loop server fuel c d batch p ≡ some (ok q)
        → Covered c d
            (last_unused server (chain_of server d) p)
            (last_unused server (chain_of server d) q)
    unfolding scan_loop
    loop-Covered zero c d batch p q le below h = cc
    loop-Covered (suc fuel) c d batch p q le below h =
        let (p', last, turned, rest) = turn-eq-ok server (scan_batch server c d batch p) _ q h in
        let (m, greatest, ended, index) = scanned_batch c d batch p p' last le turned in
        let earlier : batch ≢ last_batch =
          answered_early server refuses c d batch p (p', last) turned in
        at_turn c d batch p p' q (scan_loop server fuel c d ((batch + 1) % 2 ^ 32) p') last m
          (omega arith) greatest ended index below
          (λ below'. loop-Covered fuel c d ((batch + 1) % 2 ^ 32) p' q (omega arith) below') rest

    -- Where the server answers with the history of each script, and bip32 refuses the indices of hardened
    -- children, the loop over a descriptor's batches stops at one without a history, and the last unused
    -- index is then above every used index up to its end, and one above a used index or what was there.
    pub scan_loop-Covered :
        (fuel : ℕ) (c : RawCache el) (d : Single) (p q : Progress server)
        → scan_loop server fuel c d 0 p ≡ some (ok q)
        → Covered c d
            (last_unused server (chain_of server d) p)
            (last_unused server (chain_of server d) q)
    scan_loop-Covered fuel c d p q h =
        loop-Covered fuel c d 0 p q (omega arith) (λ j lt. absurd (omega arith)) h

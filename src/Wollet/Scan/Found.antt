-- ===== src/Wollet/Scan/Found.antt =====
-- Which transactions the whole scan in lwk_wollet/src/clients/mod.rs lists.
use satsails_lwk.Common.{
  ℕ, zero, suc, ◌+◌, ◌*◌, ◌%◌, ◌^◌, ◌<◌, ◌≤◌, List, [], ◌∷◌, ◌++◌, Option, some, Result, ok, err,
  >>=-eq-ok, Bool, true, false, not, is_empty, concat, map, ◌≡◌, ◌≢◌, refl, sym, ap, ◌∙◌, subst,
  arith, inl, inr, if◌then◌else◌, ltb, Bool-cases, ◌==◌, nat_eq, All,
}
use satsails_lwk.Wollet.{Elements, Error}
use satsails_lwk.Wollet.Update.{RawCache}
use satsails_lwk.Wollet.Scan.{
  Backend, ScriptBatch, scripts_from, known_script, Progress, History, noted, scan_batch, scan_loop,
  scan_all, and_then_ok-eq-ok,
}
use satsails_lwk.Wollet.Scan.Gathers.{scan_batch-eq-ok, turn-eq-ok, scan_all-Keeps}
use satsails_lwk.Wollet.Scan.Ends.{RefusesHardened, last_batch, answered_early}
use satsails_lwk.Wollet.Scan.Gap.{history_at, used_at, histories, at_index}
use satsails_lwk.Wollet.Scan.Unused.{small_batch}
use satsails_lwk.Wollet.Scan.Listed.{
  All-left, All-right, All-weaken, All-none, none-All, IsListed, noted-IsListed, noted-lists,
}

module _ {el : Elements} (server : Backend el) where
  open server use {Single, get_scripts_history, from_normal_idx}

  module _ (told : el.Script → List (History server))
      (answers : (xs : List el.Script) → get_scripts_history xs ≡ ok (map told xs))
      (refuses : RefusesHardened server) where
    -- What holds of all that was told of a batch holds of the history at each of its indices.
    at_each :
        (P : History server → Type 0) (c : RawCache el) (d : Single) (n s j : ℕ)
        (b : ScriptBatch server)
        → scripts_from server c d n s ≡ ok b
        → All P (concat (histories server told b))
        → s ≤ j
        → j < s + n
        → All P (history_at server told c d j)
    unfolding scripts_from
    at_each P c d zero s j b h all lo hi = absurd (omega arith)
    at_each P c d (suc n) s j b h all lo hi =
        let (child, numbered, h1) = >>=-eq-ok (from_normal_idx s) _ b h in
        let (known, found, h2) = >>=-eq-ok (known_script server c d child s) _ b h1 in
        let (rest, later_ones, same) = >>=-eq-ok (scripts_from server c d n (suc s)) _ b h2 in
        let built : told known.1 ++ concat (histories server told rest)
            ≡ concat (histories server told b) =
          ap (λ r. elim r [ ok b ↦ concat (histories server told b) | err e ↦ [] ]) same in
        let both = subst (All P) (sym built) all in
        elim (Bool-cases (j == s)) [
          | inl here ↦
              let first : j ≡ s = ground arith in
              subst (All P)
                (sym (
                  ap (history_at server told c d) first
                  ∙ at_index server told c d s child known numbered found))
                (All-left P (told known.1) (concat (histories server told rest)) both)
          | inr after ↦
              at_each P c d n (suc s) j rest later_ones
                (All-right P (told known.1) (concat (histories server told rest)) both)
                (ground arith) (omega arith)
        ]

    abbrev pub ListsBelow : RawCache el → Single → ℕ → Progress server → Type 0
    ListsBelow c d n p = (j : ℕ) → j < n → All (IsListed server p) (history_at server told c d j)

    -- Which indices the turns so far have listed.
    ListsBelow-keeps :
        (c : RawCache el) (d : Single) (n : ℕ) (p q : Progress server)
        → ((e : History server) → IsListed server p e → IsListed server q e)
        → ListsBelow c d n p
        → ListsBelow c d n q
    ListsBelow-keeps c d n p q keeps below = λ j lt.
        All-weaken (IsListed server p) (IsListed server q) (history_at server told c d j) keeps
          (below j lt)

    scanned_batch :
        (c : RawCache el) (d : Single) (batch : ℕ) (p p' : Progress server) (last : Bool)
        → batch ≤ last_batch
        → ListsBelow c d (batch * 20) p
        → scan_batch server c d batch p ≡ ok (p', last)
        → ListsBelow c d (batch * 20 + 20) p'
          × (last ≡ true
              → (j : ℕ) → batch * 20 ≤ j
              → j < batch * 20 + 20
              → used_at server told c d j ≡ false)
    unfolding noted
    scanned_batch c d batch p p' last le below h =
        let (b, result, derived, heard, same) = scan_batch-eq-ok server c d batch p p' last h in
        let agreed : result ≡ histories server told b =
          let both : ◌≡◌ {A = Result Error (List (List (History server)))} (ok result)
              (ok (histories server told b)) =
            sym heard ∙ answers (map (λ e. e.0) b.value) in
          cc in
        let here : scripts_from server c d 20 (batch * 20) ≡ ok b =
          small_batch server told answers refuses c d batch b le derived in
        let now : (noted server d batch b result p).0 ≡ p' =
          ap (λ (r : Progress server × Bool). r.0) same in
        let all : All (IsListed server p') (concat (histories server told b)) =
          subst (λ hs. All (IsListed server p') (concat hs)) agreed
            (subst (λ (p : Progress server). All (IsListed server p) (concat result)) now
              (noted-lists server d batch b result p)) in
        (
          λ j lt. elim (Bool-cases (ltb j (batch * 20))) [
            | inl old ↦
                All-weaken (IsListed server p) (IsListed server p') (history_at server told c d j)
                  (λ e listed.
                    subst (λ (p : Progress server). IsListed server p e) now
                      (noted-IsListed server e d batch b result p listed))
                  (below j (ground arith))
            | inr new ↦
                at_each (IsListed server p') c d 20 (batch * 20) j b here all (ground arith)
                  (omega arith)
          ],
          λ ended j lo hi.
              let silent : is_empty (concat (histories server told b)) ≡ true =
                subst (λ hs. is_empty (concat hs) ≡ true) agreed
                  (ap (λ (r : Progress server × Bool). r.1) same ∙ ended) in
              ap not (
                All-none (history_at server told c d j) (
                  at_each (λ _. ⊥) c d 20 (batch * 20) j b here
                    (none-All (concat (histories server told b)) silent) lo hi)),
        )

    -- A batch without a history, up to whose end every history is listed.
    pub record Lists (c : RawCache el) (q : Progress server) (d : Single) : Type 0 where
      pub last_scanned : ℕ
      pub lists : ListsBelow c d (last_scanned * 20 + 20) q
      pub nothing_there :
          (j : ℕ)
          → last_scanned * 20 ≤ j
          → j < last_scanned * 20 + 20
          → used_at server told c d j ≡ false

    at_turn :
        (c : RawCache el) (d : Single) (batch : ℕ) (p' q : Progress server)
        (o : Option (Result Error (Progress server))) (last : Bool)
        → ListsBelow c d (batch * 20 + 20) p'
        → (last ≡ true
            → (j : ℕ) → batch * 20 ≤ j
            → j < batch * 20 + 20
            → used_at server told c d j ≡ false)
        → (o ≡ some (ok q) → Lists c q d)
        → (if last then some (ok p') else o) ≡ some (ok q)
        → Lists c q d
    at_turn c d batch p' q o true below silent next h =
        let same : p' ≡ q = cc in
        record {
          last_scanned = batch;
          lists = subst (ListsBelow c d (batch * 20 + 20)) same below;
          nothing_there = silent refl;
        }
    at_turn c d batch p' q o false below silent next h = next h

    scan_loop-Lists :
        (fuel : ℕ) (c : RawCache el) (d : Single) (batch : ℕ) (p q : Progress server)
        → batch ≤ last_batch
        → ListsBelow c d (batch * 20) p
        → scan_loop server fuel c d batch p ≡ some (ok q)
        → Lists c q d
    unfolding scan_loop
    scan_loop-Lists zero c d batch p q le below h = cc
    scan_loop-Lists (suc fuel) c d batch p q le below h =
        let (p', last, turned, rest) = turn-eq-ok server (scan_batch server c d batch p) _ q h in
        let earlier : batch ≢ last_batch =
          answered_early server refuses c d batch p (p', last) turned in
        let (below', silent) = scanned_batch c d batch p p' last le below turned in
        at_turn c d batch p' q (scan_loop server fuel c d ((batch + 1) % 2 ^ 32) p') last below'
          silent
          (scan_loop-Lists fuel c d ((batch + 1) % 2 ^ 32) p' q (omega arith)
            (λ j lt. below' j (omega arith)))
          rest

    -- Where the server answers with the history of each script, and bip32 refuses the indices of hardened
    -- children, a scan lists of every descriptor the transactions in the histories up to the end of a batch
    -- that has none.
    pub scan_all-Lists :
        (fuel : ℕ) (c : RawCache el) (ds : List Single) (p q : Progress server)
        → scan_all server fuel c ds p ≡ some (ok q)
        → All (Lists c q) ds
    unfolding scan_all
    scan_all-Lists fuel c [] p q h = tt
    scan_all-Lists fuel c (d ∷ ds) p q h =
        let (p', looped, rest) = and_then_ok-eq-ok (scan_loop server fuel c d 0 p) _ q h in
        let first : Lists c p' d =
          scan_loop-Lists fuel c d 0 p p' (omega arith) (λ j lt. absurd (omega arith)) looped in
        (
          record {
            last_scanned = first.last_scanned;
            lists =
                ListsBelow-keeps c d (first.last_scanned * 20 + 20) p' q
                  (λ e listed.
                    scan_all-Keeps server (λ p. IsListed server p e) (noted-IsListed server e) fuel
                      c ds p' q listed rest)
                  first.lists;
            nothing_there = first.nothing_there;
          },
          scan_all-Lists fuel c ds p' q rest,
        )

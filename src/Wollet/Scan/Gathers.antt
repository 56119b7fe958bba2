-- ===== src/Wollet/Scan/Gathers.antt =====
-- What holds of all that the scan in lwk_wollet/src/clients/mod.rs gathers.
use satsails_lwk.Common.{
  ℕ, zero, suc, ◌+◌, ◌%◌, ◌^◌, List, [], ◌∷◌, Option, some, none, Result, ok, err, >>=-eq-ok, Bool,
  true, false, ◌≡◌, refl, subst, concat, map, nat_eq, ◌==◌, if◌then◌else◌, Bool-cases, inl, inr,
}
use satsails_lwk.Common.HashMap.{Distinct, insert-Distinct}
use satsails_lwk.Wollet.{Elements, Error, Chain, external, internal}
use satsails_lwk.Wollet.Update.{RawCache}
use satsails_lwk.Wollet.Scan.{
  Backend, Progress, ScriptBatch, History, get_script_batch, scan_batch, turn, noted, scan_loop,
  scan_all, nothing_yet, with_scripts, with_max, recorded, record_history, chain_of, max_used,
  max_zero, and_then_ok-eq-ok,
}

module _ {el : Elements} (server : Backend el) where
  open server use {Single, get_scripts_history}
  open el use {txid_eq}

  pub scan_batch-eq-ok :
      (c : RawCache el) (d : Single) (batch : ℕ) (p p' : Progress server) (last : Bool)
      → scan_batch server c d batch p ≡ ok (p', last)
      → (b : ScriptBatch server) × (result : List (List (History server))) × (get_script_batch
            server c batch d
          ≡ ok b)
        × (get_scripts_history (map (λ e. e.0) b.value) ≡ ok result)
        × (noted server d batch b result p ≡ (p', last))
  unfolding scan_batch
  scan_batch-eq-ok c d batch p p' last h =
      let (b, derived, rest) = >>=-eq-ok (get_script_batch server c batch d) _ (p', last) h in
      let (result, told, same) =
        >>=-eq-ok (get_scripts_history (map (λ e. e.0) b.value)) _ (p', last) rest in
      (b, result, derived, told, cc)

  -- A loop that answered stopped at this batch, or went on from it.
  pub turn-eq-ok :
      (r : Result Error (Progress server × Bool))
      (next : Progress server → Option (Result Error (Progress server))) (q : Progress server)
      → turn server r next ≡ some (ok q)
      → (p : Progress server) × (last : Bool) × (r ≡ ok (p, last))
        × ((if last then some (ok p) else next p) ≡ some (ok q))
  turn-eq-ok (err e) next q h = cc
  turn-eq-ok (ok (p, true)) next q h = (p, true, refl, h)
  turn-eq-ok (ok (p, false)) next q h = (p, false, refl, h)

  module _ (P : Progress server → Type 0)
      (keeps : (d : Single) (batch : ℕ) (b : ScriptBatch server)
          (result : List (List (History server))) (p : Progress server)
        → P p
        → P (noted server d batch b result p).0) where
    at_end :
        (last : Bool) (p : Progress server) (o : Option (Result Error (Progress server)))
        (q : Progress server)
        → P p
        → (o ≡ some (ok q) → P q)
        → (if last then some (ok p) else o) ≡ some (ok q)
        → P q
    at_end true p o q kept later h = let same : p ≡ q = cc in subst P same kept
    at_end false p o q kept later h = later h

    pub scan_loop-Keeps :
        (fuel : ℕ) (c : RawCache el) (d : Single) (batch : ℕ) (p q : Progress server)
        → P p
        → scan_loop server fuel c d batch p ≡ some (ok q)
        → P q
    unfolding scan_loop
    scan_loop-Keeps zero c d batch p q ok_p h = cc
    scan_loop-Keeps (suc fuel) c d batch p q ok_p h =
        let (p', last, turned, rest) = turn-eq-ok (scan_batch server c d batch p) _ q h in
        let (b, result, derived, told, same) = scan_batch-eq-ok c d batch p p' last turned in
        let kept : P p' =
          subst (λ (r : Progress server × Bool). P r.0) same (keeps d batch b result p ok_p) in
        at_end last p' (scan_loop server fuel c d ((batch + 1) % 2 ^ 32) p') q kept
          (scan_loop-Keeps fuel c d ((batch + 1) % 2 ^ 32) p' q kept) rest

    -- What every turn keeps holds at the end of the scan.
    pub scan_all-Keeps :
        (fuel : ℕ) (c : RawCache el) (ds : List Single) (p q : Progress server)
        → P p
        → scan_all server fuel c ds p ≡ some (ok q)
        → P q
    unfolding scan_all
    scan_all-Keeps fuel c [] p q ok_p h = let same : p ≡ q = cc in subst P same ok_p
    scan_all-Keeps fuel c (d ∷ ds) p q ok_p h =
        let (p', looped, rest) = and_then_ok-eq-ok (scan_loop server fuel c d 0 p) _ q h in
        scan_all-Keeps fuel c ds p' q (scan_loop-Keeps fuel c d 0 p p' ok_p looped) rest

  -- No transaction is listed twice.
  abbrev pub ListedOnce : Progress server → Type 0
  ListedOnce p = Distinct ⦃eq = txid_eq⦄ p.txid_height.entries

  recorded-ListedOnce :
      (height : ℕ) (t : el.Txid) (hash : Option el.BlockHash) (p : Progress server)
      → ListedOnce p
      → ListedOnce (recorded server height t hash p)
  recorded-ListedOnce height t none p d = elim (Bool-cases (height == 0)) [
    | inl e ↦ rw e (insert-Distinct ⦃eq = txid_eq⦄ p.txid_height t none d)
    | inr e ↦ rw e (insert-Distinct ⦃eq = txid_eq⦄ p.txid_height t (some height) d)
  ]
  recorded-ListedOnce height t (some hash) p d = elim (Bool-cases (height == 0)) [
    | inl e ↦ rw e (insert-Distinct ⦃eq = txid_eq⦄ p.txid_height t none d)
    | inr e ↦ rw e (insert-Distinct ⦃eq = txid_eq⦄ p.txid_height t (some height) d)
  ]

  record_history-ListedOnce :
      (hs : List (History server)) (p : Progress server)
      → ListedOnce p
      → ListedOnce (record_history server hs p)
  unfolding record_history
  record_history-ListedOnce [] p d = d
  record_history-ListedOnce ((t, height, hash) ∷ hs) p d =
      record_history-ListedOnce hs (recorded server (max_zero height) t hash p)
        (recorded-ListedOnce (max_zero height) t hash p d)

  with_max-ListedOnce :
      (chain : Chain) (batch : ℕ) (max : Option ℕ) (p : Progress server)
      → ListedOnce p
      → ListedOnce (with_max server chain batch max p)
  with_max-ListedOnce external batch none p d = d
  with_max-ListedOnce internal batch none p d = d
  with_max-ListedOnce external batch (some max) p d = d
  with_max-ListedOnce internal batch (some max) p d = d

  with_scripts-ListedOnce :
      (b : ScriptBatch server) (p : Progress server)
      → ListedOnce p
      → ListedOnce (with_scripts server b p)
  with_scripts-ListedOnce b p once = elim (Bool-cases b.cached) [
    | inl e ↦ rw e once
    | inr e ↦ rw e once
  ]

  noted-ListedOnce :
      (d : Single) (batch : ℕ) (b : ScriptBatch server) (result : List (List (History server)))
      (p : Progress server)
      → ListedOnce p
      → ListedOnce (noted server d batch b result p).0
  unfolding noted
  noted-ListedOnce d batch b result p once = record_history-ListedOnce (concat result) _ (
      with_max-ListedOnce (chain_of server d) batch (max_used server 0 result) _
        (with_scripts-ListedOnce b p once))

  -- A scan lists every transaction once.
  pub scan_all-ListedOnce :
      (fuel : ℕ) (c : RawCache el) (ds : List Single) (p : Progress server)
      → scan_all server fuel c ds (nothing_yet server) ≡ some (ok p)
      → ListedOnce p
  unfolding Distinct
  scan_all-ListedOnce fuel c ds p h =
      scan_all-Keeps ListedOnce noted-ListedOnce fuel c ds (nothing_yet server) p tt h

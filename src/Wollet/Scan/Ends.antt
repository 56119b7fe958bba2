-- ===== src/Wollet/Scan/Ends.antt =====
-- The loops of the scan in lwk_wollet/src/clients/mod.rs end.
use satsails_lwk.Common.{
  Defined, ℕ, zero, suc, ◌+◌, ◌%◌, ◌^◌, ◌<◌, ◌≤◌, List, [], ◌∷◌, Option, some, none, Result, ok,
  err, ◌>>=◌, Bool, true, false, ◌≡◌, refl, sym, ◌≢◌, arith, subst, Bool-cases, inl, inr, leb,
  leb→le,
}
use satsails_lwk.Wollet.{Elements, Error}
use satsails_lwk.Wollet.Update.{RawCache}
use satsails_lwk.Wollet.Scan.{
  Backend, scripts_from, get_script_batch, known_script, Progress, scan_batch, turn, and_then_ok,
  scan_loop, scan_all, nothing_yet,
}
use satsails_lwk.Wollet.Scan.Download.{full_scan, finish_scan}

-- `2 ^ 31 / 20`: the batch that holds the first index that is not one of a normal child.
abbrev pub last_batch : ℕ
last_batch = 107374182

module _ {el : Elements} (server : Backend el) where
  open server use {Single, from_normal_idx, into_single_descriptors}

  -- bip32: a normal child has an index below 2 ^ 31.
  abbrev pub RefusesHardened : Type 0
  RefusesHardened = (j : ℕ) → 2 ^ 31 ≤ j → (e : Error) × (from_normal_idx j ≡ err e)

  first_error :
      {A B : Type 0} (r : Result Error A) (f : A → Result Error B) (e : Error)
      → r ≡ err e
      → (e : Error) × ((r >>= f) ≡ err e)
  first_error (err e) f e' h = (e, refl)
  first_error (ok a) f e' h = cc

  later_error :
      {A B : Type 0} (r : Result Error A) (f : A → Result Error B)
      → ((a : A) → (e : Error) × (f a ≡ err e))
      → (e : Error) × ((r >>= f) ≡ err e)
  later_error (err e) f h = (e, refl)
  later_error (ok a) f h = h a

  refused_from :
      (refuses : RefusesHardened) (c : RawCache el) (d : Single) (n j : ℕ)
      → 0 < n
      → 2 ^ 31 < j + n
      → (e : Error) × (scripts_from server c d n j ≡ err e)
  unfolding scripts_from
  refused_from refuses c d zero j pos h = absurd (omega arith)
  refused_from refuses c d (suc n) j pos h = elim (Bool-cases (leb (2 ^ 31) j)) [
    | inl hardened ↦
        let (e, refused) = refuses j (leb→le (2 ^ 31) j hardened) in
        first_error (from_normal_idx j) _ e refused
    | inr normal ↦ later_error (from_normal_idx j) _ (λ child.
        later_error (known_script server c d child j) _ (λ known.
          let (e, refused) = refused_from refuses c d n (suc j) (ground arith) (omega arith) in
          first_error (scripts_from server c d n (suc j)) _ e refused))
  ]

  last_batch-refused :
      (refuses : RefusesHardened) (c : RawCache el) (d : Single) (p : Progress server)
      → (e : Error) × (scan_batch server c d last_batch p ≡ err e)
  unfolding scan_batch get_script_batch
  last_batch-refused refuses c d p =
      let (e, refused) = refused_from refuses c d 20 2147483640 (omega arith) (omega arith) in
      first_error (scripts_from server c d 20 2147483640) _ e refused

  -- A turn that answered was not that of the last batch.
  pub answered_early :
      (refuses : RefusesHardened) (c : RawCache el) (d : Single) (batch : ℕ) (p : Progress server)
      (r : Progress server × Bool)
      → scan_batch server c d batch p ≡ ok r
      → batch ≢ last_batch
  answered_early refuses c d batch p r h = λ same.
      let (e, refused) = last_batch-refused refuses c d p in
      let refused' : scan_batch server c d batch p ≡ err e =
        subst (λ b. scan_batch server c d b p ≡ err e) (sym same) refused in
      cc

  and_then_ok-Defined :
      {A B : Type 0} (o : Option (Result Error A)) (next : A → Option (Result Error B))
      → Defined o
      → ((a : A) → Defined (next a))
      → Defined (and_then_ok o next)
  and_then_ok-Defined none next (r, h) later = cc
  and_then_ok-Defined (some (err e)) next h later = (err e, refl)
  and_then_ok-Defined (some (ok a)) next h later = later a

  turn-Defined :
      (r : Result Error (Progress server × Bool))
      (next : Progress server → Option (Result Error (Progress server)))
      → ((p : Progress server) → r ≡ ok (p, false) → Defined (next p))
      → Defined (turn server r next)
  turn-Defined (err e) next h = (err e, refl)
  turn-Defined (ok (p, true)) next h = (ok p, refl)
  turn-Defined (ok (p, false)) next h = h p refl

  -- From any batch the loop ends within the batches that are left.
  scan_loop-Defined :
      (refuses : RefusesHardened) (fuel : ℕ) (c : RawCache el) (d : Single) (batch : ℕ)
      (p : Progress server)
      → batch ≤ last_batch
      → last_batch < batch + fuel
      → Defined (scan_loop server fuel c d batch p)
  unfolding scan_loop
  scan_loop-Defined refuses zero c d batch p le lt = absurd (omega arith)
  scan_loop-Defined refuses (suc fuel) c d batch p le lt =
      turn-Defined (scan_batch server c d batch p) _ (λ p' going.
        let earlier : batch ≢ last_batch = answered_early refuses c d batch p (p', false) going in
        scan_loop-Defined refuses fuel c d ((batch + 1) % 2 ^ 32) p' (omega arith) (omega arith))

  scan_all-Defined :
      (refuses : RefusesHardened) (fuel : ℕ) (c : RawCache el) (ds : List Single)
      (p : Progress server)
      → last_batch < fuel
      → Defined (scan_all server fuel c ds p)
  unfolding scan_all
  scan_all-Defined refuses fuel c [] p lt = (ok p, refl)
  scan_all-Defined refuses fuel c (d ∷ ds) p lt =
      and_then_ok-Defined (scan_loop server fuel c d 0 p) _
        (scan_loop-Defined refuses fuel c d 0 p (omega arith) (omega arith))
        (λ p. scan_all-Defined refuses fuel c ds p lt)

  -- Where bip32 refuses the indices of hardened children, a scan ends, whatever the server answers.
  pub full_scan-Defined :
      (refuses : RefusesHardened) (fuel : ℕ) (c : RawCache el)
      → last_batch < fuel
      → Defined (full_scan server fuel c)
  unfolding full_scan
  full_scan-Defined refuses fuel c lt =
      and_then_ok-Defined (some into_single_descriptors) _ (into_single_descriptors, refl)
        (λ ds.
          and_then_ok-Defined (scan_all server fuel c ds (nothing_yet server)) _
            (scan_all-Defined refuses fuel c ds (nothing_yet server) lt)
            (λ p. (finish_scan server c p, refl)))

-- ===== src/Wollet/Update/Tip.antt =====
-- The tip of the cache under lwk_wollet/src/update.rs, and the replay of updates that `Wollet::new` of
-- lwk_wollet/src/wollet.rs does.
use satsails_lwk.Common.{
  ◌+◌, ◌%◌, ◌^◌, ◌<◌, ◌≤◌, List, [], ◌∷◌, Result, ok, err, ◌>>=◌, ◌≡◌, refl, ap, sym, subst, arith,
  ltb→le, length, All, lt→ltb,
}
use satsails_lwk.Wollet.{Elements, Error, update_height_too_old}
use satsails_lwk.Wollet.Update.{RawCache, Update, apply_cache, apply_cache-eq-ok, updated, merged}

module _ (el : Elements) where
  open el use {height, BlockHeader}

  -- Updates applied one after the other, up to the first that is refused.
  unfoldable pub replay : RawCache el → List (Update el) → Result (Error) (RawCache el)
  replay c [] = ok c
  replay c (u ∷ us) = apply_cache el c u >>= (λ c. replay c us)

  -- An update whose tip is two blocks or more below is refused.
  pub apply_cache-too_old :
      (c : RawCache el) (u : Update el)
      → height u.tip + 1 < c.tip.0
      → c.tip.0 < 2 ^ 32
      → apply_cache el c u ≡ err (update_height_too_old (height u.tip) c.tip.0)
  unfolding apply_cache
  apply_cache-too_old c u old small =
      let e : (height u.tip + 1) % 2 ^ 32 ≡ height u.tip + 1 = omega arith in
      rw (e, lt→ltb (height u.tip + 1) c.tip.0 old) refl

  apply_cache-tip :
      (c : RawCache el) (u : Update el) (c' : RawCache el)
      → height u.tip + 1 < 2 ^ 32
      → apply_cache el c u ≡ ok c'
      → (c'.tip.0 ≡ height u.tip) × (c.tip.0 ≤ c'.tip.0 + 1)
  unfolding updated merged
  apply_cache-tip c u c' small h =
      let (guard, same) = apply_cache-eq-ok el c c' u h in
      let tip : height u.tip ≡ c'.tip.0 = ap (λ (d : RawCache el). d.tip.0) same in
      let le : c.tip.0 ≤ (height u.tip + 1) % 2 ^ 32 = ltb→le _ _ guard in (sym tip, omega arith)

  replay-cons :
      (c : RawCache el) (u : Update el) (us : List (Update el)) (c' : RawCache el)
      (r : Result Error (RawCache el))
      → (r >>= (λ c. replay c us)) ≡ ok c'
      → (d : RawCache el) × (r ≡ ok d) × (replay d us ≡ ok c')
  replay-cons c u us c' (ok d) h = (d, refl, h)
  replay-cons c u us c' (err e) h = cc

  -- n updates that are all applied lower the tip by n blocks at most.
  pub replay-tip :
      (us : List (Update el)) (c c' : RawCache el)
      → All (λ u. height u.tip + 1 < 2 ^ 32) us
      → replay c us ≡ ok c'
      → c.tip.0 ≤ c'.tip.0 + length us
  unfolding replay
  replay-tip [] c c' small h =
      let e : c ≡ c' = cc in subst (λ (d : RawCache el). c.tip.0 ≤ d.tip.0 + 0) e (omega arith)
  replay-tip (u ∷ us) c c' small h =
      let (d, applied, rest) = replay-cons c u us c' (apply_cache el c u) h in
      let step : c.tip.0 ≤ d.tip.0 + 1 = (apply_cache-tip c u d small.0 applied).1 in
      let ih : d.tip.0 ≤ c'.tip.0 + length us = replay-tip us d c' small.1 rest in omega arith

-- ===== src/Wollet/Scan/Gap.antt =====
-- How far the scan in lwk_wollet/src/clients/mod.rs looks, and the last unused index that it finds.
use satsails_lwk.Common.{
  ℕ, zero, suc, ◌+◌, ◌%◌, ◌^◌, ◌<◌, ◌≤◌, List, [], ◌∷◌, Option, some, none, Result, ok, err, ◌>>=◌,
  >>=-eq-ok, Bool, true, false, not, ◌&&◌, is_empty, map, ◌≡◌, refl, sym, ap, ◌∙◌, subst, arith,
  inl, inr, if◌then◌else◌, ltb, leb, Bool-cases, ◌==◌, nat_eq,
}
use satsails_lwk.Wollet.{Elements, Error, ChildNumber}
use satsails_lwk.Wollet.Update.{RawCache, later}
use satsails_lwk.Wollet.Scan.{
  Backend, ScriptBatch, scripts_from, known_script, History, max_used, chain_of,
}

module _ {el : Elements} (server : Backend el) (told : el.Script → List (History server)) where
  open server use {Single, from_normal_idx}

  abbrev tells : Result Error (Bool × el.Script) → List (History server)
  tells (ok (cached, script)) = told script
  tells (err e) = []

  -- The history of the script at an index.
  unfoldable pub history_at : RawCache el → Single → ℕ → List (History server)
  history_at c d j = tells (from_normal_idx j >>= (λ child. known_script server c d child j))

  abbrev pub used_at : RawCache el → Single → ℕ → Bool
  used_at c d j = not (is_empty (history_at c d j))

  -- The greatest used index of some that follow each other, counted from a base.
  abbrev pub Greatest : RawCache el → Single → ℕ → ℕ → ℕ → Option ℕ → Type 0
  Greatest c d base i n none = (j : ℕ) → base + i ≤ j → j < base + i + n → used_at c d j ≡ false
  Greatest c d base i n (some m) =
      (i ≤ m)
      × (m < i + n)
      × (used_at c d (base + m) ≡ true)
      × ((j : ℕ) → base + i ≤ j → j < base + i + n → used_at c d j ≡ true → j ≤ base + m)

  false_at :
      (c : RawCache el) (d : Single) (j k : ℕ)
      → used_at c d k ≡ false
      → j ≡ k
      → used_at c d j ≡ false
  false_at c d j k h e = ap (used_at c d) e ∙ h

  Greatest-unused :
      (c : RawCache el) (d : Single) (base i n : ℕ) (m : Option ℕ)
      → used_at c d (base + i) ≡ false
      → Greatest c d base (suc i) n m
      → Greatest c d base i (suc n) m
  Greatest-unused c d base i n none h g = λ j lo hi. elim (Bool-cases (j == base + i)) [
    | inl e ↦ false_at c d j (base + i) h (ground arith)
    | inr ne ↦ g j (ground arith) (omega arith)
  ]
  Greatest-unused c d base i n (some m) h (lo, hi, used, top) = (
    omega arith,
    omega arith,
    used,
    λ j lo' hi' u. elim (Bool-cases (j == base + i)) [
      | inl e ↦ ground arith
      | inr ne ↦ top j (ground arith) (omega arith) u
    ],
  )

  Greatest-used :
      (c : RawCache el) (d : Single) (base i n : ℕ) (m : Option ℕ)
      → used_at c d (base + i) ≡ true
      → Greatest c d base (suc i) n m
      → Greatest c d base i (suc n) (later i m)
  Greatest-used c d base i n none h g = (
    omega arith,
    omega arith,
    h,
    λ j lo hi u. elim (Bool-cases (leb j (base + i))) [
      | inl le ↦ ground arith
      | inr gt ↦ let no : used_at c d j ≡ false = g j (ground arith) (omega arith) in cc
    ],
  )
  Greatest-used c d base i n (some m) h (lo, hi, used, top) =
      let greater : ltb m i ≡ false = ground arith in
      rw greater (
        omega arith,
        omega arith,
        used,
        λ j lo' hi' u. elim (Bool-cases (j == base + i)) [
          | inl e ↦ ground arith
          | inr ne ↦ top j (ground arith) (omega arith) u
        ],
      )

  one_more :
      (c : RawCache el) (d : Single) (base i n : ℕ) (m : Option ℕ) (unused : Bool)
      → i < 2 ^ 32
      → used_at c d (base + i) ≡ not unused
      → Greatest c d base (suc i) n m
      → Greatest c d base i (suc n) (if unused then m else later (i % 2 ^ 32) m)
  one_more c d base i n m true small h g = Greatest-unused c d base i n m h g
  one_more c d base i n m false small h g =
      let whole : i % 2 ^ 32 ≡ i = omega arith in rw whole (Greatest-used c d base i n m h g)

  pub at_index :
      (c : RawCache el) (d : Single) (j : ℕ) (child : ChildNumber) (known : Bool × el.Script)
      → from_normal_idx j ≡ ok child
      → known_script server c d child j ≡ ok known
      → history_at c d j ≡ told known.1
  unfolding history_at
  at_index c d j child known numbered found = rw (numbered, found) refl

  abbrev pub histories : ScriptBatch server → List (List (History server))
  histories b = map told (map (λ e. e.0) b.value)

  pub max_used-Greatest :
      (c : RawCache el) (d : Single) (n base i s : ℕ) (b : ScriptBatch server)
      → s ≡ base + i
      → i + n < 2 ^ 32
      → scripts_from server c d n s ≡ ok b
      → Greatest c d base i n (max_used server i (histories b))
  unfolding scripts_from max_used
  max_used-Greatest c d zero base i s b e small h =
      let same : record { cached = true; value = [] } ≡ b = cc in
      subst (λ (b : ScriptBatch server). Greatest c d base i zero (max_used server i (histories b)))
        same (λ j lo hi. absurd (omega arith))
  max_used-Greatest c d (suc n) base i s b e small h =
      let (child, numbered, h1) = >>=-eq-ok (from_normal_idx s) _ b h in
      let (known, found, h2) = >>=-eq-ok (known_script server c d child s) _ b h1 in
      let (rest, later_ones, same) = >>=-eq-ok (scripts_from server c d n (suc s)) _ b h2 in
      let all : ScriptBatch server = record {
        cached = known.0 && rest.cached;
        value = (known.1, (chain_of server d, child)) ∷ rest.value;
      } in
      let built : all ≡ b = cc in
      subst
        (λ (b : ScriptBatch server). Greatest c d base i (suc n) (max_used server i (histories b)))
        built
        (one_more c d base i n (max_used server (suc i) (histories rest)) (is_empty (told known.1))
          (omega arith)
          (sym (ap (used_at c d) e)
            ∙ ap (λ h. not (is_empty h)) (at_index c d s child known numbered found))
          (max_used-Greatest c d n base (suc i) (suc s) rest (omega arith) (omega arith)
            later_ones))

-- ===== src/Wollet/Persister/Reload.antt =====
-- What `Wollet::new` of lwk_wollet/src/wollet.rs makes of the updates in the directory.
use satsails_lwk.Common.{
  ℕ, zero, suc, ◌+◌, ◌<◌, ◌≤◌, List, [], ◌∷◌, ◌++◌, none, some, Result, ok, err, ◌>>=◌, ◌≡◌, refl,
  sym, ap, ◌∙◌, arith, length, get_elem?, nat_eq, ltb, Bool-cases, inl, inr, drop, Option-cases,
  get_elem?-lt, ==-cases, ltb→lt, ltb→le,
}
use satsails_lwk.Common.HashMap.{HashMap, get}
use satsails_lwk.Wollet.{Elements, Error}
use satsails_lwk.Wollet.Update.{Update, RawCache, default, apply_cache}
use satsails_lwk.Wollet.Update.Tip.{replay}
use satsails_lwk.Wollet.Persister.{
  Disk, FsPersister, WolletError, get_update, read, load, new_wollet, refused, with_persister,
  Loaded, after_apply, after_get,
}
use satsails_lwk.Wollet.Codec.{Bytes, Encodings}
use satsails_lwk.Wollet.Persister.Stored.{Stored, Holds, in_order, length-in_order}

module _ {ℓ} {A : Type ℓ} where
  get_elem?-append_left :
      (xs ys : List A) (i : ℕ) → i < length xs → get_elem? (xs ++ ys) i ≡ get_elem? xs i
  get_elem?-append_left [] ys i h = absurd (omega arith)
  get_elem?-append_left (x ∷ xs) ys zero h = refl
  get_elem?-append_left (x ∷ xs) ys (suc i) h = get_elem?-append_left xs ys i (omega arith)

  get_elem?-append_here : (xs : List A) (y : A) → get_elem? (xs ++ (y ∷ [])) (length xs) ≡ some y
  get_elem?-append_here [] y = refl
  get_elem?-append_here (x ∷ xs) y = get_elem?-append_here xs y

  get_elem?-none : (xs : List A) (i : ℕ) → length xs ≤ i → get_elem? xs i ≡ none
  get_elem?-none [] i h = refl
  get_elem?-none (x ∷ xs) zero h = absurd (omega arith)
  get_elem?-none (x ∷ xs) (suc i) h = get_elem?-none xs i (omega arith)

  drop-some :
      (xs : List A) (i : ℕ) (x : A) → get_elem? xs i ≡ some x → drop i xs ≡ x ∷ drop (suc i) xs
  drop-some [] i x h = cc
  drop-some (y ∷ ys) zero x h = cc
  drop-some (y ∷ ys) (suc i) x h = drop-some ys i x h

  drop-none : (xs : List A) (i : ℕ) → get_elem? xs i ≡ none → drop i xs ≡ []
  drop-none [] zero h = refl
  drop-none [] (suc i) h = refl
  drop-none (y ∷ ys) zero h = cc
  drop-none (y ∷ ys) (suc i) h = drop-none ys i h

module _ {el : Elements} (en : Encodings el) (disk : Disk) where
  read-Holds :
      (files : HashMap ℕ Bytes) (us : List (Update el)) (i : ℕ)
      → i < length us
      → Holds en disk files us
      → read en disk (get files i) ≡ ok (get_elem? (in_order en disk us) i)
  unfolding Holds
  read-Holds files [] i lt h = absurd (omega arith)
  read-Holds files (u ∷ older) i lt h = elim (==-cases i (length older)) [
    | inl (same, _) ↦
        let at : i ≡ length (in_order en disk older) = same ∙ sym (length-in_order en disk older) in
        ap (λ n. read en disk (get files n)) same
        ∙ h.0
        ∙ ap ok (
            sym (
              ap (get_elem? (in_order en disk older ++ (u ∷ []))) at
              ∙ get_elem?-append_here (in_order en disk older) u))
    | inr (ne, _) ↦
        let below : i < length older = omega arith in
        read-Holds files older i below h.1
        ∙ ap ok (
            sym (
              get_elem?-append_left (in_order en disk older) (u ∷ []) i
                (omega (arith, length-in_order en disk older))))
  ]

  -- Position by position, the directory answers with the updates in their order, and with nothing after.
  pub get_update-Stored :
      (p : FsPersister en disk) (us : List (Update el)) (i : ℕ)
      → Stored en disk p us
      → get_update en disk p i ≡ ok (get_elem? (in_order en disk us) i)
  unfolding get_update
  get_update-Stored p us i s = elim (Bool-cases (ltb i p.next)) [
    | inl e ↦
        let lt : i < p.next = ltb→lt i p.next e in
        rw e (read-Holds p.files us i (omega (arith, s.count)) s.holds)
    | inr e ↦
        let le : p.next ≤ i = ltb→le i p.next e in
        rw e (
          ap ok (
            sym (
              get_elem?-none (in_order en disk us) i
                (omega (arith, s.count, length-in_order en disk us)))))
  ]

  abbrev pub lifted : Result Error (RawCache el) → Result (WolletError en disk) (RawCache el)
  lifted (ok c) = ok c
  lifted (err e) = err (refused e)

  load_turn :
      (r : Result Error (RawCache el)) (rest : RawCache el → Loaded en disk)
      (replayed : RawCache el → Result Error (RawCache el))
      → ((c : RawCache el) → rest c ≡ some (lifted (replayed c)))
      → after_apply en disk r rest ≡ some (lifted (r >>= replayed))
  load_turn (ok c) rest replayed h = h c
  load_turn (err e) rest replayed h = refl

  abbrev turn : FsPersister en disk → ℕ → ℕ → RawCache el → Update el → Loaded en disk
  turn p fuel i c u = after_apply en disk (apply_cache el c u) (λ c. load en disk fuel p (suc i) c)

  load-replay :
      (p : FsPersister en disk) (xs : List (Update el))
      → ((i : ℕ) → get_update en disk p i ≡ ok (get_elem? xs i))
      → (fuel i : ℕ) (c : RawCache el) → i ≤ length xs
      → length xs < fuel + i
      → load en disk fuel p i c ≡ some (lifted (replay el c (drop i xs)))
  unfolding load replay
  load-replay p xs gets zero i c le h = absurd (omega arith)
  load-replay p xs gets (suc fuel) i c le h = elim (Option-cases (get_elem? xs i)) [
    | inl e ↦
        ap (λ o. after_get en disk o c (turn p fuel i c)) (gets i ∙ ap ok e)
        ∙ ap (λ ys. some (lifted (replay el c ys))) (sym (drop-none xs i e))
    | inr (u, e) ↦
        let lt : i < length xs = get_elem?-lt xs i u e in
        ap (λ o. after_get en disk o c (turn p fuel i c)) (gets i ∙ ap ok e)
        ∙ load_turn (apply_cache el c u) (λ c. load en disk fuel p (suc i) c)
            (λ c. replay el c (drop (suc i) xs))
            (λ c. load-replay p xs gets fuel (suc i) c (omega arith) (omega arith))
        ∙ ap (λ ys. some (lifted (replay el c ys))) (sym (drop-some xs i u e))
  ]

  -- With a turn for each stored update and one more, opening a wallet replays the stored updates in
  -- their order, and answers with what the replay does.
  pub new_wollet-replay :
      (p : FsPersister en disk) (us : List (Update el)) (fuel : ℕ)
      → Stored en disk p us
      → length us < fuel
      → new_wollet en disk fuel p
        ≡ with_persister en disk p (some (lifted (replay el (default el) (in_order en disk us))))
  unfolding new_wollet
  new_wollet-replay p us fuel s h = ap (with_persister en disk p) (
      load-replay p (in_order en disk us) (λ i. get_update-Stored p us i s) fuel 0 (default el)
        (omega arith) (omega (arith, length-in_order en disk us)))

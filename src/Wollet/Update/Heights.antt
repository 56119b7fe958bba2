-- ===== src/Wollet/Update/Heights.antt =====
-- The heights of the transactions after lwk_wollet/src/update.rs has applied an update.
use satsails_lwk.Common.{
  ℕ, Bool, true, false, List, [], ◌∷◌, Option, none, some, ok, not, if◌then◌else◌, ◌≡◌, refl, ap,
  ◌∙◌, sym, subst, map, ==-cases, ◌==◌, inl, inr, any, PartialEq, ◌||◌, Bool-cases, keep,
}
use satsails_lwk.Common.HashMap.{HashMap, get, insert, keys, without}
use satsails_lwk.Common.Extend.{
  extend, retain, contains, last_of, or_else, get-extend, get-retain, last_of-keep,
}
use satsails_lwk.Wollet.{Elements, OutPoint, TxOutSecrets, outpoint_eq}
use satsails_lwk.Wollet.Update.{
  RawCache, Update, apply_cache, apply_cache-eq-ok, updated, merged, txid_height, txids_unblinded,
}

or_step :
    (k j rest left : Bool)
    → (j || rest) ≡ true
    → (rest ≡ true → (k || left) ≡ true)
    → (k || (j || left)) ≡ true
or_step true j rest left h ih = refl
or_step false true rest left h ih = refl
or_step false false rest left h ih = ih h

skip :
    (k rest left : Bool)
    → (k || rest) ≡ true
    → (rest ≡ true → (k || left) ≡ true)
    → (k || left) ≡ true
skip true rest left h ih = refl
skip false rest left h ih = ih h

if_not {ℓ} : {A : Type ℓ} (b : Bool) (x y : A) → (if not b then x else y) ≡ (if b then y else x)
if_not true x y = refl
if_not false x y = refl

any-without {ℓ κ} :
    {K : Type ℓ} {V : Type κ} ⦃eq : PartialEq K⦄ (p : K → Bool) (k : K) (v : V) (es : List (K × V))
    → any p (map (λ e. e.0) es) ≡ true
    → (p k || any p (map (λ e. e.0) (without k es))) ≡ true
unfolding without
any-without p k v [] h = cc
any-without p k v ((j, w) ∷ es) h = elim (==-cases j k) [
  | inl (same, e) ↦ rw e (
      skip (p k) (any p (map (λ e. e.0) es)) (any p (map (λ e. e.0) (without k es)))
        (subst (λ x. (p x || any p (map (λ e. e.0) es)) ≡ true) same h) (any-without p k v es))
  | inr (ne, e) ↦ rw e (
      or_step (p k) (p j) (any p (map (λ e. e.0) es)) (any p (map (λ e. e.0) (without k es))) h
        (any-without p k v es))
]

not_new :
    (seen deleted : Bool) (new old : Option (Option ℕ)) (o : Option ℕ)
    → seen ≡ false
    → or_else (if seen then new else none) (if deleted then none else old) ≡ some o
    → old ≡ some o
not_new true deleted new old o e h = cc
not_new false true new old o e h = cc
not_new false false new old o e h = h

join-or_else {ℓ} :
    {A : Type ℓ} {a a' b b' : Option A} → a ≡ a' → b ≡ b' → or_else a b ≡ or_else a' b'
join-or_else {a = a} {b' = b'} p q = ap (or_else a) q ∙ ap (λ x. or_else x b') p

module _ {el : Elements} where
  open el use {Txid, txid_eq}

  contains-extend :
      (m : HashMap (OutPoint el) (TxOutSecrets el)) (es : List (OutPoint el × TxOutSecrets el))
      (t : Txid)
      → any (λ (o : OutPoint el). ◌==◌ ⦃eq = txid_eq⦄ o.txid t) (keys m) ≡ true
      → any (λ (o : OutPoint el). ◌==◌ ⦃eq = txid_eq⦄ o.txid t) (keys (extend m es)) ≡ true
  unfolding extend
  contains-extend m [] t h = h
  contains-extend m ((o, v) ∷ es) t h =
      contains-extend (insert m o v) es t
        (any-without (λ (p : OutPoint el). ◌==◌ ⦃eq = txid_eq⦄ p.txid t) o v m.entries h)

  any-map_txid :
      (t : Txid) (os : List (OutPoint el))
      → any (λ x. ◌==◌ ⦃eq = txid_eq⦄ x t) (map (λ (o : OutPoint el). o.txid) os)
        ≡ any (λ (o : OutPoint el). ◌==◌ ⦃eq = txid_eq⦄ o.txid t) os
  any-map_txid t [] = refl
  any-map_txid t (o ∷ os) = ap (λ b. ◌==◌ ⦃eq = txid_eq⦄ o.txid t || b) (any-map_txid t os)

  abbrev pub IsUnblinded : RawCache el → Txid → Type 0
  IsUnblinded c t = contains ⦃eq = txid_eq⦄ (txids_unblinded el c.unblinded) t ≡ true

  pub updated-heights :
      (c : RawCache el) (u : Update el) (t : Txid)
      → get ⦃eq = txid_eq⦄ (updated el c u).heights t
        ≡ or_else
            (if contains ⦃eq = txid_eq⦄ (txids_unblinded el (updated el c u).unblinded) t
              then last_of ⦃eq = txid_eq⦄ t u.txid_height_new
              else none)
            (if contains ⦃eq = txid_eq⦄ u.txid_height_delete t
              then none
              else get ⦃eq = txid_eq⦄ c.heights t)
  unfolding updated merged txid_height
  updated-heights c u t =
      let kept : List Txid = txids_unblinded el (extend c.unblinded u.new_txs.unblinds) in
      get-extend ⦃eq = txid_eq⦄
        (retain ⦃eq = txid_eq⦄ (λ k. not (contains ⦃eq = txid_eq⦄ u.txid_height_delete k))
          c.heights)
        (keep (λ e. contains ⦃eq = txid_eq⦄ kept e.0) u.txid_height_new) t
      ∙ join-or_else
          (last_of-keep ⦃eq = txid_eq⦄ (λ k. contains ⦃eq = txid_eq⦄ kept k) t u.txid_height_new)
          (get-retain ⦃eq = txid_eq⦄ (λ k. not (contains ⦃eq = txid_eq⦄ u.txid_height_delete k))
              c.heights t
            ∙ if_not (contains ⦃eq = txid_eq⦄ u.txid_height_delete t)
                (get ⦃eq = txid_eq⦄ c.heights t) none)

  -- A height is recorded by an update, for a transaction with an output that is unblinded by then,
  -- or was there and is not deleted.
  pub apply_cache-heights :
      (c : RawCache el) (u : Update el) (c' : RawCache el) (t : Txid)
      → apply_cache el c u ≡ ok c'
      → get ⦃eq = txid_eq⦄ c'.heights t
        ≡ or_else
            (if contains ⦃eq = txid_eq⦄ (txids_unblinded el c'.unblinded) t
              then last_of ⦃eq = txid_eq⦄ t u.txid_height_new
              else none)
            (if contains ⦃eq = txid_eq⦄ u.txid_height_delete t
              then none
              else get ⦃eq = txid_eq⦄ c.heights t)
  apply_cache-heights c u c' t h =
      subst
        (λ (d : RawCache el).
          get ⦃eq = txid_eq⦄ d.heights t
          ≡ or_else
              (if contains ⦃eq = txid_eq⦄ (txids_unblinded el d.unblinded) t
                then last_of ⦃eq = txid_eq⦄ t u.txid_height_new
                else none)
              (if contains ⦃eq = txid_eq⦄ u.txid_height_delete t
                then none
                else get ⦃eq = txid_eq⦄ c.heights t))
        (apply_cache-eq-ok el c c' u h).1 (updated-heights c u t)

  pub IsUnblinded-updated :
      (c : RawCache el) (u : Update el) (t : Txid)
      → IsUnblinded c t
      → IsUnblinded (updated el c u) t
  unfolding updated merged
  IsUnblinded-updated c u t h =
      any-map_txid t (keys (extend c.unblinded u.new_txs.unblinds))
      ∙ contains-extend c.unblinded u.new_txs.unblinds t
          (sym (any-map_txid t (keys c.unblinded)) ∙ h)

  -- Every transaction with a height has an unblinded output.
  unfoldable pub HeightsUnblinded : RawCache el → Type 0
  HeightsUnblinded c =
      (t : Txid) (o : Option ℕ) → get ⦃eq = txid_eq⦄ c.heights t ≡ some o → IsUnblinded c t

  updated-HeightsUnblinded :
      (c : RawCache el) (u : Update el) → HeightsUnblinded c → HeightsUnblinded (updated el c u)
  unfolding HeightsUnblinded
  updated-HeightsUnblinded c u inv t o h =
      elim (Bool-cases
        (contains ⦃eq = txid_eq⦄ (txids_unblinded el (updated el c u).unblinded) t)) [
          | inl e ↦ e
          | inr e ↦ IsUnblinded-updated c u t (
              inv t o (
                not_new (contains ⦃eq = txid_eq⦄ (txids_unblinded el (updated el c u).unblinded) t)
                  (contains ⦃eq = txid_eq⦄ u.txid_height_delete t)
                  (last_of ⦃eq = txid_eq⦄ t u.txid_height_new) (get ⦃eq = txid_eq⦄ c.heights t) o e
                  (sym (updated-heights c u t) ∙ h)))
        ]

  -- The invariant of the heights survives every update.
  pub apply_cache-HeightsUnblinded :
      (c : RawCache el) (u : Update el) (c' : RawCache el)
      → HeightsUnblinded c
      → apply_cache el c u ≡ ok c'
      → HeightsUnblinded c'
  apply_cache-HeightsUnblinded c u c' inv h =
      subst HeightsUnblinded (apply_cache-eq-ok el c c' u h).1 (updated-HeightsUnblinded c u inv)

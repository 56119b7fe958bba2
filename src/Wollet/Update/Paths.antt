-- ===== src/Wollet/Update/Paths.antt =====
-- `paths` and `scripts` of the cache, which lwk_wollet/src/store.rs calls inverse, under the updates of
-- lwk_wollet/src/update.rs. The descriptor is a function from the paths to the scripts.
use satsails_lwk.Common.{
  List, [], ◌∷◌, Option, some, ok, map, All, ◌≡◌, sym, ap, ◌∙◌, subst, ==-cases, inl, inr, ◌≢◌, ◌⊎◌,
  Option, pair_eq, PartialEq,
}
use satsails_lwk.Common.HashMap.{HashMap, get, insert, get-insert_same, get-insert_other}
use satsails_lwk.Common.Extend.{extend}
use satsails_lwk.Wollet.{Elements, Chain, ChildNumber, chain_eq, child_eq}
use satsails_lwk.Wollet.Update.{RawCache, Update, apply_cache, apply_cache-eq-ok, updated, merged}

get-insert-eq-some :
    {K V : Type 0} ⦃eq : PartialEq K⦄ (m : HashMap K V) (k j : K) (v w : V)
    → get (insert m k v) j ≡ some w
    → ((k ≡ j) × (v ≡ w)) ⊎ ((k ≢ j) × (get m j ≡ some w))
get-insert-eq-some {K} {V} m k j v w h = elim (==-cases k j) [
  | inl (same, _) ↦
      let e : ◌≡◌ {A = Option V} (some v) (some w) =
        sym (get-insert_same m k v) ∙ subst (λ x. get (insert m k v) x ≡ some w) (sym same) h in
      inl (same, cc)
  | inr (ne, _) ↦ inr (ne, sym (get-insert_other m k j v ne) ∙ h)
]

get-insert_here :
    {K V : Type 0} ⦃eq : PartialEq K⦄ (m : HashMap K V) (k j : K) (v w : V)
    → k ≡ j
    → v ≡ w
    → get (insert m k v) j ≡ some w
get-insert_here m k j v w a b =
    subst (λ x. get (insert m k v) x ≡ some w) a (get-insert_same m k v ∙ ap some b)

module _ {S P : Type 0} ⦃se : PartialEq S⦄ ⦃pe : PartialEq P⦄ (derive : P → S) where
  -- A script is under its path exactly when the path is under it, and it is the derived one.
  pub record Inverse (paths : HashMap S P) (scripts : HashMap P S) : Type 0 where
    pub to_script : (s : S) (p : P) → get paths s ≡ some p → get scripts p ≡ some s
    pub to_path : (s : S) (p : P) → get scripts p ≡ some s → get paths s ≡ some p
    pub derived : (s : S) (p : P) → get paths s ≡ some p → s ≡ derive p

  insert-Inverse :
      (paths : HashMap S P) (scripts : HashMap P S) (s : S) (p : P)
      → ((p q : P) → derive p ≡ derive q → p ≡ q)
      → s ≡ derive p
      → Inverse paths scripts
      → Inverse (insert paths s p) (insert scripts p s)
  insert-Inverse paths scripts s p injective here inv = record {
    to_script = λ t q h. elim (get-insert-eq-some paths s t p q h) [
      | inl (a, b) ↦ get-insert_here scripts p q s t b a
      | inr (ne, old) ↦
          let other : p ≢ q = λ e. ne (here ∙ ap derive e ∙ sym (inv.derived t q old)) in
          get-insert_other scripts p q s other ∙ inv.to_script t q old
    ];
    to_path = λ t q h. elim (get-insert-eq-some scripts p q s t h) [
      | inl (a, b) ↦ get-insert_here paths s t p q b a
      | inr (ne, old) ↦
          let found : get paths t ≡ some q = inv.to_path t q old in
          let other : s ≢ t = λ e. ne (injective p q (sym here ∙ e ∙ inv.derived t q found)) in
          get-insert_other paths s t p other ∙ found
    ];
    derived = λ t q h. elim (get-insert-eq-some paths s t p q h) [
      | inl (a, b) ↦ sym a ∙ here ∙ ap derive b
      | inr (ne, old) ↦ inv.derived t q old
    ];
  }

  extend-Inverse :
      (es : List (S × P)) (paths : HashMap S P) (scripts : HashMap P S)
      → ((p q : P) → derive p ≡ derive q → p ≡ q)
      → All (λ e. e.0 ≡ derive e.1) es
      → Inverse paths scripts
      → Inverse (extend paths es) (extend scripts (map (λ e. (e.1, e.0)) es))
  unfolding extend
  extend-Inverse [] paths scripts injective all inv = inv
  extend-Inverse ((s, p) ∷ es) paths scripts injective all inv =
      extend-Inverse es (insert paths s p) (insert scripts p s) injective all.1
        (insert-Inverse paths scripts s p injective all.0 inv)

module _ (el : Elements) where
  open el use {Script, script_eq}

  abbrev pub PathsInverse : (Chain × ChildNumber → Script) → RawCache el → Type 0
  PathsInverse derive c = Inverse ⦃se = script_eq⦄ derive c.paths c.scripts

  -- While every script of the updates is the one derived at its path, and no two paths have one script,
  -- `paths` and `scripts` stay each other's inverse.
  pub apply_cache-PathsInverse :
      (derive : Chain × ChildNumber → Script) (c : RawCache el) (u : Update el) (c' : RawCache el)
      → ((p q : Chain × ChildNumber) → derive p ≡ derive q → p ≡ q)
      → All (λ e. e.0 ≡ derive e.1) u.scripts.entries
      → PathsInverse derive c
      → apply_cache el c u ≡ ok c'
      → PathsInverse derive c'
  unfolding updated merged
  apply_cache-PathsInverse derive c u c' injective all inv h =
      subst (PathsInverse derive) (apply_cache-eq-ok el c c' u h).1 (
        extend-Inverse ⦃se = script_eq⦄ derive u.scripts.entries c.paths c.scripts injective all
          inv)

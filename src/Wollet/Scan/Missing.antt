-- ===== src/Wollet/Scan/Missing.antt =====
-- What is missing of a set, and what extending a map adds to it.
use satsails_lwk.Common.{
  List, [], ◌∷◌, Option, some, none, Bool, true, false, ◌≡◌, refl, sym, ap, ◌∙◌, subst, nat_eq,
  ◌==◌, ==-cases, if◌then◌else◌, Bool-cases, inl, inr, keep, map, not, PartialEq, is_empty, ◌⊎◌,
  arith,
}
use satsails_lwk.Common.HashMap.{HashMap, contains_key, insert}
use satsails_lwk.Common.Extend.{contains, extend, last_of, or_else, or_else-none}
use satsails_lwk.Wollet.Scan.{difference}
use satsails_lwk.Wollet.Scan.Maps.{contains-keep, contains_key-insert, contains_key-insert_same}

module _ {ℓ κ} {K : Type ℓ} {V : Type κ} ⦃eq : PartialEq K⦄ where
  pub contains_key-extend_old :
      (m : HashMap K V) (es : List (K × V)) (k : K)
      → contains_key m k ≡ true
      → contains_key (extend m es) k ≡ true
  unfolding extend
  contains_key-extend_old m [] k h = h
  contains_key-extend_old m ((j, v) ∷ es) k h =
      contains_key-extend_old (insert m j v) es k (contains_key-insert m j k v h)

  pub contains_key-extend_new :
      (m : HashMap K V) (es : List (K × V)) (k : K)
      → contains (map (λ e. e.0) es) k ≡ true
      → contains_key (extend m es) k ≡ true
  unfolding extend
  contains_key-extend_new m [] k h = cc
  contains_key-extend_new m ((j, v) ∷ es) k h = elim (==-cases j k) [
    | inl (same, e) ↦
        contains_key-extend_old (insert m j v) es k
          (subst (λ k. contains_key (insert m j v) k ≡ true) same (contains_key-insert_same m j v))
    | inr (ne, e) ↦ contains_key-extend_new (insert m j v) es k (rw e at h)
  ]

  pub last_of-contains :
      (k : K) (v : V) (es : List (K × V))
      → last_of k es ≡ some v
      → contains (map (λ e. e.0) es) k ≡ true
  unfolding last_of
  last_of-contains k v [] h = cc
  last_of-contains k v ((j, w) ∷ es) h = elim (Bool-cases (j == k)) [
    | inl e ↦ rw e refl
    | inr e ↦ rw e (last_of-contains k v es (sym (or_else-none (last_of k es)) ∙ (rw e at h)))
  ]

module _ {ℓ κ} {K : Type ℓ} {V : Type κ} ⦃eq : PartialEq K⦄ where
  -- What is in a sublist is in the list.
  pub contains-map-keep :
      (q : K × V → Bool) (k : K) (es : List (K × V))
      → contains (map (λ e. e.0) (keep q es)) k ≡ true
      → contains (map (λ e. e.0) es) k ≡ true
  contains-map-keep q k [] h = h
  contains-map-keep q k ((j, v) ∷ es) h = ground (arith, contains-map-keep q k es)

pub difference-splits {ℓ} :
    {A : Type ℓ} ⦃eq : PartialEq A⦄ (a : A) (xs ys : List A)
    → contains xs a ≡ true
    → (contains ys a ≡ true) ⊎ (contains (difference xs ys) a ≡ true)
difference-splits a xs ys h = elim (Bool-cases (contains ys a)) [
  | inl e ↦ inl e
  | inr e ↦ inr (contains-keep (λ x. not (contains ys x)) a xs ∙ rw e h)
]

pub either_said {ℓ} :
    {A : Type ℓ} (seen gone : Bool) (new old : Option A) (a : A)
    → or_else (if seen then new else none) (if gone then none else old) ≡ some a
    → (new ≡ some a) ⊎ (old ≡ some a)
either_said true gone (some x) old a h = inl h
either_said true true none old a h = cc
either_said true false none old a h = inr h
either_said false true new old a h = cc
either_said false false new old a h = inr h

pub map_pairs {ℓ κ μ} :
    {A : Type ℓ} {B : Type κ} {C : Type μ} (f : A → B) (g : A → C) (xs : List A)
    → map (λ (e : B × C). e.0) (map (λ x. (f x, g x)) xs) ≡ map f xs
map_pairs f g [] = refl
map_pairs f g (x ∷ xs) = ap (λ r. f x ∷ r) (map_pairs f g xs)

pub contains_none {ℓ} :
    {A : Type ℓ} ⦃eq : PartialEq A⦄ (a : A) (xs : List A)
    → is_empty xs ≡ true
    → contains xs a ≡ false
contains_none a [] h = refl
contains_none a (x ∷ xs) h = cc

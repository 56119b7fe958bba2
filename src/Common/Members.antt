-- ===== src/Common/Members.antt =====
-- Membership in lists that are put together, and in the entries of a map.
use mathlib.Core.List.{Memᴰ}
use satsails_lwk.Common.{
  List, [], ◌∷◌, ◌++◌, Option, some, PartialEq, map, concat, keep, Bool, true, false, Bool-cases,
  ◌⊎◌, ◌≢◌, ◌≡◌, refl, sym, ap, ◌∙◌, subst, inl, inr, ==-cases,
}
use satsails_lwk.Common.Extend.{contains}
use satsails_lwk.Common.HashMap.{lookup, lookup-here, lookup-there}

module _ {ℓ} {A : Type ℓ} where
  pub mem-append_left : (a : A) (xs ys : List A) → Memᴰ a xs → Memᴰ a (xs ++ ys)
  mem-append_left a [] ys m = elim m [ ]
  mem-append_left a (x ∷ xs) ys (Memᴰ.head e) = Memᴰ.head e
  mem-append_left a (x ∷ xs) ys (Memᴰ.tail m) = Memᴰ.tail (mem-append_left a xs ys m)

  pub mem-append_right : (a : A) (xs ys : List A) → Memᴰ a ys → Memᴰ a (xs ++ ys)
  mem-append_right a [] ys m = m
  mem-append_right a (x ∷ xs) ys m = Memᴰ.tail (mem-append_right a xs ys m)

  pub mem-map {κ} :
      {B : Type κ} (f : A → B) (a : A) (xs : List A) → Memᴰ a xs → Memᴰ (f a) (map f xs)
  mem-map f a [] m = elim m [ ]
  mem-map f a (x ∷ xs) (Memᴰ.head e) = Memᴰ.head (ap f e)
  mem-map f a (x ∷ xs) (Memᴰ.tail m) = Memᴰ.tail (mem-map f a xs m)

module _ {ℓ} {A : Type ℓ} where
  pub mem-concat_map {κ} :
      {B : Type κ} (f : A → List B) (a : A) (b : B) (xs : List A)
      → Memᴰ a xs
      → Memᴰ b (f a)
      → Memᴰ b (concat (map f xs))
  mem-concat_map f a b [] m mb = elim m [ ]
  mem-concat_map f a b (x ∷ xs) (Memᴰ.head e) mb =
      mem-append_left b (f x) (concat (map f xs)) (subst (λ z. Memᴰ b (f z)) e mb)
  mem-concat_map f a b (x ∷ xs) (Memᴰ.tail m) mb =
      mem-append_right b (f x) (concat (map f xs)) (mem-concat_map f a b xs m mb)

module _ {ℓ} {A : Type ℓ} where
  pub Mem-cases : (a x : A) (xs : List A) → Memᴰ a (x ∷ xs) → (a ≡ x) ⊎ Memᴰ a xs
  Mem-cases a x xs (Memᴰ.head e) = inl e
  Mem-cases a x xs (Memᴰ.tail m) = inr m

  pub mem-append-cases : (a : A) (xs ys : List A) → Memᴰ a (xs ++ ys) → Memᴰ a xs ⊎ Memᴰ a ys
  mem-append-cases a [] ys m = inr m
  mem-append-cases a (x ∷ xs) ys (Memᴰ.head e) = inl (Memᴰ.head e)
  mem-append-cases a (x ∷ xs) ys (Memᴰ.tail m) = elim (mem-append-cases a xs ys m) [
    | inl l ↦ inl (Memᴰ.tail l)
    | inr r ↦ inr r
  ]

  pub mem-keep : (p : A → Bool) (a : A) (xs : List A) → Memᴰ a xs → p a ≡ true → Memᴰ a (keep p xs)
  mem-keep p a [] m h = elim m [ ]
  mem-keep p a (x ∷ xs) (Memᴰ.head e) h =
      let here : p x ≡ true = subst (λ z. p z ≡ true) e h in rw here (Memᴰ.head e)
  mem-keep p a (x ∷ xs) (Memᴰ.tail m) h = elim (Bool-cases (p x)) [
    | inl e ↦ rw e (Memᴰ.tail (mem-keep p a xs m h))
    | inr e ↦ rw e (mem-keep p a xs m h)
  ]

  pub mem-keep-inv :
      (p : A → Bool) (a : A) (xs : List A) → Memᴰ a (keep p xs) → Memᴰ a xs × (p a ≡ true)
  mem-keep-inv p a [] m = elim m [ ]
  mem-keep-inv p a (x ∷ xs) m = elim (Bool-cases (p x)) [
    | inl e ↦ elim (Mem-cases a x (keep p xs) (rw e at m)) [
      | inl same ↦ (Memᴰ.head same, subst (λ z. p z ≡ true) (sym same) e)
      | inr rest ↦ let (there, holds) = mem-keep-inv p a xs rest in (Memᴰ.tail there, holds)
    ]
    | inr e ↦ let (there, holds) = mem-keep-inv p a xs (rw e at m) in (Memᴰ.tail there, holds)
  ]

module _ {ℓ κ} {A : Type ℓ} {B : Type κ} where
  pub mem-map-inv :
      (f : A → B) (b : B) (xs : List A) → Memᴰ b (map f xs) → (a : A) × Memᴰ a xs × (b ≡ f a)
  mem-map-inv f b [] m = elim m [ ]
  mem-map-inv f b (x ∷ xs) (Memᴰ.head e) = (x, Memᴰ.head refl, e)
  mem-map-inv f b (x ∷ xs) (Memᴰ.tail m) =
      let (a, there, same) = mem-map-inv f b xs m in (a, Memᴰ.tail there, same)

  pub mem-concat_map-inv :
      (f : A → List B) (b : B) (xs : List A)
      → Memᴰ b (concat (map f xs))
      → (a : A) × Memᴰ a xs × Memᴰ b (f a)
  mem-concat_map-inv f b [] m = elim m [ ]
  mem-concat_map-inv f b (x ∷ xs) m = elim (mem-append-cases b (f x) (concat (map f xs)) m) [
    | inl l ↦ (x, Memᴰ.head refl, l)
    | inr r ↦ let (a, there, found) = mem-concat_map-inv f b xs r in (a, Memᴰ.tail there, found)
  ]

module _ {ℓ} {A : Type ℓ} ⦃eq : PartialEq A⦄ where
  pub contains-none : (xs : List A) (a x : A) → contains xs a ≡ false → Memᴰ x xs → x ≢ a
  contains-none [] a x h m = elim m [ ]
  contains-none (y ∷ ys) a x h m = elim (==-cases y a) [
    | inl (_, e) ↦ let no : true ≡ false = rw e at h in cc
    | inr (ne, e) ↦ elim (Mem-cases x y ys m) [
      | inl same ↦ λ at. ne (sym same ∙ at)
      | inr rest ↦ contains-none ys a x (rw e at h) rest
    ]
  ]

  pub contains-false : (xs : List A) (a : A) → ((x : A) → Memᴰ x xs → x ≢ a) → contains xs a ≡ false
  contains-false [] a h = refl
  contains-false (y ∷ ys) a h = elim (==-cases y a) [
    | inl (same, _) ↦ absurd (h y (Memᴰ.head refl) same)
    | inr (_, e) ↦ rw e (contains-false ys a (λ x m. h x (Memᴰ.tail m)))
  ]

pub mem-lookup :
    {K V : Type 0} ⦃eq : PartialEq K⦄ (k : K) (v : V) (es : List (K × V))
    → lookup k es ≡ some v
    → Memᴰ (k, v) es
unfolding lookup
mem-lookup k v [] h = cc
mem-lookup k v ((j, w) ∷ es) h = elim (==-cases j k) [
  | inl (same, _) ↦
      let here : ◌≡◌ {A = Option _} (some w) (some v) =
        sym (lookup-here j w es) ∙ subst (λ z. lookup z ((j, w) ∷ es) ≡ some v) (sym same) h in
      Memᴰ.head (cc)
  | inr (ne, _) ↦ Memᴰ.tail (mem-lookup k v es (sym (lookup-there j k w es ne) ∙ h))
]

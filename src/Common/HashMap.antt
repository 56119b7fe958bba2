-- ===== src/Common/HashMap.antt =====
-- `std::collections::HashMap` as an association list. The order of the entries, which is the order
-- of `iter`, `keys` and `values`, is left open: every law holds for any order.
use satsails_lwk.Common.{
  ◌≡◌, refl, sym, ap, ◌∙◌, List, [], ◌∷◌, Option, none, some, Bool, true, false, inl, inr,
  if◌then◌else◌, PartialEq, ◌==◌, ==_refl, ==-cases, map, ◌≢◌, subst,
}

module _ {ℓ κ} {K : Type ℓ} {V : Type κ} ⦃eq : PartialEq K⦄ where
  unfoldable pub lookup : K → List (K × V) → Option V
  lookup k [] = none
  lookup k ((j, v) ∷ es) = if j == k then some v else lookup k es

  unfoldable pub without : K → List (K × V) → List (K × V)
  without k [] = []
  without k ((j, v) ∷ es) = if j == k then without k es else (j, v) ∷ without k es

  -- At most one entry for a key.
  unfoldable pub Distinct : List (K × V) → Type κ
  Distinct [] = Unit
  Distinct ((k, v) ∷ es) = (lookup k es ≡ none) × Distinct es

  pub lookup-here : (k : K) (v : V) (es : List (K × V)) → lookup k ((k, v) ∷ es) ≡ some v
  unfolding lookup
  lookup-here k v es = rw (==_refl k)

  pub lookup-there :
      (j k : K) (v : V) (es : List (K × V)) → j ≢ k → lookup k ((j, v) ∷ es) ≡ lookup k es
  unfolding lookup
  lookup-there j k v es ne = elim (==-cases j k) [ inl (e, _) ↦ absurd (ne e) | inr (_, e) ↦ rw e ]

  without-here : (k : K) (v : V) (es : List (K × V)) → without k ((k, v) ∷ es) ≡ without k es
  unfolding without
  without-here k v es = rw (==_refl k)

  without-there :
      (j k : K) (v : V) (es : List (K × V))
      → j ≢ k
      → without k ((j, v) ∷ es) ≡ (j, v) ∷ without k es
  unfolding without
  without-there j k v es ne = elim (==-cases j k) [ inl (e, _) ↦ absurd (ne e) | inr (_, e) ↦ rw e ]

  pub lookup-without_same : (k : K) (es : List (K × V)) → lookup k (without k es) ≡ none
  unfolding lookup without
  lookup-without_same k [] = refl
  lookup-without_same k ((i, v) ∷ es) = elim (==-cases i k) [
    | inl (_, e) ↦ rw e (lookup-without_same k es)
    | inr (_, e) ↦ rw (e, e) (lookup-without_same k es)
  ]

  pub lookup-without_other :
      (k j : K) (es : List (K × V)) → k ≢ j → lookup j (without k es) ≡ lookup j es
  unfolding without
  lookup-without_other k j [] ne = refl
  lookup-without_other k j ((i, v) ∷ es) ne = elim (==-cases i k) [
    | inl (same, _) ↦
        subst (λ i. lookup j (without k ((i, v) ∷ es)) ≡ lookup j ((i, v) ∷ es)) (sym same)
          (ap (lookup j) (without-here k v es)
            ∙ lookup-without_other k j es ne
            ∙ sym (lookup-there k j v es ne))
    | inr (differ, _) ↦ ap (lookup j) (without-there i k v es differ) ∙ elim (==-cases i j) [
      | inl (same, _) ↦
          subst (λ i. lookup j ((i, v) ∷ without k es) ≡ lookup j ((i, v) ∷ es)) (sym same)
            (lookup-here j v (without k es) ∙ sym (lookup-here j v es))
      | inr (other, _) ↦
          lookup-there i j v (without k es) other
          ∙ lookup-without_other k j es ne
          ∙ sym (lookup-there i j v es other)
    ]
  ]

  lookup-without-none :
      (k j : K) (es : List (K × V)) → lookup j es ≡ none → lookup j (without k es) ≡ none
  lookup-without-none k j es h = elim (==-cases k j) [
    | inl (same, _) ↦ subst (λ j. lookup j (without k es) ≡ none) same (lookup-without_same k es)
    | inr (ne, _) ↦ lookup-without_other k j es ne ∙ h
  ]

  -- What is left was there.
  pub without-some :
      (k j : K) (es : List (K × V)) {v : V}
      → lookup j (without k es) ≡ some v
      → lookup j es ≡ some v
  without-some k j es {v} h = elim (==-cases k j) [
    | inl (same, _) ↦
        let gone : lookup j (without k es) ≡ none =
          subst (λ j. lookup j (without k es) ≡ none) same (lookup-without_same k es) in
        cc
    | inr (ne, _) ↦ sym (lookup-without_other k j es ne) ∙ h
  ]

  pub without-Distinct : (k : K) (es : List (K × V)) → Distinct es → Distinct (without k es)
  unfolding Distinct without
  without-Distinct k [] d = tt
  without-Distinct k ((j, v) ∷ es) (fresh, d) = elim (==-cases j k) [
    | inl (same, _) ↦
        subst Distinct
          (sym
            (subst (λ j. without k ((j, v) ∷ es) ≡ without k es) (sym same) (without-here k v es)))
          (without-Distinct k es d)
    | inr (ne, _) ↦
        subst Distinct (sym (without-there j k v es ne))
          (lookup-without-none k j es fresh, without-Distinct k es d)
  ]

  -- A key that the rest answers for is not the first one.
  pub Distinct-rest :
      (j : K) (w : V) (es : List (K × V)) (k : K) (v : V)
      → lookup j es ≡ none
      → lookup k es ≡ some v
      → lookup k ((j, w) ∷ es) ≡ some v
  Distinct-rest j w es k v fresh h = elim (==-cases j k) [
    | inl (same, _) ↦
        let found : lookup j es ≡ some v = subst (λ x. lookup x es ≡ some v) (sym same) h in cc
    | inr (ne, _) ↦ lookup-there j k w es ne ∙ h
  ]

pub record HashMap {ℓ κ} (K : Type ℓ) (V : Type κ) : Type (ℓ ⊔ κ) where
  pub entries : List (K × V)

module _ {ℓ κ} {K : Type ℓ} {V : Type κ} where
  abbrev pub new : HashMap K V
  new = record { entries = [] }

  abbrev pub keys : HashMap K V → List K
  keys m = map (λ e. e.0) m.entries

  abbrev pub values : HashMap K V → List V
  values m = map (λ e. e.1) m.entries

module _ {ℓ κ} {K : Type ℓ} {V : Type κ} ⦃eq : PartialEq K⦄ where
  abbrev pub get : HashMap K V → K → Option V
  get m k = lookup k m.entries

  abbrev pub contains_key : HashMap K V → K → Bool
  contains_key m k = elim (get m k) [ some _ ↦ true | none ↦ false ]

  abbrev pub insert : HashMap K V → K → V → HashMap K V
  insert m k v = record { entries = (k, v) ∷ without k m.entries }

  -- The removed value and the map without it.
  abbrev pub remove : HashMap K V → K → HashMap K V × Option V
  remove m k = (record { entries = without k m.entries }, get m k)

  pub get-insert_same : (m : HashMap K V) (k : K) (v : V) → get (insert m k v) k ≡ some v
  get-insert_same m k v = lookup-here k v (without k m.entries)

  pub get-insert_other :
      (m : HashMap K V) (k j : K) (v : V) → k ≢ j → get (insert m k v) j ≡ get m j
  get-insert_other m k j v ne =
      lookup-there k j v (without k m.entries) ne ∙ lookup-without_other k j m.entries ne

  pub insert-Distinct :
      (m : HashMap K V) (k : K) (v : V) → Distinct m.entries → Distinct (insert m k v).entries
  unfolding Distinct
  insert-Distinct m k v d = (lookup-without_same k m.entries, without-Distinct k m.entries d)

  pub get-insert :
      (m : HashMap K V) (k j : K) (v : V)
      → get (insert m k v) j ≡ (if k == j then some v else get m j)
  get-insert m k j v = elim (==-cases k j) [
    | inl (same, e) ↦ rw e (subst (λ j. get (insert m k v) j ≡ some v) same (get-insert_same m k v))
    | inr (ne, e) ↦ rw e (get-insert_other m k j v ne)
  ]

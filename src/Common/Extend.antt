-- ===== src/Common/Extend.antt =====
-- `HashMap::extend` and `HashMap::retain` (by key), and a `HashSet` as the list of its elements.
use satsails_lwk.Common.{
  List, [], ◌∷◌, Option, none, some, Bool, true, false, if◌then◌else◌, PartialEq, ◌==◌, ==-cases,
  any, keep, ◌≡◌, refl, sym, ap, ◌∙◌, subst, inl, inr, Bool-cases,
}
use satsails_lwk.Common.HashMap.{
  HashMap, get, insert, lookup, get-insert, lookup-here, lookup-there,
}

module _ {ℓ} {A : Type ℓ} where
  abbrev pub or_else : Option A → Option A → Option A
  or_else (some a) o = some a
  or_else none o = o

  pub or_else_assoc : (a b c : Option A) → or_else (or_else a b) c ≡ or_else a (or_else b c)
  or_else_assoc (some a) b c = refl
  or_else_assoc none b c = refl

  pub or_else-none : (o : Option A) → or_else o none ≡ o
  or_else-none (some x) = refl
  or_else-none none = refl

  or_else-if :
      (b : Bool) (v : A) (o : Option A)
      → (if b then some v else o) ≡ or_else (if b then some v else none) o
  or_else-if true v o = refl
  or_else-if false v o = refl

module _ {ℓ} {A : Type ℓ} ⦃eq : PartialEq A⦄ where
  abbrev pub contains : List A → A → Bool
  contains xs a = any (λ x. x == a) xs

module _ {ℓ κ} {K : Type ℓ} {V : Type κ} ⦃eq : PartialEq K⦄ where
  unfoldable pub extend : HashMap K V → List (K × V) → HashMap K V
  extend m [] = m
  extend m ((k, v) ∷ es) = extend (insert m k v) es

  -- What the entries say of a key: the last of them counts.
  unfoldable pub last_of : K → List (K × V) → Option V
  last_of k [] = none
  last_of k ((j, v) ∷ es) = or_else (last_of k es) (if j == k then some v else none)

  unfoldable pub retain_entries : (K → Bool) → List (K × V) → List (K × V)
  retain_entries p [] = []
  retain_entries p ((k, v) ∷ es) =
      let rest = retain_entries p es in if p k then (k, v) ∷ rest else rest

  abbrev pub retain : (K → Bool) → HashMap K V → HashMap K V
  retain p m = record { entries = retain_entries p m.entries }

  pub get-extend :
      (m : HashMap K V) (es : List (K × V)) (k : K)
      → get (extend m es) k ≡ or_else (last_of k es) (get m k)
  unfolding extend last_of
  get-extend m [] k = refl
  get-extend m ((j, v) ∷ es) k =
      get-extend (insert m j v) es k
      ∙ ap (or_else (last_of k es)) (get-insert m j k v ∙ or_else-if (j == k) v (get m k))
      ∙ sym (or_else_assoc (last_of k es) (if j == k then some v else none) (get m k))

  last_of_retained :
      (p : K → Bool) (k j : K) (v : V) (es : List (K × V))
      → lookup k (retain_entries p es) ≡ (if p k then lookup k es else none)
      → lookup k (retain_entries p ((j, v) ∷ es)) ≡ (if p k then lookup k ((j, v) ∷ es) else none)
  unfolding retain_entries
  last_of_retained p k j v es ih = elim (==-cases j k) [
    | inl (same, _) ↦
        subst
          (λ j.
            lookup k (retain_entries p ((j, v) ∷ es))
            ≡ (if p k then lookup k ((j, v) ∷ es) else none))
          (sym same)
          (elim (Bool-cases (p k)) [
            | inl e ↦ rw e (lookup-here k v (retain_entries p es) ∙ sym (lookup-here k v es))
            | inr e ↦ rw e (ih ∙ ap (λ b. if b then lookup k es else none) e)
          ])
    | inr (ne, _) ↦
        let there : lookup k es ≡ lookup k ((j, v) ∷ es) = sym (lookup-there j k v es ne) in
        let kept : lookup k (retain_entries p ((j, v) ∷ es)) ≡ lookup k (retain_entries p es) =
          elim (Bool-cases (p j)) [
            | inl e ↦ rw e (lookup-there j k v (retain_entries p es) ne)
            | inr e ↦ rw e refl
          ] in
        kept ∙ ih ∙ ap (λ o. if p k then o else none) there
  ]

  lookup-retain_entries :
      (p : K → Bool) (k : K) (es : List (K × V))
      → lookup k (retain_entries p es) ≡ (if p k then lookup k es else none)
  unfolding retain_entries lookup
  lookup-retain_entries p k [] = elim (Bool-cases (p k)) [ inl e ↦ rw e refl | inr e ↦ rw e refl ]
  lookup-retain_entries p k ((j, v) ∷ es) =
      last_of_retained p k j v es (lookup-retain_entries p k es)

  pub get-retain :
      (p : K → Bool) (m : HashMap K V) (k : K)
      → get (retain p m) k ≡ (if p k then get m k else none)
  get-retain p m k = lookup-retain_entries p k m.entries

  -- A test that depends on the key alone keeps all that is said of a key or nothing.
  pub last_of-keep :
      (p : K → Bool) (k : K) (es : List (K × V))
      → last_of k (keep (λ e. p e.0) es) ≡ (if p k then last_of k es else none)
  unfolding last_of
  last_of-keep p k [] = elim (Bool-cases (p k)) [ inl e ↦ rw e refl | inr e ↦ rw e refl ]
  last_of-keep p k ((j, v) ∷ es) = elim (==-cases j k) [
    | inl (same, e) ↦
        let t : p j ≡ p k = ap p same in
        elim (Bool-cases (p k)) [
          | inl q ↦ let r : p j ≡ true = t ∙ q in rw (r, e, last_of-keep p k es, q) refl
          | inr q ↦ let r : p j ≡ false = t ∙ q in rw (r, last_of-keep p k es, q) refl
        ]
    | inr (ne, e) ↦ elim (Bool-cases (p j)) [
      | inl r ↦
          rw (r, e, last_of-keep p k es)
            (elim (Bool-cases (p k)) [ inl q ↦ rw q refl | inr q ↦ rw q refl ])
      | inr r ↦
          rw (r, e, last_of-keep p k es)
            (elim (Bool-cases (p k)) [
              | inl q ↦ rw (q, or_else-none (last_of k es)) refl
              | inr q ↦ rw q refl
            ])
    ]
  ]

-- ===== src/Wollet/Scan/Maps.antt =====
-- What is kept of a map's entries and keys.
use satsails_lwk.Common.{
  List, [], ◌∷◌, Option, some, none, Bool, true, false, ◌≡◌, refl, ap, ◌∙◌, subst, ◌==◌, ==-cases,
  if◌then◌else◌, Bool-cases, inl, inr, keep, map, PartialEq,
}
use satsails_lwk.Common.HashMap.{
  HashMap, lookup, contains_key, keys, Distinct, insert, get-insert_same, get-insert_other,
}
use satsails_lwk.Common.Extend.{contains, last_of, or_else-none}

-- What is kept of the entry for a key.
abbrev pub if_kept {ℓ κ} : {K : Type ℓ} {V : Type κ} → (K × V → Bool) → K → Option V → Option V
if_kept q k none = none
if_kept q k (some v) = if q (k, v) then some v else none

answer {κ} :
    {V : Type κ} {o o' : Option V}
    → o ≡ o'
    → (elim o [ some _ ↦ true | none ↦ false ]) ≡ (elim o' [ some _ ↦ true | none ↦ false ])
answer {V = V} e = ap (λ (o : Option V). elim o [ some _ ↦ true | none ↦ false ]) e

module _ {ℓ κ} {K : Type ℓ} {V : Type κ} ⦃eq : PartialEq K⦄ where
  -- Of distinct entries the last is the only one.
  pub last_of-keep_entries :
      (q : K × V → Bool) (k : K) (es : List (K × V))
      → Distinct es
      → last_of k (keep q es) ≡ if_kept q k (lookup k es)
  unfolding last_of lookup Distinct
  last_of-keep_entries q k [] d = refl
  last_of-keep_entries q k ((j, v) ∷ es) (fresh, d) = elim (==-cases j k) [
    | inl (same, e) ↦
        let gone : last_of k (keep q es) ≡ none =
          last_of-keep_entries q k es d
          ∙ ap (if_kept q k) (subst (λ x. lookup x es ≡ none) same fresh) in
        let first : q (j, v) ≡ q (k, v) = ap (λ x. q (x, v)) same in
        elim (Bool-cases (q (k, v))) [
          | inl kept ↦ let here = first ∙ kept in rw (here, e, gone, kept) refl
          | inr left ↦ let here = first ∙ left in rw (here, e, gone, left) refl
        ]
    | inr (ne, e) ↦ elim (Bool-cases (q (j, v))) [
      | inl kept ↦
          rw (kept, e, or_else-none (last_of k (keep q es))) (last_of-keep_entries q k es d)
      | inr left ↦ rw (left, e) (last_of-keep_entries q k es d)
    ]
  ]

  contains_entry :
      (k : K) (es : List (K × V))
      → contains (map (λ e. e.0) es) k ≡ (elim (lookup k es) [ none ↦ false | some v ↦ true ])
  unfolding lookup
  contains_entry k [] = refl
  contains_entry k ((j, v) ∷ es) = elim (Bool-cases (j == k)) [
    | inl e ↦ rw e refl
    | inr e ↦ rw e (contains_entry k es)
  ]

  pub contains-keys : (k : K) (m : HashMap K V) → contains (keys m) k ≡ contains_key m k
  contains-keys k m = contains_entry k m.entries

  pub contains_key-insert_same :
      (m : HashMap K V) (k : K) (v : V) → contains_key (insert m k v) k ≡ true
  contains_key-insert_same m k v = answer (get-insert_same m k v)

  pub contains_key-insert :
      (m : HashMap K V) (k j : K) (v : V)
      → contains_key m j ≡ true
      → contains_key (insert m k v) j ≡ true
  contains_key-insert m k j v h = elim (==-cases k j) [
    | inl (same, e) ↦
        subst (λ j. contains_key (insert m k v) j ≡ true) same (contains_key-insert_same m k v)
    | inr (ne, e) ↦ answer (get-insert_other m k j v ne) ∙ h
  ]

module _ {ℓ} {K : Type ℓ} ⦃eq : PartialEq K⦄ where
  pub contains-keep :
      (p : K → Bool) (k : K) (ks : List K)
      → contains (keep p ks) k ≡ (if p k then contains ks k else false)
  contains-keep p k [] = elim (Bool-cases (p k)) [ inl e ↦ rw e refl | inr e ↦ rw e refl ]
  contains-keep p k (j ∷ ks) = elim (==-cases j k) [
    | inl (same, e) ↦
        let first : p j ≡ p k = ap p same in
        elim (Bool-cases (p k)) [
          | inl kept ↦ let here = first ∙ kept in rw (here, e, kept) refl
          | inr left ↦ let here = first ∙ left in rw (here, contains-keep p k ks, left) refl
        ]
    | inr (ne, e) ↦ elim (Bool-cases (p j)) [
      | inl kept ↦ rw (kept, e) (contains-keep p k ks)
      | inr left ↦ rw (left, e) (contains-keep p k ks)
    ]
  ]

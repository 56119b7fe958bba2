-- ===== src/App/Checked/Laws.antt =====
-- About the checked insertion of lwk_app/src/state.rs: its outcomes and its invariant.
use Prim.Native.String.{String}
use satsails_lwk.Common.{
  Bool, true, false, List, [], ◌∷◌, some, Result, ok, err, ◌>>=◌, if◌then◌else◌, PartialEq, ◌≡◌,
  refl, sym, ap, ◌∙◌, subst, ◌≢◌,
}
use satsails_lwk.Common.HashMap.{
  HashMap, get, new, lookup, contains_key, insert as map_insert, remove as map_remove, Distinct,
  insert-Distinct, without-Distinct,
}
use satsails_lwk.App.Error.{Error, string_eq}
use satsails_lwk.App.Matching.{
  keys_where, names, materials, Unique, keys_where-none, keys_where-some, keys_where-Unique,
}
use satsails_lwk.App.Uniqueness.{insert-Unique, remove-Unique}
use satsails_lwk.App.Checked.{names_matching, insert_unmatched, insert_checked}

module _ {V X : Type 0} ⦃eqx : PartialEq X⦄ (f : V → Result Error X) where
  -- One entry for a name, and no two names for one key material.
  pub record IsValid (m : HashMap String V) : Type 0 where
    pub distinct : Distinct m.entries
    pub unique : Unique f m.entries

  search :
      (m : HashMap String V) (x : X) (r : Result Error (List X)) (ks : List String)
      → materials f m.entries ≡ r
      → (r >>= λ xs. ok (keys_where x (names m.entries) xs)) ≡ ok ks
      → (xs : List X) × (materials f m.entries ≡ ok xs) × (keys_where x (names m.entries) xs ≡ ks)
  search m x (err e) ks hr h = cc
  search m x (ok xs) ks hr h = (xs, hr, cc)

  names_matching-eq-ok :
      (m : HashMap String V) (x : X) (ks : List String)
      → names_matching f m x ≡ ok ks
      → (xs : List X) × (materials f m.entries ≡ ok xs) × (keys_where x (names m.entries) xs ≡ ks)
  unfolding names_matching
  names_matching-eq-ok m x ks h = search m x (materials f m.entries) ks refl h

  -- Among readable values, the search for the key material of a loaded value finds its name.
  pub names_matching-loaded :
      (m : HashMap String V) (xs : List X) (name : String) (v : V) (x : X)
      → IsValid m
      → materials f m.entries ≡ ok xs
      → get m name ≡ some v
      → f v ≡ ok x
      → names_matching f m x ≡ ok (name ∷ [])
  unfolding names_matching
  names_matching-loaded m xs name v x valid hx hv hf =
      ap (λ (r : Result Error (List X)). r >>= λ xs. ok (keys_where x (names m.entries) xs)) hx
      ∙ ap ok (keys_where-Unique f m.entries xs x name v valid.distinct valid.unique hx hv hf)

  -- The outcomes of the insertion, with what decides each.
  pub data Outcome (already : String → Error) (m : HashMap String V) (name : String) (v : V)
      (out : HashMap String V × Result Error (Unit {0})) : Type 0 where
    taken :
        contains_key m name ≡ true → out ≡ (m, err (already name)) → Outcome already m name v out
    unreadable :
        (e : Error)
        → contains_key m name ≡ false
        → f v ≡ err e
        → out ≡ (m, err e)
        → Outcome already m name v out
    other_unreadable :
        (e : Error)
        → contains_key m name ≡ false
        → materials f m.entries ≡ err e
        → out ≡ (m, err e)
        → Outcome already m name v out
    clashes :
        (k : String) (u : V) (x : X)
        → contains_key m name ≡ false
        → f v ≡ ok x
        → get m k ≡ some u
        → f u ≡ ok x
        → out ≡ (m, err (already k))
        → Outcome already m name v out
    inserted :
        (x : X)
        → contains_key m name ≡ false
        → f v ≡ ok x
        → ((k : String) (u : V) → get m k ≡ some u → f u ≢ ok x)
        → out ≡ (map_insert m name v, ok tt)
        → Outcome already m name v out

  module _ (already : String → Error) (m : HashMap String V) (name : String) (v : V) where
    by_names :
        (x : X) (xs : List X) (ks : List String)
        → Distinct m.entries
        → contains_key m name ≡ false
        → f v ≡ ok x
        → materials f m.entries ≡ ok xs
        → keys_where x (names m.entries) xs ≡ ks
        → Outcome already m name v (insert_unmatched f already m name v (ok ks))
    by_names x xs (k ∷ ks) d free hv hx h =
        let (u, hu, fu) = keys_where-some f m.entries xs x k ks d hx h in
        clashes k u x free hv hu fu refl
    by_names x xs [] d free hv hx h =
        inserted x free hv (λ k u hu. keys_where-none f m.entries xs x k u hx h hu) refl

    by_others :
        (x : X) (r : Result Error (List X))
        → Distinct m.entries
        → contains_key m name ≡ false
        → f v ≡ ok x
        → materials f m.entries ≡ r
        → Outcome already m name v (
            insert_unmatched f already m name v
              (r >>= λ xs. ok (keys_where x (names m.entries) xs)))
    by_others x (err e) d free hv hx = other_unreadable e free hx refl
    by_others x (ok xs) d free hv hx =
        by_names x xs (keys_where x (names m.entries) xs) d free hv hx refl

    by_material :
        (r : Result Error X)
        → Distinct m.entries
        → contains_key m name ≡ false
        → f v ≡ r
        → Outcome already m name v (insert_unmatched f already m name v (r >>= names_matching f m))
    unfolding names_matching
    by_material (err e) d free hv = unreadable e free hv refl
    by_material (ok x) d free hv = by_others x (materials f m.entries) d free hv refl

    by_name :
        (b : Bool)
        → Distinct m.entries
        → contains_key m name ≡ b
        → Outcome already m name v (
            if b
            then (m, err (already name))
            else insert_unmatched f already m name v (f v >>= names_matching f m))
    by_name true d h = taken h refl
    by_name false d h = by_material (f v) d h refl

    -- An insertion into a map with distinct names is refused, and leaves the map as it was, for a
    -- taken name, a key material that cannot be read, or a loaded value of the same key material;
    -- otherwise no loaded value has the key material and the value is inserted.
    pub insert_checked-Outcome :
        Distinct m.entries → Outcome already m name v (insert_checked f already m name v)
    unfolding insert_checked
    insert_checked-Outcome d = by_name (contains_key m name) d refl

    kept :
        (out : HashMap String V × Result Error (Unit {0})) (r : Result Error (Unit {0}))
        → out ≡ (m, r)
        → IsValid m
        → IsValid out.0
    kept out r same valid =
        subst (λ (o : HashMap String V × Result Error (Unit {0})). IsValid o.0) (sym same) valid

    Outcome-IsValid :
        (out : HashMap String V × Result Error (Unit {0}))
        → Outcome already m name v out
        → IsValid m
        → IsValid out.0
    Outcome-IsValid out (taken h same) valid = kept out _ same valid
    Outcome-IsValid out (unreadable e free hv same) valid = kept out _ same valid
    Outcome-IsValid out (other_unreadable e free hx same) valid = kept out _ same valid
    Outcome-IsValid out (clashes k u x free hv hu fu same) valid = kept out _ same valid
    Outcome-IsValid out (inserted x free hv new same) valid =
        subst (λ (o : HashMap String V × Result Error (Unit {0})). IsValid o.0) (sym same)
          (record {
            distinct = insert-Distinct m name v valid.distinct;
            unique =
                insert-Unique f m name v (λ y k u hy hk hu. new k u hk (hu ∙ sym hy ∙ hv))
                  valid.unique;
          })

    -- Whatever it answers, the insertion keeps one name for one key material.
    pub insert_checked-IsValid : IsValid m → IsValid (insert_checked f already m name v).0
    insert_checked-IsValid valid =
        Outcome-IsValid (insert_checked f already m name v) (insert_checked-Outcome valid.distinct)
          valid

  pub remove-IsValid :
      (m : HashMap String V) (name : String) → IsValid m → IsValid (map_remove m name).0
  remove-IsValid m name valid = record {
    distinct = without-Distinct name m.entries valid.distinct;
    unique = remove-Unique f m name valid.unique;
  }

  pub new-IsValid : IsValid new
  unfolding Distinct Unique lookup
  new-IsValid = record { distinct = tt; unique = λ j k u v x hj hk fj fk. cc }

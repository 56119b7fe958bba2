-- ===== src/App/Memos.antt =====
-- lwk_app/src/state.rs: `TxMemos` and `AddrMemos`, which are one code at two types of keys.
use Prim.Native.String.{String}
use satsails_lwk.Common.{
  ◌==◌, ◌&&◌, if◌then◌else◌, Option, none, some, Result, ok, PartialEq, ◌≡◌, refl, ap, ◌∙◌, subst,
  ◌≢◌, inl, inr, ==-cases,
}
use satsails_lwk.Common.HashMap.{
  HashMap, get, insert, remove as map_remove, new, get-insert_same, get-insert_other,
  lookup-without_same, lookup-without_other,
}
use satsails_lwk.App.Error.{Error, string_eq}

abbrev pub Memos : Type 0 → Type 0
Memos K = HashMap String (HashMap K String)

module _ {K : Type 0} ⦃eq : PartialEq K⦄ where
  -- `unwrap_or_default`
  abbrev pub or_default : Option (HashMap K String) → HashMap K String
  or_default none = new
  or_default (some memos) = memos

  unfoldable pub for_wollet : Memos K → String → HashMap K String
  for_wollet m wollet = or_default (get m wollet)

  abbrev set_in : Memos K → String → K → String → Option (HashMap K String) → Memos K
  set_in m wollet key memo none = insert m wollet (insert new key memo)
  set_in m wollet key memo (some memos) = insert m wollet (insert memos key memo)

  unfoldable pub set : Memos K → String → K → String → Memos K × Result Error (Unit {0})
  set m wollet key memo = (set_in m wollet key memo (get m wollet), ok tt)

  unfoldable pub remove : Memos K → String → Memos K
  remove m wollet = (map_remove m wollet).0

  set_in-insert :
      (m : Memos K) (wollet : String) (key : K) (memo : String) (o : Option (HashMap K String))
      → set_in m wollet key memo o ≡ insert m wollet (insert (or_default o) key memo)
  set_in-insert m wollet key memo none = refl
  set_in-insert m wollet key memo (some memos) = refl

  set-insert :
      (m : Memos K) (wollet : String) (key : K) (memo : String)
      → (set m wollet key memo).0 ≡ insert m wollet (insert (for_wollet m wollet) key memo)
  unfolding set for_wollet
  set-insert m wollet key memo = set_in-insert m wollet key memo (get m wollet)

  for_wollet-set_same :
      (m : Memos K) (wollet : String) (key : K) (memo : String)
      → for_wollet (set m wollet key memo).0 wollet ≡ insert (for_wollet m wollet) key memo
  unfolding for_wollet
  for_wollet-set_same m wollet key memo =
      ap (λ (n : Memos K). or_default (get n wollet)) (set-insert m wollet key memo)
      ∙ ap or_default (get-insert_same m wollet (insert (for_wollet m wollet) key memo))

  for_wollet-set_other :
      (m : Memos K) (wollet : String) (key : K) (memo : String) (w : String)
      → wollet ≢ w
      → for_wollet (set m wollet key memo).0 w ≡ for_wollet m w
  unfolding for_wollet
  for_wollet-set_other m wollet key memo w ne =
      ap (λ (n : Memos K). or_default (get n w)) (set-insert m wollet key memo)
      ∙ ap or_default (get-insert_other m wollet w (insert (for_wollet m wollet) key memo) ne)

  -- A memo is read back under its wallet and key, and every other memo is as it was.
  pub get-for_wollet-set :
      (m : Memos K) (wollet : String) (key : K) (memo : String) (w : String) (k : K)
      → get (for_wollet (set m wollet key memo).0 w) k
        ≡ (if wollet == w && key == k then some memo else get (for_wollet m w) k)
  get-for_wollet-set m wollet key memo w k = elim (==-cases wollet w) [
    | inr (ne, e) ↦
        rw e (ap (λ (n : HashMap K String). get n k) (for_wollet-set_other m wollet key memo w ne))
    | inl (same, e) ↦
        let inside : get (for_wollet (set m wollet key memo).0 w) k
            ≡ get (insert (for_wollet m w) key memo) k =
          subst
            (λ w.
              get (for_wollet (set m wollet key memo).0 w) k
              ≡ get (insert (for_wollet m w) key memo) k)
            same (ap (λ (n : HashMap K String). get n k) (for_wollet-set_same m wollet key memo)) in
        elim (==-cases key k) [
          | inl (here, e') ↦
              inside
              ∙ rw (e, e')
                  (subst (λ k. get (insert (for_wollet m w) key memo) k ≡ some memo) here
                    (get-insert_same (for_wollet m w) key memo))
          | inr (ne, e') ↦ inside ∙ rw (e, e') (get-insert_other (for_wollet m w) key k memo ne)
        ]
  ]

  -- Unloading a wallet forgets its memos and no others.
  pub for_wollet-remove :
      (m : Memos K) (wollet : String)
      → (for_wollet (remove m wollet) wollet ≡ new)
        × ((w : String) → wollet ≢ w → for_wollet (remove m wollet) w ≡ for_wollet m w)
  unfolding for_wollet remove
  for_wollet-remove m wollet = (
    ap or_default (lookup-without_same wollet m.entries),
    λ w ne. ap or_default (lookup-without_other wollet w m.entries ne),
  )

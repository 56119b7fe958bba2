-- ===== src/Wollet/Scan/Confirmed.antt =====
-- The heights at which lwk_wollet/src/clients/mod.rs and update.rs have transactions confirmed.
use satsails_lwk.Common.{
  ℕ, List, [], ◌∷◌, Option, some, none, Bool, true, false, ◌≡◌, refl, nat_eq, ◌==◌, if◌then◌else◌,
  Bool-cases, inl, inr, keep, ◌⊎◌, arith,
}
use satsails_lwk.Common.HashMap.{HashMap, insert, without}
use satsails_lwk.Common.Extend.{contains, extend, retain_entries}
use satsails_lwk.Wollet.{Elements}
use satsails_lwk.Wollet.Scan.{Backend}
use satsails_lwk.Wollet.Scan.Download.{confirmed_at}

module _ {el : Elements} (server : Backend el) where
  open el use {Txid, txid_eq}

  -- Some transaction is confirmed at a height.
  abbrev pub IsConfirmed : ℕ → List (Txid × Option ℕ) → Type 0
  IsConfirmed h es = contains (confirmed_at server es) h ≡ true

  IsConfirmed-in :
      (h : ℕ) (t : Txid) (es : List (Txid × Option ℕ)) (o : Option ℕ)
      → IsConfirmed h es
      → IsConfirmed h ((t, o) ∷ es)
  unfolding confirmed_at
  IsConfirmed-in h t es none c = c
  IsConfirmed-in h t es (some n) c = ground arith

  -- The first entry of a list is kept or not.
  IsConfirmed-step :
      (h : ℕ) (t : Txid) (o : Option ℕ) (b : Bool) (es fs : List (Txid × Option ℕ))
      → (IsConfirmed h fs → IsConfirmed h es)
      → IsConfirmed h (if b then (t, o) ∷ fs else fs)
      → IsConfirmed h ((t, o) ∷ es)
  unfolding confirmed_at
  IsConfirmed-step h t o false es fs sub c = IsConfirmed-in h t es o (sub c)
  IsConfirmed-step h t none true es fs sub c = sub c
  IsConfirmed-step h t (some n) true es fs sub c = elim (Bool-cases (n == h)) [
    | inl e ↦ rw e refl
    | inr e ↦ rw e (sub (rw e at c))
  ]

  pub IsConfirmed-keep :
      (h : ℕ) (q : Txid × Option ℕ → Bool) (es : List (Txid × Option ℕ))
      → IsConfirmed h (keep q es)
      → IsConfirmed h es
  IsConfirmed-keep h q [] c = c
  IsConfirmed-keep h q ((t, o) ∷ es) c =
      IsConfirmed-step h t o (q (t, o)) es (keep q es) (IsConfirmed-keep h q es) c

  pub IsConfirmed-retain :
      (h : ℕ) (q : Txid → Bool) (es : List (Txid × Option ℕ))
      → IsConfirmed h (retain_entries ⦃eq = txid_eq⦄ q es)
      → IsConfirmed h es
  unfolding retain_entries
  IsConfirmed-retain h q [] c = c
  IsConfirmed-retain h q ((t, o) ∷ es) c =
      IsConfirmed-step h t o (q t) es (retain_entries ⦃eq = txid_eq⦄ q es)
        (IsConfirmed-retain h q es) c

  IsConfirmed-without :
      (h : ℕ) (k : Txid) (es : List (Txid × Option ℕ))
      → IsConfirmed h (without ⦃eq = txid_eq⦄ k es)
      → IsConfirmed h es
  unfolding without
  IsConfirmed-without h k [] c = c
  IsConfirmed-without h k ((t, o) ∷ es) c = elim (Bool-cases (◌==◌ ⦃eq = txid_eq⦄ t k)) [
    | inl e ↦ IsConfirmed-in h t es o (IsConfirmed-without h k es (rw e at c))
    | inr e ↦
        IsConfirmed-step h t o true es (without ⦃eq = txid_eq⦄ k es) (IsConfirmed-without h k es)
          (rw e at c)
  ]

  first_or_old :
      (h : ℕ) (t : Txid) (o : Option ℕ) (m : HashMap Txid (Option ℕ)) (es : List (Txid × Option ℕ))
      → IsConfirmed h (insert ⦃eq = txid_eq⦄ m t o).entries
      → IsConfirmed h m.entries ⊎ IsConfirmed h ((t, o) ∷ es)
  unfolding confirmed_at
  first_or_old h t none m es c = inl (IsConfirmed-without h t m.entries c)
  first_or_old h t (some n) m es c = elim (Bool-cases (n == h)) [
    | inl e ↦ inr (rw e refl)
    | inr e ↦ inl (IsConfirmed-without h t m.entries (rw e at c))
  ]

  pub IsConfirmed-extend :
      (h : ℕ) (m : HashMap Txid (Option ℕ)) (es : List (Txid × Option ℕ))
      → IsConfirmed h (extend ⦃eq = txid_eq⦄ m es).entries
      → IsConfirmed h m.entries ⊎ IsConfirmed h es
  unfolding extend
  IsConfirmed-extend h m [] c = inl c
  IsConfirmed-extend h m ((t, o) ∷ es) c =
      elim (IsConfirmed-extend h (insert ⦃eq = txid_eq⦄ m t o) es c) [
        | inl old ↦ first_or_old h t o m es old
        | inr later ↦ inr (IsConfirmed-in h t es o later)
      ]

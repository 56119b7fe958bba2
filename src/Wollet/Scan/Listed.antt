-- ===== src/Wollet/Scan/Listed.antt =====
-- Which transactions a turn of the scan in lwk_wollet/src/clients/mod.rs lists.
use satsails_lwk.Common.{
  ℕ, List, [], ◌∷◌, ◌++◌, Option, some, none, true, is_empty, concat, ◌≡◌, refl, inl, inr,
  Bool-cases, ◌==◌, nat_eq, All,
}
use satsails_lwk.Common.HashMap.{contains_key}
use satsails_lwk.Wollet.{Elements, Chain, external, internal}
use satsails_lwk.Wollet.Scan.{
  Backend, ScriptBatch, Progress, History, max_used, noted, chain_of, with_max, with_scripts,
  record_history, recorded, max_zero,
}
use satsails_lwk.Wollet.Scan.Maps.{contains_key-insert, contains_key-insert_same}

pub All-left {ℓ κ} : {A : Type ℓ} (P : A → Type κ) (xs ys : List A) → All P (xs ++ ys) → All P xs
All-left P [] ys h = tt
All-left P (x ∷ xs) ys (hx, h) = (hx, All-left P xs ys h)

pub All-right {ℓ κ} : {A : Type ℓ} (P : A → Type κ) (xs ys : List A) → All P (xs ++ ys) → All P ys
All-right P [] ys h = h
All-right P (x ∷ xs) ys (hx, h) = All-right P xs ys h

pub All-weaken {ℓ κ} :
    {A : Type ℓ} (P Q : A → Type κ) (xs : List A) → ((a : A) → P a → Q a) → All P xs → All Q xs
All-weaken P Q [] f h = tt
All-weaken P Q (x ∷ xs) f (hx, h) = (f x hx, All-weaken P Q xs f h)

pub All-none {ℓ} : {A : Type ℓ} (xs : List A) → All (λ _. ⊥) xs → is_empty xs ≡ true
All-none [] h = refl
All-none (x ∷ xs) (h, _) = absurd h

pub none-All {ℓ} : {A : Type ℓ} (xs : List A) → is_empty xs ≡ true → All (λ _. ⊥) xs
none-All [] h = tt
none-All (x ∷ xs) h = cc

module _ {el : Elements} (server : Backend el) where
  open server use {Single, get_scripts_history, from_normal_idx}
  open el use {txid_eq}

  abbrev pub IsListed : Progress server → History server → Type 0
  IsListed p e = contains_key ⦃eq = txid_eq⦄ p.txid_height e.0 ≡ true

  recorded-lists :
      (height : ℕ) (t : el.Txid) (hash : Option el.BlockHash) (p : Progress server)
      → contains_key ⦃eq = txid_eq⦄ (recorded server height t hash p).txid_height t ≡ true
  recorded-lists height t none p = elim (Bool-cases (height == 0)) [
    | inl e ↦ rw e (contains_key-insert_same ⦃eq = txid_eq⦄ p.txid_height t none)
    | inr e ↦ rw e (contains_key-insert_same ⦃eq = txid_eq⦄ p.txid_height t (some height))
  ]
  recorded-lists height t (some hash) p = elim (Bool-cases (height == 0)) [
    | inl e ↦ rw e (contains_key-insert_same ⦃eq = txid_eq⦄ p.txid_height t none)
    | inr e ↦ rw e (contains_key-insert_same ⦃eq = txid_eq⦄ p.txid_height t (some height))
  ]

  recorded-IsListed :
      (height : ℕ) (t : el.Txid) (hash : Option el.BlockHash) (p : Progress server)
      (e : History server)
      → IsListed p e
      → IsListed (recorded server height t hash p) e
  recorded-IsListed height t none p e h = elim (Bool-cases (height == 0)) [
    | inl z ↦ rw z (contains_key-insert ⦃eq = txid_eq⦄ p.txid_height t e.0 none h)
    | inr z ↦ rw z (contains_key-insert ⦃eq = txid_eq⦄ p.txid_height t e.0 (some height) h)
  ]
  recorded-IsListed height t (some hash) p e h = elim (Bool-cases (height == 0)) [
    | inl z ↦ rw z (contains_key-insert ⦃eq = txid_eq⦄ p.txid_height t e.0 none h)
    | inr z ↦ rw z (contains_key-insert ⦃eq = txid_eq⦄ p.txid_height t e.0 (some height) h)
  ]

  record_history-IsListed :
      (hs : List (History server)) (p : Progress server) (e : History server)
      → IsListed p e
      → IsListed (record_history server hs p) e
  unfolding record_history
  record_history-IsListed [] p e h = h
  record_history-IsListed ((t, height, hash) ∷ hs) p e h =
      record_history-IsListed hs (recorded server (max_zero height) t hash p) e
        (recorded-IsListed (max_zero height) t hash p e h)

  record_history-lists :
      (hs : List (History server)) (p : Progress server)
      → All (IsListed (record_history server hs p)) hs
  unfolding record_history
  record_history-lists [] p = tt
  record_history-lists ((t, height, hash) ∷ hs) p =
      let p' : Progress server = recorded server (max_zero height) t hash p in
      (
        record_history-IsListed hs p' (t, height, hash) (recorded-lists (max_zero height) t hash p),
        record_history-lists hs p',
      )

  with_max-IsListed :
      (chain : Chain) (batch : ℕ) (m : Option ℕ) (p : Progress server) (e : History server)
      → IsListed p e
      → IsListed (with_max server chain batch m p) e
  with_max-IsListed external batch none p e h = h
  with_max-IsListed internal batch none p e h = h
  with_max-IsListed external batch (some m) p e h = h
  with_max-IsListed internal batch (some m) p e h = h

  pub noted-IsListed :
      (e : History server) (d : Single) (batch : ℕ) (b : ScriptBatch server)
      (result : List (List (History server))) (p : Progress server)
      → IsListed p e
      → IsListed (noted server d batch b result p).0 e
  unfolding noted
  noted-IsListed e d batch b result p h =
      record_history-IsListed (concat result)
        (with_max server (chain_of server d) batch (max_used server 0 result)
          (with_scripts server b p))
        e
        (with_max-IsListed (chain_of server d) batch (max_used server 0 result)
          (with_scripts server b p) e
          (elim (Bool-cases b.cached) [ inl c ↦ rw c h | inr c ↦ rw c h ]))

  pub noted-lists :
      (d : Single) (batch : ℕ) (b : ScriptBatch server) (result : List (List (History server)))
      (p : Progress server)
      → All (IsListed (noted server d batch b result p).0) (concat result)
  unfolding noted
  noted-lists d batch b result p = record_history-lists (concat result) (
      with_max server (chain_of server d) batch (max_used server 0 result)
        (with_scripts server b p))

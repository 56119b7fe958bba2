-- ===== src/Wollet/Update/Indices.antt =====
-- The last unused indices after lwk_wollet/src/update.rs has applied an update, against a reference
-- that collects the indices and takes the greatest.
use mathlib.Core.List.{Memᴰ}
use satsails_lwk.Common.{
  ℕ, ◌^◌, ◌<◌, ◌≤◌, max, List, [], ◌∷◌, ◌++◌, Option, none, some, ok, concat, map, append_assoc,
  ◌≡◌, refl, ap, ◌∙◌, sym, subst, arith, nat_eq, All,
}
use satsails_lwk.Common.HashMap.{HashMap, get}
use satsails_lwk.Wollet.{
  Elements, Chain, external, internal, ChildNumber, normal, hardened, chain_eq, child_eq,
}
use satsails_lwk.Wollet.Update.{
  RawCache, Update, apply_cache, apply_cache-eq-ok, updated, merged, txid_height, later, use_path,
  use_outputs, use_tx, use_txs, LastUsed, next_index,
}

abbrev max_opt : Option ℕ → Option ℕ → Option ℕ
max_opt none o = o
max_opt (some a) none = some a
max_opt (some a) (some b) = some (max a b)

-- The greatest of some indices.
unfoldable pub highest : List ℕ → Option ℕ
highest [] = none
highest (i ∷ is) = max_opt (some i) (highest is)

max_opt_assoc : (a b c : Option ℕ) → max_opt (max_opt a b) c ≡ max_opt a (max_opt b c)
max_opt_assoc none b c = refl
max_opt_assoc (some a) none c = refl
max_opt_assoc (some a) (some b) none = refl
max_opt_assoc (some a) (some b) (some c) = ap some (omega arith)

max_opt_comm : (a b : Option ℕ) → max_opt a b ≡ max_opt b a
max_opt_comm none none = refl
max_opt_comm none (some b) = refl
max_opt_comm (some a) none = refl
max_opt_comm (some a) (some b) = ap some (omega arith)

max_opt-none : (o : Option ℕ) → max_opt o none ≡ o
max_opt-none none = refl
max_opt-none (some a) = refl

highest-append : (xs ys : List ℕ) → highest (xs ++ ys) ≡ max_opt (highest xs) (highest ys)
unfolding highest
highest-append [] ys = refl
highest-append (x ∷ xs) ys =
    ap (max_opt (some x)) (highest-append xs ys)
    ∙ sym (max_opt_assoc (some x) (highest xs) (highest ys))

swap_in :
    (xs ys : List ℕ) (o : Option ℕ)
    → max_opt (highest ys) (max_opt (highest xs) o) ≡ max_opt (highest (xs ++ ys)) o
swap_in xs ys o =
    sym (max_opt_assoc (highest ys) (highest xs) o)
    ∙ ap (λ m. max_opt m o) (max_opt_comm (highest ys) (highest xs) ∙ sym (highest-append xs ys))

later-max_opt : (index : ℕ) (o : Option ℕ) → later index o ≡ max_opt (some index) o
later-max_opt index none = refl
later-max_opt index (some last) = ground arith

abbrev pub used_of : Chain → LastUsed → Option ℕ
used_of external used = used.0
used_of internal used = used.1

-- The index of a path that lies on the chain and is not hardened.
abbrev pub index_on : Chain → Option (Chain × ChildNumber) → List ℕ
index_on external (some (external, normal index)) = index ∷ []
index_on internal (some (internal, normal index)) = index ∷ []
index_on external (some (internal, child)) = []
index_on internal (some (external, child)) = []
index_on external (some (external, hardened index)) = []
index_on internal (some (internal, hardened index)) = []
index_on chain none = []

used_of-use_path :
    (chain : Chain) (path : Option (Chain × ChildNumber)) (used : LastUsed)
    → used_of chain (use_path path used)
      ≡ max_opt (highest (index_on chain path)) (used_of chain used)
unfolding highest
used_of-use_path external (some (external, normal index)) used = later-max_opt index used.0
used_of-use_path internal (some (internal, normal index)) used = later-max_opt index used.1
used_of-use_path external (some (internal, normal index)) used = refl
used_of-use_path external (some (internal, hardened index)) used = refl
used_of-use_path internal (some (external, normal index)) used = refl
used_of-use_path internal (some (external, hardened index)) used = refl
used_of-use_path external (some (external, hardened index)) used = refl
used_of-use_path internal (some (internal, hardened index)) used = refl
used_of-use_path external none used = refl
used_of-use_path internal none used = refl

some-max_opt : (i : ℕ) (o : Option ℕ) → (m : ℕ) × (max_opt (some i) o ≡ some m) × (i ≤ m)
some-max_opt i none = (i, refl, omega arith)
some-max_opt i (some g) = (max i g, refl, omega arith)

-- The greatest index bounds each.
highest-le : (i : ℕ) (is : List ℕ) → Memᴰ i is → (m : ℕ) × (highest is ≡ some m) × (i ≤ m)
unfolding highest
highest-le i [] m = elim m [ ]
highest-le i (j ∷ js) (Memᴰ.head same) =
    subst (λ x. (m : ℕ) × (max_opt (some j) (highest js) ≡ some m) × (x ≤ m)) (sym same)
      (some-max_opt j (highest js))
highest-le i (j ∷ js) (Memᴰ.tail m) =
    let (g, e, le) = highest-le i js m in (max j g, ap (max_opt (some j)) e, omega arith)

max_opt-lt :
    (b j : ℕ) (o : Option ℕ) (m : ℕ)
    → j < b
    → ((g : ℕ) → o ≡ some g → g < b)
    → max_opt (some j) o ≡ some m
    → m < b
max_opt-lt b j none m lt all h = let e : j ≡ m = cc in omega arith
max_opt-lt b j (some g) m lt all h =
    let e : max j g ≡ m = cc in let t : g < b = all g refl in omega arith

highest-lt : (b : ℕ) (is : List ℕ) (m : ℕ) → All (λ i. i < b) is → highest is ≡ some m → m < b
unfolding highest
highest-lt b [] m small h = cc
highest-lt b (j ∷ js) m small h =
    max_opt-lt b j (highest js) m small.0 (λ g. highest-lt b js g small.1) h

lt-next_index :
    (i : ℕ) (is : List ℕ) (unused : ℕ)
    → All (λ i. i < 2 ^ 31) is
    → Memᴰ i is
    → i < next_index (highest is) unused
lt-next_index i is unused small m =
    let (g, e, le) = highest-le i is m in
    let lt : g < 2 ^ 31 = highest-lt (2 ^ 31) is g small e in
    subst (λ o. i < next_index o unused) (sym e) (omega arith)

module _ (el : Elements) where
  open el use {Txid, Transaction, TxOut, Script, txid_eq, script_eq, outputs, script_pubkey}

  -- The indices on a chain that the wallet's scripts among the outputs have.
  abbrev pub used_indices : HashMap Script (Chain × ChildNumber) → Chain → List TxOut → List ℕ
  used_indices paths chain os =
      concat (map (λ o. index_on chain (get ⦃eq = script_eq⦄ paths (script_pubkey o))) os)

  abbrev pub outputs_of : Option Transaction → List TxOut
  outputs_of none = []
  outputs_of (some tx) = outputs tx

  -- The outputs of the transactions that an update gives a height.
  abbrev pub outputs_at : RawCache el → List (Txid × Option ℕ) → List TxOut
  outputs_at c hs = concat (map (λ e. outputs_of (get ⦃eq = txid_eq⦄ c.all_txs e.0)) hs)

  abbrev pub last_unused : Chain → RawCache el → ℕ
  last_unused external c = c.last_unused_external
  last_unused internal c = c.last_unused_internal

  used_indices-append :
      (paths : HashMap Script (Chain × ChildNumber)) (chain : Chain) (xs ys : List TxOut)
      → used_indices paths chain (xs ++ ys)
        ≡ used_indices paths chain xs ++ used_indices paths chain ys
  used_indices-append paths chain [] ys = refl
  used_indices-append paths chain (x ∷ xs) ys =
      let here : List ℕ = index_on chain (get ⦃eq = script_eq⦄ paths (script_pubkey x)) in
      ap (λ is. here ++ is) (used_indices-append paths chain xs ys)
      ∙ sym (append_assoc here (used_indices paths chain xs) (used_indices paths chain ys))

  use_outputs-highest :
      (chain : Chain) (paths : HashMap Script (Chain × ChildNumber)) (os : List TxOut)
      (used : LastUsed)
      → used_of chain (use_outputs el paths os used)
        ≡ max_opt (highest (used_indices paths chain os)) (used_of chain used)
  unfolding use_outputs highest
  use_outputs-highest chain paths [] used = refl
  use_outputs-highest chain paths (o ∷ os) used =
      let path : Option (Chain × ChildNumber) = get ⦃eq = script_eq⦄ paths (script_pubkey o) in
      let here : List ℕ = index_on chain path in
      let rest : List ℕ = used_indices paths chain os in
      use_outputs-highest chain paths os (use_path path used)
      ∙ ap (max_opt (highest rest)) (used_of-use_path chain path used)
      ∙ swap_in here rest (used_of chain used)

  use_tx-highest :
      (chain : Chain) (paths : HashMap Script (Chain × ChildNumber)) (tx : Option Transaction)
      (used : LastUsed)
      → used_of chain (use_tx el paths tx used)
        ≡ max_opt (highest (used_indices paths chain (outputs_of tx))) (used_of chain used)
  unfolding highest
  use_tx-highest chain paths none used = refl
  use_tx-highest chain paths (some tx) used = use_outputs-highest chain paths (outputs tx) used

  use_txs-highest :
      (chain : Chain) (c : RawCache el) (hs : List (Txid × Option ℕ)) (used : LastUsed)
      → used_of chain (use_txs el c hs used)
        ≡ max_opt (highest (used_indices c.paths chain (outputs_at c hs))) (used_of chain used)
  unfolding use_txs highest
  use_txs-highest chain c [] used = refl
  use_txs-highest chain c ((t, h) ∷ hs) used =
      let tx : Option Transaction = get ⦃eq = txid_eq⦄ c.all_txs t in
      use_txs-highest chain c hs (use_tx el c.paths tx used)
      ∙ ap (max_opt (highest (used_indices c.paths chain (outputs_at c hs))))
          (use_tx-highest chain c.paths tx used)
      ∙ swap_in (used_indices c.paths chain (outputs_of tx))
          (used_indices c.paths chain (outputs_at c hs)) (used_of chain used)
      ∙ ap (λ is. max_opt (highest is) (used_of chain used))
          (sym (used_indices-append c.paths chain (outputs_of tx) (outputs_at c hs)))

  -- The indices that an update finds used on a chain, in the cache that it leaves.
  unfoldable pub newly_used : Chain → RawCache el → Update el → List ℕ
  newly_used chain c u =
      let c' = updated el c u in used_indices c'.paths chain (outputs_at c' (txid_height el c u))

  updated-last_unused :
      (chain : Chain) (c : RawCache el) (u : Update el)
      → last_unused chain (updated el c u)
        ≡ next_index (highest (newly_used chain c u)) (last_unused chain c)
  unfolding updated merged newly_used
  updated-last_unused external c u =
      let hs : List (Txid × Option ℕ) = txid_height el c u in
      let c1 : RawCache el = merged el c u hs in
      ap (λ o. next_index o c.last_unused_external)
        (use_txs-highest external c1 hs (none, none) ∙ max_opt-none _)
  updated-last_unused internal c u =
      let hs : List (Txid × Option ℕ) = txid_height el c u in
      let c1 : RawCache el = merged el c u hs in
      ap (λ o. next_index o c.last_unused_internal)
        (use_txs-highest internal c1 hs (none, none) ∙ max_opt-none _)

  -- After an update the last unused index of a chain is one more than the greatest index found used,
  -- however great it was before, or is left when none was found.
  pub apply_cache-last_unused :
      (chain : Chain) (c : RawCache el) (u : Update el) (c' : RawCache el)
      → apply_cache el c u ≡ ok c'
      → last_unused chain c' ≡ next_index (highest (newly_used chain c u)) (last_unused chain c)
  apply_cache-last_unused chain c u c' h =
      subst
        (λ (d : RawCache el).
          last_unused chain d ≡ next_index (highest (newly_used chain c u)) (last_unused chain c))
        (apply_cache-eq-ok el c c' u h).1 (updated-last_unused chain c u)

  -- No index that an update finds used is handed out after it, where indices are below 2 ^ 31.
  pub apply_cache-fresh :
      (chain : Chain) (c : RawCache el) (u : Update el) (c' : RawCache el) (i : ℕ)
      → All (λ i. i < 2 ^ 31) (newly_used chain c u)
      → apply_cache el c u ≡ ok c'
      → Memᴰ i (newly_used chain c u)
      → i < last_unused chain c'
  apply_cache-fresh chain c u c' i small h m =
      subst (λ n. i < n) (sym (apply_cache-last_unused chain c u c' h))
        (lt-next_index i (newly_used chain c u) (last_unused chain c) small m)

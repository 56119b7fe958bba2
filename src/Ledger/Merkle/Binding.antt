-- ===== src/Ledger/Merkle/Binding.antt =====
-- About root hashes of merkle.rs as commitments to the leaves.
use satsails_lwk.Common.{
  ℕ, suc, ◌+◌, ◌^◌, ◌≤◌, ◌<◌, ◌≡◌, ◌≢◌, ◌∙◌, ◌⊎◌, sym, ap, inl, inr, subst, some, List, ◌∷◌, ◌++◌,
  ◌==◌, arith, Bool-cases, nat_eq, list_eq, ==_sound, ==_refl, length, get_elem?, length-append,
  All, append_injective, All-get_elem?,
}
use native.Mathlib.Nat.{pow-suc}
use satsails_lwk.Ledger.Merkle.{
  Bytes, Tree, height, MerkleTree, root_hash, get_leaf, node_hash, new,
}
use satsails_lwk.Ledger.Merkle.Power.{pow-lt_inv, two_pow_pos}
use satsails_lwk.Ledger.Merkle.Build.{IsBuilt, one, join, value-IsBuilt, new-IsBuilt}
use satsails_lwk.Ledger.Merkle.Proof.{Verifies, here, left, right}

-- Two messages with one hash.
abbrev pub Collision : (Bytes → Bytes) → Type 0
Collision sha256 = (a : Bytes) × (b : Bytes) × (a ≢ b) × (sha256 a ≡ sha256 b)

abbrev pub IsHash : Bytes → Type 0
IsHash x = length x ≡ 32

-- The exponent that splits a size is unique.
same_split :
    (size j lsize k rsize h : ℕ)
    → size ≡ 2 ^ j + lsize
    → 1 ≤ lsize
    → lsize ≤ 2 ^ j
    → size ≡ k + rsize
    → k ≡ 2 ^ h
    → 1 ≤ rsize
    → rsize ≤ k
    → j ≡ h
same_split size j lsize k rsize h el llo lhi es ek lo hi =
    let a : j < suc h = pow-lt_inv j (suc h) (omega (arith, pow-suc 2 h)) in
    let b : h < suc j = pow-lt_inv h (suc j) (omega (arith, pow-suc 2 j)) in omega arith

module _ (sha256 : Bytes → Bytes) (digest : (m : Bytes) → length (sha256 m) ≡ 32) where
  same_input : (a b : Bytes) → sha256 a ≡ sha256 b → (a ≡ b) ⊎ Collision sha256
  same_input a b e = elim (Bool-cases (a == b)) [
    | inl same ↦ inl (==_sound a b same)
    | inr other ↦
        inr (a, b, (λ same. ground (arith, ==_refl a, ap (λ (t : Bytes). a == t) same)), e)
  ]

  same_children :
      (a b c d : Bytes)
      → (length a ≡ length c) ⊎ (length b ≡ length d)
      → node_hash sha256 a b ≡ node_hash sha256 c d
      → (a ≡ c) × (b ≡ d) ⊎ Collision sha256
  same_children a b c d sizes e = elim (same_input (0x01 ∷ a ++ b) (0x01 ∷ c ++ d) e) [
    | inr collision ↦ inr collision
    | inl same ↦
        let tails : a ++ b ≡ c ++ d = cc in
        let lengths : length a ≡ length c =
          omega (arith, length-append {0} a b, length-append {0} c d, ap (length {A = ℕ}) tails) in
        inl (append_injective a c b d lengths tails)
  ]

  Verifies-IsHash :
      {size index : ℕ} {x v : Bytes} {proof : List Bytes}
      → Verifies sha256 size index x proof v
      → IsHash x
      → IsHash v
  Verifies-IsHash (here _ _ _ e) h = rw e h
  Verifies-IsHash (left _ _ a b _ _ _ _ _ _ e) h = rw e (digest _)
  Verifies-IsHash (right _ _ _ a b _ _ _ _ _ _ e) h = rw e (digest _)

  pub IsBuilt-IsHash :
      {leaves : List Bytes} {start size : ℕ} {t : Tree} {v : Bytes}
      → IsBuilt sha256 leaves start size t v
      → All IsHash leaves
      → IsHash v
  IsBuilt-IsHash {leaves} (one {start = s} e _) all = All-get_elem? IsHash leaves s _ all e
  IsBuilt-IsHash (join _ _ _ _ _ _ e _) all = rw e (digest _)

  abbrev Leaf : List Bytes → ℕ → Bytes → Type 0
  Leaf leaves i x = (get_elem? leaves i ≡ some x) ⊎ Collision sha256

  binding :
      {leaves : List Bytes} {start size index : ℕ} {t : Tree} {x u v : Bytes} {proof : List Bytes}
      → All IsHash leaves
      → IsHash x
      → IsBuilt sha256 leaves start size t v
      → Verifies sha256 size index x proof u
      → u ≡ v
      → Leaf leaves (start + index) x
  binding {leaves} all hx (one {start = s} ex es) (here {index = i} _ ei ep ev) e =
      let same : s + i ≡ s = omega arith in inl (rw same (ex ∙ ap some (sym e ∙ ev)))
  binding all hx (one ex es) (left k n a b e lo _ _ _ _ _) eq =
      absurd (omega (arith, two_pow_pos k))
  binding all hx (one ex es) (right k n i a b e lo _ _ _ _ _) eq =
      absurd (omega (arith, two_pow_pos k))
  binding all hx (join {h = h} {l = l} _ _ ek lo hi e _ _) (here es _ _ _) eq =
      absurd (omega (arith, two_pow_pos (height l)))
  binding {leaves} all hx
        (join {start = s} {size = size} {k = k} {rsize = m} {l = l} {a = c} {b = d} bl br ek lo hi
          es ev eh)
        (left {index = i} {x = x} {above = q} j n a b e' lo' hi' lt w ep ev') eq =
      let same : j ≡ height l = same_split size j n k m (height l) e' lo' hi' es ek lo hi in
      let inner : 2 ^ j ≡ k = cc (ap (λ (z : ℕ). 2 ^ z) same) in
      let sizes : length a ≡ length c =
        omega (arith, Verifies-IsHash w hx, IsBuilt-IsHash bl all) in
      elim (same_children a b c d (inl sizes) (sym ev' ∙ eq ∙ ev)) [
        | inr collision ↦ inr collision
        | inl (ea, eb) ↦ binding all hx bl (subst (λ z. Verifies sha256 z i x q a) inner w) ea
      ]
  binding {leaves} all hx
        (join {start = s} {size = size} {k = k} {rsize = m} {l = l} {a = c} {b = d} bl br ek lo hi
          es ev eh)
        (right {index = i} {x = x} {above = q} j n i' a b e' lo' hi' ei w ep ev') eq =
      let same : j ≡ height l = same_split size j n k m (height l) e' lo' hi' es ek lo hi in
      let inner : 2 ^ j ≡ k = cc (ap (λ (z : ℕ). 2 ^ z) same) in
      let rest : n ≡ m = omega arith in
      let here_index : s + k + i' ≡ s + i = omega arith in
      let sizes : length b ≡ length d =
        omega (arith, Verifies-IsHash w hx, IsBuilt-IsHash br all) in
      elim (same_children a b c d (inr sizes) (sym ev' ∙ eq ∙ ev)) [
        | inr collision ↦ inr collision
        | inl (ea, eb) ↦
            subst (λ z. Leaf leaves z x) here_index
              (binding all hx br (subst (λ z. Verifies sha256 z i' x q b) rest w) eb)
      ]

  -- Whatever the hash function, if its digests have 32 bytes: a proof that the verifier accepts
  -- for the root hash of the tree of `leaves` shows the leaf at that index, unless the hash function
  -- has a collision.
  pub Verifies-binding :
      (leaves : List Bytes) (t : MerkleTree) (index : ℕ) (x v : Bytes) (proof : List Bytes)
      → All (λ l. length l ≡ 32) leaves
      → length x ≡ 32
      → new sha256 leaves ≡ some t
      → root_hash t ≡ some v
      → 1 ≤ length leaves
      → Verifies sha256 (length leaves) index x proof v
      → (get_leaf t index ≡ some x) ⊎ Collision sha256
  unfolding root_hash get_leaf
  Verifies-binding leaves t index x v proof all hx et ev lo w =
      let (t', v', e, built) = new-IsBuilt sha256 leaves lo in
      let same : record { root = t'; leaves = leaves } ≡ t = cc in
      let claim = λ (m : MerkleTree). root_hash m ≡ some v → Leaf m.leaves index x in
      let start : 0 + index ≡ index = omega arith in
      subst claim same
        (λ ev'.
          let eq : v ≡ v' = cc (value-IsBuilt sha256 built) in
          subst (λ i. Leaf leaves i x) start (binding all hx built w eq))
        ev

-- ===== src/Ledger/Merkle/Proof.antt =====
-- The proofs that `get_leaf_proof` returns, against a verifier that knows the leaf, its index, the
-- number of leaves and the root hash.
use satsails_lwk.Common.{
  ℕ, ◌+◌, ◌-◌, ◌^◌, ◌≤◌, ◌<◌, ◌≡◌, ◌⊎◌, refl, inl, inr, true, false, none, some, List, [], ◌∷◌,
  ◌++◌, arith, dec_lt, subst, subst₂, nat_eq, length, get_elem?, get_elem?-some, ltb, leb,
}
use satsails_lwk.Ledger.Merkle.{
  Bytes, Tree, node, value, height, MerkleTree, root_hash, get_proof, get_leaf_proof, get_leaf,
  node_hash, new,
}
use satsails_lwk.Ledger.Merkle.Power.{pow2-eq}
use satsails_lwk.Ledger.Merkle.Build.{IsBuilt, one, join, value-IsBuilt, new-IsBuilt}

module _ (sha256 : Bytes → Bytes) where
  -- `proof` leads from the leaf hash `x`, at `index` among `size` leaves, to the root hash.
  pub data Verifies : ℕ → ℕ → Bytes → List Bytes → Bytes → Type 0 where
    here :
        {size index : ℕ} {x v : Bytes} {proof : List Bytes}
        → size ≡ 1
        → index ≡ 0
        → proof ≡ []
        → v ≡ x
        → Verifies size index x proof v
    left :
        {size index : ℕ} {x v : Bytes} {proof above : List Bytes} (k rsize : ℕ) (a b : Bytes)
        → size ≡ 2 ^ k + rsize
        → 1 ≤ rsize
        → rsize ≤ 2 ^ k
        → index < 2 ^ k
        → Verifies (2 ^ k) index x above a
        → proof ≡ above ++ b ∷ []
        → v ≡ node_hash sha256 a b
        → Verifies size index x proof v
    right :
        {size index : ℕ} {x v : Bytes} {proof above : List Bytes} (k rsize rindex : ℕ) (a b : Bytes)
        → size ≡ 2 ^ k + rsize
        → 1 ≤ rsize
        → rsize ≤ 2 ^ k
        → index ≡ 2 ^ k + rindex
        → Verifies rsize rindex x above b
        → proof ≡ above ++ a ∷ []
        → v ≡ node_hash sha256 a b
        → Verifies size index x proof v

  -- `get_proof` returns a proof that the verifier accepts.
  abbrev pub Proves : List Bytes → Tree → ℕ → ℕ → Bytes → Bytes → Type 0
  Proves leaves t size index x v =
      (proof : List Bytes) × (get_proof t leaves index ≡ some proof) × Verifies size index x proof v

  module _ (leaves : List Bytes) (l r : Tree) (a b v : Bytes) (h rsize : ℕ) (x : Bytes)
      (lo : 1 ≤ rsize) (hi : rsize ≤ 2 ^ height l) (ev : v ≡ node_hash sha256 a b) where
    Proves-left :
        (index : ℕ)
        → index < 2 ^ height l
        → value r leaves ≡ some b
        → Proves leaves l (2 ^ height l) index x a
        → Proves leaves (node v l r h) (2 ^ height l + rsize) index x v
    unfolding get_proof
    Proves-left index lt eb (p, ep, w) =
        let below : ltb index (2 ^ height l) ≡ true = ground arith in
        (
          p ++ b ∷ [],
          rw (pow2-eq (height l), get_proof, below, ep, eb),
          left (height l) rsize a b refl lo hi lt w refl ev,
        )

    Proves-right :
        (rindex : ℕ)
        → value l leaves ≡ some a
        → Proves leaves r rsize rindex x b
        → Proves leaves (node v l r h) (2 ^ height l + rsize) (2 ^ height l + rindex) x v
    unfolding get_proof
    Proves-right rindex ea (p, ep, w) =
        let above : ltb (2 ^ height l + rindex) (2 ^ height l) ≡ false = ground arith in
        let rest : 2 ^ height l + rindex - 2 ^ height l ≡ rindex = omega arith in
        (
          p ++ a ∷ [],
          rw (pow2-eq (height l), get_proof, above, pow2-eq (height l), rest, ep, ea),
          right (height l) rsize rindex a b refl lo hi refl w refl ev,
        )

  pub get_proof-Verifies :
      {leaves : List Bytes} {start size : ℕ} {t : Tree} {v : Bytes} (index : ℕ) (x : Bytes)
      → IsBuilt sha256 leaves start size t v
      → index < size
      → get_elem? leaves (start + index) ≡ some x
      → Proves leaves t size index x v
  unfolding get_proof
  get_proof-Verifies index x (one {start = s} {v = v} e es) lt ex =
      let zero_index : index ≡ 0 = omega arith in
      let same : s + index ≡ s = omega arith in
      ([], refl, here es zero_index refl (ground (arith, rw same at ex)))
  get_proof-Verifies {leaves} index x
        (join {start = s} {k = k} {rsize = n} {h = h} {l = l} {r = r} {a = a} {b = b} {v = v} bl br
          ek lo hi es ev eh)
        lt ex =
      elim (dec_lt index k) [
        | yes below ↦
            let whole =
              Proves-left leaves l r a b v h n x lo (omega arith) ev index (omega arith)
                (value-IsBuilt sha256 br)
                (subst (λ z. Proves leaves l z index x a) ek
                  (get_proof-Verifies index x bl below ex)) in
            subst (λ z. Proves leaves (node v l r h) z index x v) (omega arith) whole
        | no above ↦
            let at_right : get_elem? leaves (s + k + (index - k)) ≡ some x =
              let same : s + k + (index - k) ≡ s + index = omega arith in rw same ex in
            let whole =
              Proves-right leaves l r a b v h n x lo (omega arith) ev (index - k)
                (value-IsBuilt sha256 bl)
                (get_proof-Verifies (index - k) x br (omega arith) at_right) in
            subst₂ (λ z i. Proves leaves (node v l r h) z i x v) (omega arith) (omega arith) whole
      ]

  -- For a leaf of a tree that `new` built, `get_leaf_proof` returns a proof that the verifier accepts
  -- for that leaf, its index, the number of leaves and the root hash.
  pub get_leaf_proof-Verifies :
      (leaves : List Bytes) (index : ℕ)
      → index < length leaves
      → (t : MerkleTree) × (x v : Bytes) × (proof : List Bytes) × (new sha256 leaves ≡ some t)
        × (get_leaf t index ≡ some x)
        × (root_hash t ≡ some v)
        × (get_leaf_proof t index ≡ some (some proof))
        × Verifies (length leaves) index x proof v
  unfolding get_leaf_proof root_hash get_leaf
  get_leaf_proof-Verifies leaves index lt =
      let (t, v, e, built) = new-IsBuilt sha256 leaves (omega arith) in
      let (x, ex) = get_elem?-some leaves index lt in
      let from_start : 0 + index ≡ index = omega arith in
      let (p, ep, w) = get_proof-Verifies index x built lt (rw from_start ex) in
      let inside : leb (length leaves) index ≡ false = ground arith in
      (
        record { root = t; leaves = leaves },
        x,
        v,
        p,
        e,
        ex,
        value-IsBuilt sha256 built,
        rw (inside, ep),
        w,
      )

  -- An index out of range has no proof, and does not panic.
  pub get_leaf_proof_out_of_range :
      (t : MerkleTree) (index : ℕ) → length t.leaves ≤ index → get_leaf_proof t index ≡ some none
  unfolding get_leaf_proof
  get_leaf_proof_out_of_range t index h = ground arith

  -- Of a built tree `get_leaf_proof` does not panic.
  pub get_leaf_proof_total :
      (t : MerkleTree) (v : Bytes) (index : ℕ)
      → IsBuilt sha256 t.leaves 0 (length t.leaves) t.root v
      → (get_leaf_proof t index ≡ some none) × (length t.leaves ≤ index)
        ⊎ (index < length t.leaves)
          × ((proof : List Bytes) × (x : Bytes) × (get_leaf_proof t index ≡ some (some proof))
              × (get_leaf t index ≡ some x)
              × (get_proof t.root t.leaves index ≡ some proof)
              × Verifies (length t.leaves) index x proof v)
  unfolding get_leaf_proof get_leaf
  get_leaf_proof_total t v index built = elim (dec_lt index (length t.leaves)) [
    | no out ↦ inl (get_leaf_proof_out_of_range t index (omega arith), omega arith)
    | yes lt ↦
        let (x, ex) = get_elem?-some t.leaves index lt in
        let from_start : 0 + index ≡ index = omega arith in
        let (p, ep, w) = get_proof-Verifies index x built lt (rw from_start ex) in
        let inside : leb (length t.leaves) index ≡ false = ground arith in
        inr (lt, (p, x, rw (inside, ep), ex, ep, w))
  ]

-- ===== src/Ledger/Merkle/Build.antt =====
-- About `Tree::new` of merkle.rs and what it builds from a run of leaves.
use satsails_lwk.Common.{
  ℕ, zero, suc, ◌+◌, ◌-◌, ◌^◌, ◌≤◌, ◌<◌, ◌≡◌, ◌∙◌, ◌≢◌, false, subst, refl, inl, inr, some, List,
  [], ◌∷◌, ◌++◌, ◌==◌, arith, Bool-cases, nat_eq, length, get_elem?, get_elem?-some, take, drop,
  length-append, take_add_drop, take_all,
}
use satsails_lwk.Ledger.Merkle.{
  Bytes, Tree, leaf, node, value, height, MerkleTree, root_hash, largest_power_of_2_less_than,
  node_hash, node_of, tree_new, new,
}
use satsails_lwk.Ledger.Merkle.Power.{largest_power_of_2_less_than_lem, pow-lt_inv, pow-le_inv}
use native.Mathlib.Nat.{pow-suc}

take_one :
    (i : ℕ) (xs : List Bytes) {v : Bytes} → get_elem? xs i ≡ some v → take 1 (drop i xs) ≡ v ∷ []
take_one i [] e = cc
take_one zero (x ∷ xs) e = cc
take_one (suc i) (x ∷ xs) e = take_one i xs e

module _ (sha256 : Bytes → Bytes) where
  -- `t` stands for the `size` leaves from `start` on, and its value is `v`.
  pub data IsBuilt (leaves : List Bytes) : ℕ → ℕ → Tree → Bytes → Type 0 where
    one :
        {start size : ℕ} {v : Bytes}
        → get_elem? leaves start ≡ some v
        → size ≡ 1
        → IsBuilt leaves start size (leaf start) v
    join :
        {start size k rsize h : ℕ} {l r : Tree} {a b v : Bytes}
        → IsBuilt leaves start k l a
        → IsBuilt leaves (start + k) rsize r b
        → k ≡ 2 ^ height l
        → 1 ≤ rsize
        → rsize ≤ k
        → size ≡ k + rsize
        → v ≡ node_hash sha256 a b
        → h ≡ height l + 1
        → IsBuilt leaves start size (node v l r h) v

  pub value-IsBuilt :
      {leaves : List Bytes} {start size : ℕ} {t : Tree} {v : Bytes}
      → IsBuilt leaves start size t v
      → value t leaves ≡ some v
  unfolding value
  value-IsBuilt (one e _) = e
  value-IsBuilt (join _ _ _ _ _ _ _ _) = refl

  pub size_pos :
      {leaves : List Bytes} {start size : ℕ} {t : Tree} {v : Bytes}
      → IsBuilt leaves start size t v
      → 1 ≤ size
  size_pos (one _ e) = omega arith
  size_pos (join _ _ _ p _ e _ _) = omega arith

  -- A tree over `2 ^ j` leaves has height `j`, so its left size can be read off its height.
  height-IsBuilt :
      {leaves : List Bytes} {start size : ℕ} {t : Tree} {v : Bytes} (j : ℕ)
      → IsBuilt leaves start size t v
      → size ≡ 2 ^ j
      → height t ≡ j
  unfolding height
  height-IsBuilt zero (one _ _) e = refl
  height-IsBuilt (suc j) (one _ s) e =
      absurd (omega (arith, pow-lt_inv 0 (suc j), pow-suc 2 j, pow-le_inv (suc j) 0))
  height-IsBuilt j (join {l = l} bl br ek lo hi es ev eh) e =
      let below : height l < j = pow-lt_inv (height l) j (omega arith) in
      let above : j ≤ suc (height l) =
        pow-le_inv j (suc (height l)) (omega (arith, pow-suc 2 (height l))) in
      omega arith

  abbrev BuildsNode : List Bytes → ℕ → ℕ → Tree → Tree → Type 0
  BuildsNode leaves start size l r =
      (t : Tree) × (v : Bytes) × (node_of sha256 leaves l r ≡ some t)
      × IsBuilt leaves start size t v

  node_of-IsBuilt :
      {leaves : List Bytes} {start k rsize : ℕ} {l r : Tree} {a b : Bytes} (j : ℕ)
      → IsBuilt leaves start k l a
      → IsBuilt leaves (start + k) rsize r b
      → k ≡ 2 ^ j
      → rsize ≤ k
      → BuildsNode leaves start (k + rsize) l r
  node_of-IsBuilt {l = l} {r = r} {a = a} {b = b} j bl br e hi = (
    node (node_hash sha256 a b) l r (height l + 1),
    node_hash sha256 a b,
    rw (value-IsBuilt bl, value-IsBuilt br),
    join bl br (let h = height-IsBuilt j bl e in rw h e) (size_pos br) hi refl refl refl,
  )

  abbrev Builds : ℕ → List Bytes → ℕ → ℕ → Type 0
  Builds fuel leaves start size =
      (t : Tree) × (v : Bytes) × (tree_new sha256 fuel leaves start size ≡ some t)
      × IsBuilt leaves start size t v

  tree_new-join :
      (fuel : ℕ) (leaves : List Bytes) (start size k : ℕ) (l r : Tree)
      → size ≢ 1
      → largest_power_of_2_less_than size ≡ some (2 ^ k)
      → tree_new sha256 fuel leaves start (2 ^ k) ≡ some l
      → tree_new sha256 fuel leaves (start + 2 ^ k) (size - 2 ^ k) ≡ some r
      → BuildsNode leaves start size l r
      → Builds (suc fuel) leaves start size
  unfolding tree_new
  tree_new-join fuel leaves start size k l r ne ek el er (t, v, e, b) =
      let more : (size == 1) ≡ false = ground arith in (t, v, rw (more, tree_new, ek, el, er) e, b)

  tree_new-IsBuilt :
      (fuel : ℕ) (leaves : List Bytes) (start size : ℕ)
      → size ≤ fuel
      → 1 ≤ size
      → start + size ≤ length leaves
      → Builds fuel leaves start size
  unfolding tree_new
  tree_new-IsBuilt zero leaves start size hf lo hi = absurd (omega arith)
  tree_new-IsBuilt (suc fuel) leaves start size hf lo hi = elim (Bool-cases (size == 1)) [
    | inl single ↦
        let (v, e) = get_elem?-some leaves start (omega arith) in
        (leaf start, v, rw (single, tree_new), one e (ground arith))
    | inr more ↦
        let (k, ek, lt, ge) = largest_power_of_2_less_than_lem size (ground arith) in
        let (l, a, el, bl) =
          tree_new-IsBuilt fuel leaves start (2 ^ k) (omega arith) (omega arith) (omega arith) in
        let (r, b, er, br) =
          tree_new-IsBuilt fuel leaves (start + 2 ^ k) (size - 2 ^ k) (omega arith) (omega arith)
            (omega arith) in
        let whole = node_of-IsBuilt {l = l} {r = r} {a = a} {b = b} k bl br refl (omega arith) in
        tree_new-join fuel leaves start size k l r (ground arith) ek el er
          (subst (λ z. BuildsNode leaves start z l r) (omega arith) whole)
  ]

  -- The Merkle root of a list, by recursion on the list: RFC 6962 without its leaf prefix.
  pub data IsRoot : List Bytes → Bytes → Type 0 where
    single : {xs : List Bytes} {v : Bytes} → xs ≡ v ∷ [] → IsRoot xs v
    split :
        {xs ys zs : List Bytes} {a b v : Bytes} (k : ℕ)
        → IsRoot xs a
        → IsRoot ys b
        → zs ≡ xs ++ ys
        → length xs ≡ 2 ^ k
        → 1 ≤ length ys
        → length ys ≤ length xs
        → v ≡ node_hash sha256 a b
        → IsRoot zs v

  IsBuilt-IsRoot :
      {leaves : List Bytes} {start size : ℕ} {t : Tree} {v : Bytes}
      → IsBuilt leaves start size t v
      → IsRoot (take size (drop start leaves)) v × (length (take size (drop start leaves)) ≡ size)
  IsBuilt-IsRoot {leaves} (one {start = s} {v = v} e es) =
      (single (rw es (take_one s leaves e)), rw (es, take_one s leaves e))
  IsBuilt-IsRoot {leaves} (join {start = s} {k = k} {rsize = n} {l = l} bl br ek lo hi es ev eh) =
      let (rl, sl) = IsBuilt-IsRoot bl in
      let (rr, sr) = IsBuilt-IsRoot br in
      let parts = take_add_drop k n s leaves in
      (
        split (height l) rl rr (rw es parts) (sl ∙ ek) (omega arith) (omega arith) ev,
        rw (es, parts)
            (omega
              (arith, length-append {0} (take k (drop s leaves)) (take n (drop (s + k) leaves)))),
      )

  pub new-IsBuilt :
      (leaves : List Bytes)
      → 1 ≤ length leaves
      → (t : Tree) × (v : Bytes) × (new sha256 leaves ≡ some (record { root = t; leaves = leaves }))
        × IsBuilt leaves 0 (length leaves) t v
  unfolding new
  new-IsBuilt leaves lo =
      let n : ℕ = length leaves in
      let (t, v, e, b) = tree_new-IsBuilt n leaves 0 n (omega arith) lo (omega arith) in
      (t, v, rw e, b)

  -- Of a list of one leaf or more `new` builds, without a panic, a tree that keeps the leaves and
  -- whose root hash is the Merkle root of the list.
  pub new-IsRoot :
      (leaves : List Bytes)
      → 1 ≤ length leaves
      → (t : MerkleTree) × (v : Bytes) × (new sha256 leaves ≡ some t)
        × (t.leaves ≡ leaves)
        × (root_hash t ≡ some v)
        × IsRoot leaves v
  unfolding root_hash
  new-IsRoot leaves lo =
      let (t, v, e, b) = new-IsBuilt leaves lo in
      (
        record { root = t; leaves = leaves },
        v,
        e,
        refl,
        value-IsBuilt b,
        (let r = (IsBuilt-IsRoot b).0 in rw (take_all (length leaves) leaves (omega arith)) at r),
      )

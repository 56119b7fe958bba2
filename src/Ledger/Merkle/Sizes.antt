-- ===== src/Ledger/Merkle/Sizes.antt =====
-- The number and the lengths of the hashes in a proof.
use satsails_lwk.Common.{
  ℕ, ◌-◌, ◌^◌, ◌≤◌, ◌<◌, ◌≡◌, inl, inr, some, List, [], ◌∷◌, ◌++◌, length, length-append, All,
  All-append, arith, Bool-cases, ltb, subst, and_then-eq-some, ◌⊎◌,
}
use satsails_lwk.Ledger.Merkle.{Bytes, Tree, node, get_proof, pow2, height, value}
use satsails_lwk.Ledger.Merkle.Power.{pow-lt_inv}
use satsails_lwk.Ledger.Merkle.Build.{IsBuilt, one, join, value-IsBuilt}
use satsails_lwk.Ledger.Merkle.Proof.{Verifies, here, left, right}
use satsails_lwk.Ledger.Merkle.Binding.{IsHash, IsBuilt-IsHash}

module _ (sha256 : Bytes → Bytes) where
  -- A proof among at most `2 ^ bound` leaves has at most `bound` hashes.
  pub length-Verifies :
      {size index : ℕ} {x v : Bytes} {proof : List Bytes} (bound : ℕ)
      → Verifies sha256 size index x proof v
      → size ≤ 2 ^ bound
      → length proof ≤ bound
  length-Verifies bound (here _ _ e _) h = rw e (omega arith)
  length-Verifies bound (left {above = q} k n a b es lo hi lt w e _) h =
      let deeper : k < bound = pow-lt_inv k bound (omega arith) in
      rw e (omega (arith, length-append {0} q (b ∷ []), length-Verifies k w (omega arith)))
  length-Verifies bound (right {above = q} k n i a b es lo hi ei w e _) h =
      let deeper : k < bound = pow-lt_inv k bound (omega arith) in
      rw e (omega (arith, length-append {0} q (a ∷ []), length-Verifies k w hi))

-- A node's proof is a child's proof, and the value of the other child behind it.
get_proof-node :
    (leaves : List Bytes) (l r : Tree) (a b v : Bytes) (h index : ℕ) (proof : List Bytes)
    → value l leaves ≡ some a
    → value r leaves ≡ some b
    → get_proof (node v l r h) leaves index ≡ some proof
    → (above : List Bytes) × ((get_proof l leaves index ≡ some above) × (proof ≡ above ++ b ∷ [])
        ⊎ (get_proof r leaves (index - pow2 (height l)) ≡ some above) × (proof ≡ above ++ a ∷ []))
unfolding get_proof
get_proof-node leaves l r a b v h index proof ea eb e =
    elim (Bool-cases (ltb index (pow2 (height l)))) [
      | inl below ↦
          let (q, eq, e') =
            and_then-eq-some (get_proof l leaves index) _ (rw (below, get_proof) at e) in
          (q, inl (eq, ground arith))
      | inr above ↦
          let (q, eq, e') =
            and_then-eq-some (get_proof r leaves (index - pow2 (height l))) _
              (rw (above, get_proof) at e) in
          (q, inr (eq, ground arith))
    ]

module _ (sha256 : Bytes → Bytes) (digest : (m : Bytes) → length (sha256 m) ≡ 32) where
  pub get_proof-IsHash :
      {leaves : List Bytes} {start size : ℕ} {t : Tree} {v : Bytes} (index : ℕ) (proof : List Bytes)
      → All IsHash leaves
      → IsBuilt sha256 leaves start size t v
      → get_proof t leaves index ≡ some proof
      → All IsHash proof
  unfolding get_proof
  get_proof-IsHash index proof all (one _ _) e =
      let same : [] ≡ proof = cc in subst (All IsHash) same tt
  get_proof-IsHash {leaves} index proof all
        (join {h = h} {l = l} {r = r} {a = a} {b = b} {v = v} bl br ek lo hi es ev eh) e =
      let (q, found) =
        get_proof-node leaves l r a b v h index proof (value-IsBuilt sha256 bl)
          (value-IsBuilt sha256 br) e in
      elim found [
        | inl (eq, ep) ↦ rw ep (
            All-append IsHash q (b ∷ []) (get_proof-IsHash index q all bl eq)
              (IsBuilt-IsHash sha256 digest br all, tt))
        | inr (eq, ep) ↦ rw ep (
            All-append IsHash q (a ∷ []) (get_proof-IsHash (index - pow2 (height l)) q all br eq)
              (IsBuilt-IsHash sha256 digest bl all, tt))
      ]

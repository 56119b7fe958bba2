-- ===== src/Ledger/Merkle.antt =====
-- lwk_ledger/src/merkle.rs. A panic (a failed `assert!`, an index out of range) is `none`. Sizes are
-- lengths of vectors, so `usize` arithmetic on them does not wrap. `sha256` is the hash of the
-- bitcoin_hashes crate.
pub mod Power
pub mod Build
pub mod Proof
pub mod Binding
pub mod Sizes
use Prim.Native.Nat.{bit_and}
use satsails_lwk.Common.{
  ℕ, zero, suc, ◌+◌, ◌-◌, ◌*◌, ◌/◌, ◌^◌, Bool, true, false, Option, none, some, List, [], ◌∷◌, ◌++◌,
  ltb, leb, ◌==◌, if◌then◌else◌, length, get_elem?, and_then, nat_eq, list_eq,
}

abbrev pub Bytes : Type 0
Bytes = List ℕ

-- `while 2 * t <= n`, on fuel.
unfoldable pub floor_lg_loop : ℕ → ℕ → ℕ → ℕ → Option ℕ
floor_lg_loop zero n t r = none
floor_lg_loop (suc fuel) n t r =
    let rest = floor_lg_loop fuel n (t * 2) (r + 1) in if leb (2 * t) n then rest else some r

unfoldable pub floor_lg : ℕ → Option ℕ
unfolding floor_lg_loop
floor_lg n = if ltb 0 n then floor_lg_loop n n 1 0 else none

unfoldable pub pow2_loop : ℕ → ℕ → ℕ
pow2_loop zero p = p
pow2_loop (suc rounds) p = pow2_loop rounds (p * 2)

unfoldable pub pow2 : ℕ → ℕ
unfolding pow2_loop
pow2 n = pow2_loop n 1

unfoldable pub is_power_of_2 : ℕ → Option Bool
is_power_of_2 n = if leb 1 n then some (bit_and n (n - 1) == 0) else none

unfoldable pub largest_power_of_2_less_than : ℕ → Option ℕ
unfolding floor_lg is_power_of_2
largest_power_of_2_less_than n =
    if n == 2
    then some 1
    else if ltb 1 n
    then and_then (is_power_of_2 n)
        (λ exact. if exact then some (n / 2) else and_then (floor_lg n) (λ k. some (2 ^ k)))
    else none

pub data Tree : Type 0 where
  node : (value : Bytes) (left right : Tree) (height : ℕ) → Tree
  leaf : ℕ → Tree

unfoldable pub value : Tree → List Bytes → Option Bytes
value (node v l r h) leaves = some v
value (leaf i) leaves = get_elem? leaves i

unfoldable pub height : Tree → ℕ
height (node v l r h) = h
height (leaf i) = 0

unfoldable pub get_proof : Tree → List Bytes → ℕ → Option (List Bytes)
unfolding value height pow2
get_proof (leaf i) leaves index = some []
get_proof (node v l r h) leaves index = elim (ltb index (pow2 (height l))) [
  | true ↦
      and_then (get_proof l leaves index)
        (λ proof. and_then (value r leaves) (λ s. some (proof ++ s ∷ [])))
  | false ↦
      and_then (get_proof r leaves (index - pow2 (height l)))
        (λ proof. and_then (value l leaves) (λ s. some (proof ++ s ∷ [])))
]

pub record MerkleTree : Type 0 where
  pub root : Tree
  pub leaves : List Bytes

unfoldable pub size : MerkleTree → ℕ
size t = length t.leaves

unfoldable pub root_hash : MerkleTree → Option Bytes
unfolding value
root_hash t = value t.root t.leaves

unfoldable pub get_leaf : MerkleTree → ℕ → Option Bytes
get_leaf t i = get_elem? t.leaves i

-- `iter().position(|v| v == val)`
unfoldable pub position : Bytes → List Bytes → Option ℕ
position val [] = none
position val (v ∷ vs) =
    let rest = position val vs in if v == val then some 0 else and_then rest (λ i. some (suc i))

unfoldable pub get_leaf_index : MerkleTree → Bytes → Option ℕ
unfolding position
get_leaf_index t val = position val t.leaves

-- The outer `Option` is the panic, the inner one is the function's own.
unfoldable pub get_leaf_proof : MerkleTree → ℕ → Option (Option (List Bytes))
unfolding get_proof
get_leaf_proof t index =
    if leb (length t.leaves) index
    then some none
    else and_then (get_proof t.root t.leaves index) (λ p. some (some p))

module _ (sha256 : Bytes → Bytes) where
  -- The hash of an inner node.
  abbrev pub node_hash : Bytes → Bytes → Bytes
  node_hash a b = sha256 (0x01 ∷ a ++ b)

  abbrev pub node_of : List Bytes → Tree → Tree → Option Tree
  node_of leaves l r =
      and_then (value l leaves)
        λ a. and_then (value r leaves) λ b. some (node (node_hash a b) l r (height l + 1))

  -- `Tree::new`, on fuel.
  unfoldable pub tree_new : ℕ → List Bytes → ℕ → ℕ → Option Tree
  unfolding largest_power_of_2_less_than value height
  tree_new zero leaves start size = none
  tree_new (suc fuel) leaves start size = elim (size == 1) [
    | true ↦ some (leaf start)
    | false ↦ and_then (largest_power_of_2_less_than size) λ lchild_size.
        and_then (tree_new fuel leaves start lchild_size) λ lchild.
          and_then (tree_new fuel leaves (start + lchild_size) (size - lchild_size))
            (node_of leaves lchild)
  ]

  unfoldable pub new : List Bytes → Option MerkleTree
  unfolding tree_new
  new leaves =
      and_then (tree_new (length leaves) leaves 0 (length leaves))
        (λ root. some (record { root = root; leaves = leaves }))

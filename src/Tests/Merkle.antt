-- ===== src/Tests/Merkle.antt =====
-- merkle.rs and apdu.rs.
use satsails_lwk.Common.{ℕ, ◌≡◌, ◌⊎◌, refl, none, some, List, [], ◌∷◌, arith}
use satsails_lwk.Ledger.Merkle.{
  Bytes, leaf, node, MerkleTree, root_hash, get_leaf, get_leaf_proof, new,
  largest_power_of_2_less_than, node_hash,
}
use satsails_lwk.Ledger.Merkle.Build.{IsRoot, new-IsRoot}
use satsails_lwk.Ledger.Merkle.Proof.{Verifies, here, right, get_leaf_proof-Verifies}
use satsails_lwk.Ledger.Merkle.Binding.{Collision, Verifies-binding}
use satsails_lwk.Ledger.Apdu.{ApduCommand, encode}
use satsails_lwk.Ledger.Apdu.Codes.{decode, decode-encode}
use satsails_lwk.Tests.Toys.{toy_sha, toy_digest}

largest_runs :
    (largest_power_of_2_less_than 3 ≡ some 2)
    × (largest_power_of_2_less_than 8 ≡ some 4)
    × (largest_power_of_2_less_than 9 ≡ some 8)
    × (largest_power_of_2_less_than 1 ≡ none)
unfolding largest_power_of_2_less_than
largest_runs = (refl, refl, refl, refl)

abbrev hash_of : ℕ → Bytes
hash_of n = toy_sha (n ∷ [])

abbrev three : List Bytes
three = hash_of 1 ∷ hash_of 2 ∷ hash_of 3 ∷ []

abbrev three_tree : MerkleTree
three_tree = record {
  root =
      node (node_hash toy_sha (node_hash toy_sha (hash_of 1) (hash_of 2)) (hash_of 3))
        (node (node_hash toy_sha (hash_of 1) (hash_of 2)) (leaf 0) (leaf 1) 1) (leaf 2) 2;
  leaves = three;
}

new_runs : new toy_sha three ≡ some three_tree
unfolding new
new_runs = refl

-- As in the test of merkle.rs: the last of three leaves is proved by the hash of the other two.
proof_runs :
    (get_leaf_proof three_tree 0 ≡ some (some (hash_of 2 ∷ hash_of 3 ∷ [])))
    × (get_leaf_proof three_tree 1 ≡ some (some (hash_of 1 ∷ hash_of 3 ∷ [])))
    × (get_leaf_proof three_tree 2 ≡ some (some (node_hash toy_sha (hash_of 1) (hash_of 2) ∷ [])))
    × (get_leaf_proof three_tree 3 ≡ some none)
unfolding get_leaf_proof
proof_runs = (refl, refl, refl, refl)

-- An empty list of leaves fails the assertion on sizes.
new_empty : new toy_sha [] ≡ none
unfolding new
new_empty = refl

new-IsRoot_example :
    (t : MerkleTree) × (v : Bytes) × (new toy_sha three ≡ some t)
    × (t.leaves ≡ three)
    × (root_hash t ≡ some v)
    × IsRoot toy_sha three v
new-IsRoot_example = new-IsRoot toy_sha three (omega arith)

get_leaf_proof-Verifies_example :
    (t : MerkleTree) × (x v : Bytes) × (proof : List Bytes) × (new toy_sha three ≡ some t)
    × (get_leaf t 2 ≡ some x)
    × (root_hash t ≡ some v)
    × (get_leaf_proof t 2 ≡ some (some proof))
    × Verifies toy_sha 3 2 x proof v
get_leaf_proof-Verifies_example = get_leaf_proof-Verifies toy_sha three 2 (omega arith)

abbrev pair : Bytes
pair = node_hash toy_sha (hash_of 1) (hash_of 2)

three_root : root_hash three_tree ≡ some (node_hash toy_sha pair (hash_of 3))
unfolding root_hash
three_root = refl

third : Verifies toy_sha 3 2 (hash_of 3) (pair ∷ []) (node_hash toy_sha pair (hash_of 3))
third =
    right 1 1 0 pair (hash_of 3) refl (omega arith) (omega arith) refl (here refl refl refl refl)
      refl refl

Verifies-binding_example : (get_leaf three_tree 2 ≡ some (hash_of 3)) ⊎ Collision toy_sha
Verifies-binding_example =
    Verifies-binding toy_sha toy_digest three three_tree 2 (hash_of 3)
      (node_hash toy_sha pair (hash_of 3)) (pair ∷ []) (refl, (refl, (refl, tt))) refl new_runs
      three_root (omega arith) third

abbrev version : ApduCommand
version = record { cla = 0xE1; ins = 1; p1 = 0; p2 = 1; payload = 7 ∷ 8 ∷ [] }

decode-encode_example : decode (encode version) ≡ some (version, [])
decode-encode_example = decode-encode version (omega arith)

-- ===== src/Tests/Interpreter.antt =====
-- interpreter.rs.
use satsails_lwk.Common.{◌≡◌, refl, some, List, [], ◌∷◌, map, arith, err}
use satsails_lwk.Ledger.Merkle.{Bytes, MerkleTree, root_hash, leaf}
use satsails_lwk.Ledger.Merkle.Build.{one}
use satsails_lwk.Ledger.Interpreter.{
  Interpreter, InterpreterError, new_interpreter, add_known_list, execute, find_preimage, find_tree,
  get_preimage_command, get_merkle_leaf_proof_command, leaf_entry, get_more_elements_command,
}
use satsails_lwk.Ledger.Interpreter.Valid.{IsValid, new_interpreter-IsValid, add_known_list-IsValid}
use satsails_lwk.Ledger.Interpreter.Execute.{execute-IsValid, Keeps}
use satsails_lwk.Ledger.Interpreter.Stream.{collect, collect-Uniform}
use satsails_lwk.Ledger.Interpreter.Preimage.{Delivers, get_preimage-Delivers}
use satsails_lwk.Ledger.Interpreter.Lists.{Proves, proof_request_of, get_merkle_leaf_proof-Proves}
use satsails_lwk.Tests.Toys.{toy_sha, toy_digest, toy_varint}

execute-IsValid_example :
    Keeps toy_sha toy_varint (execute toy_sha toy_varint new_interpreter (0x41 ∷ 1 ∷ []))
execute-IsValid_example =
    execute-IsValid toy_sha toy_varint new_interpreter (0x41 ∷ 1 ∷ [])
      (new_interpreter-IsValid toy_sha)

abbrev words : List Bytes
words = (1 ∷ []) ∷ (2 ∷ 3 ∷ []) ∷ []

add_known_list-IsValid_example :
    (s' : Interpreter) × (root : Bytes) × (tree : MerkleTree) × (add_known_list toy_sha toy_varint
        new_interpreter words
      ≡ some (s', root))
    × IsValid toy_sha s'
    × (s'.queue ≡ [])
    × (s'.trees ≡ tree ∷ [])
    × (root_hash tree ≡ some root)
    × (tree.leaves ≡ map (λ e. toy_sha (0x00 ∷ e)) words)
add_known_list-IsValid_example =
    add_known_list-IsValid toy_sha toy_varint new_interpreter words
      (new_interpreter-IsValid toy_sha) (omega arith)

collect-Uniform_example : collect 3 ((1 ∷ 2 ∷ []) ∷ (3 ∷ 4 ∷ []) ∷ []) ≡ some (1 ∷ 2 ∷ 3 ∷ 4 ∷ [])
collect-Uniform_example =
    collect-Uniform 3 2 ((1 ∷ 2 ∷ []) ∷ (3 ∷ 4 ∷ []) ∷ []) (omega arith) (omega arith)
      (refl, (refl, tt)) (omega arith)

abbrev entry : Bytes × Bytes
entry = leaf_entry toy_sha toy_varint (1 ∷ [])

get_preimage-Delivers_example :
    Delivers toy_sha toy_varint entry.1
      (get_preimage_command toy_sha toy_varint [] (entry ∷ []) (0 ∷ entry.0))
unfolding find_preimage
get_preimage-Delivers_example =
    get_preimage-Delivers toy_sha toy_varint (entry ∷ []) entry.0 entry (toy_digest entry.1) refl

abbrev lone : MerkleTree
lone = record { root = leaf 0; leaves = entry.0 ∷ [] }

get_merkle_leaf_proof-Proves_example : Proves toy_sha toy_digest toy_varint 1 0 entry.0 (
    get_merkle_leaf_proof_command toy_sha toy_varint []
      (lone ∷ [])
      (proof_request_of toy_sha toy_digest toy_varint entry.0 1 0))
unfolding find_tree root_hash
get_merkle_leaf_proof-Proves_example =
    get_merkle_leaf_proof-Proves toy_sha toy_digest toy_varint (lone ∷ []) lone 0 entry.0
      (toy_digest entry.1) refl (one refl refl) (toy_digest entry.1, tt) (omega arith) (omega arith)

-- Elements of two lengths in the queue end the exchange with an error.
mixed_queue :
    get_more_elements_command ((1 ∷ []) ∷ (2 ∷ 3 ∷ []) ∷ [])
    ≡ some (err InterpreterError.unexpected_queue, (1 ∷ []) ∷ (2 ∷ 3 ∷ []) ∷ [])
unfolding get_more_elements_command
mixed_queue = refl

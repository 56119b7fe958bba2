-- ===== src/Ledger/Interpreter/Execute.antt =====
-- About `execute` of interpreter.rs on a valid state.
use satsails_lwk.Common.{
  ℕ, suc, ◌+◌, ◌≡◌, refl, true, inl, inr, Option, none, some, List, [], ◌∷◌, ◌++◌, length,
  length-drop, take, drop, All, ◌||◌, not, nat_eq, ◌==◌, arith, Bool-cases, Option-cases, ltb, leb,
  Result, ok, err, Defined, Defined-if,
}
use satsails_lwk.Ledger.Merkle.{Bytes, MerkleTree, size, get_leaf_index}
use satsails_lwk.Ledger.Merkle.Proof.{get_leaf_proof_total}
use satsails_lwk.Ledger.Apdu.{
  ClientCommandCode, client_try_from, yield, get_preimage, get_merkle_leaf_proof,
  get_merkle_leaf_index, get_more_elements,
}
use satsails_lwk.Ledger.Interpreter.{
  Interpreter, InterpreterError, VarInt, Reply, find_preimage, preimage_answer,
  get_preimage_command, proof_answer, tree_proof, proof_request, get_merkle_leaf_proof_command,
  get_merkle_leaf_index_command, get_merkle_leaf_index_answer, get_more_elements_command, dispatch,
  execute, Step, with_queue,
}
use satsails_lwk.Ledger.Interpreter.Valid.{IsValid, IsTree, find_tree_total, Finds}

get_more_elements-Defined : (queue : List Bytes) → Defined (get_more_elements_command queue)
unfolding get_more_elements_command
get_more_elements-Defined [] = (_, refl)
get_more_elements-Defined (q ∷ qs) = Defined-if _ _ _ (_, refl) (_, refl)

module _ (sha256 : Bytes → Bytes) (varint : VarInt) where
  open varint use {serialize, deserialize_partial, deserialize, read_length}

  get_preimage-Defined :
      (queue : List Bytes) (known : List (Bytes × Bytes)) (request : Bytes)
      → Defined (get_preimage_command sha256 varint queue known request)
  unfolding get_preimage_command preimage_answer
  get_preimage-Defined queue known [] = (_, refl)
  get_preimage-Defined queue known (b ∷ hash) =
      elim (Bool-cases (not (suc (length hash) == 33) || not (b == 0))) [
        | inl bad ↦ rw bad (_, refl)
        | inr good ↦ rw good (elim (Option-cases (find_preimage hash known)) [
          | inl e ↦ rw e (_, refl)
          | inr (entry, e) ↦ rw e (_, refl)
        ])
      ]

  tree_proof-Defined :
      (queue : List Bytes) (tree : MerkleTree) (tree_size index : ℕ)
      → IsTree sha256 tree
      → Defined (tree_proof sha256 varint queue tree tree_size index)
  unfolding tree_proof proof_answer
  tree_proof-Defined queue tree tree_size index (v, built) =
      elim (Bool-cases (leb tree_size index || not (tree_size == size tree))) [
        | inl bad ↦ rw bad (_, refl)
        | inr good ↦ rw good (elim (get_leaf_proof_total sha256 tree v index built) [
          | inl (e, _) ↦ rw e (_, refl)
          | inr (lt, (p, x, e, ex, _, _)) ↦ rw (e, proof_answer, ex) (_, refl)
        ])
      ]

  proof_request-Defined :
      (queue : List Bytes) (trees : List MerkleTree) (root : Bytes) (tree_size : ℕ)
      (index : Option ℕ)
      → All (IsTree sha256) trees
      → Defined (proof_request sha256 varint queue trees root tree_size index)
  unfolding proof_request
  proof_request-Defined queue trees root tree_size none all = (_, refl)
  proof_request-Defined queue trees root tree_size (some index) all =
      let (found, e, is_tree) = find_tree_total sha256 root trees all in
      rw e (by_tree found is_tree)
    where
      by_tree :
          (found : Option MerkleTree)
          → Finds sha256 root found
          → Defined {A = Result InterpreterError Bytes × List Bytes} (elim found [
            | none ↦ some (err InterpreterError.unknown_hash, queue)
            | some tree ↦ tree_proof sha256 varint queue tree tree_size index
          ])
      by_tree none h = (_, refl)
      by_tree (some tree) h = tree_proof-Defined queue tree tree_size index h.0

  get_merkle_leaf_proof-Defined :
      (queue : List Bytes) (trees : List MerkleTree) (request : Bytes)
      → All (IsTree sha256) trees
      → Defined (get_merkle_leaf_proof_command sha256 varint queue trees request)
  unfolding get_merkle_leaf_proof_command
  get_merkle_leaf_proof-Defined (q ∷ qs) trees request all = (_, refl)
  get_merkle_leaf_proof-Defined [] trees request all = elim (Bool-cases (ltb (length request) 34)) [
    | inl short ↦ rw short (_, refl)
    | inr long ↦ rw long (elim (Option-cases (deserialize_partial (drop 32 request))) [
      | inl e ↦ rw e (_, refl)
      | inr ((tree_size, read), e) ↦
          let fits : leb (32 + read) (length request) ≡ true =
            ground (arith, read_length _ _ _ e, length-drop {0} 32 request) in
          rw (e, fits)
            (proof_request-Defined [] trees (take 32 request) tree_size
              (deserialize (drop (32 + read) request)) all)
    ])
  ]

  get_merkle_leaf_index-Defined :
      (trees : List MerkleTree) (request : Bytes)
      → All (IsTree sha256) trees
      → Defined (get_merkle_leaf_index_command sha256 varint trees request)
  unfolding get_merkle_leaf_index_command
  get_merkle_leaf_index-Defined trees request all = elim (Bool-cases (ltb (length request) 64)) [
    | inl short ↦ rw short (_, refl)
    | inr long ↦
        let (found, e, _) = find_tree_total sha256 (take 32 request) trees all in
        rw (long, e) (by_tree found)
  ]
    where
      by_tree :
          (found : Option MerkleTree)
          → Defined (elim found [
            | none ↦ some (err InterpreterError.unknown_hash)
            | some tree ↦ some (
                get_merkle_leaf_index_answer
                  (get_leaf_index tree (take 32 (drop 32 request)))
                  serialize)
          ])
      by_tree none = (_, refl)
      by_tree (some tree) = (_, refl)

  -- The state after a command, valid as before.
  abbrev pub Keeps : Step sha256 varint → Type 0
  Keeps step =
      (s : Interpreter) × (r : Result InterpreterError Bytes) × (step ≡ some (s, r))
      × IsValid sha256 s

  with_queue-Keeps :
      (s : Interpreter) (reply : Reply)
      → IsValid sha256 s
      → Defined reply
      → Keeps (with_queue sha256 varint s reply)
  with_queue-Keeps s reply valid ((r, queue), e) = (
    record s { queue = queue },
    r,
    rw e,
    record { preimages = valid.preimages; trees = valid.trees },
  )

  -- On a valid state every command of the device, well formed or not, is answered without a panic,
  -- and leaves a valid state.
  pub execute-IsValid :
      (s : Interpreter) (command : Bytes)
      → IsValid sha256 s
      → Keeps (execute sha256 varint s command)
  unfolding execute dispatch
  execute-IsValid s [] valid = (s, err InterpreterError.empty_input, refl, valid)
  execute-IsValid s (code ∷ args) valid = by_code (client_try_from code)
    where
      by_code : (c : Option ClientCommandCode) → Keeps (dispatch sha256 varint s code c args)
      by_code none = (s, err (InterpreterError.unknown_command code), refl, valid)
      by_code (some yield) = (
        record s { yielded = s.yielded ++ args ∷ [] },
        ok [],
        refl,
        record { preimages = valid.preimages; trees = valid.trees },
      )
      by_code (some get_preimage) =
          with_queue-Keeps s _ valid (get_preimage-Defined s.queue s.known_preimages args)
      by_code (some get_merkle_leaf_proof) =
          with_queue-Keeps s _ valid
            (get_merkle_leaf_proof-Defined s.queue s.trees args valid.trees)
      by_code (some get_merkle_leaf_index) =
          let (r, e) = get_merkle_leaf_index-Defined s.trees args valid.trees in (s, r, rw e, valid)
      by_code (some get_more_elements) =
          with_queue-Keeps s _ valid (get_more_elements-Defined s.queue)

-- ===== src/Ledger/Interpreter.antt =====
-- lwk_ledger/src/interpreter.rs: the answers to the device's client commands. A panic is `none`.
-- `sha256` and the compact-size integers are the bitcoin crates'; what the code relies on of the
-- latter is `VarInt`.
pub mod Sorting
pub mod Valid
pub mod Execute
pub mod Stream
pub mod Preimage
pub mod Lists
use satsails_lwk.Common.{
  ℕ, zero, suc, ◌+◌, ◌-◌, ◌%◌, ◌^◌, ◌≤◌, ◌<◌, ◌≡◌, Bool, true, false, ◌||◌, not, Option, none, some,
  List, [], ◌∷◌, ◌++◌, map, length, is_empty, take, drop, get_elem?, find, any, if◌then◌else◌, ltb,
  leb, ◌==◌, nat_eq, list_eq, Result, ok, err, and_then,
}
use satsails_lwk.Ledger.Merkle.{
  Bytes, MerkleTree, size, root_hash, get_leaf, get_leaf_index, get_leaf_proof, new,
}
use satsails_lwk.Ledger.Apdu.{
  client_code, client_try_from, yield, get_preimage, get_merkle_leaf_proof, get_merkle_leaf_index,
  get_more_elements, ClientCommandCode,
}
use satsails_lwk.Ledger.Interpreter.Sorting.{sort_by_key}

-- `consensus::encode` at `VarInt`: `serialize`, `deserialize_partial` with the bytes read, and
-- `deserialize`, which wants all bytes to be read.
pub record VarInt : Type 0 where
  pub serialize : ℕ → Bytes
  pub deserialize_partial : Bytes → Option (ℕ × ℕ)
  pub deserialize : Bytes → Option ℕ
  pub partial-serialize :
      (n : ℕ) (rest : Bytes)
      → n < 2 ^ 64
      → deserialize_partial (serialize n ++ rest) ≡ some (n, length (serialize n))
  pub deserialize-serialize : (n : ℕ) → n < 2 ^ 64 → deserialize (serialize n) ≡ some n
  pub serialize_pos : (n : ℕ) → 1 ≤ length (serialize n)
  pub serialize_length : (n : ℕ) → length (serialize n) ≤ 9
  pub read_length :
      (b : Bytes) (n read : ℕ) → deserialize_partial b ≡ some (n, read) → read ≤ length b

pub data InterpreterError : Type 0 where
  empty_input invalid_index_or_size unknown_hash unexpected_queue : InterpreterError
  unknown_merkle_root : InterpreterError
  unknown_command unsupported_request : ℕ → InterpreterError

pub record Interpreter : Type 0 where
  pub yielded : List Bytes
  pub queue : List Bytes
  pub known_preimages : List (Bytes × Bytes)
  pub trees : List MerkleTree

abbrev pub new_interpreter : Interpreter
new_interpreter = record { yielded = []; queue = []; known_preimages = []; trees = [] }

-- What a command leaves: its answer and the queue; `none` is a panic.
abbrev pub Reply : Type 0
Reply = Option (Result InterpreterError Bytes × List Bytes)

-- `trees.iter().find(|tree| tree.root_hash() == root)`
unfoldable pub find_tree : Bytes → List MerkleTree → Option (Option MerkleTree)
find_tree root [] = some none
find_tree root (t ∷ ts) =
    let rest = find_tree root ts in
    and_then (root_hash t) (λ hash. if hash == root then some (some t) else rest)

unfoldable pub find_preimage : Bytes → List (Bytes × Bytes) → Option (Bytes × Bytes)
find_preimage hash known = find (λ entry. entry.0 == hash) known

-- `&request[n..]` panics past the end.
abbrev pub slice_from : ℕ → Bytes → Option Bytes
slice_from n xs = if leb n (length xs) then some (drop n xs) else none

-- The first proof elements go into the answer, the others into the queue.
unfoldable pub split_proof : ℕ → List Bytes → Bytes → ℕ → List Bytes → Bytes × ℕ × List Bytes
split_proof i [] first n queue = (first, n, queue)
split_proof i (p ∷ ps) first n queue =
    split_proof (i + 1) ps (if ltb i 6 then first ++ p else first) (if ltb i 6 then n + 1 else n)
      (if ltb i 6 then queue else queue ++ p ∷ [])

unfoldable pub more_loop : ℕ → List Bytes → Bytes → ℕ → Bytes × ℕ
more_loop element_length [] response n = (response, n)
more_loop element_length (e ∷ es) response n =
    more_loop element_length es
      (if leb (length response + element_length) 253 then response ++ e else response)
      (if leb (length response + element_length) 253 then n + 1 else n)

unfoldable pub get_more_elements_command : List Bytes → Reply
get_more_elements_command [] = some (err unexpected_queue, [])
get_more_elements_command (q ∷ qs) =
    let element_length = length q in
    if any (λ e. not (length e == element_length)) (q ∷ qs)
    then some (err unexpected_queue, q ∷ qs)
    else (let (elements, n) = more_loop element_length (q ∷ qs) [] 0 in
        some (ok ((n % 2 ^ 8) ∷ (element_length % 2 ^ 8) ∷ elements), drop n (q ∷ qs)))

unfoldable pub get_merkle_leaf_index_answer : Option ℕ → (ℕ → Bytes) → Result InterpreterError Bytes
get_merkle_leaf_index_answer none serialize = err unknown_hash
get_merkle_leaf_index_answer (some i) serialize = ok (1 ∷ serialize i)

module _ (sha256 : Bytes → Bytes) (varint : VarInt) where
  open varint use {serialize, deserialize_partial, deserialize}

  unfoldable pub add_known_preimage : Interpreter → Bytes → Interpreter
  add_known_preimage s element = record s {
    known_preimages = s.known_preimages ++ (sha256 element, element) ∷ [];
  }

  -- The hash of a list element, and its preimage.
  abbrev pub leaf_entry : Bytes → Bytes × Bytes
  leaf_entry element = (sha256 (0x00 ∷ element), 0x00 ∷ element)

  unfoldable pub add_known_list : Interpreter → List Bytes → Option (Interpreter × Bytes)
  add_known_list s elements = and_then (new sha256 (map (λ e. (leaf_entry e).0) elements)) λ tree.
      and_then (root_hash tree) λ root. some (
        record s {
          known_preimages = s.known_preimages ++ map leaf_entry elements;
          trees = s.trees ++ tree ∷ [];
        },
        root,
      )

  unfoldable pub add_known_mapping : Interpreter → List (Bytes × Bytes) → Option Interpreter
  add_known_mapping s mapping =
      let sorted = sort_by_key mapping in
      and_then (add_known_list s (map (λ kv. kv.0) sorted))
        λ (s', _). and_then (add_known_list s' (map (λ kv. kv.1) sorted)) λ (s'', _). some s''

  unfoldable pub get_merkleized_map_commitment : List (Bytes × Bytes) → Option Bytes
  get_merkleized_map_commitment mapping =
      let sorted = sort_by_key mapping in
      and_then (new sha256 (map (λ kv. (leaf_entry kv.0).0) sorted)) λ keys.
        and_then (root_hash keys) λ keys_root.
          and_then (new sha256 (map (λ kv. (leaf_entry kv.1).0) sorted)) λ values.
            and_then (root_hash values)
              λ values_root. some (serialize (length sorted) ++ keys_root ++ values_root)

  -- The part of a preimage that fits one answer, and the answer.
  unfoldable pub preimage_answer : List Bytes → Bytes → Reply
  preimage_answer queue preimage =
      let preimage_len_out = serialize (length preimage) in
      let max_payload_size = 255 - length preimage_len_out - 1 in
      let payload_size =
        if ltb max_payload_size (length preimage) then max_payload_size else length preimage in
      some (
        ok (preimage_len_out ++ (payload_size % 2 ^ 8) ∷ take payload_size preimage),
        if ltb payload_size (length preimage)
            then queue ++ map (λ byte. byte ∷ []) (drop payload_size preimage)
            else queue,
      )

  unfoldable pub get_preimage_command : List Bytes → List (Bytes × Bytes) → Bytes → Reply
  get_preimage_command queue known [] = some (err (unsupported_request 0x40), queue)
  get_preimage_command queue known (b ∷ hash) =
      if not (length (b ∷ hash) == 33) || not (b == 0)
      then some (err (unsupported_request 0x40), queue)
      else elim (find_preimage hash known) [
        | none ↦ some (err unknown_hash, queue)
        | some (_, preimage) ↦ preimage_answer queue preimage
      ]

  -- The answer for a leaf, once its proof is known.
  unfoldable pub proof_answer : List Bytes → MerkleTree → ℕ → List Bytes → Reply
  unfolding get_leaf
  proof_answer queue tree index proof = and_then (get_leaf tree index) λ leaf.
      let (first, n, queue') = split_proof 0 proof [] 0 queue in
      some (ok (leaf ++ (length proof % 2 ^ 8) ∷ (n % 2 ^ 8) ∷ first), queue')

  unfoldable pub tree_proof : List Bytes → MerkleTree → ℕ → ℕ → Reply
  unfolding size
  tree_proof queue tree tree_size leaf_index =
      if leb tree_size leaf_index || not (tree_size == size tree)
      then some (err invalid_index_or_size, queue)
      else and_then (get_leaf_proof tree leaf_index) λ found. elim found [
        | none ↦ some (err invalid_index_or_size, queue)
        | some proof ↦ proof_answer queue tree leaf_index proof
      ]

  unfoldable pub proof_request : List Bytes → List MerkleTree → Bytes → ℕ → Option ℕ → Reply
  proof_request queue trees root tree_size none = some (err (unsupported_request 0x41), queue)
  proof_request queue trees root tree_size (some leaf_index) =
      and_then (find_tree root trees) λ found. elim found [
        | none ↦ some (err unknown_hash, queue)
        | some tree ↦ tree_proof queue tree tree_size leaf_index
      ]

  unfoldable pub get_merkle_leaf_proof_command : List Bytes → List MerkleTree → Bytes → Reply
  get_merkle_leaf_proof_command (q ∷ qs) trees request = some (err unexpected_queue, q ∷ qs)
  get_merkle_leaf_proof_command [] trees request =
      if ltb (length request) 34
      then some (err (unsupported_request 0x41), [])
      else elim (deserialize_partial (drop 32 request)) [
        | none ↦ some (err (unsupported_request 0x41), [])
        | some (tree_size, read) ↦
            and_then (slice_from (32 + read) request)
              λ rest. proof_request [] trees (take 32 request) tree_size (deserialize rest)
      ]

  unfoldable pub get_merkle_leaf_index_command :
      List MerkleTree → Bytes → Option (Result InterpreterError Bytes)
  get_merkle_leaf_index_command trees request =
      if ltb (length request) 64
      then some (err (unsupported_request 0x42))
      else and_then (find_tree (take 32 request) trees) λ found. elim found [
        | none ↦ some (err unknown_hash)
        | some tree ↦ some (
            get_merkle_leaf_index_answer (get_leaf_index tree (take 32 (drop 32 request)))
              serialize)
      ]

  abbrev pub Step : Type 0
  Step = Option (Interpreter × Result InterpreterError Bytes)

  abbrev pub with_queue : Interpreter → Reply → Step
  with_queue s reply = and_then reply (λ (r, queue). some (record s { queue = queue }, r))

  unfoldable pub dispatch : Interpreter → ℕ → Option ClientCommandCode → Bytes → Step
  unfolding get_preimage_command get_merkle_leaf_proof_command get_merkle_leaf_index_command
      get_more_elements_command
  dispatch s code (some yield) args = some (record s { yielded = s.yielded ++ args ∷ [] }, ok [])
  dispatch s code (some get_preimage) args =
      with_queue s (get_preimage_command s.queue s.known_preimages args)
  dispatch s code (some get_merkle_leaf_proof) args =
      with_queue s (get_merkle_leaf_proof_command s.queue s.trees args)
  dispatch s code (some get_merkle_leaf_index) args =
      and_then (get_merkle_leaf_index_command s.trees args) (λ r. some (s, r))
  dispatch s code (some get_more_elements) args = with_queue s (get_more_elements_command s.queue)
  dispatch s code none args = some (s, err (unknown_command code))

  unfoldable pub execute : Interpreter → Bytes → Step
  execute s [] = some (s, err empty_input)
  execute s (code ∷ args) = dispatch s code (client_try_from code) args

-- ===== src/Ledger/Interpreter/Lists.antt =====
-- About GET_MERKLE_LEAF_PROOF of interpreter.rs: the answer and the elements that it queues.
use satsails_lwk.Common.{
  ℕ, zero, suc, ◌+◌, ◌*◌, ◌%◌, ◌^◌, ◌≤◌, ◌<◌, ◌≡◌, ◌∙◌, sym, ap, true, false, inl, inr, some, List,
  [], ◌∷◌, ◌++◌, length, length-append, length-take, take, drop, All, All-get_elem?, All-drop, ◌||◌,
  not, concat, concat-append, take-append-drop, subst, drop_add, take-append_length,
  drop-append_length, nat_eq, ◌==◌, arith, ltb, leb, ok, min,
}
use satsails_lwk.Ledger.Merkle.{Bytes, MerkleTree, get_leaf}
use satsails_lwk.Ledger.Merkle.Proof.{Verifies, get_leaf_proof_total}
use satsails_lwk.Ledger.Merkle.Build.{IsBuilt}
use satsails_lwk.Ledger.Merkle.Binding.{IsHash}
use satsails_lwk.Ledger.Merkle.Sizes.{length-Verifies, get_proof-IsHash}
use satsails_lwk.Ledger.Interpreter.{
  VarInt, Reply, find_tree, proof_answer, tree_proof, proof_request, get_merkle_leaf_proof_command,
}
use satsails_lwk.Ledger.Interpreter.Stream.{Uniform, split_proof_lem, collect, collect-Uniform}

concat-length : (l : ℕ) (xs : List Bytes) → Uniform l xs → length (concat xs) ≡ length xs * l
concat-length l [] all = omega arith
concat-length l (x ∷ xs) (e, all) =
    omega (arith, length-append {0} x (concat xs), concat-length l xs all)

take-Uniform : (l n : ℕ) (xs : List Bytes) → Uniform l xs → Uniform l (take n xs)
take-Uniform l zero xs all = tt
take-Uniform l (suc n) [] all = tt
take-Uniform l (suc n) (x ∷ xs) (e, all) = (e, take-Uniform l n xs all)

module _ (sha256 : Bytes → Bytes) (digest : (m : Bytes) → length (sha256 m) ≡ 32)
    (varint : VarInt) where
  -- An answer of at most 255 bytes: a leaf hash, the number of hashes in its proof and in the answer,
  -- and these; what GET_MORE_ELEMENTS then delivers is the rest of a proof that the verifier accepts.
  pub record Proves (tree_size index : ℕ) (root : Bytes) (reply : Reply) : Type 0 where
    pub leaf : Bytes
    pub proof : List Bytes
    pub sent : ℕ
    pub first : Bytes
    pub rest : Bytes
    pub queue : List Bytes
    pub answered : reply ≡ some (ok (leaf ++ length proof ∷ sent ∷ first), queue)
    pub fits : length (leaf ++ length proof ∷ sent ∷ first) ≤ 255
    pub collected : collect (length queue) queue ≡ some rest
    pub whole : first ++ rest ≡ concat proof
    pub verifies : Verifies sha256 tree_size index leaf proof root

  proof_answer-Proves :
      (tree : MerkleTree) (index : ℕ) (leaf root : Bytes) (proof : List Bytes)
      → get_leaf tree index ≡ some leaf
      → IsHash leaf
      → All IsHash proof
      → length proof ≤ 64
      → Verifies sha256 (length tree.leaves) index leaf proof root
      → Proves (length tree.leaves) index root (proof_answer sha256 varint [] tree index proof)
  unfolding proof_answer
  proof_answer-Proves tree index leaf root proof el hl hp few verifies =
      let n = 0 + min 6 (length proof) in
      let split = split_proof_lem 6 0 proof [] 0 [] (omega arith) in
      let bytes : length proof % 2 ^ 8 ≡ length proof = omega arith in
      let byte : n % 2 ^ 8 ≡ n = omega arith in
      let inside : length (take 6 proof) ≡ min 6 (length proof) = length-take 6 proof in
      let uniform = All-drop IsHash 6 proof hp in
      record {
        leaf = leaf;
        proof = proof;
        sent = n;
        first = concat (take 6 proof);
        rest = concat (drop 6 proof);
        queue = drop 6 proof;
        answered = rw (el, split, bytes, byte);
        fits = omega (
          arith,
          length-append {0} leaf (length proof ∷ n ∷ concat (take 6 proof)),
          concat-length 32 (take 6 proof) (take-Uniform 32 6 proof hp),
        );
        collected =
            collect-Uniform (length (drop 6 proof)) 32 (drop 6 proof) (omega arith) (omega arith)
              uniform (omega arith);
        whole =
            sym (concat-append (take 6 proof) (drop 6 proof))
            ∙ ap concat (take-append-drop 6 proof);
        verifies = verifies;
      }

  tree_proof-Proves :
      (tree : MerkleTree) (index : ℕ) (root : Bytes)
      → IsBuilt sha256 tree.leaves 0 (length tree.leaves) tree.root root
      → All IsHash tree.leaves
      → length tree.leaves < 2 ^ 64
      → index < length tree.leaves
      → Proves
          (length tree.leaves)
          index
          root
          (tree_proof sha256 varint [] tree (length tree.leaves) index)
  unfolding tree_proof get_leaf
  tree_proof-Proves tree index root built hashes bound lt =
      let n = length tree.leaves in
      let inside : (leb n index || not (n == n)) ≡ false = ground arith in
      elim (get_leaf_proof_total sha256 tree root index built) [
        | inl (e, out) ↦ absurd (omega arith)
        | inr (_, (p, x, e, ex, ep, w)) ↦
            rw (inside, e)
              (proof_answer-Proves tree index x root p ex
                (All-get_elem? IsHash tree.leaves index x hashes ex)
                (get_proof-IsHash sha256 digest index p hashes built ep)
                (length-Verifies sha256 64 w (omega arith)) w)
      ]

  open varint use {
    serialize, deserialize_partial, deserialize, partial-serialize, deserialize-serialize,
    serialize_pos,
  }

  -- The command, on a request that is taken apart.
  request-eq :
      (trees : List MerkleTree) (tree : MerkleTree) (request root tail rest : Bytes)
      (tree_size read index : ℕ)
      → ltb (length request) 34 ≡ false
      → drop 32 request ≡ tail
      → deserialize_partial tail ≡ some (tree_size, read)
      → leb (32 + read) (length request) ≡ true
      → take 32 request ≡ root
      → drop (32 + read) request ≡ rest
      → deserialize rest ≡ some index
      → find_tree root trees ≡ some (some tree)
      → get_merkle_leaf_proof_command sha256 varint [] trees request
        ≡ tree_proof sha256 varint [] tree tree_size index
  unfolding get_merkle_leaf_proof_command proof_request
  request-eq trees tree request root tail rest tree_size read index long behind partial within ahead
        after whole found =
      rw (long, behind, partial, within, ahead, after, whole, found)

  -- The device's request for the leaf at `index` of a list of `size` elements with a known root.
  abbrev pub proof_request_of : Bytes → ℕ → ℕ → Bytes
  proof_request_of root tree_size index = root ++ (serialize tree_size ++ serialize index)

  -- With nothing queued, a request for an index in range of a known tree over hashes is answered by
  -- the leaf and the start of its proof, in at most 255 bytes; with what GET_MORE_ELEMENTS then
  -- delivers the proof is whole, and the verifier accepts it for the root.
  pub get_merkle_leaf_proof-Proves :
      (trees : List MerkleTree) (tree : MerkleTree) (index : ℕ) (root : Bytes)
      → length root ≡ 32
      → find_tree root trees ≡ some (some tree)
      → IsBuilt sha256 tree.leaves 0 (length tree.leaves) tree.root root
      → All IsHash tree.leaves
      → length tree.leaves < 2 ^ 64
      → index < length tree.leaves
      → Proves (length tree.leaves) index root (
          get_merkle_leaf_proof_command sha256 varint [] trees
            (proof_request_of root (length tree.leaves) index))
  get_merkle_leaf_proof-Proves trees tree index root hr found built hashes bound lt =
      let n = length tree.leaves in
      let tail : Bytes = serialize n ++ serialize index in
      let behind : drop 32 (root ++ tail) ≡ tail =
        subst (λ z. drop z (root ++ tail) ≡ tail) hr (drop-append_length root tail) in
      let ahead : take 32 (root ++ tail) ≡ root =
        subst (λ z. take z (root ++ tail) ≡ root) hr (take-append_length root tail) in
      let rest : drop (32 + length (serialize n)) (root ++ tail) ≡ serialize index =
        drop_add 32 (length (serialize n)) (root ++ tail)
        ∙ ap (drop (length (serialize n))) behind
        ∙ drop-append_length (serialize n) (serialize index) in
      let lengths : length (root ++ tail) ≡ 32 + length (serialize n) + length (serialize index) =
        omega
          (arith, length-append {0} root tail, length-append {0} (serialize n) (serialize index)) in
      let long : ltb (length (root ++ tail)) 34 ≡ false =
        ground (arith, serialize_pos n, serialize_pos index) in
      let within : leb (32 + length (serialize n)) (length (root ++ tail)) ≡ true = ground arith in
      subst (Proves n index root)
        (sym (
          request-eq trees tree (root ++ tail) root tail (serialize index) n (length (serialize n))
            index long behind (partial-serialize n (serialize index) bound) within ahead rest
            (deserialize-serialize index (omega arith)) found))
        (tree_proof-Proves tree index root built hashes bound lt)

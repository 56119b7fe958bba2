-- ===== src/Ledger/Interpreter/Valid.antt =====
-- What the interpreter keeps: every known preimage has its hash, every tree is a Merkle tree.
use satsails_lwk.Common.{
  ◌≤◌, ◌≡◌, ◌∙◌, refl, sym, ap, inl, inr, Option, none, some, List, [], ◌∷◌, ◌++◌, map, length,
  length-map, ◌==◌, list_eq, nat_eq, ==_sound, All, All-append, All-find, find_sound, arith,
  Bool-cases,
}
use satsails_lwk.Ledger.Merkle.{Bytes, MerkleTree, root_hash}
use satsails_lwk.Ledger.Merkle.Build.{IsBuilt, value-IsBuilt, new-IsBuilt}
use satsails_lwk.Ledger.Interpreter.{
  Interpreter, VarInt, find_tree, find_preimage, new_interpreter, add_known_preimage,
  add_known_list, leaf_entry,
}

module _ (sha256 : Bytes → Bytes) where
  abbrev pub IsPreimage : Bytes × Bytes → Type 0
  IsPreimage entry = entry.0 ≡ sha256 entry.1

  abbrev pub IsTree : MerkleTree → Type 0
  IsTree t = (v : Bytes) × IsBuilt sha256 t.leaves 0 (length t.leaves) t.root v

  pub record IsValid (s : Interpreter) : Type 0 where
    pub preimages : All IsPreimage s.known_preimages
    pub trees : All IsTree s.trees

  pub new_interpreter-IsValid : IsValid new_interpreter
  new_interpreter-IsValid = record { preimages = tt; trees = tt }

  -- The tree that is found has the root that was asked for.
  abbrev pub Finds : Bytes → Option MerkleTree → Type 0
  Finds root none = Unit
  Finds root (some t) = IsTree t × (root_hash t ≡ some root)

  pub find_tree_total :
      (root : Bytes) (ts : List MerkleTree)
      → All IsTree ts
      → (found : Option MerkleTree) × (find_tree root ts ≡ some found) × Finds root found
  unfolding find_tree
  find_tree_total root [] all = (none, refl, tt)
  find_tree_total root (t ∷ ts) ((v, built), all) =
      let eh : root_hash t ≡ some v = unfold root_hash in value-IsBuilt sha256 built in
      elim (Bool-cases (v == root)) [
        | inl same ↦ (some t, rw (eh, same), ((v, built), eh ∙ ap some (==_sound v root same)))
        | inr other ↦ let (f, e, h) = find_tree_total root ts all in (f, rw (eh, other) e, h)
      ]

  pub find_preimage_sound :
      (hash : Bytes) (known : List (Bytes × Bytes)) (entry : Bytes × Bytes)
      → All IsPreimage known
      → find_preimage hash known ≡ some entry
      → sha256 entry.1 ≡ hash
  unfolding find_preimage
  find_preimage_sound hash known entry all e =
      sym (All-find IsPreimage (λ x. x.0 == hash) known entry all e)
      ∙ ==_sound entry.0 hash (find_sound (λ x. x.0 == hash) known entry e)

  leaf_entries-IsPreimage :
      (elements : List Bytes) → All IsPreimage (map (λ e. (sha256 (0x00 ∷ e), 0x00 ∷ e)) elements)
  leaf_entries-IsPreimage [] = tt
  leaf_entries-IsPreimage (e ∷ es) = (refl, leaf_entries-IsPreimage es)

  module _ (varint : VarInt) where
    pub add_known_preimage-IsValid :
        (s : Interpreter) (element : Bytes)
        → IsValid s
        → IsValid (add_known_preimage sha256 varint s element)
    unfolding add_known_preimage
    add_known_preimage-IsValid s element h = record {
      preimages =
          All-append IsPreimage s.known_preimages ((sha256 element, element) ∷ []) h.preimages
            (refl, tt);
      trees = h.trees;
    }

    -- A list of one element or more is added without a panic: the state stays valid, keeps the queue
    -- and what was yielded, and the returned root is that of a tree over the elements' leaf hashes.
    pub add_known_list-IsValid :
        (s : Interpreter) (elements : List Bytes)
        → IsValid s
        → 1 ≤ length elements
        → (s' : Interpreter) × (root : Bytes) × (tree : MerkleTree) × (add_known_list sha256 varint
              s elements
            ≡ some (s', root))
          × IsValid s'
          × (s'.queue ≡ s.queue)
          × (s'.trees ≡ s.trees ++ tree ∷ [])
          × (root_hash tree ≡ some root)
          × (tree.leaves ≡ map (λ e. sha256 (0x00 ∷ e)) elements)
    unfolding add_known_list
    add_known_list-IsValid s elements h lo =
        let hashes : List Bytes = map (λ e. sha256 (0x00 ∷ e)) elements in
        let (t, v, e, built) =
          new-IsBuilt sha256 hashes
            (omega (arith, length-map {0, 0} elements (λ e. sha256 (0x00 ∷ e)))) in
        let tree : MerkleTree = record { root = t; leaves = hashes } in
        (
          record s {
            known_preimages = s.known_preimages ++ map (leaf_entry sha256 varint) elements;
            trees = s.trees ++ tree ∷ [];
          },
          v,
          tree,
          (let er : root_hash tree ≡ some v = unfold root_hash in value-IsBuilt sha256 built in
              rw (e, er)),
          record {
            preimages =
                All-append IsPreimage s.known_preimages (map (leaf_entry sha256 varint) elements)
                  h.preimages (leaf_entries-IsPreimage elements);
            trees = All-append IsTree s.trees (tree ∷ []) h.trees ((v, built), tt);
          },
          refl,
          refl,
          (unfold root_hash in value-IsBuilt sha256 built),
          refl,
        )

-- ===== src/Ledger/Interpreter/Preimage.antt =====
-- GET_PREIMAGE, and the GET_MORE_ELEMENTS that follow it.
use satsails_lwk.Common.{
  ℕ, suc, ◌-◌, ◌%◌, ◌^◌, ◌≤◌, ◌≡◌, ◌∙◌, refl, ap, true, false, inl, inr, some, List, [], ◌∷◌, ◌++◌,
  map, length, length-append, length-take, take, drop, drop_all, take-append-drop, concat, nat_eq,
  ◌==◌, arith, Bool-cases, ltb, ok,
}
use satsails_lwk.Ledger.Merkle.{Bytes}
use satsails_lwk.Ledger.Interpreter.{
  VarInt, Reply, find_preimage, preimage_answer, get_preimage_command,
}
use satsails_lwk.Ledger.Interpreter.Stream.{Uniform, collect, collect-Uniform}

abbrev singles : Bytes → List Bytes
singles bytes = map (λ byte. byte ∷ []) bytes

singles-Uniform : (bytes : Bytes) → Uniform 1 (singles bytes)
singles-Uniform [] = tt
singles-Uniform (b ∷ bs) = (refl, singles-Uniform bs)

concat-singles : (bytes : Bytes) → concat (singles bytes) ≡ bytes
concat-singles [] = refl
concat-singles (b ∷ bs) = ap (λ r. b ∷ r) (concat-singles bs)

module _ (sha256 : Bytes → Bytes) (varint : VarInt) where
  open varint use {serialize, serialize_length}

  -- An answer of at most 255 bytes: the length of the preimage, the number of bytes sent at once,
  -- and these bytes; what GET_MORE_ELEMENTS then delivers is the rest of the preimage.
  pub record Delivers (preimage : Bytes) (reply : Reply) : Type 0 where
    pub payload : Bytes
    pub rest : Bytes
    pub queue : List Bytes
    pub answered :
        reply ≡ some (ok (serialize (length preimage) ++ length payload ∷ payload), queue)
    pub fits : length (serialize (length preimage) ++ length payload ∷ payload) ≤ 255
    pub collected : collect (length queue) queue ≡ some rest
    pub whole : payload ++ rest ≡ preimage

  -- An answer that sends `m` bytes at once.
  sends-Delivers :
      (preimage : Bytes) (m : ℕ) (queue : List Bytes)
      → m ≤ 254 - length (serialize (length preimage))
      → m ≤ length preimage
      → queue ≡ singles (drop m preimage)
      → Delivers preimage
          (some (ok (serialize (length preimage) ++ (m % 2 ^ 8) ∷ take m preimage), queue))
  sends-Delivers preimage m queue fit le eq =
      let header = serialize (length preimage) in
      let short : length header ≤ 9 = serialize_length (length preimage) in
      let sent : length (take m preimage) ≡ m = omega (arith, length-take {0} m preimage) in
      let byte : m % 2 ^ 8 ≡ length (take m preimage) = omega arith in
      record {
        payload = take m preimage;
        rest = drop m preimage;
        queue = queue;
        answered = rw byte;
        fits = omega (arith, length-append {0} header (length (take m preimage) ∷ take m preimage));
        collected = rw eq (
            collect-Uniform (length (singles (drop m preimage))) 1 (singles (drop m preimage))
              (omega arith) (omega arith) (singles-Uniform (drop m preimage)) (omega arith)
            ∙ ap some (concat-singles (drop m preimage)));
        whole = take-append-drop m preimage;
      }

  preimage_answer-Delivers :
      (preimage : Bytes) → Delivers preimage (preimage_answer sha256 varint [] preimage)
  unfolding preimage_answer
  preimage_answer-Delivers preimage =
      let n = length preimage in
      let m = 255 - length (serialize n) - 1 in
      elim (Bool-cases (ltb m n)) [
        | inl long ↦
            rw (long, long)
              (sends-Delivers preimage m (singles (drop m preimage)) (omega arith) (ground arith)
                refl)
        | inr short ↦
            let end : ltb n n ≡ false = ground arith in
            rw (short, end)
              (sends-Delivers preimage n [] (ground arith) (omega arith)
                (rw (drop_all n preimage (omega arith))))
      ]

  -- With nothing queued, a known preimage is delivered whole: the answer and the elements that
  -- GET_MORE_ELEMENTS then returns make up the preimage, and each answer has at most 255 bytes.
  pub get_preimage-Delivers :
      (known : List (Bytes × Bytes)) (hash : Bytes) (entry : Bytes × Bytes)
      → length hash ≡ 32
      → find_preimage hash known ≡ some entry
      → Delivers entry.1 (get_preimage_command sha256 varint [] known (0 ∷ hash))
  unfolding get_preimage_command
  get_preimage-Delivers known hash entry h e =
      let size : (suc (length hash) == 33) ≡ true = ground arith in
      rw (size, e) (preimage_answer-Delivers entry.1)

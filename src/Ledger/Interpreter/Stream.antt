-- ===== src/Ledger/Interpreter/Stream.antt =====
-- About GET_MORE_ELEMENTS of interpreter.rs, which delivers what did not fit an answer.
use satsails_lwk.Common.{
  ℕ, zero, suc, ◌+◌, ◌*◌, ◌/◌, ◌%◌, ◌^◌, ◌≤◌, ◌<◌, min, ◌≡◌, ◌∙◌, refl, sym, ap, true, false, not,
  Option, none, some, List, [], ◌∷◌, ◌++◌, length, append-nil, append_assoc, ◌==◌, nat_eq, All,
  All-drop, arith, and_then, concat, concat-append, subst, take, drop, any, ltb, leb, ok,
  length-append, take-append-drop, take_nil, length-drop,
}
use satsails_lwk.Ledger.Merkle.{Bytes}
use satsails_lwk.Ledger.Interpreter.{split_proof, more_loop, get_more_elements_command, Reply}

split_proof_full :
    (i : ℕ) (ps : List Bytes) (first : Bytes) (n : ℕ) (queue : List Bytes)
    → 6 ≤ i
    → split_proof i ps first n queue ≡ (first, n, queue ++ ps)
unfolding split_proof
split_proof_full i [] first n queue h = rw append-nil
split_proof_full i (p ∷ ps) first n queue h =
    let test : ltb i 6 ≡ false = ground arith in
    rw (test, split_proof_full (i + 1) ps first n (queue ++ p ∷ []) (omega arith), append_assoc)

-- `split_proof` takes up to six hashes for the answer, and queues the others in order.
pub split_proof_lem :
    (room i : ℕ) (ps : List Bytes) (first : Bytes) (n : ℕ) (queue : List Bytes)
    → i + room ≡ 6
    → split_proof i ps first n queue
      ≡ (first ++ concat (take room ps), n + min room (length ps), queue ++ drop room ps)
unfolding split_proof
split_proof_lem zero i ps first n queue e =
    let count : n + min zero (length ps) ≡ n = omega arith in
    rw (count, append-nil first) (split_proof_full i ps first n queue (omega arith))
split_proof_lem (suc room) i [] first n queue e =
    let count : n + min (suc room) 0 ≡ n = omega arith in
    rw (split_proof, append-nil first, append-nil queue, count)
split_proof_lem (suc room) i (p ∷ ps) first n queue e =
    let test : ltb i 6 ≡ true = ground arith in
    let count : n + 1 + min room (length ps) ≡ n + min (suc room) (suc (length ps)) = omega arith in
    rw (test, split_proof, split_proof_lem room (i + 1) ps (first ++ p) (n + 1) queue (omega arith))
      (λ j. (append_assoc first p (concat (take room ps)) j, count j, queue ++ drop room ps))

-- `more_loop` takes the elements while there is room for `room` of them.
more_loop_lem :
    (l : ℕ) (es : List Bytes) (response : Bytes) (n room : ℕ)
    → All (λ e. length e ≡ l) es
    → length response + room * l ≤ 253
    → 253 < length response + room * l + l
    → more_loop l es response n ≡ (response ++ concat (take room es), n + min room (length es))
unfolding more_loop
more_loop_lem l [] response n room all lo hi =
    let count : n + min room 0 ≡ n = omega arith in rw (take_nil room, append-nil, count)
more_loop_lem l (e ∷ es) response n zero all lo hi =
    let test : leb (length response + l) 253 ≡ false = ground arith in
    let count : n + min 0 (suc (length es)) ≡ n + min 0 (length es) = omega arith in
    rw (test, count) (more_loop_lem l es response n zero all.1 lo hi)
more_loop_lem l (e ∷ es) response n (suc room) all lo hi =
    let e_length : length e ≡ l = all.0 in
    let product : suc room * l ≡ room * l + l = omega arith in
    let test : leb (length response + l) 253 ≡ true = ground arith in
    let grown : length (response ++ e) ≡ length response + l =
      omega (arith, length-append {0} response e) in
    let count : n + 1 + min room (length es) ≡ n + min (suc room) (suc (length es)) = omega arith in
    rw (test, more_loop_lem l es (response ++ e) (n + 1) room all.1 (omega arith) (omega arith))
      (λ j. (append_assoc response e (concat (take room es)) j, count j))

-- The elements are of one length `l`.
abbrev pub Uniform : ℕ → List Bytes → Type 0
Uniform l queue = All (λ e. length e ≡ l) queue

any-Uniform :
    (l : ℕ) (queue : List Bytes) → Uniform l queue → any (λ e. not (length e == l)) queue ≡ false
any-Uniform l [] all = refl
any-Uniform l (e ∷ es) all = ground (arith, any-Uniform l es all.1)

abbrev answer_of : ℕ → List Bytes → Reply
answer_of l queue = some (
  ok ((min (253 / l) (length queue) % 2 ^ 8) ∷ (l % 2 ^ 8) ∷ concat (take (253 / l) queue)),
  drop (min (253 / l) (length queue)) queue,
)

get_more_elements-length :
    (q : Bytes) (qs : List Bytes)
    → 1 ≤ length q
    → Uniform (length q) qs
    → get_more_elements_command (q ∷ qs) ≡ answer_of (length q) (q ∷ qs)
unfolding get_more_elements_command
get_more_elements-length q qs lo all =
    let l = length q in
    let start : 0 + 253 / l * l ≤ 253 = omega arith in
    let count : 0 + min (253 / l) (suc (length qs)) ≡ min (253 / l) (suc (length qs)) =
      omega arith in
    rw (
      any-Uniform l (q ∷ qs) (refl, all),
      more_loop_lem l (q ∷ qs) [] 0 (253 / l) (refl, all) start (omega arith),
      count,
    )

-- One answer takes as many elements from the front of the queue as 253 bytes hold.
pub get_more_elements_lem :
    (l : ℕ) (q : Bytes) (qs : List Bytes)
    → 1 ≤ l
    → Uniform l (q ∷ qs)
    → get_more_elements_command (q ∷ qs) ≡ answer_of l (q ∷ qs)
get_more_elements_lem l q qs lo all =
    let claim =
      λ (z : ℕ). 1 ≤ z → Uniform z qs → get_more_elements_command (q ∷ qs) ≡ answer_of z (q ∷ qs) in
    subst claim all.0 (get_more_elements-length q qs) lo all.1

-- The device's side: GET_MORE_ELEMENTS until the queue is empty, on fuel. Behind the two length
-- bytes stand the bytes of the elements. `none` is an error, a panic, or the end of the fuel.
pub collect : ℕ → List Bytes → Option Bytes
collect fuel [] = some []
collect zero (q ∷ qs) = none
collect (suc fuel) (q ∷ qs) = elim (get_more_elements_command (q ∷ qs)) [
  | some (ok (n ∷ l ∷ bytes), rest) ↦ and_then (collect fuel rest) (λ more. some (bytes ++ more))
  | _ ↦ none
]

take-min : (n : ℕ) (xs : List Bytes) → take (min n (length xs)) xs ≡ take n xs
take-min zero xs = let e : min zero (length xs) ≡ zero = omega arith in rw e
take-min (suc n) [] = let e : min (suc n) 0 ≡ 0 = omega arith in rw e
take-min (suc n) (x ∷ xs) =
    let e : min (suc n) (suc (length xs)) ≡ suc (min n (length xs)) = omega arith in
    rw e (ap (λ r. x ∷ r) (take-min n xs))

room_pos : (l : ℕ) → 1 ≤ l → l ≤ 253 → 1 ≤ 253 / l
room_pos l lo hi = grind arith

-- A queue of elements of one length, of at least 1 and at most 253 bytes, is delivered whole and in
-- order, in at most as many answers as it has elements.
pub collect-Uniform :
    (fuel l : ℕ) (queue : List Bytes)
    → 1 ≤ l
    → l ≤ 253
    → Uniform l queue
    → length queue ≤ fuel
    → collect fuel queue ≡ some (concat queue)
unfolding collect
collect-Uniform fuel l [] lo hi all enough = refl
collect-Uniform zero l (q ∷ qs) lo hi all enough = absurd (omega arith)
collect-Uniform (suc fuel) l (q ∷ qs) lo hi all enough =
    let n = min (253 / l) (suc (length qs)) in
    let room : 1 ≤ 253 / l = room_pos l lo hi in
    let fewer : length (drop n (q ∷ qs)) ≤ fuel = omega (arith, length-drop {0} n (q ∷ qs)) in
    let rest = collect-Uniform fuel l (drop n (q ∷ qs)) lo hi (All-drop _ n (q ∷ qs) all) fewer in
    let same : take (253 / l) (q ∷ qs) ≡ take n (q ∷ qs) = sym (take-min (253 / l) (q ∷ qs)) in
    rw (get_more_elements_lem l q qs lo all, collect, same, rest)
      (ap some (
        sym (concat-append (take n (q ∷ qs)) (drop n (q ∷ qs)))
        ∙ ap concat (take-append-drop n (q ∷ qs))))

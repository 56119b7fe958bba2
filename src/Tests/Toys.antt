-- ===== src/Tests/Toys.antt =====
-- Stand-ins for the crates that the model takes as parameters: a hash of 32 bytes, and the
-- compact-size integers.
use satsails_lwk.Common.{
  ℕ, zero, suc, ◌+◌, ◌*◌, ◌/◌, ◌%◌, ◌^◌, ◌≤◌, ◌<◌, ◌≡◌, refl, ap, Option, none, some, [], ◌∷◌, ◌++◌,
  length, ltb, ◌==◌, nat_eq, arith, append-nil, subst, if◌then◌else◌, Bool-cases, inl, inr,
  and_then, true,
}
use satsails_lwk.Ledger.Merkle.{Bytes}
use satsails_lwk.Ledger.Interpreter.{VarInt}

abbrev pub sum : Bytes → ℕ
sum [] = 7
sum (x ∷ xs) = x * 5 + sum xs * 3

abbrev repeat : ℕ → ℕ → Bytes
repeat zero b = []
repeat (suc n) b = b ∷ repeat n b

length-repeat : (n b : ℕ) → length (repeat n b) ≡ n
length-repeat zero b = refl
length-repeat (suc n) b = ap suc (length-repeat n b)

abbrev pub toy_sha : Bytes → Bytes
toy_sha m = repeat 32 (sum m % 256)

pub toy_digest : (m : Bytes) → length (toy_sha m) ≡ 32
toy_digest m = length-repeat 32 (sum m % 256)

-- The compact-size integers below 2 ^ 16 as bitcoin writes them; the others behind eight bytes.
abbrev toy_serialize : ℕ → Bytes
toy_serialize n =
    if ltb n 253
    then n ∷ []
    else if ltb n 65536
    then 253 ∷ (n % 256) ∷ (n / 256) ∷ []
    else 255
      ∷ (n % 256)
      ∷ (n / 256 % 256)
      ∷ (n / 65536 % 256)
      ∷ (n / 16777216 % 256)
      ∷ (n / 4294967296 % 256)
      ∷ (n / 1099511627776 % 256)
      ∷ (n / 281474976710656 % 256)
      ∷ (n / 72057594037927936 % 256)
      ∷ []

abbrev read_nine : Bytes → Option (ℕ × ℕ)
read_nine (a ∷ b ∷ c ∷ d ∷ e ∷ f ∷ g ∷ h ∷ rest) =
    some (a + 256 * (b + 256 * (c + 256 * (d + 256 * (e + 256 * (f + 256 * (g + 256 * h)))))), 9)
read_nine _ = none

abbrev read_three : Bytes → Option (ℕ × ℕ)
read_three (a ∷ b ∷ rest) = some (a + 256 * b, 3)
read_three _ = none

abbrev toy_partial : Bytes → Option (ℕ × ℕ)
toy_partial [] = none
toy_partial (x ∷ rest) =
    if ltb x 253 then some (x, 1) else if x == 253 then read_three rest else read_nine rest

pub toy_partial-serialize :
    (n : ℕ) (rest : Bytes)
    → n < 2 ^ 64
    → toy_partial (toy_serialize n ++ rest) ≡ some (n, length (toy_serialize n))
toy_partial-serialize n rest h = elim (Bool-cases (ltb n 253)) [
  | inl small ↦ rw (small, small)
  | inr more ↦ elim (Bool-cases (ltb n 65536)) [
    | inl medium ↦ let e : n % 256 + 256 * (n / 256) ≡ n = omega arith in rw (more, medium, e)
    | inr large ↦ rw (more, large) (ap (λ (z : ℕ). some (z, 9)) (omega arith))
  ]
]

abbrev toy_whole : Bytes → Option (ℕ × ℕ) → Option ℕ
toy_whole b o = and_then o (λ (n, read). if read == length b then some n else none)

toy_whole-some :
    (b : Bytes) (n : ℕ) (o : Option (ℕ × ℕ)) → o ≡ some (n, length b) → toy_whole b o ≡ some n
toy_whole-some b n o e = let same : (length b == length b) ≡ true = ground arith in rw (e, same)

pub toy_serialize-length : (n : ℕ) → (1 ≤ length (toy_serialize n)) × (length (toy_serialize n) ≤ 9)
toy_serialize-length n = ground arith

read_nine-length :
    (b : Bytes) (n read : ℕ) → read_nine b ≡ some (n, read) → (read ≡ 9) × (8 ≤ length b)
read_nine-length (a ∷ b ∷ c ∷ d ∷ e ∷ f ∷ g ∷ h ∷ rest) n read eq = ground arith
read_nine-length _ n read eq = cc

read_three-length :
    (b : Bytes) (n read : ℕ) → read_three b ≡ some (n, read) → (read ≡ 3) × (2 ≤ length b)
read_three-length (a ∷ b ∷ rest) n read eq = ground arith
read_three-length _ n read eq = cc

pub toy_read_length : (b : Bytes) (n read : ℕ) → toy_partial b ≡ some (n, read) → read ≤ length b
toy_read_length [] n read e = cc
toy_read_length (x ∷ rest) n read e = elim (Bool-cases (ltb x 253)) [
  | inl small ↦
      let same : ◌≡◌ {A = Option (ℕ × ℕ)} (some (x, 1)) (some (n, read)) = rw small at e in
      ground arith
  | inr more ↦ elim (Bool-cases (x == 253)) [
    | inl medium ↦
        let same : read_three rest ≡ some (n, read) = rw (more, medium) at e in
        omega (arith, read_three-length rest n read same)
    | inr large ↦
        let same : read_nine rest ≡ some (n, read) = rw (more, large) at e in
        omega (arith, read_nine-length rest n read same)
  ]
]

pub toy_deserialize-serialize :
    (n : ℕ) → n < 2 ^ 64 → toy_whole (toy_serialize n) (toy_partial (toy_serialize n)) ≡ some n
toy_deserialize-serialize n h =
    let e : toy_partial (toy_serialize n) ≡ some (n, length (toy_serialize n)) =
      subst (λ z. toy_partial z ≡ some (n, length (toy_serialize n))) (append-nil (toy_serialize n))
        (toy_partial-serialize n [] h) in
    toy_whole-some (toy_serialize n) n (toy_partial (toy_serialize n)) e

abbrev pub toy_varint : VarInt
toy_varint = record {
  serialize = toy_serialize;
  deserialize_partial = toy_partial;
  deserialize = λ b. toy_whole b (toy_partial b);
  partial-serialize = toy_partial-serialize;
  deserialize-serialize = toy_deserialize-serialize;
  serialize_pos = λ n. (toy_serialize-length n).0;
  serialize_length = λ n. (toy_serialize-length n).1;
  read_length = toy_read_length;
}

-- ===== src/Ledger/Merkle/Power.antt =====
-- The powers of two of merkle.rs.
use Prim.Native.Nat.{bit_and}
use native.Mathlib.Nat.{pow-suc, pow-le-pow_right, one-le-pow}
use satsails_lwk.Common.{
  ℕ, zero, suc, ◌+◌, ◌-◌, ◌*◌, ◌/◌, ◌%◌, ◌^◌, ◌≤◌, ◌<◌, ◌≡◌, refl, ap, ◌∙◌, ◌≢◌, ◌⊎◌, inl, inr,
  true, false, some, ltb, leb, ◌==◌, arith, Bool-cases, nat_eq,
}
use satsails_lwk.Common.Bits.{bit_and-pred_odd, bit_and-pred_even}
use satsails_lwk.Ledger.Merkle.{
  floor_lg_loop, floor_lg, pow2_loop, pow2, is_power_of_2, largest_power_of_2_less_than,
}

pub two_pow_pos : (k : ℕ) → 0 < 2 ^ k
two_pow_pos k = one-le-pow k 2 (omega arith)

pow2_loop-eq : (n p : ℕ) → pow2_loop n p ≡ p * 2 ^ n
unfolding pow2_loop
pow2_loop-eq zero p = omega arith
pow2_loop-eq (suc n) p = omega (arith, pow2_loop-eq n (p * 2), ap (λ (t : ℕ). p * t) (pow-suc 2 n))

pub pow2-eq : (n : ℕ) → pow2 n ≡ 2 ^ n
unfolding pow2
pow2-eq n = omega (arith, pow2_loop-eq n 1)

-- An exponent is determined by bounds on its power.
pub pow-lt_inv : (m j : ℕ) → 2 ^ m < 2 ^ j → m < j
pow-lt_inv m j h = ground (arith, pow-le-pow_right {n = 2} (omega arith) {i = j} {j = m})

pub pow-le_inv : (m j : ℕ) → 2 ^ m ≤ 2 ^ j → m ≤ j
pow-le_inv m j h = ground (arith, pow-suc 2 j, two_pow_pos j, pow-lt_inv m (suc j))

-- `n & (n - 1)` is zero exactly at a power of two.
odd_power : (n m : ℕ) → n ≡ 2 * m + 1 → bit_and n (n - 1) ≡ 0 → (k : ℕ) × (n ≡ 2 ^ k)
odd_power n m e z =
    let same : n - 1 ≡ 2 * m = omega arith in
    (0, omega (arith, bit_and-pred_odd m, ap (λ (t : ℕ). bit_and t (t - 1)) e, pred-odd m))
  where
    pred-odd : (m : ℕ) → bit_and (2 * m + 1) (2 * m + 1 - 1) ≡ bit_and (2 * m + 1) (2 * m)
    pred-odd m = let e : 2 * m + 1 - 1 ≡ 2 * m = omega arith in rw e

even_and : (n m : ℕ) → n ≡ 2 * m → 0 < m → bit_and n (n - 1) ≡ 2 * bit_and m (m - 1)
even_and n m e pos = omega (arith, bit_and-pred_even m pos, ap (λ (t : ℕ). bit_and t (t - 1)) e)

power_of_pred : (fuel n : ℕ) → n ≤ fuel → 0 < n → bit_and n (n - 1) ≡ 0 → (k : ℕ) × (n ≡ 2 ^ k)
power_of_pred zero n h pos z = absurd (omega arith)
power_of_pred (suc fuel) n h pos z = elim (Bool-cases (n % 2 == 0)) [
  | inl even ↦
      let double : n ≡ 2 * (n / 2) = ground arith in
      let (k, e) =
        power_of_pred fuel (n / 2) (omega arith) (omega arith)
          (omega (arith, even_and n (n / 2) double (omega arith))) in
      (suc k, omega (arith, pow-suc 2 k))
  | inr odd ↦ odd_power n (n / 2) (ground arith) z
]

pred_of_power : (k : ℕ) → bit_and (2 ^ k) (2 ^ k - 1) ≡ 0
pred_of_power zero = refl
pred_of_power (suc k) = omega (
  arith,
  even_and (2 ^ suc k) (2 ^ k) (omega (arith, pow-suc 2 k)) (two_pow_pos k),
  pred_of_power k,
)

-- The loop of `floor_lg` ends, and returns the exponent of the largest power that is at most `n`.
floor_lg_loop_lem :
    (fuel n t r : ℕ)
    → n < t + fuel
    → 0 < t
    → t ≤ n
    → t ≡ 2 ^ r
    → (k : ℕ) × (floor_lg_loop fuel n t r ≡ some k) × (2 ^ k ≤ n) × (n < 2 ^ suc k)
unfolding floor_lg_loop
floor_lg_loop_lem zero n t r h pos le e = absurd (omega arith)
floor_lg_loop_lem (suc fuel) n t r h pos le e = elim (Bool-cases (leb (2 * t) n)) [
  | inl more ↦ rw more (
      floor_lg_loop_lem fuel n (t * 2) (r + 1) (omega arith) (omega arith) (ground arith)
        (let s : r + 1 ≡ suc r = omega arith in rw s (omega (arith, pow-suc 2 r))))
  | inr done ↦ (r, (let out = done in rw out refl), omega arith, ground (arith, pow-suc 2 r))
]

pub floor_lg_lem : (n : ℕ) → 0 < n → (k : ℕ) × (floor_lg n ≡ some k) × (2 ^ k ≤ n) × (n < 2 ^ suc k)
unfolding floor_lg
floor_lg_lem n h =
    let test : ltb 0 n ≡ true = ground arith in
    rw test (floor_lg_loop_lem n n 1 0 (omega arith) (omega arith) (omega arith) refl)

largest_at_power :
    (n : ℕ) → 1 < n → bit_and n (n - 1) ≡ 0 → largest_power_of_2_less_than n ≡ some (n / 2)
unfolding largest_power_of_2_less_than
largest_at_power n h z = ground arith

largest_elsewhere :
    (n k : ℕ)
    → 1 < n
    → bit_and n (n - 1) ≢ 0
    → floor_lg n ≡ some k
    → (n ≡ 2) ⊎ (largest_power_of_2_less_than n ≡ some (2 ^ k))
unfolding largest_power_of_2_less_than is_power_of_2
largest_elsewhere n k h other lg = elim (Bool-cases (n == 2)) [
  | inl two ↦ inl (ground arith)
  | inr more ↦ inr (unfold_from more)
]
  where
    unfold_from : (n == 2) ≡ false → largest_power_of_2_less_than n ≡ some (2 ^ k)
    unfold_from more =
        let a : ltb 1 n ≡ true = ground arith in
        let b : leb 1 n ≡ true = ground arith in
        let c : (bit_and n (n - 1) == 0) ≡ false = ground arith in rw (more, a, b, c, lg)

-- For `n` of at least 2 the function returns, without a failed assertion, a power of two that is
-- below `n` and at least half of it.
pub largest_power_of_2_less_than_lem :
    (n : ℕ)
    → 1 < n
    → (k : ℕ) × (largest_power_of_2_less_than n ≡ some (2 ^ k)) × (2 ^ k < n) × (n ≤ 2 * 2 ^ k)
largest_power_of_2_less_than_lem n h = elim (Bool-cases (bit_and n (n - 1) == 0)) [
  | inl exact ↦ exact_case (power_of_pred n n (omega arith) (omega arith) (ground arith)) exact
  | inr other ↦ other_case (floor_lg_lem n (omega arith)) other
]
  where
    Answer : Type 0
    Answer =
        (k : ℕ) × (largest_power_of_2_less_than n ≡ some (2 ^ k)) × (2 ^ k < n) × (n ≤ 2 * 2 ^ k)

    exact_case : (k : ℕ) × (n ≡ 2 ^ k) → (bit_and n (n - 1) == 0) ≡ true → Answer
    exact_case (zero, e) exact = absurd (omega arith)
    exact_case (suc k, e) exact =
        let double : n ≡ 2 * 2 ^ k = omega (arith, pow-suc 2 k) in
        let half : n / 2 ≡ 2 ^ k = omega arith in
        (
          k,
          largest_at_power n h (ground arith) ∙ ap some half,
          omega (arith, two_pow_pos k),
          omega arith,
        )

    other_case :
        (k : ℕ) × (floor_lg n ≡ some k) × (2 ^ k ≤ n) × (n < 2 ^ suc k)
        → (bit_and n (n - 1) == 0) ≡ false
        → Answer
    other_case (k, lg, le, lt) other =
        let strict : n ≢ 2 ^ k =
          λ e. ground (arith, pred_of_power k, ap (λ (t : ℕ). bit_and t (t - 1)) e) in
        elim (largest_elsewhere n k h (ground arith) lg) [
          | inl two ↦ absurd (ground (arith, ap (λ (t : ℕ). bit_and t (t - 1)) two))
          | inr e ↦ (k, e, omega arith, omega (arith, pow-suc 2 k))
        ]

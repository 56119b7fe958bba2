-- ===== src/Common/Bits.antt =====
-- `&` on numbers, digit by digit, and when `n & (n - 1)` is zero.
use Prim.Native.Nat.{bit_and, digits, bit_and-bitwise}
use satsails_lwk.Common.{
  ℕ, zero, suc, ◌+◌, ◌-◌, ◌*◌, ◌/◌, ◌%◌, ◌≤◌, ◌<◌, min, ◌≡◌, refl, sym, ◌∙◌, ap, arith,
}

zero-digits : (k y : ℕ) → digits (λ _. zero) min k zero y ≡ zero
zero-digits zero y = refl
zero-digits (suc k) y = refl

-- Spare fuel does not matter to the digits of `x & y`.
spare_fuel :
    (x y k f : ℕ) → x ≤ k → k ≤ f → digits (λ _. zero) min f x y ≡ digits (λ _. zero) min k x y
spare_fuel zero y k f le more = zero-digits f y ∙ sym (zero-digits k y)
spare_fuel (suc x) y zero f le more = absurd (omega arith)
spare_fuel (suc x) y (suc k) zero le more = absurd (omega arith)
spare_fuel (suc x) y (suc k) (suc f) le more =
    let rest = spare_fuel (suc x / 2) (y / 2) k f (omega arith) (omega arith) in omega (arith, rest)

-- The lowest digit stands apart from the others.
lowest_digit : (x y : ℕ) → bit_and x y ≡ min (x % 2) (y % 2) + 2 * bit_and (x / 2) (y / 2)
lowest_digit zero y = omega (arith, bit_and-bitwise 0 y, bit_and-bitwise 0 (y / 2))
lowest_digit (suc x) y =
    let half = suc x / 2 in
    let spare = spare_fuel half (y / 2) half x (omega arith) (omega arith) in
    omega (arith, spare, bit_and-bitwise half (y / 2), bit_and-bitwise (suc x) y)

-- The law at numbers that are given by their halves and lowest digits.
bit_and-halves :
    (x y u v r s : ℕ)
    → x ≡ 2 * u + r
    → y ≡ 2 * v + s
    → r < 2
    → s < 2
    → bit_and x y ≡ 2 * bit_and u v + min r s
bit_and-halves x y u v r s ex ey hr hs =
    let high : x / 2 ≡ u = omega arith in
    let low : y / 2 ≡ v = omega arith in
    omega (
      arith,
      lowest_digit x y,
      ap (λ (t : ℕ). bit_and t (y / 2)) high,
      ap (λ (t : ℕ). bit_and u t) low,
    )

bit_and_self : (k x : ℕ) → x ≤ k → bit_and x x ≡ x
bit_and_self k zero le = refl
bit_and_self zero (suc x) le = absurd (omega arith)
bit_and_self (suc k) (suc x) le =
    let rest = bit_and_self k (suc x / 2) (omega arith) in
    omega (arith, lowest_digit (suc x) (suc x), rest)

-- The lowest digit of `n & (n - 1)`: an odd number loses its one, an even one passes the borrow on.
pub bit_and-pred_odd : (m : ℕ) → bit_and (2 * m + 1) (2 * m) ≡ 2 * m
bit_and-pred_odd m = omega (
  arith,
  bit_and-halves (2 * m + 1) (2 * m) m m 1 0 (omega arith) (omega arith) (omega arith)
      (omega arith),
  bit_and_self m m (omega arith),
)

pub bit_and-pred_even : (m : ℕ) → 0 < m → bit_and (2 * m) (2 * m - 1) ≡ 2 * bit_and m (m - 1)
bit_and-pred_even m h = omega (
  arith,
  bit_and-halves (2 * m) (2 * m - 1) m (m - 1) 0 1 (omega arith) (omega arith) (omega arith)
      (omega arith),
)

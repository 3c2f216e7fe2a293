-- ===== src/Prelude/Bits.antt =====
-- Laws of bitwise "and": its digits, its bound by a mask, and masks of ones; and a product of powers
-- of two.
use Prim.Native.Nat.{ℕ, zero, suc, ◌+◌, ◌-◌, ◌*◌, ◌/◌, ◌%◌, ◌^◌, ◌≤◌, min, bit_and, bit_and-bitwise}
use mathlib.Core.Path.{◌≡◌, refl, ◌∙◌}
use native.Mathlib.Omega.{arith}
use cht_bench.Digits.{bitwise_step}
use native.Mathlib.Nat.{div-div-eq-div-mul, div-add-mod, two-pow-succ, one-le-pow, add-mul}

-- The lowest digit of an "and" is the smaller of the lowest digits.
pub bit_and-halves : (a b : ℕ) → bit_and a b ≡ bit_and (a / 2) (b / 2) * 2 + min (a % 2) (b % 2)
bit_and-halves a b =
    let step = bitwise_step (λ y. 0) min a b (λ y. omega arith) in
    bit_and-bitwise a b ∙ step ∙ rw (bit_and-bitwise (a / 2) (b / 2)) refl

bit_and-le_fuel : (n a b : ℕ) → a ≤ n → bit_and a b ≤ b
bit_and-le_fuel n zero b h = omega (arith, bit_and-bitwise 0 b)
bit_and-le_fuel zero (suc a) b h = absurd (omega arith)
bit_and-le_fuel (suc n) (suc a) b h =
    omega (arith, bit_and-halves (suc a) b, bit_and-le_fuel n (suc a / 2) (b / 2) (omega arith))

-- An "and" is at most its mask.
pub bit_and-le : (a b : ℕ) → bit_and a b ≤ b
bit_and-le a b = bit_and-le_fuel a a b (omega arith)

-- The remainder modulo `m + m`, by the lowest digit.
mod-double : (a m : ℕ) → a % (m + m) ≡ a / 2 % m * 2 + a % 2
mod-double a m =
    let twice : 2 * m ≡ m + m = omega arith in
    let halved : m * (a / 2 / m) ≡ m * (a / (m + m)) = rw (div-div-eq-div-mul a 2 m, twice) in
    omega (arith, halved, div-add-mod (a / 2) m, div-add-mod a (m + m), div-add-mod a 2)

-- One step of a mask of ones.
mask_step : (m a : ℕ) → 1 ≤ m → bit_and a (m + m - 1) ≡ bit_and (a / 2) (m - 1) * 2 + a % 2
mask_step m a h =
    let half : (m + m - 1) / 2 ≡ m - 1 = omega arith in
    rw (← half) (omega (arith, bit_and-halves a (m + m - 1)))

-- A mask of `k` ones takes the remainder modulo `2 ^ k`.
pub bit_and_mask : (k a : ℕ) → bit_and a (2 ^ k - 1) ≡ a % 2 ^ k
bit_and_mask zero a = omega (arith, bit_and-le a 0)
bit_and_mask (suc k) a = rw (two-pow-succ k) (
    omega (
      arith,
      one-le-pow k 2 (omega arith),
      mod-double a (2 ^ k),
      mask_step (2 ^ k) a (one-le-pow k 2 (omega arith)),
      bit_and_mask k (a / 2),
    ))

pub pow-times : (j k : ℕ) → 2 ^ j * 2 ^ k ≡ 2 ^ (k + j)
pow-times zero k = let z : k + 0 ≡ k = omega arith in rw z (omega arith)
pow-times (suc j) k =
    let z : k + suc j ≡ suc (k + j) = omega arith in
    rw (z, two-pow-succ (k + j), two-pow-succ j, add-mul (2 ^ j) (2 ^ j) (2 ^ k))
      (omega (arith, pow-times j k))

-- ===== src/Hash/Pow2.antt =====
-- Bounds of `pow2roundup`.
use Prim.Native.Nat.{bit_or-bitwise, max}
use cht_bench.Prelude.{
  ℕ, zero, suc, ◌+◌, ◌-◌, ◌*◌, ◌/◌, ◌%◌, ◌^◌, ◌≤◌, ◌<◌, bit_or, ◌≡◌, refl, ◌∙◌, arith, dec_lt,
}
use native.Mathlib.Nat.{two-pow-succ, div-le_self}
use cht_bench.Digits.{bitwise_step}
use cht_bench.Hash.{smear, smear_all, u32, pow2roundup}

-- The lowest digit of an "or" is the larger of the lowest digits.
pub bit_or-halves : (a b : ℕ) → bit_or a b ≡ bit_or (a / 2) (b / 2) * 2 + max (a % 2) (b % 2)
bit_or-halves a b =
    let step = bitwise_step (λ y. y) max a b (λ y. omega arith) in
    bit_or-bitwise a b ∙ step ∙ rw (bit_or-bitwise (a / 2) (b / 2)) refl

-- An "or" of two numbers below a power of two is below it.
pub bit_or-lt : (k a b : ℕ) → a < 2 ^ k → b < 2 ^ k → bit_or a b < 2 ^ k
bit_or-lt zero a b ha hb =
    let a0 : a ≡ 0 = omega arith in
    let b0 : b ≡ 0 = omega arith in rw (a0, b0) (omega (arith, bit_or-bitwise 0 0))
bit_or-lt (suc k) a b ha hb =
    let twice = two-pow-succ k in
    omega (
      arith,
      twice,
      bit_or-halves a b,
      bit_or-lt k (a / 2) (b / 2) (omega (arith, twice)) (omega (arith, twice)),
    )

-- Smearing keeps a number below a power of two.
smear-lt : (j k x : ℕ) → x < 2 ^ k → smear j x < 2 ^ k
unfolding smear
smear-lt j k x h = bit_or-lt k x (x / 2 ^ j) h (omega (arith, div-le_self x (2 ^ j)))

-- Some power of two lies above `y` and at most at `2 * y`.
pub pow_above : (f y : ℕ) → 0 < y → y ≤ f → (k : ℕ) × (y < 2 ^ k) × (2 ^ k ≤ 2 * y)
pow_above zero y pos le = absurd (omega arith)
pow_above (suc f) y pos le = elim (dec_lt 1 y) [
  | no one ↦ (1, omega arith, omega arith)
  | yes more ↦
      let (k, lo, hi) = pow_above f (y / 2) (omega arith) (omega arith) in
      (suc k, omega (arith, two-pow-succ k), omega (arith, two-pow-succ k))
]

pub smear_all-lt : (k x : ℕ) → x < 2 ^ k → smear_all x < 2 ^ k
unfolding smear_all
smear_all-lt k x h =
    smear-lt 16 k _ (smear-lt 8 k _ (smear-lt 4 k _ (smear-lt 2 k _ (smear-lt 1 k x h))))

smear_all-le : (y : ℕ) → 0 < y → smear_all y + 1 ≤ 2 * y
smear_all-le y pos =
    let (k, lo, hi) = pow_above y y pos (omega arith) in omega (arith, smear_all-lt k y lo)

pub pow2roundup-suc : (y : ℕ) → pow2roundup (suc y) ≡ u32 (smear_all y + 1)
unfolding pow2roundup
pow2roundup-suc y = let e : suc y - 1 ≡ y = omega arith in rw e (ground arith)

-- `pow2roundup x` is at least 1, and at most `2 * x` where `1 < x`.
pub pow2roundup_pos : (x : ℕ) → x < 2 ^ 31 → 0 < pow2roundup x
unfolding pow2roundup
pow2roundup_pos zero small = omega arith
pow2roundup_pos (suc y) small = elim (dec_lt 0 y) [
  | yes pos ↦ rw (pow2roundup-suc y) (omega (arith, smear_all-le y pos))
  | no at_zero ↦ rw (pow2roundup-suc y) (omega (arith, smear_all-lt 0 y (omega arith)))
]

pub pow2roundup-le : (x : ℕ) → x < 2 ^ 31 → 1 < x → pow2roundup x ≤ 2 * x
pow2roundup-le zero small more = absurd (omega arith)
pow2roundup-le (suc y) small more =
    rw (pow2roundup-suc y) (omega (arith, smear_all-le y (omega arith)))

pub pow2roundup_small : (x : ℕ) → x ≤ 1 → pow2roundup x ≡ 1
unfolding pow2roundup
pow2roundup_small zero h = refl
pow2roundup_small (suc y) h = rw (pow2roundup-suc y) (omega (arith, smear_all-lt 0 y (omega arith)))

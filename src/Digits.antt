-- ===== src/Digits.antt =====
-- Binary operations that work digit by digit, for the native `bit_and` and `bit_or`: one step takes
-- the lowest digits off.
use Prim.Native.Nat.{ℕ, zero, suc, ◌+◌, ◌*◌, ◌/◌, ◌%◌, ◌≤◌, ◌<◌, digits, bitwise}
use mathlib.Core.Path.{◌≡◌, refl}
use native.Mathlib.Omega.{arith}

module _ (rest : ℕ → ℕ) (digit : ℕ → ℕ → ℕ) where
  -- Any count of digits that covers the first number gives the same result.
  settled :
      (limit count a b : ℕ)
      → a < limit
      → a ≤ count
      → digits rest digit count a b ≡ bitwise rest digit a b
  settled zero count a b p q = absurd (omega arith)
  settled (suc limit) zero zero b p q = refl
  settled (suc limit) zero (suc a) b p q = absurd (omega arith)
  settled (suc limit) (suc count) zero b p q = refl
  settled (suc limit) (suc count) (suc a) b p q =
      let long = settled limit count (suc a / 2) (b / 2) (omega arith) (omega arith) in
      let short = settled limit a (suc a / 2) (b / 2) (omega arith) (omega arith) in
      omega (arith, long, short)

  pub bitwise_step :
      (a b : ℕ)
      → ((y : ℕ) → rest y ≡ rest (y / 2) * 2 + digit 0 (y % 2))
      → bitwise rest digit a b ≡ bitwise rest digit (a / 2) (b / 2) * 2 + digit (a % 2) (b % 2)
  bitwise_step zero b tail = tail b
  bitwise_step (suc a) b tail =
      let all = settled (suc a) a (suc a / 2) (b / 2) (omega arith) (omega arith) in
      omega (arith, all)

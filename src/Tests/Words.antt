-- ===== src/Tests/Words.antt =====
-- A number that is no power of two.
use cht_bench.Prelude.{ℕ, ◌^◌, ◌≤◌, ◌≡◌, ◌↔◌, true, arith}
use cht_bench.Hash.{is_power_of_two, pow2roundup}
use cht_bench.Hash.Exact.{is_power_of_two-exact, pow2roundup-exact}

is_power_of_two-exact_example : (is_power_of_two 96 ≡ true) ↔ ((k : ℕ) × (96 ≡ 2 ^ k))
is_power_of_two-exact_example = is_power_of_two-exact 96 (omega arith)

pow2roundup-exact_example :
    (k : ℕ) × (pow2roundup 96 ≡ 2 ^ k) × (96 ≤ 2 ^ k) × ((j : ℕ) → 96 ≤ 2 ^ j → 2 ^ k ≤ 2 ^ j)
pow2roundup-exact_example = pow2roundup-exact 96 (omega arith)

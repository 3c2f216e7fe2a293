-- ===== src/Hash/Laws.antt =====
-- Where `clht_hash` puts a key.
use cht_bench.Prelude.{ℕ, suc, ◌-◌, ◌%◌, ◌^◌, ◌≤◌, ◌<◌, ◌≡◌, ◌≢◌, arith, bit_and-le, bit_and_mask}
use native.Mathlib.Nat.{mod-eq_of_lt, lt_of_lt_of_le, mod-lt, one-le-pow, pow-le-pow_right}
use cht_bench.Hash.{hash_bin, next_int32}
use cht_bench.Prelude.Run.{ok, blocked}

-- The counter of a loop below its last value goes on.
pub next_int32-suc : (b : ℕ) → suc b < 2 ^ 31 → next_int32 b ≡ ok (suc b)
unfolding next_int32
next_int32-suc b fits = ground arith

pub next_int32-ok : (b r : ℕ) → next_int32 b ≡ ok r → suc b ≡ r
unfolding next_int32
next_int32-ok b r run = ground arith

pub next_int32_goes : (b : ℕ) → next_int32 b ≢ blocked
unfolding next_int32
next_int32_goes b z = ground arith

-- The bin of any key lies inside a table of n buckets, for every n from 1 to 2^32 and the mask n -
-- 1.
pub hash_bin-lt : (n key : ℕ) → 0 < n → n ≤ 2 ^ 32 → hash_bin (n - 1) key < n
unfolding hash_bin
hash_bin-lt n key h fits = omega (arith, bit_and-le key (n - 1))

-- With 2^k buckets, k at most 32, the bin of a key is its remainder modulo 2^k.
pub hash_bin_mask : (k key : ℕ) → k ≤ 32 → hash_bin (2 ^ k - 1) key ≡ key % 2 ^ k
unfolding hash_bin
hash_bin_mask k key h =
    let small : key % 2 ^ k < 2 ^ 32 =
      lt_of_lt_of_le (mod-lt key (one-le-pow k 2 (omega arith)))
        (pow-le-pow_right (omega arith) h) in
    rw (bit_and_mask k key) (mod-eq_of_lt small)

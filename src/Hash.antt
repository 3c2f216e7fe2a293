-- ===== src/Hash.antt =====
-- Bins and sizes: `clht_hash` (src/clht/src/clht_lb_res.c, the same in the other tables) and the
-- helpers on words (is_power_of_two there, pow2roundup of src/clht/include/utils.h).
pub mod Laws
pub mod Pow2
pub mod Exact
use cht_bench.Prelude.{
  ℕ, ◌+◌, ◌-◌, ◌*◌, ◌/◌, ◌%◌, ◌^◌, bit_and, bit_or, Bool, true, false, not, ◌&&◌, ◌==◌,
  if◌then◌else◌, ltb, suc,
}
use cht_bench.Prelude.Run.{Run, ok, fault}

abbrev pub u32 : ℕ → ℕ
u32 n = n % 2 ^ 32

abbrev pub u64 : ℕ → ℕ
u64 n = n % 2 ^ 64

-- `b++` on an `int32_t` that is not negative. Its overflow is undefined, and ends the call here.
unfoldable pub next_int32 : ℕ → Run ℕ
next_int32 b = if ltb (suc b) (2 ^ 31) then ok (suc b) else fault

-- `key & (hashtable->hash)`, returned as a `uint32_t`
unfoldable pub hash_bin : ℕ → ℕ → ℕ
hash_bin mask key = u32 (bit_and key mask)

-- `(x != 0) && !(x & (x - 1))`, for an `unsigned int`
unfoldable pub is_power_of_two : ℕ → Bool
is_power_of_two x = not (x == 0) && (bit_and x (u32 (x + 2 ^ 32 - 1)) == 0)

-- `x |= x >> k`
unfoldable pub smear : ℕ → ℕ → ℕ
smear k x = bit_or x (x / 2 ^ k)

unfoldable pub smear_all : ℕ → ℕ
unfolding smear
smear_all x = smear 16 (smear 8 (smear 4 (smear 2 (smear 1 x))))

unfoldable pub pow2roundup : ℕ → ℕ
pow2roundup x = if x == 0 then 1 else u32 (smear_all (x - 1) + 1)

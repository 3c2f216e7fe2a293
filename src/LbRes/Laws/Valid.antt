-- ===== src/LbRes/Laws/Valid.antt =====
-- The invariant of a table, the map that it stands for, and `clht_get`.
use cht_bench.Prelude.{
  ℕ, ◌-◌, ◌^◌, ◌≤◌, ◌<◌, ◌≡◌, Option, some, arith, or_zero, get_elem?, get_elem?-lt,
  get_elem?-set_self, get_elem?-set_ne, length, length-set, set, ℕ_discrete,
}
use cht_bench.Prelude.Run.{ok}
use cht_bench.Hash.{hash_bin}
use cht_bench.Hash.Laws.{hash_bin-lt}
use cht_bench.Chain.{Chain, first, with_lock}
use cht_bench.Chain.Slots.{find}
use cht_bench.Chain.Laws.{slots, get_loop-find, lock-with_lock}
use cht_bench.Table.Rows.{row-get_elem?, IsPlaced, view}
use cht_bench.LbRes.{Hashtable, lock_free, lock_update, hash, bucket_at, lock_acq_chk_resize}
use cht_bench.LbRes.Ops.{get, acquire}

pub record IsValid (h : Hashtable) : Type 0 where
  pub filled : 0 < h.num_buckets
  pub fits : h.num_buckets ≤ 2 ^ 32
  pub width : length h.table ≡ h.num_buckets
  pub mask : h.hash ≡ h.num_buckets - 1
  pub placed : IsPlaced (hash_bin h.hash) h.table
  pub unlocked : (i : ℕ) (c : Chain) → get_elem? h.table i ≡ some c → (first c).lock ≡ lock_free

-- The map from keys to values that a table stands for.
abbrev pub map_of : Hashtable → ℕ → Option ℕ
map_of h = view (hash_bin h.hash) h.table

module _ (h : Hashtable) (valid : IsValid h) where
  pub home-lt : (k : ℕ) → hash_bin h.hash k < length h.table
  home-lt k = rw (valid.mask, valid.width) (hash_bin-lt h.num_buckets k valid.filled valid.fits)

  pub locate : (k : ℕ) → (c : Chain) × (get_elem? h.table (hash_bin h.hash k) ≡ some c)
  locate k = get_elem?-lt h.table (hash_bin h.hash k) (home-lt k)

  pub bucket_at-home :
      (k : ℕ) (c : Chain)
      → get_elem? h.table (hash_bin h.hash k) ≡ some c
      → bucket_at h (hash h k) ≡ ok c
  unfolding bucket_at hash
  bucket_at-home k c e = rw (e, bucket_at)

  pub map_of-find :
      (k : ℕ) (c : Chain)
      → get_elem? h.table (hash_bin h.hash k) ≡ some c
      → map_of h k ≡ find k (slots c)
  unfolding view
  map_of-find k c e = rw (row-get_elem? h.table (hash_bin h.hash k) c e)

  -- A bucket of the table is not locked between operations, so the lock is taken at once.
  pub acquire-free :
      (i : ℕ) (c : Chain)
      → get_elem? h.table i ≡ some c
      → acquire h c ≡ ok (with_lock lock_update c)
  unfolding acquire lock_acq_chk_resize
  acquire-free i c e = rw (valid.unlocked i c e)

  -- Storing an unlocked chain keeps the invariant, whatever the counter is.
  pub store-IsValid :
      (n bin : ℕ) (c : Chain)
      → bin < length h.table
      → (first c).lock ≡ lock_free
      → IsPlaced (hash_bin h.hash) (set h.table bin c)
      → IsValid (record h { num_expands = n; table = set h.table bin c })
  store-IsValid n bin c inside open_lock placed = record {
    filled = valid.filled;
    fits = valid.fits;
    width = rw (length-set h.table bin c) valid.width;
    mask = valid.mask;
    placed = placed;
    unlocked = λ i d e. elim (ℕ_discrete bin i) [
      | yes same ↦ let there = get_elem?-set_self h.table bin c inside in ground (arith, there)
      | no other ↦ valid.unlocked i d (ground (arith, get_elem?-set_ne h.table bin i c other))
    ];
  }

  pub release-IsValid :
      (n bin : ℕ) (c : Chain)
      → bin < length h.table
      → IsPlaced (hash_bin h.hash) (set h.table bin (with_lock lock_free c))
      → IsValid (record h { num_expands = n; table = set h.table bin (with_lock lock_free c) })
  release-IsValid n bin c inside placed =
      store-IsValid n bin (with_lock lock_free c) inside (lock-with_lock lock_free c) placed

  -- clht_get on a well-formed table returns the value that the table's map has for the key, or 0
  -- where it has none.
  pub get-map_of : (k : ℕ) → get h k ≡ ok (or_zero (map_of h k))
  unfolding get
  get-map_of k =
      let (c, e) = locate k in rw (bucket_at-home k c e, get_loop-find k c, map_of-find k c e)

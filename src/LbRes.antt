-- ===== src/LbRes.antt =====
-- The lock-based table with resizing, src/clht/src/clht_lb_res.c with clht_lb_res.h, run by one
-- thread at a time. The header sets CLHT_READ_ONLY_FAIL 1, CLHT_HELP_RESIZE 0, CLHT_DO_GC 0 and
-- CLHT_DO_CHECK_STATUS 0, and the code is read under those.
pub mod Seq
pub mod Ops
pub mod Resize
pub mod Threads
pub mod Laws
use cht_bench.Prelude.{
  ℕ, suc, ◌+◌, ◌-◌, ◌*◌, Bool, true, false, Option, none, some, List, [], ◌∷◌, ◌==◌, if◌then◌else◌,
  get_elem?, replicate, set,
}
use cht_bench.Prelude.Run.{Run, ok, fault, blocked, ◌>>=◌}
use cht_bench.Hash.{u32, u64, hash_bin}
use cht_bench.Chain.{Slot, Bucket, Chain, only, Allocation, bucket_create}

abbrev pub lock_free : ℕ
lock_free = 0

abbrev pub lock_update : ℕ
lock_update = 1

abbrev pub lock_resize : ℕ
lock_resize = 2

-- `struct clht_hashtable_s`. `has_new` says whether `table_new` is set.
pub record Hashtable : Type 0 where
  pub num_buckets : ℕ
  pub table : List Chain
  pub hash : ℕ
  pub version : ℕ
  pub num_expands : ℕ
  pub num_expands_threshold : ℕ
  pub has_new : Bool

-- `struct clht`. `released` holds the tables that were given to `clht_gc_release`, the last first.
pub record Clht : Type 0 where
  pub ht : Hashtable
  pub resize_lock : ℕ
  pub gc_lock : ℕ
  pub status_lock : ℕ
  pub version_min : ℕ
  pub released : List Hashtable

-- The answers of `memalign`: whether a table of so many buckets is granted, and the bucket for the
-- n-th expansion of the table of a version.
pub record Memory : Type 0 where
  pub grants : ℕ → Bool
  pub bucket : ℕ → ℕ → Allocation

-- A bucket after `memset` and the loop over its slots.
abbrev pub empty_bucket : Bucket
empty_bucket = record {
  lock = lock_free;
  entries =
      record { key = 0; val = 0 } ∷ record { key = 0; val = 0 } ∷ record { key = 0; val = 0 } ∷ [];
}

-- `num_buckets` is a `uint32_t`; CLHT_PERC_EXPANSIONS is 1.
unfoldable pub hashtable_create : Memory → ℕ → Option Hashtable
hashtable_create mem n =
    let num_buckets = u32 n in
    if num_buckets == 0
    then none
    else if mem.grants num_buckets
    then some (record {
      num_buckets = num_buckets;
      table = replicate num_buckets (only empty_bucket);
      hash = num_buckets - 1;
      version = 0;
      num_expands = 0;
      num_expands_threshold = if 1 * num_buckets == 0 then 1 else 1 * num_buckets;
      has_new = false;
    })
    else none

unfoldable pub create : Memory → ℕ → Option Clht
unfolding hashtable_create
create mem num_buckets = elim (hashtable_create mem num_buckets) [
  | none ↦ none
  | some ht ↦ some (record {
    ht = ht;
    resize_lock = lock_free;
    gc_lock = lock_free;
    status_lock = lock_free;
    version_min = 0;
    released = [];
  })
]

-- The bucket, the table with its counter, and whether the counter reached the threshold.
unfoldable pub bucket_create_stats : Memory → Hashtable → Option Bucket × Hashtable × Bool
unfolding bucket_create
bucket_create_stats mem h =
    let b = bucket_create (mem.bucket h.version h.num_expands) in
    let n = u32 (h.num_expands + 1) in
    (b, record h { num_expands = n }, if n == h.num_expands_threshold then true else false)

unfoldable pub hash : Hashtable → ℕ → ℕ
unfolding hash_bin
hash hashtable key = hash_bin hashtable.hash key

-- `hashtable->table + bin`, read; an address outside the array is a fault.
unfoldable pub bucket_at : Hashtable → ℕ → Run Chain
bucket_at h bin = elim (get_elem? h.table bin) [ none ↦ fault | some c ↦ ok c ]

abbrev pub with_bucket : Hashtable → ℕ → Chain → Hashtable
with_bucket h bin c = record h { table = set h.table bin c }

-- `lock_acq_chk_resize`: the lock word afterwards, or `none` for the result 0. A lone thread spins
-- for ever on LOCK_UPDATE, and on LOCK_RESIZE while `table_new` is `NULL`.
unfoldable pub lock_acq_chk_resize : ℕ → Hashtable → Run (Option ℕ)
lock_acq_chk_resize l h =
    if l == lock_update
    then blocked
    else if l == lock_resize
    then (if h.has_new then ok none else blocked)
    else ok (some (if l == lock_free then lock_update else l))

-- `lock_acq_resize`, in the same form.
unfoldable pub lock_acq_resize : ℕ → Run (Option ℕ)
lock_acq_resize l =
    if l == lock_update
    then blocked
    else if l == lock_resize
    then ok none
    else ok (some (if l == lock_free then lock_resize else l))

-- `val[0] = val; key[0] = key` of a bucket that was just created
abbrev pub fill_first : ℕ → ℕ → Bucket → Bucket
fill_first key val b = record b { entries = set b.entries 0 (record { key = key; val = val }) }

-- ===== src/Lb.antt =====
-- The lock-based table without resizing, src/clht/src/clht_lb.c with clht_lb.h, run by one thread at
-- a time. The header defines READ_ONLY_FAIL. A bucket that a put creates is the answer of `memalign`,
-- a parameter of the call.
pub mod Laws
use cht_bench.Prelude.{
  ℕ, suc, ◌+◌, ◌-◌, Bool, true, false, Option, none, some, List, [], ◌∷◌, ◌==◌, if◌then◌else◌,
  get_elem?, replicate, set,
}
use cht_bench.Prelude.Run.{Run, ok, fault, blocked, ◌>>=◌}
use cht_bench.Hash.{u32, u64, hash_bin}
use cht_bench.Chain.{
  Slot, Bucket, Chain, only, link, Allocation, bucket_create, get_loop, bucket_exists, present,
  room, full, put_loop, write, append_bucket, remove_loop, first, with_lock, size_loop,
}

-- `struct clht_hashtable_s`; `struct clht` is a pointer to one.
pub record Hashtable : Type 0 where
  pub num_buckets : ℕ
  pub table : List Chain

-- A bucket after `memset` and the loop over its slots.
abbrev pub empty_bucket : Bucket
empty_bucket = record {
  lock = 0;
  entries =
      record { key = 0; val = 0 } ∷ record { key = 0; val = 0 } ∷ record { key = 0; val = 0 } ∷ [];
}

-- `num_buckets` is a `uint32_t`. `grants` says whether `memalign` returns memory.
unfoldable pub hashtable_create : Bool → ℕ → Option Hashtable
hashtable_create grants n =
    let num_buckets = u32 n in
    if num_buckets == 0
    then none
    else if grants
    then some
        (record { num_buckets = num_buckets; table = replicate num_buckets (only empty_bucket) })
    else none

unfoldable pub create : Bool → ℕ → Option Hashtable
unfolding hashtable_create
create grants num_buckets = hashtable_create grants num_buckets

-- `key & (hashtable->num_buckets - 1)`
unfoldable pub hash : Hashtable → ℕ → ℕ
unfolding hash_bin
hash hashtable key = hash_bin (hashtable.num_buckets - 1) key

unfoldable pub bucket_at : Hashtable → ℕ → Run Chain
bucket_at h bin = elim (get_elem? h.table bin) [ none ↦ fault | some c ↦ ok c ]

abbrev pub with_bucket : Hashtable → ℕ → Chain → Hashtable
with_bucket h bin c = record h { table = set h.table bin c }

-- `LOCK_ACQ`: the word is incremented until it was 0, so a lone thread spins on any other word.
unfoldable pub lock_acq : Chain → Run Chain
unfolding with_lock
lock_acq c = if (first c).lock == 0 then ok (with_lock 1 c) else blocked

-- `LOCK_RLS`, and the chain stored back in its bin
abbrev pub release : Hashtable → ℕ → Chain → Hashtable
release h bin c = with_bucket h bin (with_lock 0 c)

unfoldable pub get : Hashtable → ℕ → Run ℕ
unfolding hash bucket_at get_loop
get hashtable key = bucket_at hashtable (hash hashtable key) >>= λ c. ok (get_loop key c)

-- `key[0] = key; val[0] = val` of a bucket that was just created
abbrev pub fill_first : ℕ → ℕ → Bucket → Bucket
fill_first key val b = record b { entries = set b.entries 0 (record { key = key; val = val }) }

-- The loop over the buckets: the result, and the chain.
unfoldable pub put_chain : Allocation → Chain → ℕ → ℕ → Run (Bool × Chain)
unfolding put_loop write append_bucket bucket_create
put_chain alloc c key val = elim (put_loop key 0 none c) [
  | present ↦ ok (false, c)
  | room p ↦ ok (true, write p (record { key = key; val = val }) c)
  | full ↦ elim (bucket_create alloc) [
    | none ↦ fault
    | some n ↦ ok (true, append_bucket c (fill_first key val n))
  ]
]

unfoldable pub put : Allocation → Hashtable → ℕ → ℕ → Run (Bool × Hashtable)
unfolding hash bucket_at bucket_exists lock_acq put_chain
put alloc hashtable key val =
    let bin = hash hashtable key in
    bucket_at hashtable bin >>= λ c.
    if bucket_exists key c
    then ok (false, hashtable)
    else (lock_acq c >>= λ locked.
        put_chain alloc locked key val >>= λ (answer, c'). ok (answer, release hashtable bin c'))

unfoldable pub remove : Hashtable → ℕ → Run (ℕ × Hashtable)
unfolding hash bucket_at bucket_exists lock_acq remove_loop
remove hashtable key =
    let bin = hash hashtable key in
    bucket_at hashtable bin >>= λ c.
    if bucket_exists key c
    then (lock_acq c >>= λ locked. elim (remove_loop key locked) [
      | some (val, c') ↦ ok (val, release hashtable bin c')
      | none ↦ ok (0, release hashtable bin locked)
    ])
    else ok (0, hashtable)

unfoldable pub put_seq : Allocation → Hashtable → ℕ → ℕ → ℕ → Run (Bool × Hashtable)
unfolding bucket_at put_chain
put_seq alloc hashtable key val bin = bucket_at hashtable bin >>= λ c.
    put_chain alloc c key val >>= λ (answer, c'). ok (answer, with_bucket hashtable bin c')

-- The entries of one bucket in `bucket_cpy`, which takes the key for the value.
unfoldable pub copy_slots : (ℕ → Allocation) → List Slot → Hashtable → Run Hashtable
unfolding put_seq hash
copy_slots memory [] ht_new = ok ht_new
copy_slots memory (s ∷ r) ht_new =
    let here =
      if s.key == 0
      then ok ht_new
      else (put_seq (memory s.key) ht_new s.key s.key (hash ht_new s.key) >>= λ (answer, h).
          ok h) in
    here >>= copy_slots memory r

unfoldable pub copy_loop : (ℕ → Allocation) → Chain → Hashtable → Run Hashtable
unfolding copy_slots
copy_loop memory (only b) ht_new = copy_slots memory b.entries ht_new
copy_loop memory (link b c) ht_new = copy_slots memory b.entries ht_new >>= copy_loop memory c

-- `bucket_cpy`, which leaves the old bucket locked. Memory answers by the key that is copied.
unfoldable pub bucket_cpy : (ℕ → Allocation) → Chain → Hashtable → Run (Chain × Hashtable)
unfolding lock_acq copy_loop
bucket_cpy memory bucket ht_new =
    lock_acq bucket >>= λ locked. copy_loop memory locked ht_new >>= λ h. ok (locked, h)

unfoldable pub size_table : List Chain → ℕ
unfolding size_loop
size_table [] = 0
size_table (c ∷ t) = size_loop c + size_table t

unfoldable pub size : Hashtable → ℕ
unfolding size_table
size hashtable = size_table hashtable.table

-- ===== src/LockIns.antt =====
-- The lock-based table that locks for insertions only, src/clht/src/clht_lb_lock_ins.c with
-- clht_lb_lock_ins.h, run by one thread at a time. The header sets CLHT_READ_ONLY_FAIL 1 and
-- CLHT_DO_GC 0. A bucket that a put creates is the answer of `memalign`, a parameter of the call.
pub mod Laws
pub mod Threads
use cht_bench.Prelude.{
  ℕ, suc, ◌+◌, ◌-◌, ◌*◌, ◌^◌, Bool, true, false, Option, none, some, List, [], ◌∷◌, ◌==◌,
  if◌then◌else◌, get_elem?, replicate, set,
}
use cht_bench.Prelude.Run.{Run, ok, fault, blocked, ◌>>=◌}
use cht_bench.Hash.{u32, u64, hash_bin}
use cht_bench.Chain.{
  Slot, Bucket, Chain, only, link, Allocation, bucket_create, get_loop, bucket_exists, present,
  room, full, put_loop, write, append_bucket, fill_loop, first, with_lock, size_loop,
}

abbrev pub lock_free : ℕ
lock_free = 0

abbrev pub lock_update : ℕ
lock_update = 1

abbrev pub lock_resize : ℕ
lock_resize = 2

-- -1 as a `clht_addr_t`
abbrev pub key_blck : ℕ
key_blck = 2 ^ 64 - 1

-- `struct clht_hashtable_s`; of `struct clht` only `ht` is used.
pub record Hashtable : Type 0 where
  pub num_buckets : ℕ
  pub table : List Chain
  pub hash : ℕ

-- A bucket after `memset` and the loop over its slots.
abbrev pub empty_bucket : Bucket
empty_bucket = record {
  lock = lock_free;
  entries =
      record { key = 0; val = 0 } ∷ record { key = 0; val = 0 } ∷ record { key = 0; val = 0 } ∷ [];
}

-- `num_buckets` is a `uint32_t`. `grants` says whether `memalign` returns memory.
unfoldable pub hashtable_create : Bool → ℕ → Option Hashtable
hashtable_create grants n =
    let num_buckets = u32 n in
    if num_buckets == 0
    then none
    else if grants
    then some (record {
      num_buckets = num_buckets;
      table = replicate num_buckets (only empty_bucket);
      hash = num_buckets - 1;
    })
    else none

unfoldable pub create : Bool → ℕ → Option Hashtable
unfolding hashtable_create
create grants num_buckets = hashtable_create grants num_buckets

unfoldable pub hash : Hashtable → ℕ → ℕ
unfolding hash_bin
hash hashtable key = hash_bin hashtable.hash key

unfoldable pub bucket_at : Hashtable → ℕ → Run Chain
bucket_at h bin = elim (get_elem? h.table bin) [ none ↦ fault | some c ↦ ok c ]

abbrev pub with_bucket : Hashtable → ℕ → Chain → Hashtable
with_bucket h bin c = record h { table = set h.table bin c }

unfoldable pub get : Hashtable → ℕ → Run ℕ
unfolding hash bucket_at get_loop
get hashtable key = bucket_at hashtable (hash hashtable key) >>= λ c. ok (get_loop key c)

-- `lock_acq_chk_resize`: a lone thread spins for ever on LOCK_UPDATE, and goes on without the lock
-- on LOCK_RESIZE.
unfoldable pub lock_acq_chk_resize : ℕ → Run ℕ
lock_acq_chk_resize l =
    if l == lock_update then blocked else ok (if l == lock_free then lock_update else l)

-- `lock_acq_resize`: the lock word afterwards, or `none` for the result 0.
unfoldable pub lock_acq_resize : ℕ → Run (Option ℕ)
lock_acq_resize l =
    if l == lock_update
    then blocked
    else if l == lock_resize
    then ok none
    else ok (some (if l == lock_free then lock_resize else l))

-- `val[0] = val; key[0] = key` of a bucket that was just created
abbrev pub fill_first : ℕ → ℕ → Bucket → Bucket
fill_first key val b = record b { entries = set b.entries 0 (record { key = key; val = val }) }

-- The loop over the buckets: the result, and the chain.
unfoldable pub put_chain : Allocation → Chain → ℕ → ℕ → Run (Bool × Chain)
unfolding put_loop write append_bucket bucket_create
put_chain alloc c key val = elim (put_loop key 0 none c) [
  | present ↦ ok (false, c)
  | room p ↦ ok (true, write p (record { key = key; val = val }) c)
  | full ↦ elim (bucket_create alloc) [
    | none ↦ fault
    | some n ↦ ok (true, append_bucket c (fill_first key val n))
  ]
]

unfoldable pub put : Allocation → Hashtable → ℕ → ℕ → Run (Bool × Hashtable)
unfolding hash bucket_at bucket_exists lock_acq_chk_resize with_lock put_chain
put alloc hashtable key val =
    let bin = hash hashtable key in
    bucket_at hashtable bin >>= λ c.
    if bucket_exists key c
    then ok (false, hashtable)
    else (lock_acq_chk_resize (first c).lock >>= λ l.
        put_chain alloc (with_lock l c) key val >>= λ (answer, c').
        ok (answer, with_bucket hashtable bin (with_lock lock_free c')))

-- What the slots of one bucket come to in `clht_remove`: the loop goes on, or it ends with a result
-- and the slots.
pub data Taken : Type 0 where
  passed : Taken
  ended : (result : ℕ) (entries : List Slot) → Taken

-- `CAS_U64(&bucket->key[j], key, KEY_BLCK)`: the old key, and the slot.
unfoldable pub cas_key : ℕ → Slot → ℕ × Slot
cas_key key s = (s.key, if s.key == key then record s { key = key_blck } else s)

unfoldable pub take_slot : ℕ → List Slot → Taken
unfolding cas_key
take_slot key [] = passed
take_slot key (s ∷ r) =
    let (old, marked) = cas_key key s in
    let rest = take_slot key r in
    if s.key == key
    then (if old == key
        then ended marked.val (record marked { key = 0 } ∷ r)
        else ended 0 (marked ∷ r))
    else elim rest [ passed ↦ passed | ended v r' ↦ ended v (s ∷ r') ]

-- The loop over the buckets: the result, and the chain.
unfoldable pub take_loop : ℕ → Chain → ℕ × Chain
unfolding take_slot
take_loop key (only b) = elim (take_slot key b.entries) [
  | passed ↦ (0, only b)
  | ended v es ↦ (v, only (record b { entries = es }))
]
take_loop key (link b c) =
    let (v', c') = take_loop key c in
    elim (take_slot key b.entries) [
      | passed ↦ (v', link b c')
      | ended v es ↦ (v, link (record b { entries = es }) c)
    ]

-- `clht_remove` takes no lock.
unfoldable pub remove : Hashtable → ℕ → Run (ℕ × Hashtable)
unfolding hash bucket_at take_loop
remove hashtable key =
    let bin = hash hashtable key in
    bucket_at hashtable bin >>= λ c.
    let (val, c') = take_loop key c in ok (val, with_bucket hashtable bin c')

-- `memory` answers by the key that is stored.
unfoldable pub put_seq : (ℕ → Allocation) → Hashtable → ℕ → ℕ → ℕ → Run Hashtable
unfolding bucket_at fill_loop append_bucket bucket_create
put_seq memory hashtable key val bin = bucket_at hashtable bin >>= λ c. elim (fill_loop key val c) [
  | some c' ↦ ok (with_bucket hashtable bin c')
  | none ↦ elim (bucket_create (memory key)) [
    | none ↦ fault
    | some n ↦ ok (with_bucket hashtable bin (append_bucket c (fill_first key val n)))
  ]
]

unfoldable pub copy_slots : (ℕ → Allocation) → List Slot → Hashtable → Run Hashtable
unfolding put_seq hash
copy_slots memory [] ht_new = ok ht_new
copy_slots memory (s ∷ r) ht_new =
    let here =
      if s.key == 0 then ok ht_new else put_seq memory ht_new s.key s.val (hash ht_new s.key) in
    here >>= copy_slots memory r

unfoldable pub copy_loop : (ℕ → Allocation) → Chain → Hashtable → Run Hashtable
unfolding copy_slots
copy_loop memory (only b) ht_new = copy_slots memory b.entries ht_new
copy_loop memory (link b c) ht_new = copy_slots memory b.entries ht_new >>= copy_loop memory c

-- The old chain, whose lock stays LOCK_RESIZE, and the new table; nothing is copied where the lock
-- is LOCK_RESIZE already.
unfoldable pub bucket_cpy : (ℕ → Allocation) → Chain → Hashtable → Run (Bool × Chain × Hashtable)
unfolding lock_acq_resize with_lock copy_loop
bucket_cpy memory bucket ht_new = lock_acq_resize (first bucket).lock >>= λ a. elim a [
  | none ↦ ok (false, bucket, ht_new)
  | some l ↦ copy_loop memory bucket ht_new >>= λ h. ok (true, with_lock l bucket, h)
]

unfoldable pub size_table : List Chain → ℕ
unfolding size_loop
size_table [] = 0
size_table (c ∷ t) = size_loop c + size_table t

unfoldable pub size : Hashtable → ℕ
unfolding size_table
size hashtable = size_table hashtable.table

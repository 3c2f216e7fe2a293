-- ===== src/Packed.antt =====
-- The lock-based table with packed buckets, src/clht/src/clht_lb_packed.c with clht_lb_packed.h, run
-- by one thread at a time. A bucket counts its used slots in `last`; a removal moves the last entry of
-- the chain into the hole. READ_ONLY_FAIL is defined, as in the header, and a bucket that a put
-- creates is the answer of `memalign`, a parameter of the call.
-- An array of ENTRIES_PER_BUCKET elements is a function on its indices.
pub mod Laws
use cht_bench.Prelude.{
  ℕ, zero, suc, ◌+◌, ◌-◌, Bool, true, false, Option, none, some, List, [], ◌∷◌, ◌==◌, ltb,
  if◌then◌else◌, get_elem?, replicate, set,
}
use cht_bench.Prelude.Run.{Run, ok, fault, blocked, ◌>>=◌}
use cht_bench.Hash.{u32, hash_bin}
use cht_bench.Chain.{Slot, Allocation}

-- `struct bucket_s` without its `next`
pub record Bucket : Type 0 where
  pub lock : ℕ
  pub last : ℕ
  pub entries : ℕ → Slot

-- A bucket whose `next` is `NULL`, or a bucket and what its `next` points to.
pub data Chain : Type 0 where
  only : Bucket → Chain
  link : Bucket → Chain → Chain

-- `struct clht_hashtable_s`; `struct clht` is a pointer to one.
pub record Hashtable : Type 0 where
  pub num_buckets : ℕ
  pub table : List Chain

abbrev pub entries_per_bucket : ℕ
entries_per_bucket = 3

abbrev pub first : Chain → Bucket
first (only b) = b
first (link b c) = b

abbrev pub with_first : Bucket → Chain → Chain
with_first b (only a) = only b
with_first b (link a c) = link b c

-- `key[i] = s.key; val[i] = s.val`
abbrev pub write : (ℕ → Slot) → ℕ → Slot → ℕ → Slot
write es i s j = if i == j then s else es j

unfoldable pub bucket_create : Allocation → Option Bucket
bucket_create none = none
bucket_create (some junk) =
    some (record { lock = 0; last = 0; entries = λ j. record { key = 0; val = junk j } })

-- A bucket after `memset` and the loop over its slots.
abbrev pub empty_bucket : Bucket
empty_bucket = record { lock = 0; last = 0; entries = λ j. record { key = 0; val = 0 } }

-- `num_buckets` is a `uint32_t`. `grants` says whether `memalign` returns memory.
unfoldable pub create : Bool → ℕ → Option Hashtable
create grants n =
    let num_buckets = u32 n in
    if num_buckets == 0
    then none
    else if grants
    then some
        (record { num_buckets = num_buckets; table = replicate num_buckets (only empty_bucket) })
    else none

-- The slots from the last one down, of which `j` are left: `val[j]` is read before `key[j]` and once
-- more after it.
unfoldable pub search : ℕ → (ℕ → Slot) → ℕ → Option ℕ
search key es zero = none
search key es (suc j) =
    let val = (es j).val in
    if (es j).key == key then some (if (es j).val == val then val else 0) else search key es j

-- A bucket that is not full ends the chain.
unfoldable pub get_loop : ℕ → Chain → ℕ
unfolding search
get_loop key (only b) = elim (search key b.entries b.last) [ some v ↦ v | none ↦ 0 ]
get_loop key (link b c) =
    let rest = get_loop key c in
    elim (search key b.entries b.last) [
      | some v ↦ v
      | none ↦ if ltb b.last entries_per_bucket then 0 else rest
    ]

unfoldable pub bucket_has : ℕ → (ℕ → Slot) → ℕ → Bool
bucket_has key es zero = false
bucket_has key es (suc j) = if (es j).key == key then true else bucket_has key es j

unfoldable pub bucket_exists : ℕ → Chain → Bool
unfolding bucket_has
bucket_exists key (only b) = if bucket_has key b.entries b.last then true else false
bucket_exists key (link b c) =
    let rest = bucket_exists key c in
    if bucket_has key b.entries b.last
    then true
    else if ltb b.last entries_per_bucket
    then false
    else rest

-- The first slot with the key, from `j` on, with `left` slots to look at.
unfoldable pub scan : ℕ → (ℕ → Slot) → ℕ → ℕ → Option ℕ
scan key es j zero = none
scan key es j (suc left) =
    let rest = scan key es (suc j) left in if (es j).key == key then some j else rest

-- The entry in the first slot that is not used.
abbrev pub push : Bucket → Slot → Bucket
push b s = record b { last = b.last + 1; entries = write b.entries b.last s }

-- The loop of `clht_put`: the result, and the chain.
unfoldable pub put_loop : Allocation → Slot → Chain → Run (Bool × Chain)
unfolding scan bucket_create
put_loop alloc s (only b) = elim (scan s.key b.entries 0 b.last) [
  | some j ↦ ok (false, only b)
  | none ↦
      if ltb b.last entries_per_bucket
      then ok (true, only (push b s))
      else elim (bucket_create alloc) [
        | none ↦ fault
        | some n ↦ ok (true, link b (only (push n s)))
      ]
]
put_loop alloc s (link b c) =
    let rest = put_loop alloc s c >>= λ (answer, c'). ok (answer, link b c') in
    elim (scan s.key b.entries 0 b.last) [
      | some j ↦ ok (false, link b c)
      | none ↦ if ltb b.last entries_per_bucket then ok (true, link (push b s) c) else rest
    ]

-- The last entry of the chain, taken off: `while (blast->next != NULL && blast->next->last)`.
unfoldable pub take_last : Chain → Slot × Chain
take_last (only b) = (b.entries (b.last - 1), only (record b { last = b.last - 1 }))
take_last (link b c) =
    let (s, c') = take_last c in
    if (first c).last == 0
    then (b.entries (b.last - 1), link (record b { last = b.last - 1 }) c)
    else (s, link b c')

-- A bucket with the hole `j` filled by its own last entry. `key[j]` is set to 0 before that entry is
-- read.
unfoldable pub close : Bucket → ℕ → Bucket
close b j =
    let hole = write b.entries j (record { key = 0; val = (b.entries j).val }) in
    record b { last = b.last - 1; entries = write hole j (hole (b.last - 1)) }

-- The removal of slot `j` of the first bucket.
unfoldable pub remove_at : Chain → ℕ → Chain
unfolding take_last close
remove_at (only b) j = only (close b j)
remove_at (link b c) j =
    let (s, c') = take_last c in
    if (first c).last == 0
    then link (close b j) c
    else link (record b { entries = write b.entries j s }) c'

-- The loop of `clht_remove`: the value and the chain, or `none` where the key is not found.
unfoldable pub remove_loop : ℕ → Chain → Option (ℕ × Chain)
unfolding scan remove_at
remove_loop key (only b) = elim (scan key b.entries 0 b.last) [
  | some j ↦ some ((b.entries j).val, remove_at (only b) j)
  | none ↦ none
]
remove_loop key (link b c) =
    let rest : Option (ℕ × Chain) = elim (remove_loop key c) [
      | some (v, c') ↦ some (v, link b c')
      | none ↦ none
    ] in
    elim (scan key b.entries 0 b.last) [
      | some j ↦ some ((b.entries j).val, remove_at (link b c) j)
      | none ↦ if ltb b.last entries_per_bucket then none else rest
    ]

-- `key & (hashtable->num_buckets - 1)`
unfoldable pub hash : Hashtable → ℕ → ℕ
unfolding hash_bin
hash hashtable key = hash_bin (hashtable.num_buckets - 1) key

unfoldable pub bucket_at : Hashtable → ℕ → Run Chain
bucket_at h bin = elim (get_elem? h.table bin) [ none ↦ fault | some c ↦ ok c ]

abbrev pub with_lock : ℕ → Chain → Chain
with_lock l c = with_first (record (first c) { lock = l }) c

-- `LOCK_ACQ`: test-and-set until the byte was 0, so a lone thread spins on any other.
unfoldable pub lock_acq : Chain → Run Chain
lock_acq c = if (first c).lock == 0 then ok (with_lock 0xff c) else blocked

-- `LOCK_RLS`, and the chain stored back in its bin
abbrev pub release : Hashtable → ℕ → Chain → Hashtable
release h bin c = record h { table = set h.table bin (with_lock 0 c) }

unfoldable pub get : Hashtable → ℕ → Run ℕ
unfolding hash bucket_at get_loop
get hashtable key = bucket_at hashtable (hash hashtable key) >>= λ c. ok (get_loop key c)

unfoldable pub put : Allocation → Hashtable → ℕ → ℕ → Run (Bool × Hashtable)
unfolding hash bucket_at bucket_exists lock_acq put_loop
put alloc hashtable key val =
    let bin = hash hashtable key in
    bucket_at hashtable bin >>= λ c.
    if bucket_exists key c
    then ok (false, hashtable)
    else (lock_acq c >>= λ locked.
        put_loop alloc (record { key = key; val = val }) locked >>= λ (answer, c').
        ok (answer, release hashtable bin c'))

unfoldable pub remove : Hashtable → ℕ → Run (ℕ × Hashtable)
unfolding hash bucket_at bucket_exists lock_acq remove_loop
remove hashtable key =
    let bin = hash hashtable key in
    bucket_at hashtable bin >>= λ c.
    if bucket_exists key c
    then (lock_acq c >>= λ locked. elim (remove_loop key locked) [
      | some (val, c') ↦ ok (val, release hashtable bin c')
      | none ↦ ok (0, release hashtable bin locked)
    ])
    else ok (0, hashtable)

-- The used slots of a chain.
unfoldable pub size_loop : Chain → ℕ
size_loop (only b) = b.last
size_loop (link b c) =
    let rest = size_loop c in if ltb b.last entries_per_bucket then b.last else b.last + rest

unfoldable pub size_table : List Chain → ℕ
unfolding size_loop
size_table [] = 0
size_table (c ∷ t) = size_loop c + size_table t

-- The count is returned as a `uint32_t`.
unfoldable pub size : Hashtable → ℕ
unfolding size_table
size hashtable = u32 (size_table hashtable.table)

-- ===== src/LfRes.antt =====
-- The lock-free table with resizing, src/clht/src/clht_lf_res.c with clht_lf_res.h, run by one thread
-- at a time. Buckets and snapshots are those of Lf, whose declarations are the same in both headers.
-- Each `CAS_U64` keeps its test and the way back to `retry`. The entry of the running thread in
-- `version_list` is `mine`, the entries of the other threads are `others`; the tables from
-- `ht_oldest` on before `ht` are `older`.
pub mod Seq
pub mod Resize
pub mod Laws
use cht_bench.Prelude.{
  ℕ, zero, suc, ◌+◌, ◌-◌, ◌^◌, Bool, true, false, not, ◌&&◌, Option, none, some, List, [], ◌∷◌,
  ◌==◌, if◌then◌else◌, get_elem?, replicate, set,
}
use cht_bench.Prelude.Run.{Run, ok, fault, blocked, out_of_fuel, ◌>>=◌}
use cht_bench.Hash.{u32, hash_bin}
use cht_bench.Lf.{
  Snapshot, Bucket, key_buckt, map_invld, map_valid, map_insrt, put_at, same_snapshot,
  snap_get_empty_index, snap_set_map, snap_set_map_and_inc_version,
}

abbrev pub clht_lock_free : ℕ
clht_lock_free = 0

abbrev pub clht_lock_acqr : ℕ
clht_lock_acqr = 1

-- `struct clht_hashtable_s`
pub record Hashtable : Type 0 where
  pub num_buckets : ℕ
  pub table : List Bucket
  pub hash : ℕ
  pub version : ℕ

-- `struct clht`
pub record Clht : Type 0 where
  pub ht : Hashtable
  pub older : List Hashtable
  pub mine : ℕ
  pub others : List ℕ
  pub version_min : ℕ
  pub resize_lock : ℕ
  pub gc_lock : ℕ
  pub status_lock : ℕ

-- The answers of `memalign`: whether a table of so many buckets is granted, and what stands in the
-- field `version` of its structure, which `clht_hashtable_create` does not set.
pub record Memory : Type 0 where
  pub grants : ℕ → Bool
  pub version : ℕ → ℕ

-- A bucket after `memset` and the loop over its slots.
abbrev pub empty_bucket : Bucket
empty_bucket = record {
  snapshot = record { version = 0; map = λ j. map_invld };
  key = λ j. 0;
  val = λ j. 0;
}

-- `num_buckets` is a `uint32_t`.
unfoldable pub hashtable_create : Memory → ℕ → Option Hashtable
hashtable_create mem n =
    let num_buckets = u32 n in
    if num_buckets == 0
    then none
    else if mem.grants num_buckets
    then some (record {
      num_buckets = num_buckets;
      table = replicate num_buckets empty_bucket;
      hash = num_buckets - 1;
      version = mem.version num_buckets;
    })
    else none

-- The structure before any thread enters it; `none` where there is no table, since no call can use
-- the structure then. The version of a thread without an operation is -1.
unfoldable pub create : Memory → ℕ → Option Clht
unfolding hashtable_create
create mem num_buckets = elim (hashtable_create mem num_buckets) [
  | none ↦ none
  | some ht ↦ some (record {
    ht = ht;
    older = [];
    mine = 2 ^ 64 - 1;
    others = [];
    version_min = 0;
    resize_lock = clht_lock_free;
    gc_lock = clht_lock_free;
    status_lock = clht_lock_free;
  })
]

unfoldable pub hash : Hashtable → ℕ → ℕ
unfolding hash_bin
hash hashtable key = hash_bin hashtable.hash key

unfoldable pub bucket_at : Hashtable → ℕ → Run Bucket
bucket_at h bin = elim (get_elem? h.table bin) [ none ↦ fault | some b ↦ ok b ]

abbrev pub with_bucket : Hashtable → ℕ → Bucket → Hashtable
with_bucket h bin b = record h { table = set h.table bin b }

-- The slots from `i` on, `left` of them. `val[i]` is read before the map and the key, and once more
-- after them.
unfoldable pub search_from : ℕ → ℕ → ℕ → Bucket → ℕ
search_from key zero i b = 0
search_from key (suc left) i b =
    let val = b.val i in
    let rest = search_from key left (suc i) b in
    if b.snapshot.map i == map_valid
    then (if b.key i == key then (if b.val i == val then val else 0) else rest)
    else rest

unfoldable pub bucket_search : Bucket → ℕ → ℕ
unfolding search_from
bucket_search bucket key = search_from key key_buckt 0 bucket

-- CLHT_GC_HT_VERSION_USED
abbrev pub use_version : ℕ → Clht → Clht
use_version version h = record h { mine = version }

-- CLHT_NO_UPDATE
abbrev pub no_update : Clht → Clht
no_update h = record h { mine = 2 ^ 64 - 1 }

unfoldable pub get : Clht → ℕ → Run (ℕ × Clht)
unfolding hash bucket_at bucket_search
get h key =
    bucket_at h.ht (hash h.ht key) >>= λ b. ok (bucket_search b key, use_version h.ht.version h)

-- How one pass of `clht_put` from `retry` on ends: with an answer, with `goto retry` and the
-- `empty_index` kept, or without a slot.
pub data Attempt : Type 0 where
  answered : (answer : Bool) (bucket : Bucket) → Attempt
  again : (empty : Option ℕ) (bucket : Bucket) → Attempt
  no_slot : Attempt

-- The second CAS, from `s1` to the slot MAP_VALID and a new version.
unfoldable pub commit : ℕ → Snapshot → Bucket → Attempt
commit i s1 b =
    if same_snapshot b.snapshot s1
    then answered true (record b { snapshot = snap_set_map_and_inc_version s1 i map_valid })
    else again (some i) b

-- The first CAS reserves the slot `i`, then `val[i]` and `key[i]` are written.
unfoldable pub reserve : ℕ → ℕ → Snapshot → ℕ → Bucket → Attempt
unfolding commit
reserve key val s i b =
    let s1 = snap_set_map s i map_insrt in
    if same_snapshot b.snapshot s
    then commit i s1 (record { snapshot = s1; key = put_at b.key i key; val = put_at b.val i val })
    else again none b

unfoldable pub attempt : ℕ → ℕ → Option ℕ → Bucket → Attempt
unfolding bucket_search reserve commit
attempt key val none b =
    if not (bucket_search b key == 0)
    then answered false b
    else elim (snap_get_empty_index b.snapshot) [
      | none ↦ no_slot
      | some i ↦ reserve key val b.snapshot i b
    ]
attempt key val (some i) b =
    if not (bucket_search b key == 0)
    then answered false (record b { snapshot = snap_set_map b.snapshot i map_invld })
    else commit i (snap_set_map b.snapshot i map_insrt) b

-- The passes over one bucket; `none` for `goto retry_all`.
unfoldable pub retry : ℕ → ℕ → ℕ → Option ℕ → Bucket → Run (Option Bool × Bucket)
unfolding attempt
retry zero key val empty b = out_of_fuel
retry (suc fuel) key val empty b = elim (attempt key val empty b) [
  | answered answer b' ↦ ok (some answer, b')
  | again e b' ↦ retry fuel key val e b'
  | no_slot ↦ ok (none, b)
]

-- The first slot from `i` on with the key that is valid in the snapshot `s`.
unfoldable pub remove_from : ℕ → Snapshot → ℕ → ℕ → Bucket → Option ℕ
remove_from key s zero i b = none
remove_from key s (suc left) i b =
    let rest = remove_from key s left (suc i) b in
    if b.key i == key && s.map i == map_valid then some i else rest

unfoldable pub remove_retry : ℕ → ℕ → Bucket → Run (ℕ × Bucket)
unfolding remove_from
remove_retry zero key b = out_of_fuel
remove_retry (suc fuel) key b =
    let s = b.snapshot in
    let rest = remove_retry fuel key b in
    elim (remove_from key s key_buckt 0 b) [
      | none ↦ ok (0, b)
      | some i ↦
          let removed = b.val i in
          if same_snapshot b.snapshot s
          then ok (removed, record b { snapshot = snap_set_map s i map_invld })
          else rest
    ]

-- CLHT_CHECK_RESIZE: a lone thread waits for ever.
unfoldable pub check_resize : Clht → Run Clht
check_resize h = if h.resize_lock == clht_lock_acqr then blocked else ok h

unfoldable pub remove : ℕ → Clht → ℕ → Run (ℕ × Clht)
unfolding check_resize hash bucket_at remove_retry
remove fuel h key = check_resize h >>= λ h.
    let bin = hash h.ht key in
    bucket_at h.ht bin >>= λ b. remove_retry fuel key b >>= λ (val, b').
    ok (val, no_update (record h { ht = with_bucket h.ht bin b' }))

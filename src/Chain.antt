-- ===== src/Chain.antt =====
-- A bucket, its three slots, and the chain of buckets behind `next`: the loops that the lock-based
-- tables run over a chain (src/clht/src/clht_lb_res.c, and the same loops of clht_lb.c).
-- The arrays `key` and `val` of a bucket are one list of slots. The pointer `empty` into a chain is
-- the number of its slot, counted from the first slot of the first bucket.
pub mod Slots
pub mod Writes
pub mod Effects
pub mod Laws
use cht_bench.Prelude.{
  ℕ, zero, suc, ◌+◌, ◌-◌, Bool, true, false, ◌&&◌, Option, none, some, List, [], ◌∷◌, ◌++◌, ◌==◌,
  ltb, if◌then◌else◌, is_none, length, set,
}

-- `key[j]` and `val[j]`
pub record Slot : Type 0 where
  pub key : ℕ
  pub val : ℕ

-- `struct bucket_s` without its `next`
pub record Bucket : Type 0 where
  pub lock : ℕ
  pub entries : List Slot

-- A bucket whose `next` is `NULL`, or a bucket and what its `next` points to.
pub data Chain : Type 0 where
  only : Bucket → Chain
  link : Bucket → Chain → Chain

abbrev pub entries_per_bucket : ℕ
entries_per_bucket = 3

-- What `memalign` returns: `NULL`, or memory with some contents. Only `val` keeps them.
abbrev pub Allocation : Type 0
Allocation = Option (ℕ → ℕ)

unfoldable pub bucket_create : Allocation → Option Bucket
bucket_create none = none
bucket_create (some junk) = some (record {
  lock = 0;
  entries =
      record { key = 0; val = junk 0 }
      ∷ record { key = 0; val = junk 1 }
      ∷ record { key = 0; val = junk 2 }
      ∷ [];
})

-- `val[j]` is read before `key[j]` and once more after it.
unfoldable pub search : ℕ → List Slot → Option ℕ
search key [] = none
search key (s ∷ r) =
    let val = s.val in if s.key == key then some (if s.val == val then val else 0) else search key r

unfoldable pub get_loop : ℕ → Chain → ℕ
unfolding search
get_loop key (only b) = elim (search key b.entries) [ some v ↦ v | none ↦ 0 ]
get_loop key (link b c) =
    let rest = get_loop key c in elim (search key b.entries) [ some v ↦ v | none ↦ rest ]

unfoldable pub bucket_has : ℕ → List Slot → Bool
bucket_has key [] = false
bucket_has key (s ∷ r) = if s.key == key then true else bucket_has key r

unfoldable pub bucket_exists : ℕ → Chain → Bool
unfolding bucket_has
bucket_exists key (only b) = if bucket_has key b.entries then true else false
bucket_exists key (link b c) = if bucket_has key b.entries then true else bucket_exists key c

-- The slots of one bucket in `clht_put`: the key is there, or the loop ends with this `empty`.
pub data Scan : Type 0 where
  hit : Scan
  miss : (empty : Option ℕ) → Scan

unfoldable pub scan : ℕ → ℕ → Option ℕ → List Slot → Scan
scan key at empty [] = miss empty
scan key at empty (s ∷ r) =
    if s.key == key
    then hit
    else scan key (at + 1) (if is_none empty && (s.key == 0) then some at else empty) r

-- What the loop over the buckets in `clht_put` decides.
pub data Found : Type 0 where
  present : Found
  room : (at : ℕ) → Found
  full : Found

unfoldable pub put_loop : ℕ → ℕ → Option ℕ → Chain → Found
unfolding scan
put_loop key at empty (only b) = elim (scan key at empty b.entries) [
  | hit ↦ present
  | miss none ↦ full
  | miss (some p) ↦ room p
]
put_loop key at empty (link b c) = elim (scan key at empty b.entries) [
  | hit ↦ present
  | miss e ↦ put_loop key (at + length b.entries) e c
]

-- `*empty_v = val; *empty = key`
unfoldable pub write : ℕ → Slot → Chain → Chain
write at s (only b) = only (record b { entries = set b.entries at s })
write at s (link b c) =
    let rest = write (at - length b.entries) s c in
    if ltb at (length b.entries)
    then link (record b { entries = set b.entries at s }) c
    else link b rest

-- `bucket->next = n` at the last bucket
unfoldable pub append_bucket : Chain → Bucket → Chain
append_bucket (only b) n = link b (only n)
append_bucket (link b c) n = link b (append_bucket c n)

-- The slots of one bucket in `clht_remove`: the value, and the slots with the key set to 0.
unfoldable pub remove_slot : ℕ → List Slot → Option (ℕ × List Slot)
remove_slot key [] = none
remove_slot key (s ∷ r) =
    if s.key == key
    then some (s.val, record s { key = 0 } ∷ r)
    else elim (remove_slot key r) [ none ↦ none | some (v, r') ↦ some (v, s ∷ r') ]

unfoldable pub remove_loop : ℕ → Chain → Option (ℕ × Chain)
unfolding remove_slot
remove_loop key (only b) = elim (remove_slot key b.entries) [
  | some (v, es) ↦ some (v, only (record b { entries = es }))
  | none ↦ none
]
remove_loop key (link b c) =
    let rest = remove_loop key c in
    elim (remove_slot key b.entries) [
      | some (v, es) ↦ some (v, link (record b { entries = es }) c)
      | none ↦ elim rest [ some (v, c') ↦ some (v, link b c') | none ↦ none ]
    ]

-- The first empty slot of one bucket in `clht_put_seq`, filled.
unfoldable pub fill_slot : ℕ → ℕ → List Slot → Option (List Slot)
fill_slot key val [] = none
fill_slot key val (s ∷ r) =
    if s.key == 0
    then some (record { key = key; val = val } ∷ r)
    else elim (fill_slot key val r) [ none ↦ none | some r' ↦ some (s ∷ r') ]

-- The loop of `clht_put_seq`, as far as no bucket has to be created.
unfoldable pub fill_loop : ℕ → ℕ → Chain → Option Chain
unfolding fill_slot
fill_loop key val (only b) = elim (fill_slot key val b.entries) [
  | some es ↦ some (only (record b { entries = es }))
  | none ↦ none
]
fill_loop key val (link b c) =
    let rest = fill_loop key val c in
    elim (fill_slot key val b.entries) [
      | some es ↦ some (link (record b { entries = es }) c)
      | none ↦ elim rest [ some c' ↦ some (link b c') | none ↦ none ]
    ]

-- The buckets of a chain with `key[j] > 0` counted.
unfoldable pub count_slots : List Slot → ℕ
count_slots [] = 0
count_slots (s ∷ r) = let n = count_slots r in if ltb 0 s.key then suc n else n

unfoldable pub size_loop : Chain → ℕ
unfolding count_slots
size_loop (only b) = count_slots b.entries
size_loop (link b c) = count_slots b.entries + size_loop c

-- The buckets behind the first one.
unfoldable pub expands_of : Chain → ℕ
expands_of (only b) = 0
expands_of (link b c) = suc (expands_of c)

abbrev pub first : Chain → Bucket
first (only b) = b
first (link b c) = b

-- The lock word of the first bucket, on which `LOCK_ACQ` and `LOCK_RLS` work.
unfoldable pub with_lock : ℕ → Chain → Chain
with_lock l (only b) = only (record b { lock = l })
with_lock l (link b c) = link (record b { lock = l }) c

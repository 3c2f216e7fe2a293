-- ===== src/LockIns/Threads.antt =====
-- Any number of threads that put and remove in one bin of the table that locks for insertions only,
-- src/clht/src/clht_lb_lock_ins.c. A thread is the point of `clht_put` or `clht_remove` that it has
-- reached; one step is one access to the bin. Bins share nothing. Memory is sequentially consistent,
-- and a new bucket is granted; its `val` is unknown. Nothing starts a resize, so that a lock is free
-- or LOCK_UPDATE.
pub mod Local
pub mod Effects
pub mod Moves
pub mod All
use cht_bench.Prelude.{
  ℕ, suc, ◌+◌, ◌≡◌, ◌≢◌, Bool, true, false, Option, none, some, ◌==◌, ltb, if◌then◌else◌, is_none,
  ◌&&◌,
}
use cht_bench.Chain.{entries_per_bucket}
use cht_bench.Lf.{put_at}
use cht_bench.LockIns.{lock_free, lock_update, key_blck}

-- The slots of the chain of buckets of a bin, `len` of them, and the lock of its first bucket.
pub record Bin : Type 0 where
  pub lock : ℕ
  pub len : ℕ
  pub key : ℕ → ℕ
  pub val : ℕ → ℕ

-- `took` is no variable of the code: it is what `val[j]` was when the CAS took the key.
pub data Thread : Type 0 where
  idle : Thread
  put_exists : (key val j : ℕ) → Thread
  put_lock : (key val : ℕ) → Thread
  put_scan : (key val j : ℕ) (empty : Option ℕ) → Thread
  put_grow : (key val : ℕ) → Thread
  put_val : (key val at : ℕ) → Thread
  put_key : (key val at : ℕ) → Thread
  put_unlock : (key val : ℕ) (answer : Bool) → Thread
  remove_scan : (key j : ℕ) → Thread
  remove_cas : (key j : ℕ) → Thread
  remove_val : (key j took : ℕ) → Thread
  remove_zero : (key j took val : ℕ) → Thread

-- What a step does for the callers: an entry is added or taken, or a call returns.
pub data Event : Type 0 where
  none_yet : Event
  adds : (key val : ℕ) → Event
  takes : (key val : ℕ) → Event
  put_returns : (key val : ℕ) (answer : Bool) → Event
  remove_returns : (key took val : ℕ) → Event
  remove_fails : (key : ℕ) → Event

pub record Outcome : Type 0 where
  pub bin : Bin
  pub thread : Thread
  pub event : Event

abbrev pub outcome : Bin → Thread → Event → Outcome
outcome b t e = record { bin = b; thread = t; event = e }

-- `bucket->next = clht_bucket_create(hashtable)`, with what `memalign` leaves in `val`
abbrev pub grown : (ℕ → ℕ) → Bin → Bin
grown junk b = record b {
  len = b.len + entries_per_bucket;
  key = λ i. if ltb i b.len then b.key i else 0;
  val = λ i. if ltb i b.len then b.val i else junk i;
}

-- A thread that waits for the lock stays where it is.
unfoldable pub advance : (ℕ → ℕ) → Thread → Bin → Outcome
advance junk idle b = outcome b idle none_yet
advance junk (put_exists key val j) b =
    if ltb j b.len
    then (if b.key j == key
        then outcome b idle (put_returns key val false)
        else outcome b (put_exists key val (suc j)) none_yet)
    else outcome b (put_lock key val) none_yet
advance junk (put_lock key val) b =
    if b.lock == lock_free
    then outcome (record b { lock = lock_update }) (put_scan key val 0 none) none_yet
    else outcome b (put_lock key val) none_yet
advance junk (put_scan key val j empty) b =
    if ltb j b.len
    then (if b.key j == key
        then outcome b (put_unlock key val false) none_yet
        else outcome b
            (put_scan key val (suc j) (if is_none empty && (b.key j == 0) then some j else empty))
            none_yet)
    else elim empty [
      | none ↦ outcome b (put_grow key val) none_yet
      | some at ↦ outcome b (put_val key val at) none_yet
    ]
advance junk (put_grow key val) b = outcome (grown junk b) (put_val key val b.len) none_yet
advance junk (put_val key val at) b =
    outcome (record b { val = put_at b.val at val }) (put_key key val at) none_yet
advance junk (put_key key val at) b =
    outcome (record b { key = put_at b.key at key }) (put_unlock key val true) (adds key val)
advance junk (put_unlock key val answer) b =
    outcome (record b { lock = lock_free }) idle (put_returns key val answer)
advance junk (remove_scan key j) b =
    if ltb j b.len
    then (if b.key j == key
        then outcome b (remove_cas key j) none_yet
        else outcome b (remove_scan key (suc j)) none_yet)
    else outcome b idle (remove_fails key)
advance junk (remove_cas key j) b =
    if b.key j == key
    then outcome (record b { key = put_at b.key j key_blck }) (remove_val key j (b.val j))
        (takes key (b.val j))
    else outcome b idle (remove_fails key)
advance junk (remove_val key j took) b = outcome b (remove_zero key j took (b.val j)) none_yet
advance junk (remove_zero key j took val) b =
    outcome (record b { key = put_at b.key j 0 }) idle (remove_returns key took val)

pub record System : Type 0 where
  pub bin : Bin
  pub threads : ℕ → Thread

abbrev pub with_thread : (ℕ → Thread) → ℕ → Thread → ℕ → Thread
with_thread ts t x u = if t == u then x else ts u

-- A key that a caller may use: 0 marks an empty slot, and KEY_BLCK one whose entry was just taken.
pub record IsKey (k : ℕ) : Type 0 where
  pub used : k ≢ 0
  pub plain : k ≢ key_blck

-- A thread makes one step, or an idle thread enters a call.
pub data Step (junk : ℕ → ℕ) : System → Event → System → Type 0 where
  moves :
      {y : System} (t : ℕ) (o : Outcome)
      → o ≡ advance junk (y.threads t) y.bin
      → Step junk y o.event (record { bin = o.bin; threads = with_thread y.threads t o.thread })
  calls_put :
      {y : System} (t key val : ℕ)
      → y.threads t ≡ idle
      → IsKey key
      → Step junk y none_yet (record y { threads = with_thread y.threads t (put_exists key val 0) })
  calls_remove :
      {y : System} (t key : ℕ)
      → y.threads t ≡ idle
      → IsKey key
      → Step junk y none_yet (record y { threads = with_thread y.threads t (remove_scan key 0) })

-- A bin after `memset`.
abbrev pub empty_bin : Bin
empty_bin = record { lock = lock_free; len = entries_per_bucket; key = λ i. 0; val = λ i. 0 }

pub data Reach (junk : ℕ → ℕ) : System → Type 0 where
  start : Reach junk (record { bin = empty_bin; threads = λ t. idle })
  then_step : {y : System} {e : Event} {z : System} → Reach junk y → Step junk y e z → Reach junk z

-- ===== src/LbRes/Threads.antt =====
-- Any number of threads in `clht_put`, `clht_remove` and `ht_resize_pes` of clht_lb_res.c. A thread is
-- the point of the code that it has reached; one step is one access to a lock, to `h->ht`, to
-- `table_new` or to a slot of the search without a lock, and the work under the lock of a bucket,
-- with its release, is one step, as is the copy of one bucket. The tables are numbered in the order
-- in which `h->ht` points to them.
-- `ht_status` counts the table while others write to it; its decision is a parameter of the step. It
-- runs only after a put that has reached the threshold.
pub mod Work
pub mod Copying
pub mod Frontier
pub mod Invariant
pub mod Transfer
pub mod Effects
pub mod Kept
pub mod Steps
pub mod Answers
pub mod Finish
pub mod Start
pub mod Moving
pub mod All
pub mod Waits
pub mod Blocked
pub mod Progress
use cht_bench.Prelude.{
  ℕ, suc, ◌+◌, ◌*◌, ◌≡◌, ◌≢◌, Bool, true, false, not, Option, none, some, ◌==◌, ltb, leb,
  if◌then◌else◌, get_elem?,
}
use cht_bench.Prelude.Run.{Run, ok, fault, ◌>>=◌}
use cht_bench.Hash.{u64, next_int32}
use cht_bench.Chain.{Chain, first, with_lock}
use cht_bench.Chain.Laws.{slots}
use cht_bench.LbRes.{
  Hashtable, Memory, lock_free, hashtable_create, hash, bucket_at, with_bucket, lock_acq_chk_resize,
}
use cht_bench.LbRes.Ops.{put_locked, remove_locked}
use cht_bench.LbRes.Seq.{bucket_cpy}
use cht_bench.LbRes.Resize.{tas_taken}

-- `clht_t` and the tables it has pointed to.
pub record Store : Type 0 where
  pub tables : ℕ → Hashtable
  pub current : ℕ
  pub resize_lock : ℕ

-- A call that updates the table.
pub data Update : Type 0 where
  put_of : (key val : ℕ) → Update
  remove_of : (key : ℕ) → Update

abbrev pub key_of : Update → ℕ
key_of (put_of key val) = key
key_of (remove_of key) = key

-- The next thing a thread does; `t` is the number of its `hashtable`.
pub data Thread : Type 0 where
  idle : Thread
  enter : (call : Update) → Thread
  exists : (call : Update) (t at : ℕ) → Thread
  acquire : (call : Update) (t : ℕ) → Thread
  again : (call : Update) → Thread
  locked : (call : Update) (t : ℕ) → Thread
  status : Thread
  start_resize : (by : ℕ) → Thread
  trylock : (by ht_old : ℕ) → Thread
  copy : (ht_old b : ℕ) (ht_new : Hashtable) → Thread
  publish : (ht_old : ℕ) (resize_again : Bool) → Thread
  unlock : (resize_again : Bool) → Thread

-- What a step has done: nothing that a caller sees, a call that has failed its first search, or the
-- work under the lock with its result.
pub data Event : Type 0 where
  silent : Event
  fails : (call : Update) → Event
  put_did : (key val : ℕ) (answer : Bool) → Event
  remove_did : (key result : ℕ) → Event

pub record Outcome : Type 0 where
  pub store : Store
  pub thread : Thread
  pub event : Event

abbrev pub outcome : Store → Thread → Event → Outcome
outcome y t e = record { store = y; thread = t; event = e }

abbrev pub with_table : Store → ℕ → Hashtable → Store
with_table y t h = record y { tables = λ u. if t == u then h else y.tables u }

-- After `bucket_exists`: a put goes on where the key is absent, a removal where it is there.
abbrev pub after_exists : Update → ℕ → Bool → Store → Outcome
after_exists (put_of key val) t true y = outcome y idle (fails (put_of key val))
after_exists (put_of key val) t false y = outcome y (acquire (put_of key val) t) silent
after_exists (remove_of key) t true y = outcome y (acquire (remove_of key) t) silent
after_exists (remove_of key) t false y = outcome y idle (fails (remove_of key))

-- The work of a call under the lock, and the release.
unfoldable pub work : Memory → Update → ℕ → Chain → Store → Run Outcome
unfolding hash put_locked remove_locked
work mem (put_of key val) t c y =
    let h = y.tables t in
    put_locked mem h (hash h key) c key val >>= λ (answer, h', resize).
    ok (outcome (with_table y t h') (if resize then status else idle) (put_did key val answer))
work mem (remove_of key) t c y =
    let h = y.tables t in
    remove_locked h (hash h key) c key >>= λ (result, h').
    ok (outcome (with_table y t h') idle (remove_did key result))

-- `while (!LOCK_ACQ(lock, hashtable)) hashtable = h->ht`: a taken lock makes the thread wait.
unfoldable pub try_acquire : Update → ℕ → Chain → Store → Run Outcome
unfolding lock_acq_chk_resize hash with_lock
try_acquire call t c y =
    let h = y.tables t in
    lock_acq_chk_resize (first c).lock h >>= λ a. elim a [
      | none ↦ ok (outcome y (again call) silent)
      | some l ↦ ok (
          outcome (with_table y t (with_bucket h (hash h (key_of call)) (with_lock l c)))
            (locked call t) silent)
    ]

-- `TRYLOCK_ACQ(&h->resize_lock)` and the new table.
unfoldable pub try_resize : Memory → ℕ → ℕ → Store → Run Outcome
unfolding hashtable_create
try_resize mem by ht_old y =
    let h = y.tables ht_old in
    let held = record y { resize_lock = tas_taken } in
    if not (y.resize_lock == lock_free)
    then ok (outcome held idle silent)
    else elim (hashtable_create mem (u64 (by * h.num_buckets))) [
      | none ↦ fault
      | some created ↦
          ok
            (outcome held (copy ht_old 0 (record created { version = u64 (h.version + 1) })) silent)
    ]

-- `SWAP_U64((uint64_t*) h, (uint64_t) ht_new)`
abbrev pub swap : Store → Hashtable → Store
swap y ht_new = record (with_table y (suc y.current) ht_new) { current = suc y.current }

-- One round of the loop over the old buckets, whose counter is an `int32_t`, or the swap after it.
unfoldable pub copy_next : Memory → ℕ → ℕ → Hashtable → Store → Run Outcome
unfolding bucket_cpy bucket_at next_int32
copy_next mem ht_old b ht_new y =
    let h = y.tables ht_old in
    let round = bucket_at h b >>= λ c. bucket_cpy mem c ht_new >>= λ (c', ht_new').
    next_int32 b >>= λ b'.
    ok (outcome (with_table y ht_old (with_bucket h b c')) (copy ht_old b' ht_new') silent) in
    if ltb b h.num_buckets
    then round
    else ok (
        outcome (swap y ht_new)
          (publish ht_old (leb ht_new.num_expands_threshold ht_new.num_expands)) silent)

-- One step of a thread. `decision` is what `ht_status` decides: a resize by a factor, or none.
unfoldable pub advance : Memory → Option ℕ → Thread → Store → Run Outcome
unfolding hash bucket_at work try_acquire try_resize copy_next
advance mem decision idle y = ok (outcome y idle silent)
advance mem decision (enter call) y = ok (outcome y (exists call y.current 0) silent)
advance mem decision (exists call t at) y =
    let h = y.tables t in
    bucket_at h (hash h (key_of call)) >>= λ c. elim (get_elem? (slots c) at) [
      | none ↦ ok (after_exists call t false y)
      | some s ↦
          if s.key == key_of call
          then ok (after_exists call t true y)
          else ok (outcome y (exists call t (suc at)) silent)
    ]
advance mem decision (acquire call t) y =
    let h = y.tables t in bucket_at h (hash h (key_of call)) >>= λ c. try_acquire call t c y
advance mem decision (again call) y = ok (outcome y (acquire call y.current) silent)
advance mem decision (locked call t) y =
    let h = y.tables t in bucket_at h (hash h (key_of call)) >>= λ c. work mem call t c y
advance mem none status y = ok (outcome y idle silent)
advance mem (some by) status y = ok (outcome y (start_resize by) silent)
advance mem decision (start_resize by) y = ok (outcome y (trylock by y.current) silent)
advance mem decision (trylock by ht_old) y = try_resize mem by ht_old y
advance mem decision (copy ht_old b ht_new) y = copy_next mem ht_old b ht_new y
advance mem decision (publish ht_old resize_again) y =
    let h = y.tables ht_old in
    ok (outcome (with_table y ht_old (record h { has_new = true })) (unlock resize_again) silent)
advance mem decision (unlock resize_again) y =
    ok (
      outcome (record y { resize_lock = lock_free }) (if resize_again then status else idle) silent)

pub record System : Type 0 where
  pub store : Store
  pub threads : ℕ → Thread

abbrev pub with_thread : (ℕ → Thread) → ℕ → Thread → ℕ → Thread
with_thread ts a th b = if a == b then th else ts b

abbrev pub stepped : System → ℕ → Outcome → System
stepped y a o = record { store = o.store; threads = with_thread y.threads a o.thread }

-- A thread makes a step that neither waits nor faults, or an idle thread enters a call.
pub data Step (mem : Memory) : System → Event → System → Type 0 where
  moves :
      {y : System} (a : ℕ) (decision : Option ℕ) (o : Outcome)
      → advance mem decision (y.threads a) y.store ≡ ok o
      → Step mem y o.event (stepped y a o)
  calls :
      {y : System} (a : ℕ) (call : Update)
      → y.threads a ≡ idle
      → key_of call ≢ 0
      → Step mem y silent (record y { threads = with_thread y.threads a (enter call) })

-- The states that follow `clht_create` of a table `h`.
pub data Reach (mem : Memory) (h : Hashtable) : System → Type 0 where
  start : Reach mem h (record {
    store = record { tables = λ t. h; current = 0; resize_lock = lock_free };
    threads = λ a. idle;
  })
  then_step : {y : System} {e : Event} {z : System} → Reach mem h y → Step mem y e z → Reach mem h z

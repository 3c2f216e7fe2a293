-- ===== src/Lf.antt =====
-- One bucket of the lock-free table, src/clht/src/clht_lf.c with clht_lf.h, and the threads that put,
-- remove and get in it. A thread is the point of the code that it has reached; one step is one
-- access to the shared bucket, or a decision on local variables. The table is an array of such
-- buckets, which share nothing.
-- An array of KEY_BUCKT elements is a function on its indices.
pub mod Laws
use cht_bench.Prelude.{
  ℕ, zero, suc, ◌+◌, ◌≡◌, ◌≢◌, Bool, true, false, ◌&&◌, Option, none, some, ◌==◌, ltb,
  if◌then◌else◌,
}
use cht_bench.Hash.{u32}

abbrev pub key_buckt : ℕ
key_buckt = 3

abbrev pub map_invld : ℕ
map_invld = 0

abbrev pub map_valid : ℕ
map_valid = 1

abbrev pub map_insrt : ℕ
map_insrt = 2

-- `clht_snapshot_t`
pub record Snapshot : Type 0 where
  pub version : ℕ
  pub map : ℕ → ℕ

-- `bucket_t`
pub record Bucket : Type 0 where
  pub snapshot : Snapshot
  pub key : ℕ → ℕ
  pub val : ℕ → ℕ

-- An array with one element replaced.
abbrev pub put_at : (ℕ → ℕ) → ℕ → ℕ → ℕ → ℕ
put_at f i x j = if i == j then x else f j

-- `bucket->snapshot == s`, the test of `CAS_U64`
unfoldable pub same_snapshot : Snapshot → Snapshot → Bool
same_snapshot s t =
    s.version == t.version && (s.map 0 == t.map 0 && (s.map 1 == t.map 1 && s.map 2 == t.map 2))

-- The first index from `i` on that is MAP_INVLD, with `left` indices to look at.
unfoldable pub empty_from : ℕ → ℕ → (ℕ → ℕ) → Option ℕ
empty_from zero i map = none
empty_from (suc left) i map =
    let rest = empty_from left (suc i) map in if map i == map_invld then some i else rest

unfoldable pub snap_get_empty_index : Snapshot → Option ℕ
unfolding empty_from
snap_get_empty_index s = empty_from key_buckt 0 s.map

abbrev pub snap_set_map : Snapshot → ℕ → ℕ → Snapshot
snap_set_map s index val = record s { map = put_at s.map index val }

abbrev pub snap_set_map_and_inc_version : Snapshot → ℕ → ℕ → Snapshot
snap_set_map_and_inc_version s index val = record {
  version = u32 (s.version + 1);
  map = put_at s.map index val;
}

-- Where `clht_bucket_search` is: it reads `val[i]`, `map[i]`, `key[i]`, and `val[i]` again, or has
-- its result.
pub data Probe : Type 0 where
  at_val : (i : ℕ) → Probe
  at_map : (i val : ℕ) → Probe
  at_key : (i val : ℕ) → Probe
  at_again : (i val : ℕ) → Probe
  found : (val : ℕ) → Probe

abbrev pub next_slot : ℕ → Probe
next_slot i = if ltb (suc i) key_buckt then at_val (suc i) else found 0

unfoldable pub bucket_search : ℕ → Bucket → Probe → Probe
bucket_search key b (at_val i) = at_map i (b.val i)
bucket_search key b (at_map i w) = if b.snapshot.map i == map_valid then at_key i w else next_slot i
bucket_search key b (at_key i w) = if b.key i == key then at_again i w else next_slot i
bucket_search key b (at_again i w) = found (if b.val i == w then w else 0)
bucket_search key b (found r) = found r

-- The next thing a thread does. `empty` is `empty_index`, with `none` for the negative values.
pub data Thread : Type 0 where
  idle : Thread
  put_retry : (key val : ℕ) (empty : Option ℕ) → Thread
  put_search : (key val : ℕ) (empty : Option ℕ) (s : Snapshot) (at : Probe) → Thread
  put_undo : (key val i : ℕ) → Thread
  put_reserve : (key val : ℕ) (s : Snapshot) (i : ℕ) → Thread
  put_val : (key val : ℕ) (s1 : Snapshot) (i : ℕ) → Thread
  put_key : (key val : ℕ) (s1 : Snapshot) (i : ℕ) → Thread
  put_commit : (key val : ℕ) (s1 : Snapshot) (i : ℕ) → Thread
  remove_retry : (key : ℕ) → Thread
  remove_key : (key : ℕ) (s : Snapshot) (i : ℕ) → Thread
  remove_val : (key : ℕ) (s : Snapshot) (i : ℕ) → Thread
  remove_cas : (key : ℕ) (s : Snapshot) (i val : ℕ) → Thread
  get_search : (key : ℕ) (at : Probe) → Thread

-- What a call returns.
pub data Event : Type 0 where
  none_yet : Event
  put_returns : (key val : ℕ) (answer : Bool) → Event
  remove_returns : (key val : ℕ) → Event
  get_returns : (key val : ℕ) → Event

pub record Outcome : Type 0 where
  pub bucket : Bucket
  pub thread : Thread
  pub event : Event

abbrev pub outcome : Bucket → Thread → Event → Outcome
outcome b t e = record { bucket = b; thread = t; event = e }

-- `clht_put` after the search.
unfoldable pub after_search : ℕ → ℕ → Option ℕ → Snapshot → ℕ → Bucket → Outcome
after_search key val none s zero b = elim (snap_get_empty_index s) [
  | none ↦ outcome b (put_retry key val none) none_yet
  | some i ↦ outcome b (put_reserve key val s i) none_yet
]
after_search key val (some i) s zero b =
    outcome b (put_commit key val (snap_set_map s i map_insrt) i) none_yet
after_search key val none s (suc r) b = outcome b idle (put_returns key val false)
after_search key val (some i) s (suc r) b = outcome b (put_undo key val i) none_yet

unfoldable pub advance : Thread → Bucket → Outcome
unfolding bucket_search after_search
advance idle b = outcome b idle none_yet
advance (put_retry key val e) b = outcome b (put_search key val e b.snapshot (at_val 0)) none_yet
advance (put_search key val e s (found r)) b = after_search key val e s r b
advance (put_search key val e s p) b =
    outcome b (put_search key val e s (bucket_search key b p)) none_yet
advance (put_undo key val i) b =
    outcome (record b { snapshot = snap_set_map b.snapshot i map_invld }) idle
      (put_returns key val false)
advance (put_reserve key val s i) b =
    let s1 = snap_set_map s i map_insrt in
    if same_snapshot b.snapshot s
    then outcome (record b { snapshot = s1 }) (put_val key val s1 i) none_yet
    else outcome b (put_retry key val none) none_yet
advance (put_val key val s1 i) b =
    outcome (record b { val = put_at b.val i val }) (put_key key val s1 i) none_yet
advance (put_key key val s1 i) b =
    outcome (record b { key = put_at b.key i key }) (put_commit key val s1 i) none_yet
advance (put_commit key val s1 i) b =
    if same_snapshot b.snapshot s1
    then outcome (record b { snapshot = snap_set_map_and_inc_version s1 i map_valid }) idle
        (put_returns key val true)
    else outcome b (put_retry key val (some i)) none_yet
advance (remove_retry key) b = outcome b (remove_key key b.snapshot 0) none_yet
advance (remove_key key s i) b =
    if b.key i == key && s.map i == map_valid
    then outcome b (remove_val key s i) none_yet
    else if ltb (suc i) key_buckt
    then outcome b (remove_key key s (suc i)) none_yet
    else outcome b idle (remove_returns key 0)
advance (remove_val key s i) b = outcome b (remove_cas key s i (b.val i)) none_yet
advance (remove_cas key s i removed) b =
    if same_snapshot b.snapshot s
    then outcome (record b { snapshot = snap_set_map s i map_invld }) idle
        (remove_returns key removed)
    else outcome b (remove_retry key) none_yet
advance (get_search key (found r)) b = outcome b idle (get_returns key r)
advance (get_search key p) b = outcome b (get_search key (bucket_search key b p)) none_yet

-- The bucket, the threads by number, and how many calls of `clht_put` have returned true.
pub record System : Type 0 where
  pub bucket : Bucket
  pub threads : ℕ → Thread
  pub inserted : ℕ

abbrev pub counts : Event → ℕ
counts (put_returns key val true) = 1
counts e = 0

abbrev pub with_thread : (ℕ → Thread) → ℕ → Thread → ℕ → Thread
with_thread ts t x u = if t == u then x else ts u

-- The next step of thread `t`.
abbrev pub stepped : System → ℕ → Outcome → System
stepped y t o = record {
  bucket = o.bucket;
  threads = with_thread y.threads t o.thread;
  inserted = y.inserted + counts o.event;
}

-- A thread makes one step, with what its call returns, or an idle thread enters a call. A put takes
-- a value other than 0, the value that stands for "not there".
pub data Step : System → Event → System → Type 0 where
  moves :
      {y : System} (t : ℕ) (o : Outcome)
      → o ≡ advance (y.threads t) y.bucket
      → Step y o.event (stepped y t o)
  calls_put :
      {y : System} (t key val : ℕ)
      → y.threads t ≡ idle
      → val ≢ 0
      → Step y none_yet (record y { threads = with_thread y.threads t (put_retry key val none) })
  calls_remove :
      {y : System} (t key : ℕ)
      → y.threads t ≡ idle
      → Step y none_yet (record y { threads = with_thread y.threads t (remove_retry key) })
  calls_get :
      {y : System} (t key : ℕ)
      → y.threads t ≡ idle
      → Step y none_yet (record y { threads = with_thread y.threads t (get_search key (at_val 0)) })

-- `clht_bucket_create`, with what `memalign` leaves in `val`
abbrev pub bucket_create : (ℕ → ℕ) → Bucket
bucket_create junk = record {
  snapshot = record { version = 0; map = λ i. map_invld };
  key = λ i. 0;
  val = junk;
}

pub data Reach (junk : ℕ → ℕ) : System → Type 0 where
  start : Reach junk (record { bucket = bucket_create junk; threads = λ t. idle; inserted = 0 })
  then_step : {y : System} {e : Event} {z : System} → Reach junk y → Step y e z → Reach junk z

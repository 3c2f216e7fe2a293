-- ===== src/Lf/Laws/Typed.antt =====
-- What it is for the fields of a bucket and the local variables of a thread to be in the range of
-- their C types.
use cht_bench.Prelude.{
  ℕ, suc, ◌^◌, ◌<◌, Bool, true, false, Option, none, some, arith, ◌==◌, ltb, if◌then◌else◌, inl,
  inr, Bool-cases,
}
use cht_bench.Lf.{
  Snapshot, Bucket, put_at, snap_set_map, snap_set_map_and_inc_version, key_buckt, map_valid, Probe,
  at_val, at_map, at_key, at_again, found, next_slot, bucket_search, Thread, idle, put_retry,
  put_search, put_undo, put_reserve, put_val, put_key, put_commit, remove_retry, remove_key,
  remove_val, remove_cas, get_search, Event, none_yet, put_returns, remove_returns, get_returns,
  Outcome, outcome,
}

-- `uintptr_t`
abbrev pub IsWord : ℕ → Type 0
IsWord x = x < 2 ^ 64

-- `clht_snapshot_t`: a `uint32_t` and `uint8_t`s
pub record IsSnapshot (s : Snapshot) : Type 0 where
  pub version : s.version < 2 ^ 32
  pub map : (j : ℕ) → s.map j < 2 ^ 8

pub record IsBucket (b : Bucket) : Type 0 where
  pub snapshot : IsSnapshot b.snapshot
  pub key : (j : ℕ) → IsWord (b.key j)
  pub val : (j : ℕ) → IsWord (b.val j)

-- An index into the arrays of a bucket, or a negative one
abbrev pub IsIndex : Option ℕ → Type 0
IsIndex none = Unit
IsIndex (some i) = i < key_buckt

abbrev pub IsProbe : Probe → Type 0
IsProbe (at_val i) = i < key_buckt
IsProbe (at_map i val) = (i < key_buckt) × IsWord val
IsProbe (at_key i val) = (i < key_buckt) × IsWord val
IsProbe (at_again i val) = (i < key_buckt) × IsWord val
IsProbe (found val) = IsWord val

abbrev pub IsThread : Thread → Type 0
IsThread idle = Unit
IsThread (put_retry key val e) = IsWord key × IsWord val × IsIndex e
IsThread (put_search key val e s p) = IsWord key × IsWord val × IsIndex e × IsSnapshot s × IsProbe p
IsThread (put_undo key val i) = IsWord key × IsWord val × (i < key_buckt)
IsThread (put_reserve key val s i) = IsWord key × IsWord val × IsSnapshot s × (i < key_buckt)
IsThread (put_val key val s i) = IsWord key × IsWord val × IsSnapshot s × (i < key_buckt)
IsThread (put_key key val s i) = IsWord key × IsWord val × IsSnapshot s × (i < key_buckt)
IsThread (put_commit key val s i) = IsWord key × IsWord val × IsSnapshot s × (i < key_buckt)
IsThread (remove_retry key) = IsWord key
IsThread (remove_key key s i) = IsWord key × IsSnapshot s × (i < key_buckt)
IsThread (remove_val key s i) = IsWord key × IsSnapshot s × (i < key_buckt)
IsThread (remove_cas key s i val) = IsWord key × IsSnapshot s × (i < key_buckt) × IsWord val
IsThread (get_search key p) = IsWord key × IsProbe p

abbrev pub IsEvent : Event → Type 0
IsEvent none_yet = Unit
IsEvent (put_returns key val answer) = IsWord key × IsWord val
IsEvent (remove_returns key val) = IsWord key × IsWord val
IsEvent (get_returns key val) = IsWord key × IsWord val

pub record IsTyped (o : Outcome) : Type 0 where
  pub bucket : IsBucket o.bucket
  pub thread : IsThread o.thread
  pub event : IsEvent o.event

pub put_at-lt :
    (w : ℕ) (f : ℕ → ℕ) (i x : ℕ) → ((j : ℕ) → f j < w) → x < w → (j : ℕ) → put_at f i x j < w
put_at-lt w f i x all small j = ground (arith, all j)

pub snap_set_map-IsSnapshot :
    (s : Snapshot) (i m : ℕ) → IsSnapshot s → m < 2 ^ 8 → IsSnapshot (snap_set_map s i m)
snap_set_map-IsSnapshot s i m typed small = record {
  version = typed.version;
  map = put_at-lt (2 ^ 8) s.map i m typed.map small;
}

pub snap_inc-IsSnapshot :
    (s : Snapshot) (i m : ℕ)
    → IsSnapshot s
    → m < 2 ^ 8
    → IsSnapshot (snap_set_map_and_inc_version s i m)
snap_inc-IsSnapshot s i m typed small = record {
  version = omega arith;
  map = put_at-lt (2 ^ 8) s.map i m typed.map small;
}

-- Both outcomes of a test.
pub either : (c : Bool) (o o' : Outcome) → IsTyped o → IsTyped o' → IsTyped (if c then o else o')
either true o o' typed typed' = typed
either false o o' typed typed' = typed'

-- A step that leaves the bucket alone and returns nothing.
pub quiet : (b : Bucket) (t : Thread) → IsBucket b → IsThread t → IsTyped (outcome b t none_yet)
quiet b t bucket thread = record { bucket = bucket; thread = thread; event = tt }

next_slot-IsProbe : (i : ℕ) → IsProbe (next_slot i)
next_slot-IsProbe i = elim (Bool-cases (ltb (suc i) key_buckt)) [
  | inl more ↦ rw more (ground arith)
  | inr last ↦ rw last (omega arith)
]

probe_either : (c : Bool) (p p' : Probe) → IsProbe p → IsProbe p' → IsProbe (if c then p else p')
probe_either true p p' h h' = h
probe_either false p p' h h' = h'

pub bucket_search-IsProbe :
    (k : ℕ) (b : Bucket) (p : Probe) → IsBucket b → IsProbe p → IsProbe (bucket_search k b p)
unfolding bucket_search
bucket_search-IsProbe k b (at_val i) bucket h = (h, bucket.val i)
bucket_search-IsProbe k b (at_map i w) bucket h =
    probe_either (b.snapshot.map i == map_valid) _ _ h (next_slot-IsProbe i)
bucket_search-IsProbe k b (at_key i w) bucket h =
    probe_either (b.key i == k) _ _ h (next_slot-IsProbe i)
bucket_search-IsProbe k b (at_again i w) bucket h = ground arith
bucket_search-IsProbe k b (found r) bucket h = h

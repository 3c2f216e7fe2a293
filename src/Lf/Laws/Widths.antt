-- ===== src/Lf/Laws/Widths.antt =====
-- Every step of a thread keeps the fields and local variables in the range of their C types.
use cht_bench.Prelude.{
  ℕ, zero, suc, ◌^◌, Option, none, some, arith, ◌==◌, ltb, ◌&&◌, inl, inr, Option-cases, Bool-cases,
}
use cht_bench.Lf.{
  Snapshot, Bucket, snap_set_map, key_buckt, map_invld, map_valid, map_insrt, same_snapshot,
  snap_get_empty_index, Probe, at_val, at_map, at_key, at_again, found, bucket_search, Thread, idle,
  put_retry, put_search, put_undo, put_reserve, put_val, put_key, put_commit, remove_retry,
  remove_key, remove_val, remove_cas, get_search, Event, none_yet, outcome, after_search, advance,
  System, stepped,
}
use cht_bench.Lf.Laws.Snapshots.{snap_get_empty_index-lt}
use cht_bench.Lf.Laws.Typed.{
  IsWord, IsSnapshot, IsBucket, IsIndex, IsThread, IsEvent, IsTyped, put_at-lt,
  snap_set_map-IsSnapshot, snap_inc-IsSnapshot, either, quiet, bucket_search-IsProbe,
}

module _ (b : Bucket) (bucket : IsBucket b) where
  after_search-IsTyped :
      (key val : ℕ) (e : Option ℕ) (s : Snapshot) (r : ℕ)
      → IsWord key
      → IsWord val
      → IsIndex e
      → IsSnapshot s
      → IsTyped (after_search key val e s r b)
  unfolding after_search
  after_search-IsTyped key val none s zero k v i typed =
      elim (Option-cases (snap_get_empty_index s)) [
        | inl n ↦ rw (n, after_search) (quiet b (put_retry key val none) bucket (k, v, tt))
        | inr (j, n) ↦
            let (inside, free) = snap_get_empty_index-lt s j n in
            rw (n, after_search) (quiet b (put_reserve key val s j) bucket (k, v, typed, inside))
      ]
  after_search-IsTyped key val (some j) s zero k v i typed =
      quiet b (put_commit key val (snap_set_map s j map_insrt) j) bucket
        (k, v, snap_set_map-IsSnapshot s j map_insrt typed (omega arith), i)
  after_search-IsTyped key val none s (suc r) k v i typed = record {
    bucket = bucket;
    thread = tt;
    event = (k, v);
  }
  after_search-IsTyped key val (some j) s (suc r) k v i typed =
      quiet b (put_undo key val j) bucket (k, v, i)

  -- The bucket with another snapshot.
  marked : (s : Snapshot) → IsSnapshot s → IsBucket (record b { snapshot = s })
  marked s typed = record { snapshot = typed; key = bucket.key; val = bucket.val }

  -- A call that returns.
  ends :
      (s : Snapshot) (e : Event)
      → IsSnapshot s
      → IsEvent e
      → IsTyped (outcome (record b { snapshot = s }) idle e)
  ends s e typed event = record { bucket = marked s typed; thread = tt; event = event }

  put_searches :
      (key val : ℕ) (e : Option ℕ) (s : Snapshot) (p : Probe)
      → IsThread (put_search key val e s p)
      → IsTyped (outcome b (put_search key val e s (bucket_search key b p)) none_yet)
  put_searches key val e s p (k, v, i, typed, h) =
      quiet b (put_search key val e s (bucket_search key b p)) bucket
        (k, v, i, typed, bucket_search-IsProbe key b p bucket h)

  get_searches :
      (key : ℕ) (p : Probe)
      → IsThread (get_search key p)
      → IsTyped (outcome b (get_search key (bucket_search key b p)) none_yet)
  get_searches key p (k, h) =
      quiet b (get_search key (bucket_search key b p)) bucket
        (k, bucket_search-IsProbe key b p bucket h)

  advance_put_reserve-IsTyped :
      (key val i : ℕ) (s : Snapshot)
      → IsThread (put_reserve key val s i)
      → IsTyped (advance (put_reserve key val s i) b)
  unfolding advance
  advance_put_reserve-IsTyped key val i s (k, v, typed, inside) =
      let s1 = snap_set_map-IsSnapshot s i map_insrt typed (omega arith) in
      either (same_snapshot b.snapshot s) _ _
        (record { bucket = marked _ s1; thread = (k, v, s1, inside); event = tt })
        (quiet b (put_retry key val none) bucket (k, v, tt))

  advance_remove_key-IsTyped :
      (key i : ℕ) (s : Snapshot)
      → IsThread (remove_key key s i)
      → IsTyped (advance (remove_key key s i) b)
  unfolding advance
  advance_remove_key-IsTyped key i s (k, typed, inside) =
      either (b.key i == key && s.map i == map_valid) _ _
        (quiet b (remove_val key s i) bucket (k, typed, inside))
        (elim (Bool-cases (ltb (suc i) key_buckt)) [
          | inl more ↦ rw more (quiet b (remove_key key s (suc i)) bucket (k, typed, ground arith))
          | inr last ↦ rw last (ends b.snapshot _ bucket.snapshot (k, omega arith))
        ])

  advance-IsTyped : (t : Thread) → IsThread t → IsTyped (advance t b)
  unfolding advance
  advance-IsTyped idle h = quiet b idle bucket tt
  advance-IsTyped (put_retry key val e) (k, v, i) =
      quiet b (put_search key val e b.snapshot (at_val 0)) bucket
        (k, v, i, bucket.snapshot, omega arith)
  advance-IsTyped (put_search key val e s (found r)) (k, v, i, typed, p) =
      after_search-IsTyped key val e s r k v i typed
  advance-IsTyped (put_search key val e s (at_val j)) h = put_searches key val e s (at_val j) h
  advance-IsTyped (put_search key val e s (at_map j w)) h = put_searches key val e s (at_map j w) h
  advance-IsTyped (put_search key val e s (at_key j w)) h = put_searches key val e s (at_key j w) h
  advance-IsTyped (put_search key val e s (at_again j w)) h =
      put_searches key val e s (at_again j w) h
  advance-IsTyped (put_undo key val i) (k, v, inside) =
      ends _ _ (snap_set_map-IsSnapshot b.snapshot i map_invld bucket.snapshot (omega arith)) (k, v)
  advance-IsTyped (put_reserve key val s i) h = advance_put_reserve-IsTyped key val i s h
  advance-IsTyped (put_val key val s1 i) h = record {
    bucket = record {
      snapshot = bucket.snapshot;
      key = bucket.key;
      val = put_at-lt (2 ^ 64) b.val i val bucket.val h.1;
    };
    thread = h;
    event = tt;
  }
  advance-IsTyped (put_key key val s1 i) h = record {
    bucket = record {
      snapshot = bucket.snapshot;
      key = put_at-lt (2 ^ 64) b.key i key bucket.key h.0;
      val = bucket.val;
    };
    thread = h;
    event = tt;
  }
  advance-IsTyped (put_commit key val s1 i) (k, v, typed, inside) =
      either (same_snapshot b.snapshot s1) _ _
        (ends _ _ (snap_inc-IsSnapshot s1 i map_valid typed (omega arith)) (k, v))
        (quiet b (put_retry key val (some i)) bucket (k, v, inside))
  advance-IsTyped (remove_retry key) k =
      quiet b (remove_key key b.snapshot 0) bucket (k, bucket.snapshot, omega arith)
  advance-IsTyped (remove_key key s i) h = advance_remove_key-IsTyped key i s h
  advance-IsTyped (remove_val key s i) (k, typed, inside) =
      quiet b (remove_cas key s i (b.val i)) bucket (k, typed, inside, bucket.val i)
  advance-IsTyped (remove_cas key s i removed) (k, typed, inside, v) =
      either (same_snapshot b.snapshot s) _ _
        (ends _ _ (snap_set_map-IsSnapshot s i map_invld typed (omega arith)) (k, v))
        (quiet b (remove_retry key) bucket k)
  advance-IsTyped (get_search key (found r)) (k, p) = ends b.snapshot _ bucket.snapshot (k, p)
  advance-IsTyped (get_search key (at_val j)) h = get_searches key (at_val j) h
  advance-IsTyped (get_search key (at_map j w)) h = get_searches key (at_map j w) h
  advance-IsTyped (get_search key (at_key j w)) h = get_searches key (at_key j w) h
  advance-IsTyped (get_search key (at_again j w)) h = get_searches key (at_again j w) h

pub record IsSystem (y : System) : Type 0 where
  pub bucket : IsBucket y.bucket
  pub threads : (t : ℕ) → IsThread (y.threads t)

-- A step of any thread on one bucket of the lock-free table, from a state in which every field of
-- the bucket, every snapshot and every local variable of the threads is in the range of its C type
-- (versions 32 bits, marks 8 bits, keys and values 64 bits, indices inside the arrays), leads to
-- such a state, and what a call returns is in range.
pub stepped-IsSystem :
    (y : System) (t : ℕ)
    → IsSystem y
    → IsSystem (stepped y t (advance (y.threads t) y.bucket))
      × IsEvent (advance (y.threads t) y.bucket).event
stepped-IsSystem y t typed =
    let o = advance (y.threads t) y.bucket in
    let after = advance-IsTyped y.bucket typed.bucket (y.threads t) (typed.threads t) in
    (
      record {
        bucket = after.bucket;
        threads = λ u. elim (Bool-cases (t == u)) [
          | inl same ↦ rw same after.thread
          | inr other ↦ rw other (typed.threads u)
        ];
      },
      after.event,
    )

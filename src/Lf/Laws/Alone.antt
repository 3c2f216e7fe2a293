-- ===== src/Lf/Laws/Alone.antt =====
-- A thread that runs alone on a bucket.
use cht_bench.Prelude.{
  ℕ, zero, suc, ◌+◌, ◌-◌, ◌≤◌, ◌≡◌, refl, ◌∙◌, sym, ap, Bool, true, false, none, some, arith, ◌==◌,
  if◌then◌else◌,
}
use cht_bench.Lf.{
  Snapshot, put_search, put_retry, put_reserve, put_val, put_key, put_commit, same_snapshot, put_at,
  snap_set_map, snap_set_map_and_inc_version, map_insrt, snap_get_empty_index, after_search,
  key_buckt, map_valid, Bucket, Probe, at_val, at_map, at_key, at_again, found, bucket_search,
  Thread, idle, get_search, none_yet, put_returns, remove_returns, get_returns, Outcome, outcome,
  advance,
}
use cht_bench.Lf.Laws.Search.{search_steps, lookup, search-lookup}

-- A thread that runs alone, until its call returns or the steps are used up.
unfoldable pub run_alone : ℕ → Thread → Bucket → Outcome
run_alone zero t b = outcome b t none_yet
run_alone (suc n) t b =
    let o = advance t b in
    let rest = run_alone n o.thread o.bucket in
    elim o.event [
      | none_yet ↦ rest
      | put_returns k v answer ↦ o
      | remove_returns k v ↦ o
      | get_returns k v ↦ o
    ]

search_steps-found : (n k q : ℕ) (b : Bucket) → search_steps n k b (found q) ≡ found q
unfolding search_steps bucket_search
search_steps-found zero k q b = refl
search_steps-found (suc n) k q b = search_steps-found n k q b

found_result : (n k q r : ℕ) (b : Bucket) → search_steps n k b (found q) ≡ found r → q ≡ r
found_result n k q r b h =
    let same : found q ≡ found r = sym (search_steps-found n k q b) ∙ h in ground arith

-- A get that runs alone goes on as its search does, and then returns.
get_alone :
    (n k r : ℕ) (b : Bucket) (p : Probe)
    → search_steps n k b p ≡ found r
    → run_alone (suc n) (get_search k p) b ≡ outcome b idle (get_returns k r)
unfolding search_steps run_alone advance
get_alone zero k r b p h = rw h refl
get_alone (suc n) k r b (at_val i) h = get_alone n k r b (bucket_search k b (at_val i)) h
get_alone (suc n) k r b (at_map i w) h = get_alone n k r b (bucket_search k b (at_map i w)) h
get_alone (suc n) k r b (at_key i w) h = get_alone n k r b (bucket_search k b (at_key i w)) h
get_alone (suc n) k r b (at_again i w) h = get_alone n k r b (bucket_search k b (at_again i w)) h
get_alone (suc n) k r b (found q) h = rw (found_result (suc n) k q r b h) refl

-- clht_get of the lock-free table on a bucket that no other thread changes returns, after at most
-- 13 steps, the value of the first valid slot with the key, or 0 where there is none.
pub get_search-lookup :
    (k : ℕ) (b : Bucket)
    → (n : ℕ) × (n ≤ 13)
      × (run_alone n (get_search k (at_val 0)) b
          ≡ outcome b idle (get_returns k (lookup k key_buckt 0 b)))
get_search-lookup k b =
    let (n, few, run) = search-lookup k 2 0 b refl in
    (suc n, omega (arith, few), get_alone n k (lookup k key_buckt 0 b) b (at_val 0) run)

-- A put that runs alone goes on as its search does.
put_alone :
    (n m k v r : ℕ) (s : Snapshot) (b : Bucket) (p : Probe)
    → search_steps n k b p ≡ found r
    → (left : ℕ) × (m ≤ left)
      × (run_alone (n + m) (put_search k v none s p) b
          ≡ run_alone left (put_search k v none s (found r)) b)
unfolding search_steps run_alone advance
put_alone zero m k v r s b p h = let z : 0 + m ≡ m = omega arith in (m, omega arith, rw (z, h) refl)
put_alone (suc n) m k v r s b (found q) h =
    (suc n + m, omega arith, rw (found_result (suc n) k q r b h) refl)
put_alone (suc n) m k v r s b (at_val i) h =
    let z : suc n + m ≡ suc (n + m) = omega arith in
    rw z (put_alone n m k v r s b (bucket_search k b (at_val i)) h)
put_alone (suc n) m k v r s b (at_map i w) h =
    let z : suc n + m ≡ suc (n + m) = omega arith in
    rw z (put_alone n m k v r s b (bucket_search k b (at_map i w)) h)
put_alone (suc n) m k v r s b (at_key i w) h =
    let z : suc n + m ≡ suc (n + m) = omega arith in
    rw z (put_alone n m k v r s b (bucket_search k b (at_key i w)) h)
put_alone (suc n) m k v r s b (at_again i w) h =
    let z : suc n + m ≡ suc (n + m) = omega arith in
    rw z (put_alone n m k v r s b (bucket_search k b (at_again i w)) h)

same_snapshot_refl : (s : Snapshot) → same_snapshot s s ≡ true
unfolding same_snapshot
same_snapshot_refl s = ground arith

-- The bucket after an insertion in slot `i`.
abbrev pub with_entry : Bucket → ℕ → ℕ → ℕ → Bucket
with_entry b i k v = record {
  snapshot = snap_set_map_and_inc_version (snap_set_map b.snapshot i map_insrt) i map_valid;
  key = put_at b.key i k;
  val = put_at b.val i v;
}

-- What `run_alone` does after a step.
abbrev go_on : ℕ → Outcome → Outcome
go_on n o = elim o.event [
  | none_yet ↦ run_alone n o.thread o.bucket
  | put_returns k v answer ↦ o
  | remove_returns k v ↦ o
  | get_returns k v ↦ o
]

run_step :
    (n : ℕ) (t t' : Thread) (b b' : Bucket)
    → advance t b ≡ outcome b' t' none_yet
    → run_alone (suc n) t b ≡ run_alone n t' b'
unfolding run_alone
run_step n t t' b b' h = ap (go_on n) h

run_end :
    (n : ℕ) (t t' : Thread) (b b' : Bucket) (k v : ℕ) (answer : Bool)
    → advance t b ≡ outcome b' t' (put_returns k v answer)
    → run_alone (suc n) t b ≡ outcome b' t' (put_returns k v answer)
unfolding run_alone
run_end n t t' b b' k v answer h = ap (go_on n) h

module _ (k v i : ℕ) (b : Bucket) (free : snap_get_empty_index b.snapshot ≡ some i) where
  abbrev s1 : Snapshot
  s1 = snap_set_map b.snapshot i map_insrt

  abbrev reserved : Bucket
  reserved = record b { snapshot = s1 }

  abbrev valued : Bucket
  valued = record reserved { val = put_at b.val i v }

  abbrev keyed : Bucket
  keyed = record valued { key = put_at b.key i k }

  decides :
      advance (put_search k v none b.snapshot (found 0)) b
      ≡ outcome b (put_reserve k v b.snapshot i) none_yet
  unfolding advance after_search
  decides = rw (free, after_search) refl

  reserves : advance (put_reserve k v b.snapshot i) b ≡ outcome reserved (put_val k v s1 i) none_yet
  unfolding advance
  reserves = rw (same_snapshot_refl b.snapshot) refl

  writes_val : advance (put_val k v s1 i) reserved ≡ outcome valued (put_key k v s1 i) none_yet
  unfolding advance
  writes_val = refl

  writes_key : advance (put_key k v s1 i) valued ≡ outcome keyed (put_commit k v s1 i) none_yet
  unfolding advance
  writes_key = refl

  commits :
      advance (put_commit k v s1 i) keyed ≡ outcome (with_entry b i k v) idle (put_returns k v true)
  unfolding advance
  commits = rw (same_snapshot_refl s1) refl

  -- After a search without success: reserve, write, commit.
  insert_alone :
      (left : ℕ)
      → 5 ≤ left
      → run_alone left (put_search k v none b.snapshot (found 0)) b
        ≡ outcome (with_entry b i k v) idle (put_returns k v true)
  insert_alone (suc (suc (suc (suc (suc n))))) enough =
      run_step _ _ _ b b decides
      ∙ run_step _ _ _ b reserved reserves
      ∙ run_step _ _ _ reserved valued writes_val
      ∙ run_step _ _ _ valued keyed writes_key
      ∙ run_end n _ _ keyed (with_entry b i k v) k v true commits
  insert_alone zero enough = absurd (omega arith)
  insert_alone (suc zero) enough = absurd (omega arith)
  insert_alone (suc (suc zero)) enough = absurd (omega arith)
  insert_alone (suc (suc (suc zero))) enough = absurd (omega arith)
  insert_alone (suc (suc (suc (suc zero)))) enough = absurd (omega arith)

  refuse_alone :
      (left r : ℕ)
      → 5 ≤ left
      → run_alone left (put_search k v none b.snapshot (found (suc r))) b
        ≡ outcome b idle (put_returns k v false)
  refuse_alone zero r enough = absurd (omega arith)
  refuse_alone (suc n) r enough = run_end n _ _ b b k v false (unfold advance after_search in refl)

  found_alone :
      (left r : ℕ)
      → 5 ≤ left
      → run_alone left (put_search k v none b.snapshot (found r)) b ≡ (
          if r == 0
          then outcome (with_entry b i k v) idle (put_returns k v true)
          else outcome b idle (put_returns k v false))
  found_alone left zero enough = insert_alone left enough
  found_alone left (suc r) enough = refuse_alone left r enough ∙ ground arith

  -- clht_put of the lock-free table on a bucket with a free slot that no other thread changes
  -- returns within 18 steps: it answers false and leaves the bucket where the first valid slot
  -- with the key has a value other than 0, and otherwise it answers true and the first free slot
  -- has the entry.
  pub put_retry-returns : run_alone 18 (put_retry k v none) b ≡ (
      if lookup k key_buckt 0 b == 0
      then outcome (with_entry b i k v) idle (put_returns k v true)
      else outcome b idle (put_returns k v false))
  put_retry-returns =
      let (n, few, run) = search-lookup k 2 0 b refl in
      let total : 17 ≡ n + (17 - n) = omega (arith, few) in
      let (left, enough, rest) =
        put_alone n (17 - n) k v (lookup k key_buckt 0 b) b.snapshot b (at_val 0) run in
      run_step 17 (put_retry k v none) (put_search k v none b.snapshot (at_val 0)) b b
        (unfold advance in refl)
      ∙ ap (λ m. run_alone m (put_search k v none b.snapshot (at_val 0)) b) total
      ∙ rest
      ∙ found_alone left (lookup k key_buckt 0 b) (omega (arith, few, enough))

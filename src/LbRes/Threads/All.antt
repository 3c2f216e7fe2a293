-- ===== src/LbRes/Threads/All.antt =====
-- Any number of threads on the lock-based table with resizing: every reachable state, and the map
-- before and after every step.
use mathlib.Core.Path.{subst}
use cht_bench.Prelude.{
  ℕ, suc, ◌≤◌, ◌≡◌, refl, ◌≢◌, Bool, true, false, Option, none, some, arith, inl, inr, ◌==◌,
  if◌then◌else◌, get_elem?, Option-cases, Bool-cases,
}
use cht_bench.Prelude.Run.{Run, ok, bind-ok}
use cht_bench.Chain.{Chain}
use cht_bench.Chain.Laws.{slots}
use cht_bench.LbRes.{Hashtable, Memory, lock_free, bucket_at, hash}
use cht_bench.LbRes.Laws.Valid.{IsValid, map_of}
use cht_bench.LbRes.Threads.{
  Update, put_of, remove_of, key_of, Thread, idle, enter, exists, acquire, again, locked, status,
  start_resize, trylock, copy, publish, unlock, Event, silent, fails, Outcome, outcome, with_table,
  after_exists, advance, System, with_thread, Step, moves, calls, Reach, start, then_step,
}
use cht_bench.LbRes.Threads.Invariant.{IsPlain, claims, holds, Local}
use cht_bench.LbRes.Threads.Frontier.{nothing_locked, IsValid-Sound}
use cht_bench.LbRes.Threads.Kept.{Invariant, Kept, Specified, current_table, quiet-Kept}
use cht_bench.LbRes.Threads.Steps.{IsBounded, acquire-Kept}
use cht_bench.LbRes.Threads.Finish.{work-Kept}
use cht_bench.LbRes.Threads.Moving.{copy_next-Kept, publish-Kept}
use cht_bench.LbRes.Threads.Start.{trylock-Kept}

module _ (mem : Memory) (bounded : IsBounded mem) (y : System) (inv : Invariant mem y) (a : ℕ) where
  -- A thread that makes no claim and leaves the store alone.
  moves_on :
      (th : Thread) (o : Outcome)
      → outcome y.store th silent ≡ o
      → Local mem (current_table y.store) y.store.current inv.progress th
      → holds th ≡ none
      → (claims th ≡ true → claims (y.threads a) ≡ true)
      → IsPlain (y.threads a)
      → Kept mem y a o
  moves_on th o e l free claim plain =
      subst (Kept mem y a) e (quiet-Kept mem y inv a y.store.resize_lock th l free claim plain)

  -- A call that has failed its first search.
  fails-Kept :
      (call : Update) → IsPlain (y.threads a) → Kept mem y a (outcome y.store idle (fails call))
  fails-Kept call plain =
      let k = quiet-Kept mem y inv a y.store.resize_lock idle tt refl (λ z. absurd (cc)) plain in
      record { invariant = k.invariant; specified = λ q real. refl }

  after_exists-Kept :
      (call : Update) (t : ℕ) (there : Bool)
      → key_of call ≢ 0
      → t ≤ y.store.current
      → IsPlain (y.threads a)
      → Kept mem y a (after_exists call t there y.store)
  after_exists-Kept (put_of k v) t true used upto plain = fails-Kept (put_of k v) plain
  after_exists-Kept (put_of k v) t false used upto plain =
      moves_on (acquire (put_of k v) t) (outcome y.store (acquire (put_of k v) t) silent) refl
        (used, upto) refl (λ z. absurd (cc)) plain
  after_exists-Kept (remove_of k) t true used upto plain =
      moves_on (acquire (remove_of k) t) (outcome y.store (acquire (remove_of k) t) silent) refl
        (used, upto) refl (λ z. absurd (cc)) plain
  after_exists-Kept (remove_of k) t false used upto plain = fails-Kept (remove_of k) plain

  exists-Kept :
      (call : Update) (t at : ℕ) (o : Outcome) (decision : Option ℕ)
      → y.threads a ≡ exists call t at
      → key_of call ≢ 0
      → t ≤ y.store.current
      → advance mem decision (exists call t at) y.store ≡ ok o
      → Kept mem y a o
  unfolding advance
  exists-Kept call t at o decision here used upto run =
      let h = y.store.tables t in
      let plain : IsPlain (y.threads a) = rw here (refl, refl, refl) in
      let next : Chain → Run Outcome = λ c. elim (get_elem? (slots c) at) [
        | none ↦ ok (after_exists call t false y.store)
        | some s ↦
            if s.key == key_of call
            then ok (after_exists call t true y.store)
            else ok (outcome y.store (exists call t (suc at)) silent)
      ] in
      let (c, at_c, rest) = bind-ok (bucket_at h (hash h (key_of call))) next o run in
      elim (Option-cases (get_elem? (slots c) at)) [
        | inl last ↦
            let z : ok (after_exists call t false y.store) ≡ ok o = rw last at rest in
            let same : after_exists call t false y.store ≡ o = cc in
            subst (Kept mem y a) same (after_exists-Kept call t false used upto plain)
        | inr (s, e) ↦ elim (Bool-cases (s.key == key_of call)) [
          | inl hit ↦
              let z : ok (after_exists call t true y.store) ≡ ok o = rw (e, hit) at rest in
              let same : after_exists call t true y.store ≡ o = cc in
              subst (Kept mem y a) same (after_exists-Kept call t true used upto plain)
          | inr miss ↦
              let z : ok (outcome y.store (exists call t (suc at)) silent) ≡ ok o =
                rw (e, miss) at rest in
              moves_on (exists call t (suc at)) o (cc) (used, upto) refl (λ z. absurd (cc)) plain
        ]
      ]

  unlock-Kept :
      (more : Bool)
      → y.threads a ≡ unlock more
      → Kept mem y a (
          outcome
            (record y.store { resize_lock = lock_free })
            (if more then status else idle)
            silent)
  unlock-Kept true here =
      quiet-Kept mem y inv a lock_free status tt refl (λ z. rw here refl)
        (rw here (refl, refl, refl))
  unlock-Kept false here =
      quiet-Kept mem y inv a lock_free idle tt refl (λ z. absurd (cc)) (rw here (refl, refl, refl))

  -- Every step of a thread.
  advance-Kept :
      (th : Thread) (decision : Option ℕ) (o : Outcome)
      → y.threads a ≡ th
      → Local mem (current_table y.store) y.store.current inv.progress th
      → advance mem decision th y.store ≡ ok o
      → Kept mem y a o
  unfolding advance
  advance-Kept idle decision o here l run =
      moves_on idle o (cc) tt refl (λ z. absurd (cc)) (rw here (refl, refl, refl))
  advance-Kept (enter call) decision o here l run =
      moves_on (exists call y.store.current 0) o (cc) (l, omega arith) refl (λ z. absurd (cc))
        (rw here (refl, refl, refl))
  advance-Kept (exists call t at) decision o here l run =
      exists-Kept call t at o decision here l.0 l.1 run
  advance-Kept (acquire call t) decision o here l run =
      acquire-Kept mem y inv a call t o here l.0 l.1 run
  advance-Kept (again call) decision o here l run =
      moves_on (acquire call y.store.current) o (cc) (l, omega arith) refl (λ z. absurd (cc))
        (rw here (refl, refl, refl))
  advance-Kept (locked call t) decision o here l run =
      work-Kept mem bounded y inv a call t o here l.0 l.1 l.2 run
  advance-Kept status none o here l run =
      moves_on idle o (cc) tt refl (λ z. absurd (cc)) (rw here (refl, refl, refl))
  advance-Kept status (some by) o here l run =
      moves_on (start_resize by) o (cc) tt refl (λ z. rw here refl) (rw here (refl, refl, refl))
  advance-Kept (start_resize by) decision o here l run =
      moves_on (trylock by y.store.current) o (cc) refl refl (λ z. rw here refl)
        (rw here (refl, refl, refl))
  advance-Kept (trylock by t) decision o here l run = trylock-Kept mem y inv a by t o here l run
  advance-Kept (copy t b n) decision o here l run =
      let (now, at_b, done) = l in
      copy_next-Kept mem y inv a n (rw (now, ← at_b) at here) (rw (← at_b) at done) o
        (rw (now, ← at_b) at run)
  advance-Kept (publish t more) decision o here l run =
      let same : outcome (with_table y.store t (record (y.store.tables t) { has_new = true }))
            (unlock more) silent
          ≡ o =
        cc in
      subst (Kept mem y a) same (publish-Kept mem y inv a t more here l)
  advance-Kept (unlock more) decision o here l run =
      let same : outcome (record y.store { resize_lock = lock_free })
            (if more then status else idle) silent
          ≡ o =
        cc in
      subst (Kept mem y a) same (unlock-Kept more here)

  enter-Invariant :
      (call : Update)
      → y.threads a ≡ idle
      → key_of call ≢ 0
      → Invariant mem (record y { threads = with_thread y.threads a (enter call) })
  enter-Invariant call here used =
      let k =
        quiet-Kept mem y inv a y.store.resize_lock (enter call) used refl (λ z. absurd (cc))
          (rw here (refl, refl, refl)) in
      k.invariant

-- In every state that any number of threads that put, remove, and make the resizes that their puts
-- ask for can reach without a fault on the lock-based table from a well-formed table, with keys
-- other than 0 and memalign never giving the buckets for 2^32 expansions of one table, each key of
-- the current table stands once and in its bin, no two threads hold the lock of the same bucket, a
-- thread that has a lock has it on the current table, every lock that is taken for an update is
-- held by a thread, one thread at most may resize, the buckets copied so far and only those are at
-- LOCK_RESIZE, all buckets of older tables are at LOCK_RESIZE, and an old table has its table_new
-- or a thread is about to set it.
pub Reach-Invariant_lb :
    (mem : Memory) (h : Hashtable) {y : System}
    → IsBounded mem
    → IsValid h
    → Reach mem h y
    → Invariant mem y
Reach-Invariant_lb mem h bounded valid start = record {
  progress = 0;
  sound = IsValid-Sound h valid;
  shared = record {
    local = λ a. tt;
    apart = λ a b n u v mine. absurd (cc);
    sole = λ a b n mine. absurd (cc);
    spent = λ a mine. absurd (cc);
    working = λ more. absurd (omega arith);
  };
  old = λ t i l before. absurd (omega arith);
  held = λ i taken. absurd (nothing_locked h i valid taken);
  published = λ t before. absurd (omega arith);
}
Reach-Invariant_lb mem h bounded valid (then_step {y} before (moves a decision o run)) =
    let inv = Reach-Invariant_lb mem h bounded valid before in
    (advance-Kept mem bounded y inv a (y.threads a) decision o refl (inv.shared.local a)
      run).invariant
Reach-Invariant_lb mem h bounded valid (then_step {y} before (calls a call free used)) =
    enter-Invariant mem bounded y (Reach-Invariant_lb mem h bounded valid before) a call free used

-- Every step of any number of threads that put keys other than 0, remove them, and make the
-- resizes that their puts ask for, on the lock-based table, from a state that they can reach from
-- a well-formed table while memalign never gives the buckets for 2^32 expansions of one table and
-- no step faults, does to the map of the table that h->ht points to what its event says: the work
-- of clht_put or clht_remove under the lock of a bucket answers and changes the map as the finite
-- map does, and no other step changes it, neither the copy of a bucket nor the swap of the tables.
pub Reach-Specified_lb :
    (mem : Memory) (h : Hashtable) {y : System} {e : Event} {z : System}
    → IsBounded mem
    → IsValid h
    → Reach mem h y
    → Step mem y e z
    → Specified e (map_of (current_table y.store)) (map_of (current_table z.store))
Reach-Specified_lb mem h {y} bounded valid before (moves a decision o run) =
    let inv = Reach-Invariant_lb mem h bounded valid before in
    (advance-Kept mem bounded y inv a (y.threads a) decision o refl (inv.shared.local a)
      run).specified
Reach-Specified_lb mem h bounded valid before (calls a call free used) = λ q real. refl

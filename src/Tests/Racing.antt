-- ===== src/Tests/Racing.antt =====
-- Two threads put the same key in one bucket of the lock-free table.
use cht_bench.Prelude.{
  if◌then◌else◌, ◌==◌, some, ◌≤◌, ◌<◌, ◌-◌, ◌^◌, ℕ, ◌≡◌, refl, true, none, List, [], ◌∷◌, arith,
}
use cht_bench.Lf.{Bucket}
use cht_bench.Lf.{
  outcome, get_search, get_returns, at_val, System, put_returns, Outcome, advance, stepped,
  with_thread, put_retry, idle, same_snapshot, snap_get_empty_index, empty_from, Reach, start,
  then_step, moves, calls_put, bucket_create, put_commit,
}
use cht_bench.Lf.Laws.Search.{lookup}
use cht_bench.Lf.Laws.Alone.{run_alone, with_entry, put_retry-returns, get_search-lookup}
use cht_bench.Lf.Laws.Refine.{Specified}
use cht_bench.Lf.Laws.Typed.{IsEvent}
use cht_bench.Lf.Laws.Widths.{IsSystem, stepped-IsSystem}
use cht_bench.Lf.Laws.System.{Invariant, Reach-Invariant, Reach-Specified}

abbrev junk : ℕ → ℕ
junk i = 7

-- The threads that move, in order.
abbrev after : List ℕ → System → System
after [] y = y
after (t ∷ ts) y = after ts (stepped y t (advance (y.threads t) y.bucket))

after-Reach : (ts : List ℕ) (y : System) → Reach junk y → Reach junk (after ts y)
after-Reach [] y r = r
after-Reach (t ∷ ts) y r =
    after-Reach ts (stepped y t (advance (y.threads t) y.bucket))
      (then_step r (moves t (advance (y.threads t) y.bucket) refl))

abbrev fresh : System
fresh = record { bucket = bucket_create junk; threads = λ t. idle; inserted = 0 }

abbrev one_call : System
one_call = record fresh { threads = with_thread fresh.threads 0 (put_retry 5 50 none) }

abbrev two_calls : System
two_calls = record one_call { threads = with_thread one_call.threads 1 (put_retry 5 60 none) }

two_calls-Reach : Reach junk two_calls
two_calls-Reach =
    then_step (then_step start (calls_put {y = fresh} 0 5 50 refl (omega arith)))
      (calls_put {y = one_call} 1 5 60 refl (omega arith))

-- Both threads search to the end, then thread 0 goes on to its last step.
abbrev schedule : List ℕ
schedule = 0 ∷ 1 ∷ 0 ∷ 1 ∷ 0 ∷ 1 ∷ 0 ∷ 1 ∷ 0 ∷ 1 ∷ 0 ∷ 1 ∷ 0 ∷ 1 ∷ 0 ∷ 1 ∷ 0 ∷ 0 ∷ 0 ∷ []

abbrev racing : System
racing = after schedule two_calls

abbrev last_step : Outcome
last_step = advance (racing.threads 0) racing.bucket

-- It is the step in which thread 0 inserts its entry.
last_step-event : last_step.event ≡ put_returns 5 50 true
unfolding advance same_snapshot snap_get_empty_index empty_from
last_step-event = refl

Reach-Specified_example : Specified last_step.event racing.bucket last_step.bucket
unfolding advance same_snapshot snap_get_empty_index empty_from
Reach-Specified_example =
    Reach-Specified junk (after-Reach schedule two_calls two_calls-Reach) (moves 0 last_step refl)
      (omega arith)

Reach-Invariant_example : Invariant (stepped racing 0 last_step)
unfolding advance same_snapshot snap_get_empty_index empty_from
Reach-Invariant_example =
    Reach-Invariant junk
      (then_step (after-Reach schedule two_calls two_calls-Reach) (moves 0 last_step refl))
      (omega arith)

-- One entry, and two free slots.
abbrev one_entry : Bucket
one_entry = record {
  snapshot = record { version = 1; map = λ i. if i == 0 then 1 else 0 };
  key = λ i. 5;
  val = λ i. 50;
}

one_free : snap_get_empty_index one_entry.snapshot ≡ some 1
unfolding snap_get_empty_index empty_from
one_free = refl

put_retry-returns_example :
    run_alone 18 (put_retry 6 60 none) one_entry
    ≡ outcome (with_entry one_entry 1 6 60) idle (put_returns 6 60 true)
unfolding lookup
put_retry-returns_example = put_retry-returns 6 60 1 one_entry one_free

get_search-lookup_example :
    (n : ℕ) × (n ≤ 13)
    × (run_alone n (get_search 5 (at_val 0)) one_entry ≡ outcome one_entry idle (get_returns 5 50))
unfolding lookup
get_search-lookup_example = get_search-lookup 5 one_entry

-- A thread about to insert the greatest key, and a bucket with the greatest version.
abbrev greatest : System
greatest = record {
  bucket = record {
    snapshot = record { version = 2 ^ 32 - 1; map = λ i. if i == 0 then 2 else 0 };
    key = λ i. 2 ^ 64 - 1;
    val = λ i. 2 ^ 64 - 1;
  };
  threads = λ t.
      put_commit (2 ^ 64 - 1) 9
        (record { version = 2 ^ 32 - 1; map = λ i. if i == 0 then 2 else 0 }) 0;
  inserted = 0;
}

marks-lt : (j : ℕ) → (if j == 0 then 2 else 0) < 2 ^ 8
marks-lt j = ground arith

greatest-IsSystem : IsSystem greatest
greatest-IsSystem = record {
  bucket = record {
    snapshot = record { version = omega arith; map = marks-lt };
    key = λ j. omega arith;
    val = λ j. omega arith;
  };
  threads = λ t.
      (omega arith, omega arith, record { version = omega arith; map = marks-lt }, omega arith);
}

stepped-IsSystem_example :
    IsSystem (stepped greatest 0 (advance (greatest.threads 0) greatest.bucket))
    × IsEvent (advance (greatest.threads 0) greatest.bucket).event
stepped-IsSystem_example = stepped-IsSystem greatest 0 greatest-IsSystem

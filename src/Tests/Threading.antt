-- ===== src/Tests/Threading.antt =====
-- Two threads on a full table of one bucket: one puts a key, which resizes the table, while the other
-- removes a key and waits for the new table.
use cht_bench.Prelude.{
  ap, ◌≢◌, Bool, ℕ, ◌+◌, ◌^◌, ◌≡◌, refl, true, false, Option, none, some, List, [], ◌∷◌, arith, ltb,
  if◌then◌else◌,
}
use cht_bench.Prelude.Run.{Run, ok, fault, blocked, out_of_fuel}
use cht_bench.LbRes.{Memory, lock_free}
use cht_bench.LbRes.Laws.Valid.{map_of}
use cht_bench.LbRes.Threads.{
  Thread, put_of, remove_of, idle, enter, remove_did, Outcome, advance, System, with_thread,
  stepped, Reach, start, then_step, moves, calls,
}
use cht_bench.LbRes.Threads.Kept.{Invariant, Specified, current_table}
use cht_bench.LbRes.Threads.Steps.{IsBounded}
use cht_bench.LbRes.Threads.Progress.{Goes, Reach-Goes}
use cht_bench.LbRes.Threads.All.{Reach-Invariant_lb, Reach-Specified_lb}
use cht_bench.Tests.Resizing.{crowded, crowded-IsValid}

abbrev bounded_memory : Memory
bounded_memory = record {
  grants = λ n. true;
  bucket = λ version n. if ltb (n + 1) (2 ^ 32) then some (λ j. 7) else none;
}

bounded_memory-IsBounded : IsBounded bounded_memory
bounded_memory-IsBounded version n full = ground arith

-- The state after a step, or the same state where the thread waits.
abbrev move : System → ℕ → Run Outcome → System
move y a (ok o) = stepped y a o
move y a fault = y
move y a blocked = y
move y a out_of_fuel = y

move-Reach :
    (y : System) (a : ℕ) (decision : Option ℕ) (r : Run Outcome)
    → advance bounded_memory decision (y.threads a) y.store ≡ r
    → Reach bounded_memory crowded y
    → Reach bounded_memory crowded (move y a r)
move-Reach y a decision (ok o) e before = then_step before (moves a decision o e)
move-Reach y a decision fault e before = before
move-Reach y a decision blocked e before = before
move-Reach y a decision out_of_fuel e before = before

-- The threads that move, in order; a decision of `ht_status` doubles the table.
abbrev after : List ℕ → System → System
after [] y = y
after (a ∷ rest) y = after rest (move y a (advance bounded_memory (some 2) (y.threads a) y.store))

after-Reach :
    (l : List ℕ) (y : System)
    → Reach bounded_memory crowded y
    → Reach bounded_memory crowded (after l y)
after-Reach [] y before = before
after-Reach (a ∷ rest) y before =
    let r = advance bounded_memory (some 2) (y.threads a) y.store in
    after-Reach rest (move y a r) (move-Reach y a (some 2) r refl before)

abbrev fresh : System
fresh = record {
  store = record { tables = λ t. crowded; current = 0; resize_lock = lock_free };
  threads = λ a. idle;
}

abbrev one_call : System
one_call = record fresh { threads = with_thread fresh.threads 0 (enter (put_of 4 40)) }

abbrev two_calls : System
two_calls = record one_call { threads = with_thread one_call.threads 1 (enter (remove_of 2)) }

two_calls-Reach : Reach bounded_memory crowded two_calls
two_calls-Reach =
    then_step (then_step start (calls {y = fresh} 0 (put_of 4 40) refl (omega arith)))
      (calls {y = one_call} 1 (remove_of 2) refl (omega arith))

-- Thread 1 finds its key in the old table, thread 0 puts and resizes, and thread 1 comes back with the
-- lock of the new one.
abbrev schedule : List ℕ
schedule = 1 ∷ 1 ∷ 1 ∷ 0 ∷ 0 ∷ 0 ∷ 0 ∷ 0 ∷ 0 ∷ 0 ∷ 0 ∷ 0 ∷ 0 ∷ 0 ∷ 1 ∷ 0 ∷ 1 ∷ 0 ∷ 1 ∷ 1 ∷ 1 ∷ []

abbrev resized : System
resized = after schedule two_calls

abbrev is_ok : Run Outcome → Bool
is_ok (ok o) = true
is_ok r = false

returned : (r : Run Outcome) → is_ok r ≡ true → (o : Outcome) × (r ≡ ok o)
returned (ok o) e = (o, refl)
returned fault e = absurd (cc)
returned blocked e = absurd (cc)
returned out_of_fuel e = absurd (cc)

abbrev last_run : Run Outcome
last_run = advance bounded_memory none (resized.threads 1) resized.store

last_run-ok : is_ok last_run ≡ true
unfolding advance
last_run-ok = refl

abbrev last_step : Outcome
last_step = (returned last_run last_run-ok).0

last_step-event : last_step.event ≡ remove_did 2 20
unfolding advance returned
last_step-event = refl

Reach-Specified_lb_example :
    Specified last_step.event
      (map_of (current_table resized.store))
      (map_of (current_table last_step.store))
Reach-Specified_lb_example =
    Reach-Specified_lb bounded_memory crowded bounded_memory-IsBounded crowded-IsValid
      (after-Reach schedule two_calls two_calls-Reach)
      (moves {y = resized} 1 none last_step (returned last_run last_run-ok).1)

Reach-Invariant_lb_example : Invariant bounded_memory (stepped resized 1 last_step)
Reach-Invariant_lb_example =
    Reach-Invariant_lb bounded_memory crowded bounded_memory-IsBounded crowded-IsValid (
      then_step (after-Reach schedule two_calls two_calls-Reach)
        (moves {y = resized} 1 none last_step (returned last_run last_run-ok).1))

-- Thread 1 waits at the bucket that thread 0 has copied.
abbrev waiting : System
waiting = after (1 ∷ 1 ∷ 1 ∷ 0 ∷ 0 ∷ 0 ∷ 0 ∷ 0 ∷ 0 ∷ 0 ∷ 0 ∷ 0 ∷ 0 ∷ 0 ∷ 1 ∷ []) two_calls

abbrev is_idle : Thread → Bool
is_idle idle = true
is_idle th = false

is_idle-false : (th : Thread) → is_idle th ≡ false → th ≢ idle
is_idle-false th h e = let z = ap is_idle e in cc

waiting_busy : is_idle (waiting.threads 1) ≡ false
unfolding advance
waiting_busy = refl

Reach-Goes_example : (b : ℕ) × Goes bounded_memory waiting b
Reach-Goes_example =
    Reach-Goes bounded_memory crowded bounded_memory-IsBounded crowded-IsValid
      (after-Reach (1 ∷ 1 ∷ 1 ∷ 0 ∷ 0 ∷ 0 ∷ 0 ∷ 0 ∷ 0 ∷ 0 ∷ 0 ∷ 0 ∷ 0 ∷ 0 ∷ 1 ∷ []) two_calls
        two_calls-Reach)
      1 (is_idle-false (waiting.threads 1) waiting_busy)

-- ===== src/Tests/Taking.antt =====
-- A thread removes from a bin of the table that locks for insertions only, while another has the lock.
use cht_bench.Prelude.{ℕ, ◌≡◌, refl, List, [], ◌∷◌, arith}
use cht_bench.LockIns.Threads.{
  Thread, System, Outcome, advance, with_thread, idle, put_exists, remove_scan, takes, empty_bin,
  Reach, start, then_step, moves, calls_put, calls_remove,
}
use cht_bench.LockIns.Threads.Effects.{Specified, Unique}
use cht_bench.LockIns.Threads.All.{step-Specified_ins}

abbrev junk : ℕ → ℕ
junk i = 7

abbrev stepped : System → ℕ → System
stepped y t =
    let o = advance junk (y.threads t) y.bin in
    record { bin = o.bin; threads = with_thread y.threads t o.thread }

-- The threads that move, in order.
abbrev after : List ℕ → System → System
after [] y = y
after (t ∷ ts) y = after ts (stepped y t)

after-Reach : (ts : List ℕ) (y : System) → Reach junk y → Reach junk (after ts y)
after-Reach [] y r = r
after-Reach (t ∷ ts) y r =
    after-Reach ts (stepped y t) (then_step r (moves t (advance junk (y.threads t) y.bin) refl))

abbrev enter : System → ℕ → Thread → System
enter y t u = record y { threads = with_thread y.threads t u }

abbrev fresh : System
fresh = record { bin = empty_bin; threads = λ t. idle }

-- Thread 0 puts the key 5.
abbrev put_5 : System
put_5 =
    after (0 ∷ 0 ∷ 0 ∷ 0 ∷ 0 ∷ 0 ∷ 0 ∷ 0 ∷ 0 ∷ 0 ∷ 0 ∷ 0 ∷ []) (enter fresh 0 (put_exists 5 50 0))

-- Thread 0 goes on to put the key 6, and thread 1 finds the key 5 while thread 0 has the lock.
abbrev both : System
both = enter (enter put_5 0 (put_exists 6 60 0)) 1 (remove_scan 5 0)

abbrev before : System
before = after (0 ∷ 0 ∷ 0 ∷ 0 ∷ 0 ∷ 0 ∷ 1 ∷ []) both

abbrev cas : Outcome
cas = advance junk (before.threads 1) before.bin

before-Reach : Reach junk before
unfolding advance
before-Reach =
    let r =
      after-Reach (0 ∷ 0 ∷ 0 ∷ 0 ∷ 0 ∷ 0 ∷ 0 ∷ 0 ∷ 0 ∷ 0 ∷ 0 ∷ 0 ∷ [])
        (enter fresh 0 (put_exists 5 50 0))
        (then_step start
          (calls_put {y = fresh} 0 5 50 refl record { used = omega arith; plain = omega arith })) in
    after-Reach (0 ∷ 0 ∷ 0 ∷ 0 ∷ 0 ∷ 0 ∷ 1 ∷ []) both (
      then_step
        (then_step r
          (calls_put {y = put_5} 0 6 60 refl record { used = omega arith; plain = omega arith }))
        (calls_remove {y = enter put_5 0 (put_exists 6 60 0)} 1 5 refl
          record { used = omega arith; plain = omega arith }))

-- The removal takes its entry in this step.
cas-event : cas.event ≡ takes 5 50
unfolding advance
cas-event = refl

step-Specified_ins_example : Specified cas.event before.bin cas.bin × Unique cas.bin
step-Specified_ins_example =
    step-Specified_ins junk before (stepped before 1) cas.event before-Reach (moves 1 cas refl)

-- ===== src/Tests/Plain.antt =====
-- The bucket of Resizing in a table without resizing, where the next put chains a bucket; and the
-- calls of Resizing on the table that locks for insertions only.
use cht_bench.Prelude.{ℕ, ◌≢◌, ◌≡◌, true, false, none, some, [], ◌∷◌, arith}
use cht_bench.Prelude.Run.{ok, Returns}
use cht_bench.Chain.{Allocation}
use cht_bench.LbRes.Laws.Put.{Puts}
use cht_bench.LbRes.Laws.Remove.{Takes}
use cht_bench.KeyMap.{run, spec_run}
use cht_bench.Lb.{Hashtable, create, put, remove}
use cht_bench.Lb.Laws.Simulation.{as_res, put-Puts, remove-Takes_lb}
use cht_bench.Lb.Laws.Session.{chaining, create-run_lb}
use cht_bench.LockIns
use cht_bench.LockIns.Laws.Session.{inserting, create-run_lock_ins}
use cht_bench.Tests.Resizing.{full_chain, crowded-IsValid, calls}

abbrev plain : Hashtable
plain = record { num_buckets = 1; table = full_chain ∷ [] }

abbrev memory : Allocation
memory = some (λ j. 7)

granted : (n : ℕ) → memory ≢ none
granted n e = cc

put-Puts_example :
    Returns (put memory plain 4 40) (λ r. Puts (as_res plain) 4 40 (r.0, as_res r.1, false))
put-Puts_example = put-Puts plain crowded-IsValid 4 (omega arith) memory 40 (λ e. cc)

remove-Takes_lb_example : Returns (remove plain 2) (λ r. Takes (as_res plain) 2 (r.0, as_res r.1))
remove-Takes_lb_example = remove-Takes_lb plain crowded-IsValid 2 (omega arith)

create-run_lb_example :
    (h : Hashtable) × (create true 1 ≡ some h)
    × (run (chaining (λ n. memory) granted) 0 calls h ≡ ok (spec_run calls (λ q. none)))
create-run_lb_example =
    create-run_lb (λ n. memory) 1 calls granted (omega arith) (omega arith) (omega arith)

create-run_lock_ins_example :
    (h : LockIns.Hashtable) × (LockIns.create true 1 ≡ some h)
    × (run (inserting (λ n. memory) granted) 0 calls h ≡ ok (spec_run calls (λ q. none)))
create-run_lock_ins_example =
    create-run_lock_ins (λ n. memory) 1 calls granted (omega arith) (omega arith) (omega arith)

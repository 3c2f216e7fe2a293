-- ===== src/LockIns/Laws/Session.antt =====
-- Whole runs of `clht_put`, `clht_get` and `clht_remove` of clht_lb_lock_ins.c against a finite map.
use mathlib.Core.Path.{subst}
use native.Mathlib.Nat.{mod-eq_of_lt}
use cht_bench.Prelude.{
  ℕ, ◌-◌, ◌^◌, ◌<◌, ◌≡◌, refl, ◌∙◌, ap, ◌≢◌, true, none, some, List, [], ◌∷◌, arith, or_zero,
  is_none, ne→==,
}
use cht_bench.Prelude.Run.{ok, Returns}
use cht_bench.Chain.{Allocation}
use cht_bench.LbRes.Laws.Resize.{created, created-IsValid, map_of-created}
use cht_bench.KeyMap.{KeyMap, Map, bind, Op, AllKeys, AllFit, grown, run, spec_run, run-spec_run}
use cht_bench.Lb
use cht_bench.Lb.Laws.Simulation.{rebuilt-IsValid, rebuilt-map_of, put-Puts}
use cht_bench.Lb.Laws.Session.{Models, get-Models}
use cht_bench.LockIns.{Hashtable, hashtable_create, create, bucket_at, get, put, remove}
use cht_bench.LockIns.Laws.Calls.{as_lb, Stands, same_bin, put-put, remove-Stands}

module _ (memory : ℕ → Allocation) (granted : (n : ℕ) → memory n ≢ none) where
  pub put-Stands :
      (call k v : ℕ) (f : Map) (n : ℕ) (h : Hashtable)
      → k ≢ 0
      → Stands f h
      → Unit {0}
      → Returns (put (memory call) h k v) (λ r. (r.0 ≡ is_none (f k)) × Stands (bind f k v) r.1)
  put-Stands call k v f n h used m fits =
      let (r, run, p) = put-Puts (as_lb h) m.models.valid k used (memory call) v (granted call) in
      let same : r.1 ≡ as_lb (record h { table = r.1.table }) =
        ap (λ n. record { num_buckets = n; table = r.1.table }) p.same_size in
      let models : Models (bind f k v) r.1 = record {
        valid = p.valid;
        reads =
            λ q real. ground (arith, p.reads q real, m.models.reads q real, m.models.reads k used);
      } in
      (
        (r.0, record h { table = r.1.table }),
        put-put f h m k (memory call) v ∙ rw run refl,
        (
          rw (← m.models.reads k used) p.answers,
          record { mask = m.mask; models = subst (Models (bind f k v)) same models },
        ),
      )

  pub get-Stands :
      (k : ℕ) (f : Map) (n : ℕ) (h : Hashtable) → k ≢ 0 → Stands f h → get h k ≡ ok (or_zero (f k))
  unfolding get Lb.get bucket_at Lb.bucket_at
  get-Stands k f n h used m =
      let there = get-Models memory granted k f n (as_lb h) used m.models in
      rw (same_bin f h m k) there

  -- The table as an implementation of the interface, for any number of entries.
  abbrev pub inserting : KeyMap Hashtable
  inserting = record {
    put = λ call k v h. put (memory call) h k v;
    get = λ k h. get h k;
    remove = λ k h. remove h k;
    Stands = λ f n h. Stands f h;
    CanAdd = λ n. Unit {0};
    put-Stands = put-Stands;
    get-Stands = get-Stands;
    remove-Stands = λ k f n h used m. remove-Stands f h m k used;
  }

  all_fit : (os : List Op) (n : ℕ) → AllFit inserting os n
  all_fit [] n = tt
  all_fit (o ∷ os) n = (tt, all_fit os (grown inserting o n))

create-Stands :
    (n : ℕ) → 0 < n → n < 2 ^ 32 → (h : Hashtable) × (create true n ≡ some h) × Stands (λ q. none) h
unfolding create hashtable_create
create-Stands n filled fits =
    let h : Hashtable = record { num_buckets = n; table = (created n 0).table; hash = n - 1 } in
    let lb = as_lb h in
    (
      h,
      rw (mod-eq_of_lt fits, ne→== n 0 (λ e. absurd (omega arith))),
      record {
        mask = refl;
        models = record {
          valid =
              rebuilt-IsValid lb (created n 0) refl refl
                (created-IsValid n 0 filled (omega (arith, fits)));
          reads = λ q real. rebuilt-map_of lb (created n 0) refl refl q ∙ map_of-created n 0 q real;
        };
      },
    )

-- A table of 1 to 2^32 - 1 buckets from clht_create of clht_lb_lock_ins.c, with memory granted,
-- answers any sequence of calls of put, get and remove with keys other than 0 as a finite map does
-- that starts empty; no call blocks or faults.
pub create-run_lock_ins :
    (memory : ℕ → Allocation) (n : ℕ) (os : List Op) (granted : (n : ℕ) → memory n ≢ none)
    → 0 < n
    → n < 2 ^ 32
    → AllKeys os
    → (h : Hashtable) × (create true n ≡ some h)
      × (run (inserting memory granted) 0 os h ≡ ok (spec_run os (λ q. none)))
create-run_lock_ins memory n os granted filled fits keys =
    let (h, made, m) = create-Stands n filled fits in
    (
      h,
      made,
      run-spec_run (inserting memory granted) 0 os (λ q. none) 0 h keys
          (all_fit memory granted os 0) m,
    )

-- ===== src/Lb/Laws/Session.antt =====
-- Whole runs of `clht_put`, `clht_get` and `clht_remove` of clht_lb.c against a finite map.
use native.Mathlib.Nat.{mod-eq_of_lt}
use cht_bench.Prelude.{
  ℕ, ◌^◌, ◌<◌, ◌≡◌, refl, ◌∙◌, ◌≢◌, true, none, some, List, [], ◌∷◌, arith, or_zero, is_none, ne→==,
}
use cht_bench.Prelude.Run.{ok, Returns}
use cht_bench.Chain.{Allocation}
use cht_bench.LbRes.Laws.Valid.{IsValid, map_of, get-map_of}
use cht_bench.LbRes.Laws.Resize.{created, created-IsValid, map_of-created}
use cht_bench.KeyMap.{
  KeyMap, Map, bind, unbind, Op, AllKeys, AllFit, grown, run, spec_run, run-spec_run,
}
use cht_bench.Lb.{Hashtable, hashtable_create, create, put, get, remove}
use cht_bench.Lb.Laws.Simulation.{
  as_res, rebuilt-IsValid, rebuilt-map_of, put-Puts, remove-Takes_lb, get-get,
}

-- The table is well-formed and stands for `f`.
pub record Models (f : Map) (h : Hashtable) : Type 0 where
  pub valid : IsValid (as_res h)
  pub reads : (q : ℕ) → q ≢ 0 → map_of (as_res h) q ≡ f q

module _ (memory : ℕ → Allocation) (granted : (n : ℕ) → memory n ≢ none) where
  pub put-Models :
      (call k v : ℕ) (f : Map) (n : ℕ) (h : Hashtable)
      → k ≢ 0
      → Models f h
      → Unit {0}
      → Returns (put (memory call) h k v) (λ r. (r.0 ≡ is_none (f k)) × Models (bind f k v) r.1)
  put-Models call k v f n h used m fits =
      let (r, did, p) = put-Puts h m.valid k used (memory call) v (granted call) in
      (
        r,
        did,
        (
          rw (← m.reads k used) p.answers,
          record {
            valid = p.valid;
            reads = λ q real. ground (arith, p.reads q real, m.reads q real, m.reads k used);
          },
        ),
      )

  pub get-Models :
      (k : ℕ) (f : Map) (n : ℕ) (h : Hashtable) → k ≢ 0 → Models f h → get h k ≡ ok (or_zero (f k))
  get-Models k f n h used m =
      rw (get-get h m.valid k, get-map_of (as_res h) m.valid k, m.reads k used) refl

  pub remove-Models :
      (k : ℕ) (f : Map) (n : ℕ) (h : Hashtable)
      → k ≢ 0
      → Models f h
      → Returns (remove h k) (λ r. (r.0 ≡ or_zero (f k)) × Models (unbind f k) r.1)
  remove-Models k f n h used m =
      let (r, did, p) = remove-Takes_lb h m.valid k used in
      (
        r,
        did,
        (
          rw (← m.reads k used) p.answers,
          record {
            valid = p.valid;
            reads = λ q real. ground (arith, p.reads q real, m.reads q real);
          },
        ),
      )

  -- The table without resizing as an implementation of the interface, for any number of entries.
  abbrev pub chaining : KeyMap Hashtable
  chaining = record {
    put = λ call k v h. put (memory call) h k v;
    get = λ k h. get h k;
    remove = λ k h. remove h k;
    Stands = λ f n h. Models f h;
    CanAdd = λ n. Unit {0};
    put-Stands = put-Models;
    get-Stands = get-Models;
    remove-Stands = remove-Models;
  }

  all_fit : (os : List Op) (n : ℕ) → AllFit chaining os n
  all_fit [] n = tt
  all_fit (o ∷ os) n = (tt, all_fit os (grown chaining o n))

create-Models :
    (n : ℕ) → 0 < n → n < 2 ^ 32 → (h : Hashtable) × (create true n ≡ some h) × Models (λ q. none) h
unfolding create hashtable_create
create-Models n filled fits =
    let h : Hashtable = record { num_buckets = n; table = (created n 0).table } in
    (
      h,
      rw (mod-eq_of_lt fits, ne→== n 0 (λ e. absurd (omega arith))),
      record {
        valid =
            rebuilt-IsValid h (created n 0) refl refl
              (created-IsValid n 0 filled (omega (arith, fits)));
        reads = λ q real. rebuilt-map_of h (created n 0) refl refl q ∙ map_of-created n 0 q real;
      },
    )

-- A table of 1 to 2^32 - 1 buckets from clht_create of clht_lb.c, with memory granted, answers any
-- sequence of calls of put, get and remove with keys other than 0 as a finite map does that starts
-- empty; no call blocks or faults.
pub create-run_lb :
    (memory : ℕ → Allocation) (n : ℕ) (os : List Op) (granted : (n : ℕ) → memory n ≢ none)
    → 0 < n
    → n < 2 ^ 32
    → AllKeys os
    → (h : Hashtable) × (create true n ≡ some h)
      × (run (chaining memory granted) 0 os h ≡ ok (spec_run os (λ q. none)))
create-run_lb memory n os granted filled fits keys =
    let (h, made, m) = create-Models n filled fits in
    (
      h,
      made,
      run-spec_run (chaining memory granted) 0 os (λ q. none) 0 h keys (all_fit memory granted os 0)
          m,
    )

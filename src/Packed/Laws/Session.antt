-- ===== src/Packed/Laws/Session.antt =====
-- Whole runs of `clht_put`, `clht_get` and `clht_remove` of clht_lb_packed.c against a finite map.
use mathlib.Core.List.{map}
use native.Mathlib.Nat.{mod-eq_of_lt}
use cht_bench.Prelude.{
  ℕ, zero, suc, ◌^◌, ◌<◌, ◌≡◌, refl, ◌≢◌, true, none, some, List, [], ◌∷◌, arith, or_zero, is_none,
  ne→==, replicate, length-replicate, get_elem?-replicate,
}
use cht_bench.Prelude.Run.{ok, Returns}
use cht_bench.Chain.Slots.{occurs, find-eq-none}
use cht_bench.Table.Rows.{row, view}
use cht_bench.KeyMap.{
  KeyMap, Map, bind, unbind, Op, AllKeys, AllFit, grown, run, spec_run, run-spec_run,
}
use cht_bench.Packed.{Hashtable, Chain, only, first, empty_bucket, create, put, get, remove}
use cht_bench.Packed.Laws.Rows.{upto, IsPacked}
use cht_bench.Packed.Laws.Table.{get-map_of_packed, put-Puts_packed, remove-Takes_packed}
use cht_bench.Packed.Laws.Valid.{IsValid, as_chain, home, map_of}

-- The table is well-formed and stands for `f`.
pub record Models (f : Map) (h : Hashtable) : Type 0 where
  pub valid : IsValid h
  pub reads : (q : ℕ) → q ≢ 0 → map_of h q ≡ f q

module _ (memory : ℕ → ℕ → ℕ) where
  pub put-Models :
      (call k v : ℕ) (f : Map) (n : ℕ) (h : Hashtable)
      → k ≢ 0
      → Models f h
      → Unit {0}
      → Returns
          (put (some (memory call)) h k v)
          (λ r. (r.0 ≡ is_none (f k)) × Models (bind f k v) r.1)
  put-Models call k v f n h used m fits =
      let (r, did, p) = put-Puts_packed h m.valid k (memory call) v used in
      (
        r,
        did,
        (
          rw (← m.reads k used) p.answers,
          record {
            valid = p.valid;
            reads = λ q real. ground (arith, p.reads q real, m.reads q real, m.reads k used);
          },
        ),
      )

  pub get-Models :
      (k : ℕ) (f : Map) (n : ℕ) (h : Hashtable) → k ≢ 0 → Models f h → get h k ≡ ok (or_zero (f k))
  get-Models k f n h used m = rw (get-map_of_packed h m.valid k used, m.reads k used) refl

  pub remove-Models :
      (k : ℕ) (f : Map) (n : ℕ) (h : Hashtable)
      → k ≢ 0
      → Models f h
      → Returns (remove h k) (λ r. (r.0 ≡ or_zero (f k)) × Models (unbind f k) r.1)
  remove-Models k f n h used m =
      let (r, did, p) = remove-Takes_packed h m.valid k used in
      (
        r,
        did,
        (
          rw (← m.reads k used) p.answers,
          record {
            valid = p.valid;
            reads = λ q real. ground (arith, p.reads q real, m.reads q real);
          },
        ),
      )

  -- The packed table as an implementation of the interface, for any number of entries; `memory` is
  -- what a new bucket has in `val`, in each call.
  abbrev pub packing : KeyMap Hashtable
  packing = record {
    put = λ call k v h. put (some (memory call)) h k v;
    get = λ k h. get h k;
    remove = λ k h. remove h k;
    Stands = λ f n h. Models f h;
    CanAdd = λ n. Unit {0};
    put-Stands = put-Models;
    get-Stands = get-Models;
    remove-Stands = remove-Models;
  }

  all_fit : (os : List Op) (n : ℕ) → AllFit packing os n
  all_fit [] n = tt
  all_fit (o ∷ os) n = (tt, all_fit os (grown packing o n))

occurs-fresh : (q n i : ℕ) → occurs q (row (map as_chain (replicate n (only empty_bucket))) i) ≡ 0
unfolding occurs upto
occurs-fresh q zero i = refl
occurs-fresh q (suc n) zero = refl
occurs-fresh q (suc n) (suc i) = occurs-fresh q n i

fresh_packed : (c : Chain) → c ≡ only empty_bucket → IsPacked c × ((first c).lock ≡ 0)
fresh_packed c e = rw e (omega arith, refl)

create-Models_packed :
    (n : ℕ) → 0 < n → n < 2 ^ 32 → (h : Hashtable) × (create true n ≡ some h) × Models (λ q. none) h
unfolding create view
create-Models_packed n filled fits =
    let h : Hashtable = record { num_buckets = n; table = replicate n (only empty_bucket) } in
    (
      h,
      rw (mod-eq_of_lt fits, ne→== n 0 (λ e. absurd (omega arith))) refl,
      record {
        valid = record {
          filled = filled;
          fits = omega (arith, fits);
          width = length-replicate n (only empty_bucket);
          placed = record {
            once = λ q i real. omega (arith, occurs-fresh q n i);
            apart = λ q i real away. occurs-fresh q n i;
          };
          packed = λ i c e. (fresh_packed c (get_elem?-replicate n i (only empty_bucket) c e)).0;
          unlocked = λ i c e. (fresh_packed c (get_elem?-replicate n i (only empty_bucket) c e)).1;
        };
        reads = λ q real.
            find-eq-none q (row (map as_chain (replicate n (only empty_bucket))) (home h q))
              (occurs-fresh q n (home h q));
      },
    )

-- A table of 1 to 2^32 - 1 buckets from clht_create of clht_lb_packed.c, with memory granted,
-- answers any sequence of calls of put, get and remove with keys other than 0 as a finite map does
-- that starts empty; no call blocks or faults.
pub create-run_packed :
    (memory : ℕ → ℕ → ℕ) (n : ℕ) (os : List Op)
    → 0 < n
    → n < 2 ^ 32
    → AllKeys os
    → (h : Hashtable) × (create true n ≡ some h)
      × (run (packing memory) 0 os h ≡ ok (spec_run os (λ q. none)))
create-run_packed memory n os filled fits keys =
    let (h, made, m) = create-Models_packed n filled fits in
    (h, made, run-spec_run (packing memory) 0 os (λ q. none) 0 h keys (all_fit memory os 0) m)

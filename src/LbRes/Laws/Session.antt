-- ===== src/LbRes/Laws/Session.antt =====
-- Whole runs of `clht_put`, `clht_get` and `clht_remove` of clht_lb_res.c against a finite map.
use cht_bench.Prelude.{
  ℕ, suc, ◌+◌, ◌^◌, ◌≤◌, ◌<◌, ◌≡◌, refl, ◌≢◌, none, some, List, [], ◌∷◌, arith, is_none, or_zero,
  length,
}
use cht_bench.Prelude.Run.{Run, ok, ◌>>=◌, Returns}
use cht_bench.Table.Rows.{total}
use cht_bench.KeyMap.{
  KeyMap, Map, bind, unbind, Op, put_op, get_op, remove_op, AllKeys, AllFit, run, spec_run,
  run-spec_run,
}
use cht_bench.LbRes.{Clht, Memory, lock_free, create}
use cht_bench.LbRes.Ops.{get, remove}
use cht_bench.LbRes.Resize.{put}
use cht_bench.LbRes.Laws.Valid.{IsValid, map_of, get-map_of}
use cht_bench.LbRes.Laws.Remove.{remove-Takes}
use cht_bench.LbRes.Laws.Resize.{IsGenerous, created, created-IsValid, map_of-created, total-fresh}
use cht_bench.LbRes.Laws.Growth.{hashtable_create-created}
use cht_bench.LbRes.Laws.Total.{put-Stores}

-- `clht_create` gives an empty table for every size that fits 32 bits but 0.
pub record IsNew (h : Clht) : Type 0 where
  pub valid : IsValid h.ht
  pub unlocked : h.resize_lock ≡ lock_free
  pub empty : (q : ℕ) → q ≢ 0 → map_of h.ht q ≡ none
  pub size : total h.ht.table ≡ 0

pub create-IsNew :
    (mem : Memory) (n : ℕ)
    → IsGenerous mem
    → 0 < n
    → n < 2 ^ 32
    → (h : Clht) × (create mem n ≡ some h) × IsNew h
unfolding create
create-IsNew mem n generous filled fits = (
  record {
    ht = created n 0;
    resize_lock = lock_free;
    gc_lock = lock_free;
    status_lock = lock_free;
    version_min = 0;
    released = [];
  },
  rw (hashtable_create-created mem n generous filled fits, create),
  record {
    valid = created-IsValid n 0 filled (omega (arith, fits));
    unlocked = refl;
    empty = map_of-created n 0;
    size = total-fresh n;
  },
)

-- Fuel for every table of less than 2 ^ 28 entries.
abbrev pub resize_fuel : ℕ
resize_fuel = 31

-- The table stands for `f`, and has at most `n` entries.
pub record Models (f : Map) (n : ℕ) (h : Clht) : Type 0 where
  pub valid : IsValid h.ht
  pub unlocked : h.resize_lock ≡ lock_free
  pub reads : (q : ℕ) → q ≢ 0 → map_of h.ht q ≡ f q
  pub bound : total h.ht.table ≤ n

-- `clht_remove` with its effect on `h->ht`.
abbrev pub remove_in : ℕ → Clht → Run (ℕ × Clht)
remove_in k h = remove h.ht k >>= λ (v, ht). ok (v, record h { ht = ht })

module _ (mem : Memory) (generous : IsGenerous mem) where
  pub put-Models :
      (k v : ℕ) (f : Map) (n : ℕ) (h : Clht)
      → k ≢ 0
      → Models f n h
      → n < 2 ^ 28
      → Returns
          (put (suc resize_fuel) mem h k v)
          (λ r. (r.0 ≡ is_none (f k)) × Models (bind f k v) (suc n) r.1)
  put-Models k v f n h used m small =
      let (r, run, s) =
        put-Stores resize_fuel mem h k v generous m.valid m.unlocked used (omega (arith, m.bound))
          (omega (arith, m.bound, m.valid.filled)) in
      (
        r,
        run,
        (
          rw (← m.reads k used) s.answers,
          record {
            valid = s.valid;
            unlocked = s.unlocked;
            reads = λ q real. ground (arith, s.reads q real, m.reads q real, m.reads k used);
            bound = ground (arith, s.size, m.bound);
          },
        ),
      )

  pub get-Models :
      (k : ℕ) (f : Map) (n : ℕ) (h : Clht) → k ≢ 0 → Models f n h → get h.ht k ≡ ok (or_zero (f k))
  get-Models k f n h used m = rw (get-map_of h.ht m.valid k, m.reads k used) refl

  pub remove-Models :
      (k : ℕ) (f : Map) (n : ℕ) (h : Clht)
      → k ≢ 0
      → Models f n h
      → Returns (remove_in k h) (λ r. (r.0 ≡ or_zero (f k)) × Models (unbind f k) n r.1)
  remove-Models k f n h used m =
      let (r, run, s) = remove-Takes h.ht k m.valid used in
      (
        (r.0, record h { ht = r.1 }),
        rw run refl,
        (
          rw (← m.reads k used) s.answers,
          record {
            valid = s.valid;
            unlocked = m.unlocked;
            reads = λ q real. ground (arith, s.reads q real, m.reads q real);
            bound = omega (arith, s.size, m.bound);
          },
        ),
      )

  -- The table with resizing as an implementation of the interface, for less than 2 ^ 28 entries.
  abbrev pub resizing : KeyMap Clht
  resizing = record {
    put = λ call k v h. put (suc resize_fuel) mem h k v;
    get = λ k h. get h.ht k;
    remove = remove_in;
    Stands = Models;
    CanAdd = λ n. n < 2 ^ 28;
    put-Stands = λ call. put-Models;
    get-Stands = get-Models;
    remove-Stands = remove-Models;
  }

  few_fit : (os : List Op) (n : ℕ) → n + length os ≤ 2 ^ 28 → AllFit resizing os n
  few_fit [] n h = tt
  few_fit (put_op k v ∷ os) n h = (omega arith, few_fit os (suc n) (omega arith))
  few_fit (get_op k ∷ os) n h = (omega arith, few_fit os n (omega arith))
  few_fit (remove_op k ∷ os) n h = (omega arith, few_fit os n (omega arith))

-- A table that clht_create returns for 1 to 2^32 - 1 buckets answers any sequence of at most 2^28
-- calls of put, get and remove, on keys other than 0 and with memalign never returning NULL,
-- exactly as a finite map that starts empty, resizes included; no call blocks, faults or runs out
-- of the model's fuel.
pub create-run :
    (mem : Memory) (n : ℕ) (os : List Op) (generous : IsGenerous mem)
    → 0 < n
    → n < 2 ^ 32
    → AllKeys os
    → length os ≤ 2 ^ 28
    → (h : Clht) × (create mem n ≡ some h)
      × (run (resizing mem generous) 0 os h ≡ ok (spec_run os (λ _. none)))
create-run mem n os generous filled fits keys few =
    let (h, made, new) = create-IsNew mem n generous filled fits in
    let start : Models (λ _. none) 0 h = record {
      valid = new.valid;
      unlocked = new.unlocked;
      reads = new.empty;
      bound = omega (arith, new.size);
    } in
    (
      h,
      made,
      run-spec_run (resizing mem generous) 0 os (λ _. none) 0 h keys
          (few_fit mem generous os 0 (omega arith)) start,
    )

-- ===== src/Tests/Doubling.antt =====
-- The lock-free table with resizing: a full table of one bucket, and a full bucket in a table of 64.
use mathlib.Core.Path.{subst}
use cht_bench.Prelude.{
  ℕ, zero, suc, ◌+◌, ◌-◌, ◌*◌, ◌%◌, ◌^◌, ◌≤◌, ◌<◌, ◌≡◌, refl, ◌∙◌, ap, ◌≢◌, true, none, some, [],
  ◌∷◌, arith, ◌==◌, if◌then◌else◌, or_zero, get_elem?, replicate, length-replicate,
  get_elem?-replicate, replicate-map,
}
use cht_bench.Prelude.Run.{ok, out_of_fuel, Returns}
use cht_bench.Hash.{hash_bin}
use cht_bench.Hash.Laws.{hash_bin_mask}
use cht_bench.Chain.{count_slots}
use cht_bench.Chain.Slots.{occurs}
use cht_bench.Table.Rows.{row, total}
use cht_bench.Lf.{Bucket, map_valid, empty_from, snap_get_empty_index}
use cht_bench.LbRes.Laws.Resize.{fresh_table, row-fresh}
use cht_bench.LfRes.{
  Hashtable, Clht, Memory, clht_lock_free, empty_bucket, get, remove, use_version,
}
use cht_bench.LfRes.Seq.{copy_table, size}
use cht_bench.LfRes.Resize.{resize_pes, put, is_sparse}
use cht_bench.LfRes.Laws.Rows.{slots_of, slots_from, chain_of, IsSound}
use cht_bench.LfRes.Laws.Valid.{rows, IsValid, map_of}
use cht_bench.LfRes.Laws.Calls.{get-map_of_lf_res, remove-Takes_lf_res}
use cht_bench.LfRes.Laws.Fill.{load}
use cht_bench.LfRes.Laws.Grow.{Rebuilds, created, copy_table-Rebuilds_lf_res}
use cht_bench.LfRes.Laws.Resize.{IsGenerous, IsReady, Grows, resize_pes-Grows}
use cht_bench.LfRes.Laws.Insert.{Stores, IsStuck, put-Stores_lf_res, put_spins}

abbrev memory : Memory
memory = record { grants = λ n. true; version = λ n. 0 }

memory-IsGenerous : IsGenerous memory
memory-IsGenerous = record { tables = λ n. refl }

-- A bucket with the keys `step`, `2 * step` and `3 * step`.
abbrev full_bucket : ℕ → Bucket
full_bucket step = record {
  snapshot = record { version = 3; map = λ j. map_valid };
  key = λ j. (j + 1) * step;
  val = λ j. j + 10;
}

full_bucket-IsSound : (step : ℕ) → 0 < step → IsSound (full_bucket step)
full_bucket-IsSound step used = record {
  named = λ j valid. grind arith;
  real = λ j valid. omega arith;
  settled = λ j free. absurd (free refl);
}

-- A table of n buckets, of which the first is full.
abbrev full_table : ℕ → ℕ → Hashtable
full_table n step = record {
  num_buckets = suc n;
  table = full_bucket step ∷ replicate n empty_bucket;
  hash = n;
  version = 0;
}

rows-fresh : (n : ℕ) → rows (replicate n empty_bucket) ≡ fresh_table n
unfolding slots_of slots_from
rows-fresh n = replicate-map chain_of n empty_bucket

abbrev of : Hashtable → Clht
of t = record {
  ht = t;
  older = [];
  mine = 2 ^ 64 - 1;
  others = (2 ^ 64 - 1) ∷ [];
  version_min = 0;
  resize_lock = clht_lock_free;
  gc_lock = clht_lock_free;
  status_lock = clht_lock_free;
}

-- Such a table is well-formed if the keys differ and belong to the first bucket.
module _ (n step : ℕ) (fits : suc n ≤ 2 ^ 32) (used : 0 < step)
    (once : (q : ℕ) → occurs q (slots_of (full_bucket step)) ≤ 1)
    (home : (q : ℕ) → hash_bin n q ≢ 0 → occurs q (slots_of (full_bucket step)) ≡ 0) where
  full-once : (q i : ℕ) → q ≢ 0 → occurs q (row (rows (full_table n step).table) i) ≤ 1
  full-once q zero real = once q
  full-once q (suc i) real =
      let none_there = row-fresh n i q real in rw (rows-fresh n) (omega (arith, none_there))

  full-apart :
      (q i : ℕ) → q ≢ 0 → hash_bin n q ≢ i → occurs q (row (rows (full_table n step).table) i) ≡ 0
  full-apart q zero real away = home q away
  full-apart q (suc i) real away = rw (rows-fresh n) (row-fresh n i q real)

  full-IsSound : (i : ℕ) (b : Bucket) → get_elem? (full_table n step).table i ≡ some b → IsSound b
  full-IsSound zero b e =
      let same : full_bucket step ≡ b = ground arith in
      subst IsSound same (full_bucket-IsSound step used)
  full-IsSound (suc i) b e = rw (get_elem?-replicate n i empty_bucket b e) (record {
    named = λ j valid. absurd (cc);
    real = λ j valid. absurd (cc);
    settled = λ j free. refl;
  })

  full_table-IsValid : IsValid (full_table n step)
  full_table-IsValid = record {
    filled = omega arith;
    fits = fits;
    width = ap suc (length-replicate n empty_bucket);
    mask = omega arith;
    placed = record { once = full-once; apart = full-apart };
    sound = full-IsSound;
  }

abbrev single : Hashtable
single = full_table 0 1

single-IsValid : IsValid single
unfolding slots_of slots_from occurs
single-IsValid =
    full_table-IsValid 0 1 (omega arith) (omega arith) (λ q. ground arith)
      (λ q away.
        let at_zero : hash_bin 0 q ≡ q % 1 = hash_bin_mask 0 q (omega arith) in
        absurd (away (at_zero ∙ omega arith)))

-- The keys 64, 128 and 192.
abbrev sparse : Hashtable
sparse = full_table 63 64

sparse-IsValid : IsValid sparse
unfolding slots_of slots_from occurs
sparse-IsValid =
    full_table-IsValid 63 64 (omega arith) (omega arith) (λ q. ground arith)
      (λ q away.
        let at_q : hash_bin 63 q ≡ q % 64 = hash_bin_mask 6 q (omega arith) in ground (arith, at_q))

get-map_of_lf_res_example :
    get (of sparse) 128 ≡ ok (or_zero (map_of sparse 128), use_version 0 (of sparse))
get-map_of_lf_res_example = get-map_of_lf_res (of sparse) 128 sparse-IsValid (omega arith)

remove-Takes_lf_res_example : Returns (remove 1 (of sparse) 128) (λ r.
    (r.0 ≡ or_zero (map_of sparse 128))
    × IsValid r.1.ht
    × ((q : ℕ) → q ≢ 0 → map_of r.1.ht q ≡ (if 128 == q then none else map_of sparse q)))
remove-Takes_lf_res_example =
    remove-Takes_lf_res (of sparse) 0 128 sparse-IsValid refl (omega arith)

copy_table-Rebuilds_lf_res_example :
    Returns (copy_table 0 sparse.table (created (2 ^ (6 + 1)) 2)) (Rebuilds sparse (2 ^ (6 + 1)) 2)
copy_table-Rebuilds_lf_res_example =
    copy_table-Rebuilds_lf_res sparse 6 1 sparse-IsValid refl (omega arith) (omega arith) 2

resize_pes-Grows_example :
    Returns
      (resize_pes memory (of sparse) true (2 ^ 1))
      (λ r. (r.0 ≡ true) × Grows (6 + 1) (of sparse) r.1)
resize_pes-Grows_example =
    resize_pes-Grows memory (of sparse) 6 1 sparse-IsValid refl refl (refl, tt) memory-IsGenerous
      (omega arith) (omega arith) (omega arith)

single-IsReady : IsReady 0 (of single)
single-IsReady = record {
  valid = single-IsValid;
  power = refl;
  resizable = refl;
  unwatched = refl;
  idle = (refl, tt);
}

-- The bucket of the key 4 is full, and the table doubles: of the keys 1, 2 and 3, one is even.
put-Stores_lf_res_example : Returns (put 18 memory (of single) 4 44) (Stores 4 44 (of single))
unfolding load total count_slots slots_of slots_from hash_bin
put-Stores_lf_res_example =
    put-Stores_lf_res memory memory-IsGenerous 1 4 44 (omega arith) (omega arith) (omega arith) 1 0
      0 (of single) refl single-IsReady (omega arith) (λ d. omega arith) (omega arith)

sparse-IsStuck : IsStuck sparse 256
unfolding slots_of slots_from occurs snap_get_empty_index empty_from hash_bin
sparse-IsStuck = record { bucket = full_bucket 64; at = refl; absent = refl; none_left = refl }

put_spins_example : put 100 memory (of sparse) 256 7 ≡ out_of_fuel
unfolding size
put_spins_example =
    put_spins memory (of sparse) 256 7 100 sparse-IsValid (omega arith) sparse-IsStuck
      (unfold is_sparse size in refl) refl

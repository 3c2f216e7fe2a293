-- ===== src/Tests/Resizing.antt =====
-- A table of one full bucket: the next put expands the bucket, hits the threshold and resizes.
use cht_bench.Prelude.{
  ℕ, zero, suc, ◌+◌, ◌-◌, ◌*◌, ◌^◌, ◌≤◌, ◌<◌, ◌≡◌, refl, ◌≢◌, ◌⊎◌, Bool, true, false, Option, none,
  some, List, [], ◌∷◌, arith, bit_and-le, or_zero,
}
use mathlib.Core.List.{map}
use cht_bench.Prelude.Run.{ok, Returns}
use cht_bench.Hash.{hash_bin, pow2roundup, smear_all}
use cht_bench.Hash.Laws.{hash_bin-lt, hash_bin_mask}
use cht_bench.Chain.{Chain, Slot, Bucket, only, count_slots, write, with_lock}
use cht_bench.Chain.Slots.{occurs, find}
use cht_bench.Table.Rows.{row, total, view}
use cht_bench.LbRes.{Hashtable, Clht, Memory, lock_resize, create, hashtable_create}
use cht_bench.LbRes.Ops.{get, remove, put_bucket}
use cht_bench.LbRes.Seq.{copy_table, size}
use cht_bench.LbRes.Resize.{
  resize_pes, ht_status, put, is_sparse, is_dense, expands_max, inc_by_pow2,
}
use cht_bench.LbRes.Laws.Valid.{IsValid, map_of, get-map_of}
use cht_bench.LbRes.Laws.Put.{Puts, Stops, put_bucket-ends}
use cht_bench.LbRes.Laws.Remove.{Takes, remove-Takes}
use cht_bench.LbRes.Laws.Resize.{IsGenerous, created, Rebuilds, copy_table-Rebuilds}
use cht_bench.LbRes.Laws.RoundTrip.{Restores, put_bucket-Restores}
use cht_bench.LbRes.Laws.Total.{Stores, put-Stores}
use cht_bench.KeyMap.{Op, put_op, get_op, remove_op, run, spec_run}
use cht_bench.LbRes.Laws.Session.{resizing, create-run}

abbrev memory : Memory
memory = record { grants = λ _. true; bucket = λ version n. some (λ j. 7) }

memory-IsGenerous : IsGenerous memory
memory-IsGenerous = record { tables = λ n. refl; buckets = λ version n. λ e. cc }

abbrev pub full_chain : Chain
full_chain = only (record {
  lock = 0;
  entries =
      record { key = 1; val = 10 }
      ∷ record { key = 2; val = 20 }
      ∷ record { key = 3; val = 30 }
      ∷ [];
})

abbrev pub crowded : Hashtable
crowded = record {
  num_buckets = 1;
  table = full_chain ∷ [];
  hash = 0;
  version = 0;
  num_expands = 0;
  num_expands_threshold = 1;
  has_new = false;
}

crowded_once : (q i : ℕ) → occurs q (row crowded.table i) ≤ 1
unfolding occurs
crowded_once q zero = ground arith
crowded_once q (suc i) = omega arith

crowded_apart : (q i : ℕ) → hash_bin 0 q ≢ i → occurs q (row crowded.table i) ≡ 0
unfolding hash_bin
crowded_apart q zero away = absurd (away (omega (arith, bit_and-le q 0)))
crowded_apart q (suc i) away = unfold occurs in refl

crowded_unlocked :
    (i : ℕ) (c : Chain)
    → cht_bench.Prelude.get_elem? crowded.table i ≡ some c
    → (cht_bench.Chain.first c).lock ≡ 0
crowded_unlocked zero c e = ground arith
crowded_unlocked (suc i) c e = absurd (cc)

pub crowded-IsValid : IsValid crowded
crowded-IsValid = record {
  filled = omega arith;
  fits = omega arith;
  width = refl;
  mask = refl;
  placed = record {
    once = λ q i real. crowded_once q i;
    apart = λ q i real away. crowded_apart q i away;
  };
  unlocked = crowded_unlocked;
}

abbrev state : Clht
state = record {
  ht = crowded;
  resize_lock = 0;
  gc_lock = 0;
  status_lock = 0;
  version_min = 0;
  released = [];
}

-- The put of a fourth key grows the table from one bucket to four.
program : Unit {0}
unfolding put put_bucket ht_status resize_pes hashtable_create copy_table size is_sparse is_dense
    expands_max inc_by_pow2 pow2roundup smear_all get remove write create run spec_run
program = tt

crowded_total : total crowded.table ≡ 3
unfolding total count_slots
crowded_total = refl

put-Stores_example : Returns (put 9 memory state 4 40) (Stores state 4 40)
put-Stores_example =
    put-Stores 8 memory state 4 40 memory-IsGenerous crowded-IsValid refl (omega arith)
      (omega (arith, crowded_total)) (omega (arith, crowded_total))

abbrev refusing : Memory
refusing = record { grants = λ _. true; bucket = λ version n. none }

put_bucket-ends_example :
    Stops refusing crowded 4 40 ⊎ Returns (put_bucket refusing crowded 4 40) (Puts crowded 4 40)
put_bucket-ends_example = put_bucket-ends refusing crowded 4 40 crowded-IsValid (omega arith)

no_key : map_of crowded 4 ≡ none
unfolding view find hash_bin
no_key = refl

put_bucket-Restores_example : Restores memory crowded 4 40
put_bucket-Restores_example =
    put_bucket-Restores memory crowded 4 40 crowded-IsValid (omega arith) (λ n e. cc) no_key

remove-Takes_example : Returns (remove crowded 2) (Takes crowded 2)
remove-Takes_example = remove-Takes crowded 2 crowded-IsValid (omega arith)

get-map_of_example : get crowded 3 ≡ ok (or_zero (map_of crowded 3))
get-map_of_example = get-map_of crowded crowded-IsValid 3

copy_table-Rebuilds_example :
    (r : Hashtable) × (copy_table memory 0 crowded.table (created 4 1)
      ≡ ok (map (with_lock lock_resize) crowded.table, r))
    × Rebuilds crowded 4 r
copy_table-Rebuilds_example =
    copy_table-Rebuilds memory crowded 4 1 crowded-IsValid (omega arith) (omega arith) (omega arith)
      memory-IsGenerous

hash_bin-lt_example : hash_bin 5 0xffff_ffff_ffff < 6
hash_bin-lt_example = hash_bin-lt 6 0xffff_ffff_ffff (omega arith) (omega arith)

hash_bin_mask_example : hash_bin 7 1003 ≡ 3
hash_bin_mask_example = hash_bin_mask 3 1003 (omega arith)

abbrev pub calls : List Op
calls =
    put_op 1 10
    ∷ put_op 2 20
    ∷ put_op 3 30
    ∷ put_op 4 40
    ∷ put_op 2 99
    ∷ get_op 2
    ∷ remove_op 3
    ∷ get_op 3
    ∷ get_op 4
    ∷ []

create-run_example :
    (h : Clht) × (create memory 1 ≡ some h)
    × (run (resizing memory memory-IsGenerous) 0 calls h ≡ ok (spec_run calls (λ _. none)))
create-run_example =
    create-run memory 1 calls memory-IsGenerous (omega arith) (omega arith) (omega arith)
      (omega arith)

calls_spec : spec_run calls (λ _. none) ≡ 1 ∷ 1 ∷ 1 ∷ 1 ∷ 0 ∷ 20 ∷ 30 ∷ 0 ∷ 40 ∷ []
unfolding spec_run cht_bench.KeyMap.spec_step
calls_spec = refl

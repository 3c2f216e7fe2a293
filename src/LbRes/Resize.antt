-- ===== src/LbRes/Resize.antt =====
-- `ht_resize_pes`, `ht_status` and `clht_put` of clht_lb_res.c. The two first call one another, so
-- `ht_status` takes fuel and hands its next call to `resize_pes`.
-- With CLHT_DO_GC 0 the call of `clht_gc_collect` does nothing, and the old table goes to
-- `clht_gc_release`. Time stamps and messages are left out. The percentages of `ht_status` are
-- doubles; the tests are those of the exact quotients.
use cht_bench.Prelude.{
  ℕ, zero, suc, ◌+◌, ◌*◌, ◌/◌, Bool, true, false, not, ◌&&◌, ◌||◌, none, some, List, [], ◌∷◌, ◌==◌,
  ltb, leb, if◌then◌else◌,
}
use Prim.Native.Nat.{max}
use cht_bench.Prelude.Run.{Run, ok, fault, out_of_fuel, ◌>>=◌}
use cht_bench.Hash.{u64, pow2roundup}
use cht_bench.Chain.{Chain, expands_of}
use cht_bench.LbRes.{Clht, Memory, lock_free, hashtable_create}
use cht_bench.LbRes.Ops.{put_bucket}
use cht_bench.LbRes.Seq.{copy_table, size}

-- What `TAS_U8` leaves behind.
abbrev pub tas_taken : ℕ
tas_taken = 0xff

unfoldable pub resize_pes : (Clht → Run (ℕ × Clht)) → Memory → Clht → Bool → ℕ → Run (Bool × Clht)
resize_pes status mem h is_increase by =
    let ht_old = h.ht in
    if not (h.resize_lock == lock_free)
    then ok (false, record h { resize_lock = tas_taken })
    else (let num_buckets_new =
          if is_increase then u64 (by * ht_old.num_buckets) else ht_old.num_buckets / 8 in
        elim (hashtable_create mem num_buckets_new) [
          | none ↦ fault
          | some created ↦
              copy_table mem 0 ht_old.table (record created { version = u64 (ht_old.version + 1) })
              >>= λ (table_old, ht_new).
                  let swapped : Clht = record h {
                    ht = ht_new;
                    resize_lock = lock_free;
                    released = record ht_old { table = table_old; has_new = true } ∷ h.released;
                  } in
                  let again = status swapped in
                  if leb ht_new.num_expands_threshold ht_new.num_expands
                  then (again >>= λ (_, h'). ok (true, h'))
                  else ok (true, swapped)
        ])

unfoldable pub expands_max : List Chain → ℕ
unfolding expands_of
expands_max [] = 0
expands_max (c ∷ t) = max (expands_of c) (expands_max t)

-- `0 < full_ratio && full_ratio < CLHT_PERC_FULL_HALVE`, with `full_ratio` = 100 * size / (3 * n)
unfoldable pub is_sparse : ℕ → ℕ → Bool
is_sparse size n = ltb 0 size && ltb (100 * size) (5 * (n * 3))

-- `0 < full_ratio && full_ratio > CLHT_PERC_FULL_DOUBLE`
unfoldable pub is_dense : ℕ → ℕ → Bool
is_dense size n = ltb 0 size && ltb (50 * (n * 3)) (100 * size)

-- `inc_by` rounded up to a power of two, and 2 in place of 1
unfoldable pub inc_by_pow2 : ℕ → ℕ → ℕ
inc_by_pow2 size n =
    let inc = pow2roundup (100 * size / (n * 3 * 40)) in if inc == 1 then 2 else inc

unfoldable pub ht_status : ℕ → Memory → Clht → Bool → Bool → Run (ℕ × Clht)
ht_status zero mem h resize_increase just_print = out_of_fuel
ht_status (suc fuel) mem h resize_increase just_print =
    let held = record h { status_lock = tas_taken } in
    let n = h.ht.num_buckets in
    let elems = size h.ht in
    let resized =
      resize_pes (λ h'. ht_status fuel mem h' true false) mem held true (inc_by_pow2 elems n)
      >>= λ (_, h'). ok (elems, record h' { status_lock = lock_free }) in
    let unchanged : Run (ℕ × Clht) = ok (elems, record held { status_lock = lock_free }) in
    if not (h.status_lock == lock_free) && not resize_increase
    then ok (0, held)
    else if just_print
    then unchanged
    else if is_sparse elems n
    then unchanged
    else if is_dense elems n || (ltb 24 (expands_max h.ht.table) || resize_increase)
    then resized
    else unchanged

-- `clht_put`: the bucket, and `ht_status(h, 1, 0)` if the new bucket hit the threshold.
unfoldable pub put : ℕ → Memory → Clht → ℕ → ℕ → Run (Bool × Clht)
put fuel mem h key val = put_bucket mem h.ht key val >>= λ (answer, ht, resize).
    let stored : Clht = record h { ht = ht } in
    let after = ht_status fuel mem stored true false in
    if resize then (after >>= λ (_, h'). ok (answer, h')) else ok (answer, stored)

-- ===== src/LfRes/Resize.antt =====
-- `ht_resize_pes`, `ht_status` and `clht_put` of clht_lf_res.c, with what they call of clht_gc.c. A
-- wait for other threads never ends for a lone thread.
-- Time stamps and messages are left out. The percentages of `ht_status` are doubles; the tests are
-- those of the exact quotients.
use cht_bench.Prelude.{
  ℕ, zero, suc, ◌+◌, ◌*◌, ◌/◌, Bool, true, false, not, ◌&&◌, ◌||◌, none, some, List, [], ◌∷◌, ◌++◌,
  ◌==◌, ltb, leb, if◌then◌else◌,
}
use cht_bench.Prelude.Run.{Run, ok, fault, blocked, out_of_fuel, ◌>>=◌}
use cht_bench.Hash.{u64, pow2roundup}
use cht_bench.LbRes.Resize.{tas_taken}
use cht_bench.LfRes.{
  Clht, Memory, clht_lock_free, clht_lock_acqr, hashtable_create, hash, bucket_at, with_bucket,
  use_version, no_update, retry, check_resize,
}
use cht_bench.LfRes.Seq.{copy_table, size}

-- The least version of a list, or `min`.
unfoldable pub min_loop : ℕ → List ℕ → ℕ
min_loop min [] = min
min_loop min (version ∷ rest) = min_loop (if ltb version min then version else min) rest

unfoldable pub gc_min_version_used : Clht → ℕ
unfolding min_loop
gc_min_version_used h = min_loop h.ht.version (h.mine ∷ h.others)

-- The lock is taken by a CAS, so that a failure leaves it.
unfoldable pub resize_pes : Memory → Clht → Bool → ℕ → Run (Bool × Clht)
unfolding gc_min_version_used
resize_pes mem h is_increase by =
    let ht_old = h.ht in
    let num_buckets_new =
      if is_increase then u64 (by * ht_old.num_buckets) else ht_old.num_buckets / 2 in
    let cur_version = ht_old.version in
    let left = record ht_old { version = u64 (cur_version + 1) } in
    let held = use_version left.version (record h { resize_lock = clht_lock_acqr; ht = left }) in
    if not (h.resize_lock == clht_lock_free)
    then ok (false, h)
    else elim (hashtable_create mem num_buckets_new) [
      | none ↦ fault
      | some created ↦
          if leb (gc_min_version_used held) cur_version
          then blocked
          else (copy_table 0 ht_old.table (record created { version = u64 (cur_version + 2) })
              >>= λ ht_new. ok (
                true,
                record held {
                  ht = ht_new;
                  older = h.older ++ left ∷ [];
                  resize_lock = clht_lock_free;
                },
              ))
    ]

-- clht_gc.c is compiled with clht_lb_res.h, where CLHT_DO_GC is 0: it collects nothing.
unfoldable pub gc_collect : Clht → ℕ × Clht
gc_collect h = (0, h)

-- `0 < full_ratio && full_ratio < CLHT_PERC_FULL_HALVE`, with `full_ratio` = 100 * size / (3 * n)
unfoldable pub is_sparse : ℕ → ℕ → Bool
is_sparse size n = ltb 0 size && ltb (100 * size) (2 * (n * 3))

-- `0 < full_ratio && full_ratio > CLHT_PERC_FULL_DOUBLE`
unfoldable pub is_dense : ℕ → ℕ → Bool
is_dense size n = ltb 0 size && ltb (15 * (n * 3)) (100 * size)

-- `full_ratio / CLHT_OCCUP_AFTER_RES` rounded up to a power of two, at least 2
unfoldable pub inc_by_pow2 : ℕ → ℕ → ℕ
inc_by_pow2 size n =
    let inc = pow2roundup (100 * size / (n * 3 * 40)) in if leb inc 1 then 2 else inc

-- The table as the test of the load leaves it.
unfoldable pub grow : Memory → Clht → Bool → Bool → Run Clht
unfolding resize_pes size is_sparse is_dense inc_by_pow2
grow mem h resize_increase emergency_increase =
    let n = h.ht.num_buckets in
    let elems = size h.ht in
    if is_sparse elems n
    then ok h
    else if is_dense elems n || (emergency_increase || resize_increase)
    then (resize_pes mem h true (inc_by_pow2 elems n) >>= λ (_, h'). ok h')
    else ok h

unfoldable pub ht_status : Memory → Clht → Bool → Bool → Bool → Run (ℕ × Clht)
unfolding grow gc_collect size
ht_status mem h resize_increase emergency_increase just_print =
    let held = record h { status_lock = tas_taken } in
    let elems = size h.ht in
    if not (h.status_lock == clht_lock_free) && not resize_increase
    then ok (0, held)
    else if just_print
    then ok (elems, record held { status_lock = clht_lock_free })
    else (grow mem held resize_increase emergency_increase >>= λ h'.
        let (_, collected) = gc_collect h' in
        ok (elems, record collected { status_lock = clht_lock_free }))

abbrev pub no_empty_slot_tries : ℕ
no_empty_slot_tries = 16

-- `clht_put` from `retry_all` on, with its counter `empty_retries`.
unfoldable pub put_all : ℕ → Memory → ℕ → Clht → ℕ → ℕ → Run (Bool × Clht)
unfolding check_resize hash bucket_at retry ht_status
put_all zero mem empty_retries h key val = out_of_fuel
put_all (suc fuel) mem empty_retries h key val = check_resize h >>= λ h.
    let bin = hash h.ht key in
    bucket_at h.ht bin >>= λ b. retry (suc fuel) key val none b >>= λ (result, b').
    let stored = record h { ht = with_bucket h.ht bin b' } in
    elim result [
      | some answer ↦ ok (answer, no_update stored)
      | none ↦ elim (leb no_empty_slot_tries empty_retries) [
        | true ↦ ht_status mem stored false true false >>= λ (_, h'). put_all fuel mem 0 h' key val
        | false ↦ put_all fuel mem (suc empty_retries) stored key val
      ]
    ]

unfoldable pub put : ℕ → Memory → Clht → ℕ → ℕ → Run (Bool × Clht)
unfolding put_all
put fuel mem h key val = put_all fuel mem 0 h key val

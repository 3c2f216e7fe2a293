-- ===== src/LfRes/Laws/Status.antt =====
-- `ht_status` of clht_lf_res.c as a put without a slot calls it.
use native.Mathlib.Nat.{div-lt_iff_lt-mul, two-pow-succ}
use cht_bench.Prelude.{
  ℕ, zero, suc, ◌+◌, ◌*◌, ◌/◌, ◌^◌, ◌≤◌, ◌<◌, ◌≡◌, refl, true, false, List, [], ◌∷◌, arith, inl,
  inr, ◌==◌, leb, if◌then◌else◌, Bool-cases, length,
}
use cht_bench.Prelude.Run.{Returns}
use cht_bench.Hash.{smear, smear_all, pow2roundup}
use cht_bench.Hash.Pow2.{pow2roundup_small}
use cht_bench.Table.Rows.{total}
use cht_bench.LbRes.Resize.{tas_taken}
use cht_bench.Lf.{Bucket}
use cht_bench.LfRes.{Hashtable, Clht, Memory, clht_lock_free}
use cht_bench.LfRes.Seq.{size}
use cht_bench.LfRes.Resize.{gc_collect, is_sparse, inc_by_pow2, grow, ht_status}
use cht_bench.LfRes.Laws.Valid.{rows, IsValid, size-total}
use cht_bench.LfRes.Laws.Grow.{Rebuilds, row-few}
use cht_bench.LfRes.Laws.Resize.{IsGenerous, IsReady, resize_pes-Grows}

total-le : (t : List Bucket) → total (rows t) ≤ 3 * length t
unfolding total
total-le [] = omega arith
total-le (b ∷ t) = omega (arith, row-few (b ∷ []) 0, total-le t)

-- A table holds at most three entries in a bucket.
pub size-le : (h : Hashtable) → IsValid h → size h ≤ 3 * h.num_buckets
size-le h valid = omega (arith, size-total h, total-le h.table, valid.width)

pow2roundup_two : pow2roundup 2 ≡ 2
unfolding pow2roundup smear_all smear
pow2roundup_two = refl

pow2roundup_low : (q : ℕ) → q < 3 → (if leb (pow2roundup q) 1 then 2 else pow2roundup q) ≡ 2
pow2roundup_low zero low = rw (pow2roundup_small 0 (omega arith)) refl
pow2roundup_low (suc zero) low = rw (pow2roundup_small 1 (omega arith)) refl
pow2roundup_low (suc (suc zero)) low = rw pow2roundup_two refl
pow2roundup_low (suc (suc (suc q))) low = absurd (omega arith)

-- The load is at most 100 percent, so that a table always doubles.
pub inc_by_two : (size n : ℕ) → 0 < n → size ≤ 3 * n → inc_by_pow2 size n ≡ 2
unfolding inc_by_pow2
inc_by_two size n filled full =
    pow2roundup_low (100 * size / (n * 3 * 40)) ((div-lt_iff_lt-mul (omega arith)).1 (omega arith))

not_sparse_dense : (size n : ℕ) → 6 * n ≤ 100 * size → is_sparse size n ≡ false
unfolding is_sparse
not_sparse_dense size n dense = ground arith

-- Between operations, with a table that is not nearly empty: the table doubles.
pub ht_status-doubles :
    (mem : Memory) (h : Clht) (k : ℕ)
    → IsReady k h
    → IsGenerous mem
    → k + 1 ≤ 31
    → h.ht.version + 2 < 2 ^ 64
    → 3 * 2 ^ (k + 1) ≤ 100 * total (rows h.ht.table)
    → Returns
        (ht_status mem h false true false)
        (λ r. IsReady (k + 1) r.1 × Rebuilds h.ht (2 ^ (k + 1)) (h.ht.version + 2) r.1.ht)
unfolding ht_status grow gc_collect
ht_status-doubles mem h k ready generous fits versions dense =
    let held = record h { status_lock = tas_taken } in
    let n = h.ht.num_buckets in
    let pos : 0 < n = ready.valid.filled in
    let z : k + 1 ≡ suc k = omega arith in
    let twice : 2 ^ (k + 1) ≡ 2 ^ k + 2 ^ k = rw z (two-pow-succ k) in
    let not_sparse : is_sparse (size h.ht) n ≡ false =
      not_sparse_dense (size h.ht) n (omega (arith, ready.power, dense, size-total h.ht, twice)) in
    let two = inc_by_two (size h.ht) n pos (size-le h.ht ready.valid) in
    let (r, run, (done, grows)) =
      resize_pes-Grows mem held k 1 ready.valid ready.power ready.resizable ready.idle generous fits
        (omega (arith, fits)) versions in
    (
      (size h.ht, record r.1 { status_lock = clht_lock_free }),
      rw (ready.unwatched, not_sparse, two, run) (ground arith),
      (
        record {
          valid = grows.rebuilds.valid;
          power = grows.rebuilds.same_size;
          resizable = grows.free;
          unwatched = refl;
          idle = rw grows.others ready.idle;
        },
        grows.rebuilds,
      ),
    )

-- With a nearly empty table `ht_status` leaves the table alone, whether it gets the lock or not.
pub ht_status_sparse :
    (mem : Memory) (h : Clht)
    → is_sparse (size h.ht) h.ht.num_buckets ≡ true
    → Returns
        (ht_status mem h false true false)
        (λ r. (r.1.ht ≡ h.ht) × (r.1.resize_lock ≡ h.resize_lock))
unfolding ht_status grow gc_collect
ht_status_sparse mem h sparse =
    let held = record h { status_lock = tas_taken } in
    elim (Bool-cases (h.status_lock == clht_lock_free)) [
      | inl free ↦ (
        (size h.ht, record held { status_lock = clht_lock_free }),
        rw (free, sparse) refl,
        (refl, refl),
      )
      | inr taken ↦ ((0, held), rw taken refl, (refl, refl))
    ]

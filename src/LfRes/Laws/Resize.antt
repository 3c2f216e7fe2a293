-- ===== src/LfRes/Laws/Resize.antt =====
-- `ht_resize_pes` and `ht_status` when no other thread has an operation going.
use native.Mathlib.Nat.{mod-eq_of_lt, one-le-pow, pow-le-pow_right}
use cht_bench.Prelude.{
  pow-times, ℕ, ◌+◌, ◌-◌, ◌*◌, ◌^◌, ◌≤◌, ◌<◌, ◌≡◌, refl, true, false, some, List, [], ◌∷◌, ◌++◌,
  arith, ◌==◌, ltb, leb,
}
use cht_bench.Prelude.Run.{Returns}
use cht_bench.Hash.{u64}
use cht_bench.Gc.Laws.{Each}
use cht_bench.LfRes.{
  Hashtable, Clht, Memory, clht_lock_free, clht_lock_acqr, hashtable_create, use_version,
}
use cht_bench.LfRes.Resize.{min_loop, gc_min_version_used, resize_pes}
use cht_bench.LfRes.Laws.Valid.{IsValid}
use cht_bench.LfRes.Laws.Grow.{Rebuilds, created, copy_table-Rebuilds_lf_res}

-- `memalign` grants every table.
pub record IsGenerous (mem : Memory) : Type 0 where
  pub tables : (n : ℕ) → mem.grants n ≡ true

-- Every other thread has announced that it has no operation.
abbrev pub AllIdle : List ℕ → Type 0
AllIdle = Each (λ version. version ≡ 2 ^ 64 - 1)

-- Between operations: a well-formed table of 2 ^ k buckets, no lock held, no other thread at work.
pub record IsReady (k : ℕ) (h : Clht) : Type 0 where
  pub valid : IsValid h.ht
  pub power : h.ht.num_buckets ≡ 2 ^ k
  pub resizable : h.resize_lock ≡ clht_lock_free
  pub unwatched : h.status_lock ≡ clht_lock_free
  pub idle : AllIdle h.others

-- The structure with the old table behind `ht_oldest` and its copy in place.
pub record Grows (k : ℕ) (h r : Clht) : Type 0 where
  pub rebuilds : Rebuilds h.ht (2 ^ k) (h.ht.version + 2) r.ht
  pub kept : r.older ≡ h.older ++ record h.ht { version = h.ht.version + 1 } ∷ []
  pub free : r.resize_lock ≡ clht_lock_free
  pub status : r.status_lock ≡ h.status_lock
  pub others : r.others ≡ h.others
  pub mine : r.mine ≡ h.ht.version + 1
  pub version_min : r.version_min ≡ h.version_min
  pub gc_lock : r.gc_lock ≡ h.gc_lock

min_loop-least : (m : ℕ) (l : List ℕ) → Each (λ v. m ≤ v) l → min_loop m l ≡ m
unfolding min_loop
min_loop-least m [] above = refl
min_loop-least m (v ∷ r) above =
    let later : ltb v m ≡ false = ground (arith, above.0) in rw later (min_loop-least m r above.1)

AllIdle-least : (m : ℕ) (l : List ℕ) → m ≤ 2 ^ 64 - 1 → AllIdle l → Each (λ v. m ≤ v) l
AllIdle-least m [] small idle = tt
AllIdle-least m (v ∷ r) small idle = (omega (arith, idle.0), AllIdle-least m r small idle.1)

pow-fits : (k : ℕ) → k ≤ 31 → 2 ^ k < 2 ^ 32
pow-fits k h = let le : 2 ^ k ≤ 2 ^ 31 = pow-le-pow_right (omega arith) h in omega (arith, le)

hashtable_create-created :
    (mem : Memory) (n : ℕ)
    → IsGenerous mem
    → 0 < n
    → n < 2 ^ 32
    → hashtable_create mem n ≡ some (created n (mem.version n))
unfolding hashtable_create
hashtable_create-created mem n generous filled fits =
    let used : (n == 0) ≡ false = ground arith in
    rw (mod-eq_of_lt fits, used, generous.tables n) refl

module _ (mem : Memory) (h : Clht) (k j : ℕ) (valid : IsValid h.ht)
    (power : h.ht.num_buckets ≡ 2 ^ k) (free : h.resize_lock ≡ clht_lock_free)
    (idle : AllIdle h.others) (generous : IsGenerous mem) (fits : k + j ≤ 31) (few : k ≤ 30)
    (versions : h.ht.version + 2 < 2 ^ 64) where
  abbrev left : Hashtable
  left = record h.ht { version = h.ht.version + 1 }

  abbrev grown : Hashtable → Clht
  grown t = record h {
    ht = t;
    older = h.older ++ left ∷ [];
    mine = h.ht.version + 1;
    resize_lock = clht_lock_free;
  }

  new_size : u64 (2 ^ j * h.ht.num_buckets) ≡ 2 ^ (k + j)
  new_size =
      let small = pow-fits (k + j) fits in
      let times : 2 ^ j * h.ht.num_buckets ≡ 2 ^ (k + j) = rw power (pow-times j k) in
      rw (times) (omega (arith, small))

  next : u64 (h.ht.version + 1) ≡ h.ht.version + 1
  next = omega arith

  nothing_older :
      leb
        (gc_min_version_used
          (use_version (h.ht.version + 1) (record h { resize_lock = clht_lock_acqr; ht = left })))
        h.ht.version
      ≡ false
  unfolding gc_min_version_used
  nothing_older =
      let same : min_loop (h.ht.version + 1) ((h.ht.version + 1) ∷ h.others) ≡ h.ht.version + 1 =
        min_loop-least (h.ht.version + 1) ((h.ht.version + 1) ∷ h.others)
          (omega arith, AllIdle-least (h.ht.version + 1) h.others (omega arith) idle) in
      rw same (ground arith)

  -- ht_resize_pes of the lock-free table, called to grow by 2^j on a well-formed table of 2^k
  -- buckets (k at most 30, k + j at most 31) that nobody resizes, with the other threads idle,
  -- memory granted and versions below 2^64, returns true: the new table has 2^(k + j) buckets,
  -- stands for the same map with as many entries, the same number in every class of keys, and has
  -- the version of the old one plus 2; the old table is kept behind the older ones with its
  -- version plus 1, the thread has published that version, the resize lock is given back, and the
  -- versions of the other threads, version_min, gc_lock and status_lock stay.
  pub resize_pes-Grows :
      Returns (resize_pes mem h true (2 ^ j)) (λ r. (r.0 ≡ true) × Grows (k + j) h r.1)
  unfolding resize_pes
  resize_pes-Grows =
      let (t, copied, rebuilds) =
        copy_table-Rebuilds_lf_res h.ht k j valid power fits few (h.ht.version + 2) in
      let granted =
        hashtable_create-created mem (2 ^ (k + j)) generous (one-le-pow (k + j) 2 (omega arith))
          (pow-fits (k + j) fits) in
      let later : u64 (h.ht.version + 2) ≡ h.ht.version + 2 = omega arith in
      (
        (true, grown t),
        rw (free, new_size, granted, next, nothing_older, later, copied) refl,
        (
          refl,
          record {
            rebuilds = rebuilds;
            kept = refl;
            free = refl;
            status = refl;
            others = refl;
            mine = refl;
            version_min = refl;
            gc_lock = refl;
          },
        ),
      )

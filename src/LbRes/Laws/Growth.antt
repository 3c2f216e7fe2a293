-- ===== src/LbRes/Laws/Growth.antt =====
-- `clht_size`, the factor by which `ht_status` grows a table, and `ht_resize_pes`.
use cht_bench.Prelude.{
  ℕ, ◌+◌, ◌*◌, ◌/◌, ◌^◌, ◌≤◌, ◌<◌, ◌≡◌, refl, ◌∙◌, ◌≢◌, Bool, true, some, List, [], ◌∷◌, arith, inl,
  inr, leb, if◌then◌else◌, Bool-cases, ne→==, dec_lt,
}
use mathlib.Core.List.{map}
use native.Mathlib.Nat.{mul-le-mul_right, mul-le-mul_left, div-mul-le_self}
use cht_bench.Prelude.Run.{Run, ok, ◌>>=◌, Returns}
use cht_bench.Hash.{u64}
use cht_bench.Hash.Pow2.{pow2roundup_pos, pow2roundup-le, pow2roundup_small}
use cht_bench.Chain.{Chain, with_lock}
use cht_bench.Chain.Laws.{size_loop-count}
use cht_bench.Table.Rows.{total}
use native.Mathlib.Nat.{mod-eq_of_lt}
use cht_bench.LbRes.{Hashtable, Clht, Memory, lock_free, lock_resize, hashtable_create}
use cht_bench.LbRes.Seq.{size, size_table}
use cht_bench.LbRes.Resize.{resize_pes, inc_by_pow2}
use cht_bench.LbRes.Laws.Valid.{IsValid, map_of}
use cht_bench.LbRes.Laws.Resize.{IsGenerous, created, Rebuilds, copy_table-Rebuilds}

-- The factor by which a table grows is at least 2, and the new size is bounded by the entries.
module _ (s n : ℕ) (filled : 0 < n) (dense : 3 * n ≤ 20 * s) (small : s ≤ 2 ^ 28) where
  abbrev ratio : ℕ
  ratio = 100 * s / (n * 3 * 40)

  ratio-mul : ratio * (n * 3 * 40) ≤ 100 * s
  ratio-mul = div-mul-le_self (100 * s) (n * 3 * 40)

  ratio-le : ratio ≤ s
  ratio-le = omega (arith, ratio-mul, mul-le-mul_left ratio filled)

  pub inc-le : (2 ≤ inc_by_pow2 s n) × (inc_by_pow2 s n * n ≤ 14 * s)
  unfolding inc_by_pow2
  inc-le =
      let fits : ratio < 2 ^ 31 = omega (arith, ratio-le) in
      let pos = pow2roundup_pos ratio fits in
      elim (dec_lt 1 ratio) [
        | no low ↦
            let one = pow2roundup_small ratio (omega arith) in rw one (omega arith, omega arith)
        | yes more ↦
            let bound = mul-le-mul_right n (pow2roundup-le ratio fits more) in
            (ground (arith, pos), ground (arith, bound, ratio-mul))
      ]

size_table-total : (t : List Chain) → size_table t ≡ total t
unfolding size_table total
size_table-total [] = refl
size_table-total (c ∷ t) = omega (arith, size_loop-count c, size_table-total t)

-- `clht_size` counts the entries.
pub size-total : (h : Hashtable) → size h ≡ total h.table
unfolding size
size-total h = size_table-total h.table

-- What `ht_status` and `ht_resize_pes` keep: a well-formed table with the same map and entries, and
-- a free `resize_lock`.
pub record Keeps (h h' : Clht) : Type 0 where
  pub valid : IsValid h'.ht
  pub reads : (q : ℕ) → q ≢ 0 → map_of h'.ht q ≡ map_of h.ht q
  pub size : total h'.ht.table ≡ total h.ht.table
  pub unlocked : h'.resize_lock ≡ lock_free

pub Keeps-trans : (a b c : Clht) → Keeps a b → Keeps b c → Keeps a c
Keeps-trans a b c f g = record {
  valid = g.valid;
  reads = λ q real. g.reads q real ∙ f.reads q real;
  size = g.size ∙ f.size;
  unlocked = g.unlocked;
}

pub hashtable_create-created :
    (mem : Memory) (n : ℕ)
    → IsGenerous mem
    → 0 < n
    → n < 2 ^ 32
    → hashtable_create mem n ≡ some (created n 0)
unfolding hashtable_create
hashtable_create-created mem n generous filled fits =
    rw (mod-eq_of_lt fits, ne→== n 0 (λ e. absurd (omega arith)), generous.tables n)

-- The state after the exchange of the tables.
abbrev swapped : Clht → Hashtable → Clht
swapped h r = record h {
  ht = r;
  resize_lock = lock_free;
  released =
      record h.ht { table = map (with_lock lock_resize) h.ht.table; has_new = true } ∷ h.released;
}

module _ (mem : Memory) (generous : IsGenerous mem) (status : Clht → Run (ℕ × Clht)) (h : Clht)
    (valid : IsValid h.ht) (open_lock : h.resize_lock ≡ lock_free) where
  after_swap : (r : Hashtable) → Bool → Run (Bool × Clht)
  after_swap r again =
      if again then (status (swapped h r) >>= λ (_, h'). ok (true, h')) else ok (true, swapped h r)

  -- `ht_resize_pes` copies the table, and calls `ht_status` if the new one has expanded too often.
  resize_pes-swap :
      (by : ℕ)
      → 0 < by * h.ht.num_buckets
      → by * h.ht.num_buckets < 2 ^ 32
      → h.ht.num_buckets < 2 ^ 31
      → (r : Hashtable) × (resize_pes status mem h true by
          ≡ after_swap r (leb r.num_expands_threshold r.num_expands))
        × Rebuilds h.ht (by * h.ht.num_buckets) r
  unfolding resize_pes after_swap
  resize_pes-swap by filled fits few =
      let n = by * h.ht.num_buckets in
      let whole : u64 n ≡ n = omega arith in
      let (r, run, built) =
        copy_table-Rebuilds mem h.ht n (u64 (h.ht.version + 1)) valid few filled fits generous in
      (
        r,
        rw (open_lock, whole, hashtable_create-created mem n generous filled fits, run)
            (ground arith),
        built,
      )

  pub resize_pes-Keeps :
      (by : ℕ)
      → 0 < by * h.ht.num_buckets
      → by * h.ht.num_buckets < 2 ^ 32
      → h.ht.num_buckets < 2 ^ 31
      → ((h' : Clht)
          → Keeps h h'
          → h'.ht.num_buckets ≡ by * h.ht.num_buckets
          → Returns (status h') (λ r. Keeps h' r.1))
      → Returns (resize_pes status mem h true by) (λ r. (r.0 ≡ true) × Keeps h r.1)
  unfolding after_swap
  resize_pes-Keeps by filled fits few go_on =
      let (r, run, built) = resize_pes-swap by filled fits few in
      let kept : Keeps h (swapped h r) = record {
        valid = built.valid;
        reads = built.reads;
        size = built.size;
        unlocked = refl;
      } in
      elim (Bool-cases (leb r.num_expands_threshold r.num_expands)) [
        | inr done ↦ ((true, swapped h r), rw (run, done), (refl, kept))
        | inl again ↦
            let (s, run', kept') = go_on (swapped h r) kept built.same_size in
            ((true, s.1), rw (run, again, run'), (refl, Keeps-trans h (swapped h r) s.1 kept kept'))
      ]

-- A change of the status lock keeps everything.
pub relock :
    (h : Clht) (l : ℕ)
    → IsValid h.ht
    → h.resize_lock ≡ lock_free
    → Keeps h (record h { status_lock = l })
relock h l valid open_lock = record {
  valid = valid;
  reads = λ q real. refl;
  size = refl;
  unlocked = open_lock;
}

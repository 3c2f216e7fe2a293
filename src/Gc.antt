-- ===== src/Gc.antt =====
-- Reclaiming old tables by versions, src/clht/src/clht_gc.c with the structures of clht_lb_res.h. Each
-- thread publishes the version of the table that it uses; a collection frees the tables older than
-- all of these. The tables from `ht_oldest` on, along `table_new`, are a list, whose last is `ht`;
-- `table_prev`, which nothing reads, is left out. What goes to `free` or `ssmem_release` is a list of
-- blocks.

pub mod Laws
use cht_bench.Prelude.{
  ℕ, zero, suc, ◌-◌, ◌^◌, Bool, true, false, not, ◌||◌, Option, none, some, List, [], ◌∷◌, ◌++◌,
  ◌==◌, ltb, leb, if◌then◌else◌, get_elem?, set,
}
use cht_bench.Prelude.Run.{Run, ok, fault, ◌>>=◌}
use cht_bench.Chain.{Chain, expands_of}
use cht_bench.LbRes.{Hashtable, lock_free}
use cht_bench.LbRes.Resize.{tas_taken}

-- `ht_ts_t`
pub record Ts : Type 0 where
  pub version : ℕ
  pub id : ℕ

-- What one call of `free` takes: a bucket behind bin `bin` of the table with a version, the array of
-- buckets, or the table's structure.
pub data Block : Type 0 where
  bucket_of : (version bin i : ℕ) → Block
  array_of : (version : ℕ) → Block
  table_of : (version : ℕ) → Block

-- `clht_t`, as far as a collection reads it. `older` are the tables from `ht_oldest` on before `ht`.
pub record Clht : Type 0 where
  pub older : List Hashtable
  pub ht : Hashtable
  pub version_list : List Ts
  pub version_min : ℕ
  pub gc_lock : ℕ

unfoldable pub gc_thread_init : Clht → ℕ → Clht
gc_thread_init h id = record h {
  version_list = record { version = h.ht.version; id = id } ∷ h.version_list;
}

-- `clht_ts_thread` is the entry number `i` of the list.
unfoldable pub gc_set_version : Clht → ℕ → ℕ → Run Clht
gc_set_version h i version = elim (get_elem? h.version_list i) [
  | none ↦ fault
  | some ts ↦
      ok (record h { version_list = set h.version_list i (record ts { version = version }) })
]

unfoldable pub gc_thread_version : Clht → ℕ → Hashtable → Run Clht
unfolding gc_set_version
gc_thread_version h i hashtable = gc_set_version h i hashtable.version

-- The version -1 of a `size_t`
unfoldable pub gc_thread_version_max : Clht → ℕ → Run Clht
unfolding gc_set_version
gc_thread_version_max h i = gc_set_version h i (2 ^ 64 - 1)

-- The least version of the list, or `min`.
unfoldable pub min_loop : ℕ → List Ts → ℕ
min_loop min [] = min
min_loop min (ts ∷ rest) = min_loop (if ltb ts.version min then ts.version else min) rest

unfoldable pub gc_min_version_used : Clht → ℕ
unfolding min_loop
gc_min_version_used h = min_loop h.ht.version h.version_list

-- The buckets behind a bin, from the one numbered `i` on.
unfoldable pub bucket_blocks : ℕ → ℕ → ℕ → ℕ → List Block
bucket_blocks version bin i zero = []
bucket_blocks version bin i (suc n) = bucket_of version bin i ∷ bucket_blocks version bin (suc i) n

unfoldable pub table_blocks : ℕ → ℕ → List Chain → List Block
unfolding bucket_blocks expands_of
table_blocks version bin [] = []
table_blocks version bin (c ∷ t) =
    bucket_blocks version bin 0 (expands_of c) ++ table_blocks version (suc bin) t

unfoldable pub gc_free : Hashtable → List Block
unfolding table_blocks
gc_free h = table_blocks h.version 0 h.table ++ array_of h.version ∷ table_of h.version ∷ []

-- The loop of `clht_gc_collect_cond` over the tables from `ht_oldest` on: how many it frees, what it
-- frees, and the tables from the new `ht_oldest` on. `ht` has no `table_new`, so a collection of it
-- writes to `NULL`.
unfoldable pub collect_loop : ℕ → List Hashtable → Hashtable → Run (ℕ × List Block × List Hashtable)
unfolding gc_free
collect_loop min [] ht = if ltb ht.version min then fault else ok (0, [], [])
collect_loop min (h ∷ older) ht =
    let rest = collect_loop min older ht in
    if ltb h.version min
    then (rest >>= λ (n, freed, left). ok (suc n, gc_free h ++ freed, left))
    else ok (0, [], h ∷ older)

-- `cur->version` of the new `ht_oldest`
abbrev pub oldest_version : List Hashtable → Hashtable → ℕ
oldest_version [] ht = ht.version
oldest_version (h ∷ older) ht = h.version

-- The result, what is freed, and the structure.
unfoldable pub gc_collect_cond : Clht → Bool → Run (ℕ × List Block × Clht)
unfolding gc_min_version_used collect_loop
gc_collect_cond h collect_not_referenced_only =
    let version_min = if collect_not_referenced_only then gc_min_version_used h else h.ht.version in
    let collected = collect_loop version_min h.older h.ht >>= λ (n, freed, left). ok (
      n,
      freed,
      record h { older = left; version_min = oldest_version left h.ht; gc_lock = lock_free },
    ) in
    if leb h.ht.version h.version_min
    then ok (0, [], h)
    else if not (h.gc_lock == lock_free)
    then ok (0, [], record h { gc_lock = tas_taken })
    else if leb version_min h.version_min
    then ok (0, [], record h { gc_lock = lock_free })
    else collected

unfoldable pub gc_collect_all : Clht → Run (ℕ × List Block × Clht)
unfolding gc_collect_cond
gc_collect_all h = gc_collect_cond h false

-- `clht_gc_destroy`: what it frees of the tables; then the structure and the allocator are freed.
unfoldable pub gc_destroy : Clht → Run (List Block)
unfolding gc_collect_all gc_free
gc_destroy h = gc_collect_all h >>= λ (n, freed, h'). ok (freed ++ gc_free h'.ht)

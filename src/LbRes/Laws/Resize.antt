-- ===== src/LbRes/Laws/Resize.antt =====
-- A fresh table, and copying an old table into it.
use mathlib.Core.Option.{or_else}
use mathlib.Core.List.{map}
use cht_bench.Prelude.{
  ℕ, zero, suc, ◌-◌, ◌*◌, ◌^◌, ◌≤◌, ◌<◌, ◌≡◌, refl, ◌≢◌, true, false, none, some, List, [], ◌∷◌,
  ◌++◌, arith, ◌==◌, if◌then◌else◌, get_elem?, get_elem?-replicate, length, ◌+◌, length-replicate,
  replicate,
}
use cht_bench.Prelude.Run.{ok, bind_assoc, ◌>>=◌}
use cht_bench.Hash.{hash_bin}
use cht_bench.Hash.Laws.{next_int32-suc}
use cht_bench.Chain.{Slot, Chain, only, link, first, with_lock, count_slots}
use cht_bench.Chain.Slots.{find, occurs}
use cht_bench.Chain.Laws.{slots}
use cht_bench.Table.Rows.{row, total, view}
use cht_bench.Table.Flat.{flat, total-flat, find-flat, occurs-flat}
use cht_bench.LbRes.{Hashtable, Memory, lock_free, lock_resize, empty_bucket, lock_acq_resize}
use cht_bench.LbRes.Seq.{copy_slots, copy_loop, bucket_cpy, copy_table}
use cht_bench.LbRes.Laws.Valid.{IsValid, map_of}
use cht_bench.LbRes.Laws.Seq.{Grants, IsFresh, copy_slots-Fills}

abbrev pub fresh_table : ℕ → List Chain
fresh_table n = replicate n (only empty_bucket)

-- A table of empty buckets.
record IsEmpty (h : Hashtable) (n : ℕ) : Type 0 where
  table : h.table ≡ fresh_table n
  num_buckets : h.num_buckets ≡ n
  hash : h.hash ≡ n - 1

pub row-fresh : (n i q : ℕ) → q ≢ 0 → occurs q (row (fresh_table n) i) ≡ 0
unfolding occurs
row-fresh zero i q real = refl
row-fresh (suc n) zero q real = ground arith
row-fresh (suc n) (suc i) q real = row-fresh n i q real

pub find-fresh : (n i q : ℕ) → q ≢ 0 → find q (row (fresh_table n) i) ≡ none
unfolding find
find-fresh zero i q real = refl
find-fresh (suc n) zero q real = ground arith
find-fresh (suc n) (suc i) q real = find-fresh n i q real

pub total-fresh : (n : ℕ) → total (fresh_table n) ≡ 0
unfolding total count_slots
total-fresh zero = refl
total-fresh (suc n) = omega (arith, total-fresh n)

pub copy_slots-append :
    (mem : Memory) (a b : List Slot) (h : Hashtable)
    → copy_slots mem (a ++ b) h ≡ copy_slots mem a h >>= copy_slots mem b
unfolding copy_slots
copy_slots-append mem [] b h = refl
copy_slots-append mem (s ∷ a) b h = simp (bind_assoc, copy_slots-append mem a b)

pub copy_loop-slots :
    (mem : Memory) (c : Chain) (h : Hashtable) → copy_loop mem c h ≡ copy_slots mem (slots c) h
unfolding copy_loop
copy_loop-slots mem (only b) h = refl
copy_loop-slots mem (link b c) h = simp (copy_slots-append, copy_loop-slots mem c)

pub bucket_cpy-free :
    (mem : Memory) (c : Chain) (h : Hashtable)
    → (first c).lock ≡ lock_free
    → bucket_cpy mem c h ≡ copy_slots mem (slots c) h >>= (λ g. ok (with_lock lock_resize c, g))
unfolding bucket_cpy lock_acq_resize
bucket_cpy-free mem c h unlocked = rw (unlocked, copy_loop-slots mem c h)

-- With every lock free, copying a table is copying its slots, and leaves the locks LOCK_RESIZE.
copy_table-flat :
    (mem : Memory) (n : ℕ) (t : List Chain) (h : Hashtable)
    → n + length t < 2 ^ 31
    → ((i : ℕ) (c : Chain) → get_elem? t i ≡ some c → (first c).lock ≡ lock_free)
    → copy_table mem n t h
      ≡ copy_slots mem (flat t) h >>= (λ h'. ok (map (with_lock lock_resize) t, h'))
unfolding copy_table copy_slots
copy_table-flat mem n [] h few unlocked = refl
copy_table-flat mem n (c ∷ t) h few unlocked =
    let here : bucket_cpy mem c h
        ≡ copy_slots mem (slots c) h >>= (λ g. ok (with_lock lock_resize c, g)) =
      bucket_cpy-free mem c h (unlocked 0 c refl) in
    simp (
      here,
      next_int32-suc n (omega (arith, few)),
      bind_assoc,
      copy_slots-append,
      (λ (g : Hashtable).
          copy_table-flat mem (suc n) t g (omega (arith, few)) (λ i d e. unlocked (suc i) d e)),
    )

-- `memalign` never answers `NULL`.
pub record IsGenerous (mem : Memory) : Type 0 where
  pub tables : (n : ℕ) → mem.grants n ≡ true
  pub buckets : (version : ℕ) → Grants mem version

-- What `hashtable_create` returns, with its version set by the caller.
abbrev pub created : ℕ → ℕ → Hashtable
created n version = record {
  num_buckets = n;
  table = fresh_table n;
  hash = n - 1;
  version = version;
  num_expands = 0;
  num_expands_threshold = if 1 * n == 0 then 1 else 1 * n;
  has_new = false;
}

pub created-IsValid : (n version : ℕ) → 0 < n → n ≤ 2 ^ 32 → IsValid (created n version)
created-IsValid n version filled fits = record {
  filled = filled;
  fits = fits;
  width = length-replicate n (only empty_bucket);
  mask = refl;
  placed = record {
    once = λ q i real. omega (arith, row-fresh n i q real);
    apart = λ q i real away. row-fresh n i q real;
  };
  unlocked = λ i c e. rw (get_elem?-replicate n i (only empty_bucket) c e);
}

-- A created table stands for the empty map.
pub map_of-created : (n version q : ℕ) → q ≢ 0 → map_of (created n version) q ≡ none
unfolding view
map_of-created n version q real = find-fresh n (hash_bin (n - 1) q) q real

-- The new table holds the map of the old one, in its own number of buckets.
pub record Rebuilds (h : Hashtable) (n : ℕ) (r : Hashtable) : Type 0 where
  pub valid : IsValid r
  pub reads : (q : ℕ) → q ≢ 0 → map_of r q ≡ map_of h q
  pub size : total r.table ≡ total h.table
  pub same_size : r.num_buckets ≡ n

-- Copying the buckets of a well-formed table of less than 2^31 buckets into a fresh table of n
-- buckets, 1 to 2^32 - 1, with memory granted, returns; the new table is well-formed, has n
-- buckets, stands for the same map and holds as many entries, and every old bucket is left with
-- its lock at LOCK_RESIZE.
pub copy_table-Rebuilds :
    (mem : Memory) (h : Hashtable) (n version : ℕ)
    → IsValid h
    → h.num_buckets < 2 ^ 31
    → 0 < n
    → n < 2 ^ 32
    → IsGenerous mem
    → (r : Hashtable) × (copy_table mem 0 h.table (created n version)
        ≡ ok (map (with_lock lock_resize) h.table, r))
      × Rebuilds h n r
unfolding or_else
copy_table-Rebuilds mem h n version valid few filled fits generous =
    let home = hash_bin h.hash in
    let empty = created n version in
    let fresh : IsFresh empty (flat h.table) = record {
      once = λ q real. occurs-flat home h.table valid.placed q real;
      apart = λ q real here. map_of-created n version q real;
    } in
    let (r, run, fills) =
      copy_slots-Fills mem (flat h.table) empty
        (created-IsValid n version filled (omega (arith, fits))) (generous.buckets version) fresh in
    (
      r,
      rw (
        copy_table-flat mem 0 h.table empty (omega (arith, few, valid.width)) valid.unlocked,
        run,
      ),
      record {
        valid = fills.valid;
        reads = λ q real. ground (
          arith,
          fills.reads q real,
          map_of-created n version q real,
          find-flat home h.table valid.placed q real,
        );
        size = omega (arith, fills.size, total-fresh n, total-flat h.table);
        same_size = fills.same_size;
      },
    )

-- ===== src/LfRes/Laws/Valid.antt =====
-- The invariant of a table, the map that it stands for, and the calls that find room at once:
-- `clht_get`, `clht_remove`, `clht_size`, and `clht_put` where its bucket has a slot.
use mathlib.Core.List.{map}
use mathlib.Core.Path.{subst}
use cht_bench.Prelude.{
  ℕ, suc, ◌-◌, ◌^◌, ◌≤◌, ◌<◌, ◌≡◌, refl, ◌∙◌, sym, ap, ◌≢◌, Option, none, some, List, [], ◌∷◌,
  arith, ◌==◌, if◌then◌else◌, get_elem?, get_elem?-lt, get_elem?-set_self, get_elem?-set_ne,
  get_elem?-map, set-map, length, length-set, set, ℕ_discrete,
}
use cht_bench.Prelude.Run.{ok}
use cht_bench.Hash.{hash_bin}
use cht_bench.Hash.Laws.{hash_bin-lt}
use cht_bench.Chain.{Chain}
use cht_bench.Chain.Slots.{find, occurs}
use cht_bench.Chain.Effects.{Adds, Removes}
use cht_bench.Table.Rows.{
  row-get_elem?, IsPlaced, view, total, Inserts, set-Inserts, Deletes, set-Deletes,
}
use cht_bench.Lf.{Bucket, key_buckt}
use cht_bench.LfRes.{Hashtable, hash, bucket_at}
use cht_bench.LfRes.Seq.{size, size_table}
use cht_bench.LfRes.Laws.Rows.{slots_of, chain_of, IsSound, find-real, size_from-count}

-- The rows of an array of buckets.
abbrev pub rows : List Bucket → List Chain
rows = map chain_of

pub record IsValid (h : Hashtable) : Type 0 where
  pub filled : 0 < h.num_buckets
  pub fits : h.num_buckets ≤ 2 ^ 32
  pub width : length h.table ≡ h.num_buckets
  pub mask : h.hash ≡ h.num_buckets - 1
  pub placed : IsPlaced (hash_bin h.hash) (rows h.table)
  pub sound : (i : ℕ) (b : Bucket) → get_elem? h.table i ≡ some b → IsSound b

-- The map from keys to values that a table stands for.
abbrev pub map_of : Hashtable → ℕ → Option ℕ
map_of h = view (hash_bin h.hash) (rows h.table)

-- The table, with its map changed at one key and its number of entries changed with it.
pub record Binds (k v : ℕ) (h r : Hashtable) : Type 0 where
  pub valid : IsValid r
  pub reads : (q : ℕ) → q ≢ 0 → map_of r q ≡ (if k == q then some v else map_of h q)
  pub size : total (rows r.table) ≡ suc (total (rows h.table))

pub record Unbinds (k : ℕ) (h r : Hashtable) : Type 0 where
  pub valid : IsValid r
  pub reads : (q : ℕ) → q ≢ 0 → map_of r q ≡ (if k == q then none else map_of h q)
  pub size : suc (total (rows r.table)) ≡ total (rows h.table)

size_table-total : (t : List Bucket) → size_table t ≡ total (rows t)
unfolding size_table total slots_of
size_table-total [] = refl
size_table-total (b ∷ t) = ground (arith, size_from-count key_buckt 0 b, size_table-total t)

-- clht_size counts the valid slots with a key other than 0.
pub size-total : (h : Hashtable) → size h ≡ total (rows h.table)
unfolding size
size-total h = size_table-total h.table

module _ (h : Hashtable) (valid : IsValid h) where
  pub home-lt : (k : ℕ) → hash_bin h.hash k < length h.table
  home-lt k = rw (valid.mask, valid.width) (hash_bin-lt h.num_buckets k valid.filled valid.fits)

  pub locate : (k : ℕ) → (b : Bucket) × (get_elem? h.table (hash_bin h.hash k) ≡ some b)
  locate k = get_elem?-lt h.table (hash_bin h.hash k) (home-lt k)

  pub store-IsValid :
      (bin : ℕ) (b : Bucket)
      → bin < length h.table
      → IsSound b
      → IsPlaced (hash_bin h.hash) (rows (set h.table bin b))
      → IsValid (record h { table = set h.table bin b })
  store-IsValid bin b inside sound placed = record {
    filled = valid.filled;
    fits = valid.fits;
    width = rw (length-set h.table bin b) valid.width;
    mask = valid.mask;
    placed = placed;
    sound = λ i d e. elim (ℕ_discrete bin i) [
      | yes same ↦
          let there = get_elem?-set_self h.table bin b inside in
          let here = ap (get_elem? (set h.table bin b)) same ∙ e in
          subst IsSound (ground arith) sound
      | no other ↦ valid.sound i d (sym (get_elem?-set_ne h.table bin i b other) ∙ e)
    ];
  }

  module _ (k : ℕ) (b : Bucket) (at : get_elem? h.table (hash_bin h.hash k) ≡ some b) where
    pub bucket_at-home : bucket_at h (hash h k) ≡ ok b
    unfolding bucket_at hash
    bucket_at-home = rw (at, bucket_at)

    at_row : get_elem? (rows h.table) (hash_bin h.hash k) ≡ some (chain_of b)
    at_row = get_elem?-map chain_of h.table (hash_bin h.hash k) b at

    pub map_of-find : map_of h k ≡ find k (slots_of b)
    unfolding view
    map_of-find = rw (row-get_elem? (rows h.table) (hash_bin h.hash k) (chain_of b) at_row) refl

    pub row_once : k ≢ 0 → occurs k (slots_of b) ≤ 1
    row_once used =
        let same = row-get_elem? (rows h.table) (hash_bin h.hash k) (chain_of b) at_row in
        rw same at (valid.placed.once k (hash_bin h.hash k) used)

    pub stored-Binds :
        (v : ℕ) (b' : Bucket)
        → k ≢ 0
        → occurs k (slots_of b) ≡ 0
        → IsSound b'
        → Adds k v (slots_of b) (slots_of b')
        → Binds k v h (record h { table = set h.table (hash_bin h.hash k) b' })
    stored-Binds v b' used absent sound a =
        let home = hash_bin h.hash in
        let t =
          set-Inserts home (rows h.table) valid.placed k (chain_of b) (chain_of b') used at_row v
            absent a in
        let moved = set-map chain_of h.table (home k) b' in
        let t' : Inserts home k v (rows h.table) (rows (set h.table (home k) b')) =
          rw (← moved) t in
        record {
          valid = store-IsValid (home k) b' (home-lt k) sound t'.placed;
          reads = t'.reads;
          size = t'.size;
        }

    pub stored-Unbinds :
        (b' : Bucket)
        → k ≢ 0
        → IsSound b'
        → Removes k (slots_of b) (slots_of b')
        → Unbinds k h (record h { table = set h.table (hash_bin h.hash k) b' })
    stored-Unbinds b' used sound a =
        let home = hash_bin h.hash in
        let t =
          set-Deletes home (rows h.table) valid.placed k (chain_of b) (chain_of b') used at_row a in
        let moved = set-map chain_of h.table (home k) b' in
        let t' : Deletes home k (rows h.table) (rows (set h.table (home k) b')) = rw (← moved) t in
        record {
          valid = store-IsValid (home k) b' (home-lt k) sound t'.placed;
          reads = t'.reads;
          size = t'.size;
        }

  -- No key is bound to the value 0.
  pub map_of-real : (k : ℕ) → k ≢ 0 → map_of h k ≢ some 0
  unfolding slots_of
  map_of-real k used zeroed =
      let (b, e) = locate k in
      find-real k key_buckt 0 0 b used (valid.sound _ b e) (sym (map_of-find k b e) ∙ zeroed) refl

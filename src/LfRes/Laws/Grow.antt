-- ===== src/LfRes/Laws/Grow.antt =====
-- A table of 2 ^ k buckets copied into one of 2 ^ (k + j): each new bin gets the entries of one old
-- bucket only, so nothing is lost.
use mathlib.Core.Option.{or_else}
use native.Mathlib.Nat.{
  mod-mod_of_dvd, pow-suc, dvd-mul_right_of_dvd, dvd_refl, one-le-pow, pow-le-pow_right,
}
use Prim.Native.Nat.{◌∣◌}
use cht_bench.Prelude.{
  ℕ, zero, suc, ◌+◌, ◌-◌, ◌%◌, ◌^◌, ◌≤◌, ◌<◌, ◌≡◌, refl, ◌∙◌, sym, ap, ◌≢◌, none, List, [], ◌∷◌,
  arith, inl, inr, ◌==◌, get_elem?-replicate, length-replicate, replicate, replicate-map,
  Bool-cases, eq→==, ne→==,
}
use cht_bench.Prelude.Run.{Returns}
use cht_bench.Hash.{hash_bin}
use cht_bench.Hash.Laws.{hash_bin_mask}
use cht_bench.Chain.{Slot, Chain, count_slots}
use cht_bench.Chain.Slots.{occurs}
use cht_bench.Chain.Laws.{slots}
use cht_bench.Table.Rows.{row, total, view}
use cht_bench.Table.Flat.{flat, total-flat, find-flat, occurs-flat}
use cht_bench.Lf.{Bucket, key_buckt}
use cht_bench.LbRes.Laws.Resize.{fresh_table, row-fresh, find-fresh, total-fresh}
use cht_bench.LfRes.{Hashtable, empty_bucket}
use cht_bench.LfRes.Seq.{copy_table}
use cht_bench.LfRes.Laws.Rows.{slots_from, slots_of, chain_of}
use cht_bench.LfRes.Laws.Valid.{rows, IsValid, map_of, map_of-real}
use cht_bench.LfRes.Laws.Fill.{IsNew, load, load-append, bin_size}
use cht_bench.LfRes.Laws.Copy.{IsFresh, AllFit, copy_table-flat, copy_slots-Fills}

load-le : (home : ℕ → ℕ) (bin : ℕ) (l : List Slot) → load home bin l ≤ count_slots l
unfolding load count_slots
load-le home bin [] = omega arith
load-le home bin (s ∷ r) = ground (arith, load-le home bin r)

-- Where no key of a row belongs to the bin, the row adds nothing to it.
load_none :
    (home : ℕ → ℕ) (bin : ℕ) (l : List Slot)
    → ((q : ℕ) → q ≢ 0 → 0 < occurs q l → home q ≢ bin)
    → load home bin l ≡ 0
unfolding load occurs
load_none home bin [] h = refl
load_none home bin (s ∷ r) h =
    let rest = load_none home bin r (λ q real here. h q real (omega arith)) in
    elim (Bool-cases (s.key == 0)) [
      | inl e ↦ rw (e, rest) (omega arith)
      | inr n ↦
          let used : s.key ≢ 0 = λ e. cc (eq→== s.key 0 e) in
          let other = ne→== (home s.key) bin (h s.key used (ground arith)) in
          rw (n, other, rest) (omega arith)
    ]

module _ (home : ℕ → ℕ) (bin : ℕ) where
  load_nowhere :
      (t : List Chain) → ((i : ℕ) → load home bin (row t i) ≡ 0) → load home bin (flat t) ≡ 0
  unfolding load
  load_nowhere [] h = refl
  load_nowhere (c ∷ t) h =
      omega (arith, load-append home bin (slots c) (flat t), h 0, load_nowhere t (λ i. h (suc i)))

  -- A bin that is fed by one row only gets at most the entries of that row.
  load-flat :
      (t : List Chain) (o : ℕ)
      → ((i : ℕ) → count_slots (row t i) ≤ key_buckt)
      → ((i : ℕ) → o ≢ i → load home bin (row t i) ≡ 0)
      → load home bin (flat t) ≤ key_buckt
  unfolding load
  load-flat [] o few away = omega arith
  load-flat (c ∷ t) zero few away =
      let rest = load_nowhere t (λ i. away (suc i) (omega arith)) in
      omega
        (arith, load-append home bin (slots c) (flat t), load-le home bin (slots c), few 0, rest)
  load-flat (c ∷ t) (suc o) few away =
      let rest = load-flat t o (λ i. few (suc i)) (λ i n. away (suc i) (omega arith)) in
      omega (arith, load-append home bin (slots c) (flat t), away 0 (omega arith), rest)

count_from : (left i : ℕ) (b : Bucket) → count_slots (slots_from left i b) ≤ left
unfolding slots_from count_slots
count_from zero i b = omega arith
count_from (suc left) i b = ground (arith, count_from left (suc i) b)

-- A bucket holds at most three entries.
pub row-few : (t : List Bucket) (i : ℕ) → count_slots (row (rows t) i) ≤ key_buckt
unfolding count_slots slots_of
row-few [] i = omega arith
row-few (b ∷ t) zero = count_from key_buckt 0 b
row-few (b ∷ t) (suc i) = row-few t i

pow-dvd : (k j : ℕ) → 2 ^ k ∣ 2 ^ (k + j)
pow-dvd k zero = let z : k + 0 ≡ k = omega arith in rw z (dvd_refl (2 ^ k))
pow-dvd k (suc j) =
    let z : k + suc j ≡ suc (k + j) = omega arith in
    rw (z, pow-suc 2 (k + j)) (dvd-mul_right_of_dvd (2 ^ k) (pow-dvd k j) 2)

-- The new bin of a key determines its old one.
bin_of_bin :
    (k j q : ℕ) → k + j ≤ 32 → hash_bin (2 ^ k - 1) q ≡ hash_bin (2 ^ (k + j) - 1) q % 2 ^ k
bin_of_bin k j q fits =
    hash_bin_mask k q (omega arith)
    ∙ sym (mod-mod_of_dvd (2 ^ k) q (pow-dvd k j))
    ∙ ap (λ m. m % 2 ^ k) (sym (hash_bin_mask (k + j) q fits))

-- What `hashtable_create` returns, with its version set by the caller.
abbrev pub created : ℕ → ℕ → Hashtable
created n version = record {
  num_buckets = n;
  table = replicate n empty_bucket;
  hash = n - 1;
  version = version;
}

rows-created : (n : ℕ) → rows (replicate n empty_bucket) ≡ fresh_table n
unfolding slots_of slots_from
rows-created n = replicate-map chain_of n empty_bucket

pub created-IsNew : (n version : ℕ) → 0 < n → n ≤ 2 ^ 32 → IsNew (created n version)
created-IsNew n version filled fits = record {
  valid = record {
    filled = filled;
    fits = fits;
    width = length-replicate n empty_bucket;
    mask = refl;
    placed = rw (rows-created n) (record {
      once = λ q i real. omega (arith, row-fresh n i q real);
      apart = λ q i real away. row-fresh n i q real;
    });
    sound = λ i b e. rw (get_elem?-replicate n i empty_bucket b e) (record {
      named = λ j valid. absurd (cc);
      real = λ j valid. absurd (cc);
      settled = λ j free. refl;
    });
  };
  clean = λ i b e.
      rw (get_elem?-replicate n i empty_bucket b e)
        (record { valid_key = λ j used. absurd (used refl) });
}

pub map_of-created : (n version q : ℕ) → q ≢ 0 → map_of (created n version) q ≡ none
unfolding view
map_of-created n version q real = rw (rows-created n) (find-fresh n (hash_bin (n - 1) q) q real)

count-fresh : (n i : ℕ) → count_slots (row (fresh_table n) i) ≡ 0
unfolding count_slots
count-fresh zero i = refl
count-fresh (suc n) zero = refl
count-fresh (suc n) (suc i) = count-fresh n i

pub total-created : (n version : ℕ) → total (rows (created n version).table) ≡ 0
total-created n version = rw (rows-created n) (total-fresh n)

load-fresh : (n : ℕ) (home : ℕ → ℕ) (bin : ℕ) → load home bin (flat (fresh_table n)) ≡ 0
unfolding load
load-fresh zero home bin = refl
load-fresh (suc n) home bin = omega (arith, load-fresh n home bin)

load-created :
    (n version : ℕ) (home : ℕ → ℕ) (bin : ℕ)
    → load home bin (flat (rows (created n version).table)) ≡ 0
load-created n version home bin = rw (rows-created n) (load-fresh n home bin)

-- The new table holds the map of the old one, in its own number of buckets.
pub record Rebuilds (h : Hashtable) (n version : ℕ) (r : Hashtable) : Type 0 where
  pub valid : IsValid r
  pub reads : (q : ℕ) → q ≢ 0 → map_of r q ≡ map_of h q
  pub size : total (rows r.table) ≡ total (rows h.table)
  pub loads :
      (home : ℕ → ℕ) (bin : ℕ)
      → load home bin (flat (rows r.table)) ≡ load home bin (flat (rows h.table))
  pub same_size : r.num_buckets ≡ n
  pub same_version : r.version ≡ version

module _ (h : Hashtable) (k j : ℕ) (valid : IsValid h) (size : h.num_buckets ≡ 2 ^ k)
    (fits : k + j ≤ 31) (few : k ≤ 30) where
  abbrev new_home : ℕ → ℕ
  new_home = hash_bin (2 ^ (k + j) - 1)

  old_bin : (q : ℕ) → hash_bin h.hash q ≡ new_home q % 2 ^ k
  old_bin q = rw (valid.mask, size) (bin_of_bin k j q (omega (arith, fits)))

  -- Another row than that of the old bin has no key for the new one.
  load_other : (bin i : ℕ) → bin % 2 ^ k ≢ i → load new_home bin (row (rows h.table) i) ≡ 0
  load_other bin i away = load_none new_home bin (row (rows h.table) i) (λ q real here same.
      let at : hash_bin h.hash q ≡ bin % 2 ^ k = old_bin q ∙ ap (λ m. m % 2 ^ k) same in
      omega (arith, here, valid.placed.apart q i real (λ e. away (sym at ∙ e))))

  all_fit : (version : ℕ) → AllFit (created (2 ^ (k + j)) version) (flat (rows h.table))
  all_fit version bin =
      let few =
        load-flat new_home bin (rows h.table) (bin % 2 ^ k) (row-few h.table) (load_other bin) in
      let none_yet : bin_size (created (2 ^ (k + j)) version) bin ≡ 0 =
        rw (rows-created (2 ^ (k + j))) (count-fresh (2 ^ (k + j)) bin) in
      omega (arith, few, none_yet)

  -- Copying a well-formed lock-free table of 2^k buckets, k at most 30, into a fresh table of 2^(k
  -- + j) buckets, k + j at most 31, returns; the new table is well-formed, stands for the same
  -- map, holds as many entries, the same number in every class of keys, and keeps its number of
  -- buckets and its version: no bucket of the new table runs full.
  pub copy_table-Rebuilds_lf_res :
      (version : ℕ)
      → Returns
          (copy_table 0 h.table (created (2 ^ (k + j)) version))
          (Rebuilds h (2 ^ (k + j)) version)
  unfolding or_else
  copy_table-Rebuilds_lf_res version =
      let n = 2 ^ (k + j) in
      let home = hash_bin h.hash in
      let empty = created n version in
      let fresh : IsFresh (map_of empty) (flat (rows h.table)) = record {
        once = λ q nonzero. occurs-flat home (rows h.table) valid.placed q nonzero;
        apart = λ q nonzero here. map_of-created n version q nonzero;
        real = λ q nonzero e.
            map_of-real h valid q nonzero
              (sym (find-flat home (rows h.table) valid.placed q nonzero) ∙ e);
      } in
      let le : n ≤ 2 ^ 31 = pow-le-pow_right (omega arith) fits in
      let is_new =
        created-IsNew n version (one-le-pow (k + j) 2 (omega arith)) (omega (arith, le)) in
      let old_fits : 2 ^ k ≤ 2 ^ 30 = pow-le-pow_right (omega arith) few in
      let (r, run, fills) =
        copy_slots-Fills (flat (rows h.table)) empty is_new fresh (all_fit version) in
      (
        r,
        rw (
          copy_table-flat 0 h.table empty (omega (arith, valid.width, size, old_fits)) valid.sound,
          run,
        ),
        record {
          valid = fills.fresh.valid;
          reads = λ q nonzero. ground (
            arith,
            fills.reads q nonzero,
            map_of-created n version q nonzero,
            find-flat home (rows h.table) valid.placed q nonzero,
          );
          size = omega (arith, fills.size, total-created n version, total-flat (rows h.table));
          loads = λ any bin. omega (arith, fills.loads any bin, load-created n version any bin);
          same_size = fills.same_size;
          same_version = fills.same_version;
        },
      )

-- ===== src/LfRes/Laws/Fill.antt =====
-- `clht_put_seq` on a new table, in which a slot with a key is valid.
use mathlib.Core.Option.{or_else}
use mathlib.Core.Path.{subst}
use cht_bench.Prelude.{
  ℕ, zero, suc, ◌+◌, ◌<◌, ◌≡◌, refl, ◌∙◌, sym, ap, ◌≢◌, true, none, some, List, [], ◌∷◌, ◌++◌,
  arith, inl, inr, ◌==◌, if◌then◌else◌, get_elem?, get_elem?-set_self, get_elem?-set_ne,
  get_elem?-map, set-map, length, length-map, set, ℕ_discrete, Option-cases, Bool-cases, ==→eq,
}
use cht_bench.Prelude.Run.{◌>>=◌, Returns}
use cht_bench.Hash.{hash_bin}
use cht_bench.Chain.{Slot, Chain, count_slots}
use cht_bench.Chain.Slots.{find, occurs, IsEmptyAt, one_if, occurs-eq-zero}
use cht_bench.Table.Rows.{row, total, row-get_elem?, row-set}
use cht_bench.Table.Flat.{flat}
use cht_bench.Chain.Laws.{slots}
use cht_bench.Lf.{Bucket, key_buckt, map_valid, put_at, snap_set_map}
use cht_bench.LfRes.{Hashtable, hash}
use cht_bench.LfRes.Seq.{put_slot, put_seq}
use cht_bench.LfRes.Laws.Rows.{
  slot_at, slots_from-set, slots_from-IsEmptyAt, slots_from, slots_of, chain_of, IsSound,
  Overwrites,
}
use cht_bench.LfRes.Laws.Entry.{Overwrites-Adds}
use cht_bench.LfRes.Laws.Valid.{
  rows, IsValid, map_of, Binds, home-lt, locate, bucket_at-home, map_of-find, stored-Binds,
}

pub record IsClean (b : Bucket) : Type 0 where
  pub valid_key : (j : ℕ) → b.key j ≢ 0 → b.snapshot.map j ≡ map_valid

pub record IsNew (g : Hashtable) : Type 0 where
  pub valid : IsValid g
  pub clean : (i : ℕ) (b : Bucket) → get_elem? g.table i ≡ some b → IsClean b

-- The slot `i` holds the entry.
abbrev pub filled : Bucket → ℕ → ℕ → ℕ → Bucket
filled b i k v = record {
  snapshot = snap_set_map b.snapshot i map_valid;
  key = put_at b.key i k;
  val = put_at b.val i v;
}

put_slot-some :
    (k v left j : ℕ) (b b' : Bucket)
    → put_slot k v left j b ≡ some b'
    → (i : ℕ) × (i < j + left) × (b.key i ≡ 0) × (filled b i k v ≡ b')
unfolding put_slot
put_slot-some k v zero j b b' h = absurd (cc)
put_slot-some k v (suc left) j b b' h = elim (Bool-cases (b.key j == 0)) [
  | inl e ↦ (j, omega arith, ==→eq (b.key j) 0 e, ground arith)
  | inr n ↦
      let (i, below, empty, same) = put_slot-some k v left (suc j) b b' (ground arith) in
      (i, omega (arith, below), empty, same)
]

put_slot-none :
    (k v left j : ℕ) (b : Bucket)
    → IsClean b
    → put_slot k v left j b ≡ none
    → count_slots (slots_from left j b) ≡ left
unfolding put_slot count_slots slots_from
put_slot-none k v zero j b clean h = refl
put_slot-none k v (suc left) j b clean h =
    ground (arith, put_slot-none k v left (suc j) b clean, clean.valid_key j)

module _ (b : Bucket) (i k v : ℕ) where
  filled-Overwrites : Overwrites i (record { key = k; val = v }) b (filled b i k v)
  filled-Overwrites = record { at = ground arith; others = λ x away. ground arith }

  filled-IsClean : IsClean b → IsClean (filled b i k v)
  filled-IsClean clean = record { valid_key = λ j used. ground (arith, clean.valid_key j) }

  filled-IsSound : k ≢ 0 → v ≢ 0 → IsSound b → IsSound (filled b i k v)
  filled-IsSound used real sound = record {
    named = λ j valid. ground (arith, sound.named j);
    real = λ j valid. ground (arith, sound.real j);
    settled = λ j free. ground (arith, sound.settled j);
  }

  unkeyed : b.key i ≡ 0 → (slot_at b i).key ≡ 0
  unkeyed e = ground arith

-- How many entries of a row belong to a bin.
unfoldable pub load : (ℕ → ℕ) → ℕ → List Slot → ℕ
load home bin [] = 0
load home bin (s ∷ r) = (if s.key == 0 then 0 else one_if (home s.key == bin)) + load home bin r

pub load-append :
    (home : ℕ → ℕ) (bin : ℕ) (a b : List Slot)
    → load home bin (a ++ b) ≡ load home bin a + load home bin b
unfolding load
load-append home bin [] b = omega arith
load-append home bin (s ∷ a) b = omega (arith, load-append home bin a b)

load-set :
    (home : ℕ → ℕ) (bin k v i : ℕ) (l : List Slot)
    → k ≢ 0
    → IsEmptyAt l i
    → load home bin (set l i (record { key = k; val = v }))
      ≡ load home bin l + one_if (home k == bin)
unfolding load
load-set home bin k v i [] used e = absurd e
load-set home bin k v zero (s ∷ r) used e = ground arith
load-set home bin k v (suc i) (s ∷ r) used e = ground (arith, load-set home bin k v i r used e)

load-flat-set :
    (home : ℕ → ℕ) (bin i : ℕ) (t : List Chain) (c c' : Chain)
    → get_elem? t i ≡ some c
    → load home bin (flat (set t i c')) + load home bin (slots c)
      ≡ load home bin (flat t) + load home bin (slots c')
load-flat-set home bin i [] c c' h = absurd (cc)
load-flat-set home bin zero (d ∷ t) c c' h =
    let same : d ≡ c = ground arith in
    rw (same, load-append home bin (slots c') (flat t), load-append home bin (slots c) (flat t))
      (omega arith)
load-flat-set home bin (suc i) (d ∷ t) c c' h = omega (
  arith,
  load-append home bin (slots d) (flat (set t i c')),
  load-append home bin (slots d) (flat t),
  load-flat-set home bin i t c c' h,
)

-- One entry more in the row, whatever the bins are.
abbrev MoreLoad : ℕ → List Slot → List Slot → Type 0
MoreLoad k l l' =
    (home : ℕ → ℕ) (bin : ℕ) → load home bin l' ≡ load home bin l + one_if (home k == bin)

filled-MoreLoad :
    (b : Bucket) (i k v : ℕ)
    → i < key_buckt
    → b.key i ≡ 0
    → k ≢ 0
    → MoreLoad k (slots_of b) (slots_of (filled b i k v))
unfolding slots_of
filled-MoreLoad b i k v inside empty used home bin =
    let at_i : i ≡ 0 + i = omega arith in
    let there = slots_from-IsEmptyAt key_buckt 0 i i b inside at_i (unkeyed b i k v empty) in
    rw
      (slots_from-set key_buckt 0 i i (record { key = k; val = v }) b (filled b i k v) inside at_i
        (filled-Overwrites b i k v))
      (load-set home bin k v i (slots_of b) used there)

abbrev pub bin_size : Hashtable → ℕ → ℕ
bin_size g bin = count_slots (row (rows g.table) bin)

-- The table `r` is `g` with the entries of the row `l` added.
pub record Fills (g : Hashtable) (l : List Slot) (r : Hashtable) : Type 0 where
  pub fresh : IsNew r
  pub reads : (q : ℕ) → q ≢ 0 → map_of r q ≡ or_else (map_of g q) (find q l)
  pub size : total (rows r.table) ≡ total (rows g.table) + count_slots l
  pub sizes : (bin : ℕ) → bin_size r bin ≡ bin_size g bin + load (hash_bin g.hash) bin l
  pub loads :
      (home : ℕ → ℕ) (bin : ℕ)
      → load home bin (flat (rows r.table)) ≡ load home bin (flat (rows g.table)) + load home bin l
  pub same_size : r.num_buckets ≡ g.num_buckets
  pub same_hash : r.hash ≡ g.hash
  pub same_version : r.version ≡ g.version

abbrev pub entry : ℕ → ℕ → List Slot
entry k v = record { key = k; val = v } ∷ []

module _ (g : Hashtable) (is_new : IsNew g) (k v : ℕ) (used : k ≢ 0) (real : v ≢ 0)
    (unbound : map_of g k ≡ none) where
  stored-Fills :
      (b b' : Bucket)
      → get_elem? g.table (hash_bin g.hash k) ≡ some b
      → IsClean b'
      → count_slots (slots_of b') ≡ suc (count_slots (slots_of b))
      → MoreLoad k (slots_of b) (slots_of b')
      → Binds k v g (record g { table = set g.table (hash_bin g.hash k) b' })
      → Fills g (entry k v) (record g { table = set g.table (hash_bin g.hash k) b' })
  unfolding or_else find count_slots load
  stored-Fills b b' e clean more heavier t =
      let home = hash_bin g.hash in
      let inside = home-lt g is_new.valid k in
      let inside_rows : home k < length (rows g.table) = rw (length-map chain_of g.table) inside in
      record {
        fresh = record {
          valid = t.valid;
          clean = λ i d at. elim (ℕ_discrete (home k) i) [
            | yes same ↦
                let there = get_elem?-set_self g.table (home k) b' inside in
                let here = ap (get_elem? (set g.table (home k) b')) same ∙ at in
                subst IsClean (ground arith) clean
            | no other ↦ is_new.clean i d (sym (get_elem?-set_ne g.table (home k) i b' other) ∙ at)
          ];
        };
        reads = λ q nonzero. ground (arith, t.reads q nonzero);
        size = ground (arith, t.size);
        sizes = λ bin.
            let moved = set-map chain_of g.table (home k) b' in
            let there = row-set (rows g.table) (home k) bin (chain_of b') inside_rows in
            let was =
              row-get_elem? (rows g.table) (home k) (chain_of b)
                (get_elem?-map chain_of g.table (home k) b e) in
            rw (← moved) (ground (arith, there, was));
        loads = λ any bin.
            let moved = set-map chain_of g.table (home k) b' in
            let at_row = get_elem?-map chain_of g.table (home k) b e in
            let there =
              load-flat-set any bin (home k) (rows g.table) (chain_of b) (chain_of b') at_row in
            rw (← moved) (ground (arith, there, heavier any bin));
        same_size = refl;
        same_hash = refl;
        same_version = refl;
      }

  -- `clht_put_seq` stores an entry whose key is not there, if its bin has fewer than three entries.
  pub put_seq-Fills :
      bin_size g (hash_bin g.hash k) < key_buckt
      → Returns (put_seq g k v (hash g k)) (λ r. (r.0 ≡ true) × Fills g (entry k v) r.1)
  unfolding put_seq hash slots_of
  put_seq-Fills below =
      let (b, e) = locate g is_new.valid k in
      let was =
        row-get_elem? (rows g.table) (hash_bin g.hash k) (chain_of b)
          (get_elem?-map chain_of g.table (hash_bin g.hash k) b e) in
      let few : count_slots (slots_of b) < key_buckt = rw was at below in
      let absent : occurs k (slots_of b) ≡ 0 =
        occurs-eq-zero k (slots_of b) (sym (map_of-find g is_new.valid k b e) ∙ unbound) in
      elim (Option-cases (put_slot k v key_buckt 0 b)) [
        | inl n ↦ absurd (omega (arith, put_slot-none k v key_buckt 0 b (is_new.clean _ b e) n))
        | inr (b', stored) ↦
            let (i, inside, empty, same) = put_slot-some k v key_buckt 0 b b' stored in
            let adds =
              Overwrites-Adds k v used b (filled b i k v) absent i inside (unkeyed b i k v empty)
                (filled-Overwrites b i k v) in
            let t =
              stored-Binds g is_new.valid k b e v (filled b i k v) used absent
                (filled-IsSound b i k v used real (is_new.valid.sound _ b e)) adds in
            (
              (true, record g { table = set g.table (hash_bin g.hash k) (filled b i k v) }),
              rw (bucket_at-home g is_new.valid k b e, ◌>>=◌, stored, same) refl,
              (
                refl,
                stored-Fills b (filled b i k v) e (filled-IsClean b i k v (is_new.clean _ b e))
                    adds.size (filled-MoreLoad b i k v inside empty used) t,
              ),
            )
      ]

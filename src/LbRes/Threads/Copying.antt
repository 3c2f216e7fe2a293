-- ===== src/LbRes/Threads/Copying.antt =====
-- How far a resize has copied the old table: the slots of its first buckets, in one row.
use mathlib.Core.Option.{or_else}
use mathlib.Core.List.{append_assoc, append-nil}
use cht_bench.Prelude.{
  ℕ, zero, suc, ◌^◌, ◌≤◌, ◌<◌, ◌≡◌, refl, ◌∙◌, sym, ap, ◌≢◌, some, List, [], ◌∷◌, ◌++◌, arith,
  get_elem?, set, length,
}
use cht_bench.Prelude.Run.{ok, bind-ok}
use cht_bench.Hash.{hash_bin}
use cht_bench.Chain.{Slot, Chain, first, with_lock}
use cht_bench.Chain.Laws.{slots, slots-with_lock}
use cht_bench.Table.Rows.{IsPlaced}
use cht_bench.Table.Flat.{flat, find-flat, occurs-flat}
use cht_bench.LbRes.{Hashtable, Memory, lock_free, lock_resize}
use cht_bench.LbRes.Seq.{copy_slots, bucket_cpy}
use cht_bench.LbRes.Laws.Valid.{IsValid, map_of}
use cht_bench.LbRes.Laws.Seq.{IsFresh, copy_slots-Fills_if}
use cht_bench.LbRes.Laws.Resize.{
  created, created-IsValid, map_of-created, copy_slots-append, bucket_cpy-free,
}

-- The slots of the first `n` buckets.
abbrev pub prefix : ℕ → List Chain → List Slot
prefix zero t = []
prefix (suc n) [] = []
prefix (suc n) (c ∷ t) = slots c ++ prefix n t

pub prefix-set : (n i : ℕ) (c : Chain) (t : List Chain) → n ≤ i → prefix n (set t i c) ≡ prefix n t
prefix-set zero i c t h = refl
prefix-set (suc n) i c [] h = refl
prefix-set (suc n) zero c (d ∷ t) h = absurd (omega arith)
prefix-set (suc n) (suc i) c (d ∷ t) h = rw (prefix-set n i c t (omega arith))

-- One bucket more, which may have been locked by then.
pub prefix-get_elem? :
    (n : ℕ) (c d : Chain) (t : List Chain)
    → get_elem? t n ≡ some c
    → slots d ≡ slots c
    → prefix (suc n) (set t n d) ≡ prefix n t ++ slots c
prefix-get_elem? n c d [] h same = absurd (cc)
prefix-get_elem? zero c d (b ∷ t) h same = let z : b ≡ c = cc in rw (same, ← z, append-nil)
prefix-get_elem? (suc n) c d (b ∷ t) h same = rw (prefix-get_elem? n c d t h same, append_assoc)

pub prefix_all : (n : ℕ) (t : List Chain) → length t ≤ n → prefix n t ≡ flat t
prefix_all zero [] h = refl
prefix_all (suc n) [] h = refl
prefix_all zero (c ∷ t) h = absurd (omega arith)
prefix_all (suc n) (c ∷ t) h = rw (prefix_all n t (omega arith))

-- The new table holds what was copied from the first `b` buckets of `t`.
pub record Copied (mem : Memory) (b : ℕ) (t : List Chain) (ht_new : Hashtable) : Type 0 where
  pub size : ℕ
  pub version : ℕ
  pub filled : 0 < size
  pub fits : size ≤ 2 ^ 32
  pub run : copy_slots mem (prefix b t) (created size version) ≡ ok ht_new

pub Copied-start :
    (mem : Memory) (n version : ℕ) (t : List Chain)
    → 0 < n
    → n ≤ 2 ^ 32
    → Copied mem 0 t (created n version)
unfolding copy_slots
Copied-start mem n version t filled fits = record {
  size = n;
  version = version;
  filled = filled;
  fits = fits;
  run = refl;
}

-- A change of a bucket that is not copied yet does not matter.
pub Copied-set :
    (mem : Memory) (b i : ℕ) (t : List Chain) (c : Chain) (ht_new : Hashtable)
    → b ≤ i
    → Copied mem b t ht_new
    → Copied mem b (set t i c) ht_new
Copied-set mem b i t c ht_new h done = record {
  size = done.size;
  version = done.version;
  filled = done.filled;
  fits = done.fits;
  run = rw (prefix-set b i c t h) done.run;
}

-- The copy of the next bucket, whose lock was free.
pub Copied-next :
    (mem : Memory) (b : ℕ) (t : List Chain) (c : Chain) (ht_new : Hashtable) (r : Chain × Hashtable)
    → get_elem? t b ≡ some c
    → (first c).lock ≡ lock_free
    → bucket_cpy mem c ht_new ≡ ok r
    → Copied mem b t ht_new
    → (r.0 ≡ with_lock lock_resize c) × Copied mem (suc b) (set t b r.0) r.1
unfolding copy_slots
Copied-next mem b t c ht_new r here unlocked run done =
    let (g, copied, e) =
      bind-ok (copy_slots mem (slots c) ht_new) (λ g. ok (with_lock lock_resize c, g)) r
        (rw (bucket_cpy-free mem c ht_new unlocked) at run) in
    let chain : with_lock lock_resize c ≡ r.0 = cc in
    let table : g ≡ r.1 = cc in
    let same_slots : slots r.0 ≡ slots c = rw (← chain) (slots-with_lock lock_resize c) in
    (
      sym chain,
      record {
        size = done.size;
        version = done.version;
        filled = done.filled;
        fits = done.fits;
        run =
            rw
              (
                prefix-get_elem? b c r.0 t here same_slots,
                copy_slots-append mem (prefix b t) (slots c),
                done.run,
              )
              (copied ∙ ap ok table);
      },
    )

-- When all buckets are copied, the new table stands for the map of the old one.
pub record Moved (h r : Hashtable) : Type 0 where
  pub valid : IsValid r
  pub reads : (q : ℕ) → q ≢ 0 → map_of r q ≡ map_of h q

pub Copied-Moved :
    (mem : Memory) (b : ℕ) (h r : Hashtable)
    → IsPlaced (hash_bin h.hash) h.table
    → length h.table ≤ b
    → Copied mem b h.table r
    → Moved h r
unfolding or_else
Copied-Moved mem b h r placed all done =
    let home = hash_bin h.hash in
    let empty = created done.size done.version in
    let fresh : IsFresh empty (flat h.table) = record {
      once = λ q real. occurs-flat home h.table placed q real;
      apart = λ q real here. map_of-created done.size done.version q real;
    } in
    let fills =
      copy_slots-Fills_if mem (flat h.table) empty r
        (created-IsValid done.size done.version done.filled done.fits) fresh
        (rw (prefix_all b h.table all) at done.run) in
    record {
      valid = fills.valid;
      reads = λ q real. ground (
        arith,
        fills.reads q real,
        map_of-created done.size done.version q real,
        find-flat home h.table placed q real,
      );
    }

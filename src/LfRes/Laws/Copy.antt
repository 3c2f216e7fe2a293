-- ===== src/LfRes/Laws/Copy.antt =====
-- Copying rows of entries into a new table in which no bin gets more than three of them.
use mathlib.Core.Option.{or_else}
use cht_bench.Prelude.{
  ℕ, zero, suc, Bool, true, false, ◌+◌, ◌≤◌, ◌<◌, ◌≡◌, refl, ◌∙◌, ap, ◌≢◌, Option, none, some, List,
  [], ◌∷◌, ◌++◌, arith, inl, inr, ◌==◌, if◌then◌else◌, get_elem?, Bool-cases, ==→eq, eq→==, ne→==,
  length, ◌^◌,
}
use cht_bench.Prelude.Run.{Run, ok, ◌>>=◌, bind_assoc, bind_congr, Returns}
use cht_bench.Hash.{hash_bin}
use cht_bench.Hash.Laws.{next_int32-suc}
use cht_bench.Chain.{Slot, count_slots}
use cht_bench.Chain.Slots.{find, occurs, find-occurs}
use cht_bench.Table.Flat.{flat}
use cht_bench.Lf.{Bucket, key_buckt, map_valid}
use cht_bench.LfRes.{Hashtable, hash}
use cht_bench.LfRes.Seq.{put_seq, copy_from, bucket_cpy, copy_table}
use cht_bench.LfRes.Laws.Rows.{slot_at, slots_from, slots_of, IsSound}
use cht_bench.LfRes.Laws.Valid.{rows, map_of}
use cht_bench.LfRes.Laws.Fill.{IsNew, load, bin_size, Fills, entry, put_seq-Fills}

-- One slot of a row.
unfoldable pub copy_one : Slot → Hashtable → Run Hashtable
copy_one s g =
    if s.key == 0 then ok g else (put_seq g s.key s.val (hash g s.key) >>= λ (_, h). ok h)

-- The entries of a row, one after the other.
unfoldable pub copy_slots : List Slot → Hashtable → Run Hashtable
copy_slots [] g = ok g
copy_slots (s ∷ r) g = copy_one s g >>= copy_slots r

pub copy_slots-append :
    (a b : List Slot) (g : Hashtable) → copy_slots (a ++ b) g ≡ copy_slots a g >>= copy_slots b
unfolding copy_slots
copy_slots-append [] b g = refl
copy_slots-append (s ∷ a) b g = simp (bind_assoc, copy_slots-append a b)

-- A slot is copied if it is valid, which is where the row has its key.
copy_one-valid :
    (m : Bool) (k v : ℕ) (g : Hashtable)
    → (m ≡ true → k ≢ 0)
    → (if m then (put_seq g k v (hash g k) >>= λ (_, h). ok h) else ok g)
      ≡ copy_one (record { key = if m then k else 0; val = v }) g
unfolding copy_one
copy_one-valid true k v g used = rw (ne→== k 0 (used refl)) refl
copy_one-valid false k v g used = refl

copy_from-slots :
    (left j : ℕ) (b : Bucket) (g : Hashtable)
    → IsSound b
    → copy_from left j b g ≡ copy_slots (slots_from left j b) g
unfolding copy_from copy_slots slots_from
copy_from-slots zero j b g sound = refl
copy_from-slots (suc left) j b g sound =
    let one =
      copy_one-valid (b.snapshot.map j == map_valid) (b.key j) (b.val j) g
        (λ e. sound.named j (==→eq (b.snapshot.map j) map_valid e)) in
    ap (λ m. m >>= copy_from left (suc j) b) one
    ∙ bind_congr (copy_one (slot_at b j) g) (copy_from left (suc j) b)
        (copy_slots (slots_from left (suc j) b)) (λ h. copy_from-slots left (suc j) b h sound)

-- Copying the buckets of a table is copying the entries of their rows.
pub copy_table-flat :
    (n : ℕ) (t : List Bucket) (g : Hashtable)
    → n + length t < 2 ^ 31
    → ((i : ℕ) (b : Bucket) → get_elem? t i ≡ some b → IsSound b)
    → copy_table n t g ≡ copy_slots (flat (rows t)) g
unfolding copy_table bucket_cpy copy_slots slots_of
copy_table-flat n [] g few sound = refl
copy_table-flat n (b ∷ t) g few sound = simp (
  next_int32-suc n (omega (arith, few)),
  copy_slots-append,
  copy_from-slots key_buckt 0 b g (sound 0 b refl),
  (λ (h : Hashtable).
      copy_table-flat (suc n) t h (omega (arith, few)) (λ i d e. sound (suc i) d e)),
)

-- The keys of a row stand there once and are not bound in the map, and their values are not 0.
pub record IsFresh (f : ℕ → Option ℕ) (l : List Slot) : Type 0 where
  pub once : (q : ℕ) → q ≢ 0 → occurs q l ≤ 1
  pub apart : (q : ℕ) → q ≢ 0 → 0 < occurs q l → f q ≡ none
  pub real : (q : ℕ) → q ≢ 0 → find q l ≢ some 0

-- No bin gets more entries than a bucket has slots.
abbrev pub AllFit : Hashtable → List Slot → Type 0
AllFit g l = (bin : ℕ) → bin_size g bin + load (hash_bin g.hash) bin l ≤ key_buckt

Fills-nil : (g : Hashtable) → IsNew g → Fills g [] g
unfolding or_else find count_slots load
Fills-nil g is_new = record {
  fresh = is_new;
  reads = λ q real. ground arith;
  size = omega arith;
  sizes = λ bin. omega arith;
  loads = λ home bin. omega arith;
  same_size = refl;
  same_hash = refl;
  same_version = refl;
}

Fills-empty :
    (g t : Hashtable) (s : Slot) (r : List Slot) → s.key ≡ 0 → Fills g r t → Fills g (s ∷ r) t
unfolding find count_slots load
Fills-empty g t s r empty f = record {
  fresh = f.fresh;
  reads = λ q real. ground (arith, f.reads q real);
  size = ground (arith, f.size);
  sizes = λ bin. ground (arith, f.sizes bin);
  loads = λ home bin. ground (arith, f.loads home bin);
  same_size = f.same_size;
  same_hash = f.same_hash;
  same_version = f.same_version;
}

Fills-entry :
    (g h t : Hashtable) (k v : ℕ) (r : List Slot)
    → Fills g (entry k v) h
    → Fills h r t
    → Fills g (record { key = k; val = v } ∷ r) t
unfolding find count_slots or_else load
Fills-entry g h t k v r one f = record {
  fresh = f.fresh;
  reads = λ q real. ground (arith, f.reads q real, one.reads q real);
  size = ground (arith, f.size, one.size);
  sizes = λ bin.
      let rest = f.sizes bin in
      let first = one.sizes bin in
      let same : load (hash_bin h.hash) bin r ≡ load (hash_bin g.hash) bin r =
        rw one.same_hash refl in
      omega (arith, rest, first, same);
  loads = λ home bin. ground (arith, f.loads home bin, one.loads home bin);
  same_size = f.same_size ∙ one.same_size;
  same_hash = f.same_hash ∙ one.same_hash;
  same_version = f.same_version ∙ one.same_version;
}

module _ (f : ℕ → Option ℕ) (s : Slot) (r : List Slot) (fresh : IsFresh f (s ∷ r)) where
  IsFresh-skip : s.key ≡ 0 → IsFresh f r
  unfolding occurs find
  IsFresh-skip empty = record {
    once = λ q real. omega (arith, fresh.once q real);
    apart = λ q real here. fresh.apart q real (omega arith);
    real = λ q real e. fresh.real q real (ground arith);
  }

  module _ (used : s.key ≢ 0) where
    IsFresh-head : f s.key ≡ none
    unfolding occurs
    IsFresh-head = fresh.apart s.key used (ground arith)

    IsFresh-val : s.val ≢ 0
    unfolding find
    IsFresh-val e = fresh.real s.key used (ground arith)

    IsFresh-tail :
        (f' : ℕ → Option ℕ)
        → ((q : ℕ) → q ≢ 0 → f' q ≡ or_else (f q) (find q (entry s.key s.val)))
        → IsFresh f' r
    unfolding occurs find or_else
    IsFresh-tail f' reads = record {
      once = λ q real. omega (arith, fresh.once q real);
      apart = λ q real here. ground (arith, reads q real, fresh.apart q real, fresh.once q real);
      real = λ q real e.
          let here = find-occurs q 0 r e in fresh.real q real (ground (arith, fresh.once q real));
    }

-- Copying a row with fresh keys adds all its entries, if no bin gets more than three.
pub copy_slots-Fills :
    (l : List Slot) (g : Hashtable)
    → IsNew g
    → IsFresh (map_of g) l
    → AllFit g l
    → Returns (copy_slots l g) (Fills g l)
unfolding copy_slots copy_one load
copy_slots-Fills [] g is_new fresh fit = (g, refl, Fills-nil g is_new)
copy_slots-Fills (s ∷ r) g is_new fresh fit = elim (Bool-cases (s.key == 0)) [
  | inl e ↦
      let empty = ==→eq s.key 0 e in
      let (t, run, fills) =
        copy_slots-Fills r g is_new (IsFresh-skip (map_of g) s r fresh empty)
          (λ bin. ground (arith, fit bin)) in
      (t, rw e run, Fills-empty g t s r empty fills)
  | inr n ↦
      let used : s.key ≢ 0 = λ e. cc (eq→== s.key 0 e) in
      let below : bin_size g (hash_bin g.hash s.key) < key_buckt =
        ground (arith, fit (hash_bin g.hash s.key)) in
      let (h, put, (stored, one)) =
        put_seq-Fills g is_new s.key s.val used (IsFresh-val (map_of g) s r fresh used)
          (IsFresh-head (map_of g) s r fresh used) below in
      let (t, run, fills) =
        copy_slots-Fills r h.1 one.fresh
          (IsFresh-tail (map_of g) s r fresh used (map_of h.1) one.reads)
          (λ bin. ground (arith, fit bin, one.sizes bin, one.same_hash)) in
      (t, rw (n, put, ◌>>=◌) run, Fills-entry g h.1 t s.key s.val r one fills)
]

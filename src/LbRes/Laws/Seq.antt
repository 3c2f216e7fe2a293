-- ===== src/LbRes/Laws/Seq.antt =====
-- `clht_put_seq`, and copying the entries of a row into a table.
use mathlib.Core.Option.{or_else}
use mathlib.Core.Path.{subst}
use cht_bench.Prelude.{
  ℕ, ◌+◌, ◌≤◌, ◌<◌, ◌≡◌, refl, ◌∙◌, ◌≢◌, Option, none, some, List, [], ◌∷◌, arith, inl, inr, ◌==◌,
  ◌⊎◌, if◌then◌else◌, get_elem?, set, Option-cases, Bool-cases, ==→eq, eq→==,
}
use cht_bench.Prelude.Run.{ok, fault, ◌>>=◌, Returns}
use cht_bench.Hash.{hash_bin, u32}
use cht_bench.Chain.{
  Slot, Chain, Bucket, bucket_create, fill_loop, append_bucket, first, count_slots,
}
use cht_bench.Chain.Slots.{find, occurs, occurs-eq-zero}
use cht_bench.Chain.Effects.{Adds, set-Adds, append-Adds, new_row}
use cht_bench.Chain.Laws.{
  slots, fill_loop-IsEmptyAt, slots-append_bucket, lock-append_bucket, lock-fill_loop,
}
use cht_bench.Table.Rows.{total, set-Inserts}
use cht_bench.LbRes.{Hashtable, Memory, hash, bucket_create_stats}
use cht_bench.LbRes.Seq.{put_seq, copy_slots}
use cht_bench.LbRes.Laws.Valid.{
  IsValid, map_of, home-lt, locate, bucket_at-home, map_of-find, store-IsValid,
}

-- The table `r` is `h` with the entries of the row `l` added to its map.
pub record Fills (h : Hashtable) (l : List Slot) (r : Hashtable) : Type 0 where
  pub valid : IsValid r
  pub reads : (q : ℕ) → q ≢ 0 → map_of r q ≡ or_else (map_of h q) (find q l)
  pub size : total r.table ≡ total h.table + count_slots l
  pub same_size : r.num_buckets ≡ h.num_buckets
  pub same_version : r.version ≡ h.version

-- `memalign` gives every bucket that a table of this version asks for.
abbrev pub Grants : Memory → ℕ → Type 0
Grants mem version = (n : ℕ) → mem.bucket version n ≢ none

bind_or_else :
    (k q v : ℕ) (f : ℕ → Option ℕ)
    → f k ≡ none
    → (if k == q then some v else f q) ≡ or_else (f q) (if k == q then some v else none)
unfolding or_else
bind_or_else k q v f h = ground arith

abbrev entry : ℕ → ℕ → List Slot
entry k v = record { key = k; val = v } ∷ []

module _ (mem : Memory) (h : Hashtable) (valid : IsValid h) (k v : ℕ) (used : k ≢ 0)
    (unbound : map_of h k ≡ none) where
  stored-Fills :
      (n : ℕ) (c d : Chain)
      → get_elem? h.table (hash_bin h.hash k) ≡ some c
      → (first d).lock ≡ (first c).lock
      → occurs k (slots c) ≡ 0
      → Adds k v (slots c) (slots d)
      → Fills h
          (entry k v)
          (record h { num_expands = n; table = set h.table (hash_bin h.hash k) d })
  unfolding or_else find count_slots
  stored-Fills n c d e lock absent a =
      let t = set-Inserts (hash_bin h.hash) h.table valid.placed k c d used e v absent a in
      record {
        valid =
            store-IsValid h valid n (hash_bin h.hash k) d (home-lt h valid k)
              (lock ∙ valid.unlocked _ c e) t.placed;
        reads = λ q real. t.reads q real ∙ bind_or_else k q v (map_of h) unbound;
        size = ground (arith, t.size);
        same_size = refl;
        same_version = refl;
      }

  -- `clht_put_seq` adds the entry of a key that the table does not hold, unless it needs a bucket that
  -- `memalign` refuses.
  pub put_seq-ends :
      ((put_seq mem h k v (hash h k) ≡ fault) × (mem.bucket h.version h.num_expands ≡ none))
      ⊎ Returns (put_seq mem h k v (hash h k)) (Fills h (entry k v))
  unfolding put_seq bucket_create_stats bucket_create hash
  put_seq-ends =
      let (c, e) = locate h valid k in
      let absent : occurs k (slots c) ≡ 0 =
        occurs-eq-zero k (slots c) (rw (map_of-find h valid k c e) at unbound) in
      elim (Option-cases (fill_loop k v c)) [
        | inr (d, filled) ↦
            let (i, empty, row_d) = fill_loop-IsEmptyAt k v c d filled in
            inr (
              record h { table = set h.table (hash_bin h.hash k) d },
              rw (bucket_at-home h valid k c e, ◌>>=◌, filled),
              stored-Fills h.num_expands c d e (lock-fill_loop k v c d filled) absent
                  (rw row_d (set-Adds k v used (slots c) absent i empty)),
            )
        | inl none_left ↦ elim (Option-cases (mem.bucket h.version h.num_expands)) [
          | inl null ↦
              inl (rw (bucket_at-home h valid k c e, ◌>>=◌, none_left, null, bucket_create), null)
          | inr (junk, got) ↦
              let n : Bucket = record { lock = 0; entries = new_row k v (junk 1) (junk 2) } in
              let d = append_bucket c n in
              inr (
                record h {
                  num_expands = u32 (h.num_expands + 1);
                  table = set h.table (hash_bin h.hash k) d;
                },
                rw (bucket_at-home h valid k c e, ◌>>=◌, none_left, got, bucket_create),
                stored-Fills (u32 (h.num_expands + 1)) c d e (lock-append_bucket c n) absent (
                    rw (slots-append_bucket c n)
                      (append-Adds k v used (slots c) absent (junk 1) (junk 2))),
              )
        ]
      ]

  put_seq-Fills :
      Grants mem h.version → Returns (put_seq mem h k v (hash h k)) (Fills h (entry k v))
  put_seq-Fills granted = elim put_seq-ends [
    | inl (stops, null) ↦ absurd (granted h.num_expands null)
    | inr stored ↦ stored
  ]

Fills-nil : (h : Hashtable) → IsValid h → Fills h [] h
unfolding or_else find count_slots
Fills-nil h valid = record {
  valid = valid;
  reads = λ q real. ground arith;
  size = omega arith;
  same_size = refl;
  same_version = refl;
}

-- An empty slot adds nothing.
Fills-empty :
    (h t : Hashtable) (s : Slot) (r : List Slot) → s.key ≡ 0 → Fills h r t → Fills h (s ∷ r) t
unfolding find count_slots
Fills-empty h t s r empty f = record {
  valid = f.valid;
  reads = λ q real. ground (arith, f.reads q real);
  size = ground (arith, f.size);
  same_size = f.same_size;
  same_version = f.same_version;
}

-- One entry, and then the rest.
Fills-entry :
    (h g t : Hashtable) (k v : ℕ) (r : List Slot)
    → Fills h (entry k v) g
    → Fills g r t
    → Fills h (record { key = k; val = v } ∷ r) t
unfolding find count_slots or_else
Fills-entry h g t k v r one f = record {
  valid = f.valid;
  reads = λ q real. ground (arith, f.reads q real, one.reads q real);
  size = ground (arith, f.size, one.size);
  same_size = f.same_size ∙ one.same_size;
  same_version = f.same_version ∙ one.same_version;
}

-- The keys of a row stand there once and are not bound in the table.
pub record IsFresh (h : Hashtable) (l : List Slot) : Type 0 where
  pub once : (q : ℕ) → q ≢ 0 → occurs q l ≤ 1
  pub apart : (q : ℕ) → q ≢ 0 → 0 < occurs q l → map_of h q ≡ none

IsFresh-head :
    (h : Hashtable) (s : Slot) (r : List Slot)
    → s.key ≢ 0
    → IsFresh h (s ∷ r)
    → map_of h s.key ≡ none
unfolding occurs
IsFresh-head h s r used fresh = fresh.apart s.key used (ground arith)

IsFresh-tail :
    (h g : Hashtable) (s : Slot) (r : List Slot)
    → s.key ≢ 0
    → IsFresh h (s ∷ r)
    → Fills h (entry s.key s.val) g
    → IsFresh g r
unfolding occurs find or_else
IsFresh-tail h g s r used fresh one = record {
  once = λ q real. omega (arith, fresh.once q real);
  apart = λ q real here. ground (arith, one.reads q real, fresh.apart q real, fresh.once q real);
}

IsFresh-skip : (h : Hashtable) (s : Slot) (r : List Slot) → IsFresh h (s ∷ r) → IsFresh h r
unfolding occurs
IsFresh-skip h s r fresh = record {
  once = λ q real. omega (arith, fresh.once q real);
  apart = λ q real here. fresh.apart q real (omega arith);
}

-- Copying a row with fresh keys adds its entries.
pub copy_slots-Fills :
    (mem : Memory) (l : List Slot) (h : Hashtable)
    → IsValid h
    → Grants mem h.version
    → IsFresh h l
    → Returns (copy_slots mem l h) (Fills h l)
unfolding copy_slots
copy_slots-Fills mem [] h valid granted fresh = (h, refl, Fills-nil h valid)
copy_slots-Fills mem (s ∷ r) h valid granted fresh = elim (Bool-cases (s.key == 0)) [
  | inl empty ↦
      let (t, run, fills) = copy_slots-Fills mem r h valid granted (IsFresh-skip h s r fresh) in
      (t, rw empty run, Fills-empty h t s r (==→eq s.key 0 empty) fills)
  | inr other ↦
      let used : s.key ≢ 0 = λ e. cc (eq→== s.key 0 e) in
      let (g, put, one) =
        put_seq-Fills mem h valid s.key s.val used (IsFresh-head h s r used fresh) granted in
      let (t, run, fills) =
        copy_slots-Fills mem r g one.valid (rw one.same_version granted)
          (IsFresh-tail h g s r used fresh one) in
      (t, rw (other, put, ◌>>=◌) run, Fills-entry h g t s.key s.val r one fills)
]

-- Where memory may be refused, the copy adds the entries if it returns.
pub copy_slots-Fills_if :
    (mem : Memory) (l : List Slot) (h r : Hashtable)
    → IsValid h
    → IsFresh h l
    → copy_slots mem l h ≡ ok r
    → Fills h l r
unfolding copy_slots
copy_slots-Fills_if mem [] h r valid fresh run =
    let same : h ≡ r = cc in subst (Fills h []) same (Fills-nil h valid)
copy_slots-Fills_if mem (s ∷ l) h r valid fresh run = elim (Bool-cases (s.key == 0)) [
  | inl empty ↦
      Fills-empty h r s l (==→eq s.key 0 empty)
        (copy_slots-Fills_if mem l h r valid (IsFresh-skip h s l fresh) (rw empty at run))
  | inr other ↦
      let used : s.key ≢ 0 = λ e. cc (eq→== s.key 0 e) in
      elim (put_seq-ends mem h valid s.key s.val used (IsFresh-head h s l used fresh)) [
        | inl (stops, null) ↦
            let bad : fault >>= copy_slots mem l ≡ ok r = rw (other, stops) at run in absurd (cc)
        | inr (g, put, one) ↦
            let rest : ok g >>= copy_slots mem l ≡ ok r = rw (other, put) at run in
            Fills-entry h g r s.key s.val l one
              (copy_slots-Fills_if mem l g r one.valid (IsFresh-tail h g s l used fresh one) rest)
      ]
]

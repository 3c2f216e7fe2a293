-- ===== src/Chain/Laws.antt =====
-- The loops over a chain are the loops over its slots in one row.
use mathlib.Core.Option.{or_else}
use mathlib.Core.List.{append_assoc}
use cht_bench.Prelude.{
  ℕ, zero, suc, ◌+◌, ◌-◌, ◌≡◌, refl, ◌⊎◌, ◌&&◌, is_none, sym, dec_lt, Option, none, some, List, [],
  ◌∷◌, ◌++◌, arith, inl, inr, ◌==◌, ltb, if◌then◌else◌, or_zero, Option-cases, length, set,
}
use cht_bench.Chain.{
  Slot, Bucket, Chain, only, link, get_loop, bucket_exists, Scan, hit, miss, scan, Found, present,
  room, full, put_loop, write, append_bucket, remove_loop, fill_slot, fill_loop, count_slots,
  size_loop, first, with_lock,
}
use cht_bench.Chain.Slots.{
  find, occurs, find-eq-none, find-eq-some, find-append, occurs-append, search-find,
  bucket_has-occurs, count_slots-append,
}
use cht_bench.Chain.Slots.{IsEmptyAt, IsFull}
use cht_bench.Chain.Writes.{
  IsFull-append, IsEmptyAt-append, set-append_left, IsEmptyAt-append_right, fill_slot-eq-none,
  fill_slot-IsEmptyAt,
}
use cht_bench.Chain.Writes.{
  remove_slot_absent, remove_slot_present, cleared, cleared-append_present, cleared-append_absent,
}

abbrev pub slots : Chain → List Slot
slots (only b) = b.entries
slots (link b c) = b.entries ++ slots c

pub get_loop-find : (k : ℕ) (c : Chain) → get_loop k c ≡ or_zero (find k (slots c))
unfolding get_loop or_else
get_loop-find k (only b) = ground (arith, search-find k b.entries)
get_loop-find k (link b c) =
    ground (arith, search-find k b.entries, find-append k b.entries (slots c), get_loop-find k c)

pub bucket_exists-occurs : (k : ℕ) (c : Chain) → bucket_exists k c ≡ ltb 0 (occurs k (slots c))
unfolding bucket_exists
bucket_exists-occurs k (only b) = ground (arith, bucket_has-occurs k b.entries)
bucket_exists-occurs k (link b c) =
    rw (occurs-append k b.entries (slots c))
      (ground (arith, bucket_has-occurs k b.entries, bucket_exists-occurs k c))

abbrev pub decide_found : Scan → Found
decide_found hit = present
decide_found (miss none) = full
decide_found (miss (some p)) = room p

Scan-cases : (r : Scan) → (r ≡ hit) ⊎ ((e : Option ℕ) × (r ≡ miss e))
Scan-cases hit = inl refl
Scan-cases (miss e) = inr (e, refl)

scan-append_hit :
    (k at : ℕ) (e : Option ℕ) (a b : List Slot) → scan k at e a ≡ hit → scan k at e (a ++ b) ≡ hit
unfolding scan
scan-append_hit k at e [] b h = absurd (cc)
scan-append_hit k at e (s ∷ a) b h =
    ground
      (arith, scan-append_hit k (at + 1) (if is_none e && (s.key == 0) then some at else e) a b)

scan-append_miss :
    (k at : ℕ) (e e' : Option ℕ) (a b : List Slot)
    → scan k at e a ≡ miss e'
    → scan k at e (a ++ b) ≡ scan k (at + length a) e' b
unfolding scan
scan-append_miss k at e e' [] b h = let z : at + 0 ≡ at = omega arith in rw z (ground arith)
scan-append_miss k at e e' (s ∷ a) b h =
    let z : at + 1 + length a ≡ at + suc (length a) = omega arith in
    rw (← z) (
      ground (
        arith,
        scan-append_miss k (at + 1) (if is_none e && (s.key == 0) then some at else e) e' a b,
      ))

pub put_loop-scan :
    (k at : ℕ) (e : Option ℕ) (c : Chain) → put_loop k at e c ≡ decide_found (scan k at e (slots c))
unfolding put_loop
put_loop-scan k at e (only b) = refl
put_loop-scan k at e (link b c) = elim (Scan-cases (scan k at e b.entries)) [
  | inl h ↦ ground (arith, scan-append_hit k at e b.entries (slots c) h)
  | inr (e', m) ↦ ground (
    arith,
    scan-append_miss k at e e' b.entries (slots c) m,
    put_loop-scan k (at + length b.entries) e' c,
  )
]

set-append :
    (a b : List Slot) (i : ℕ) (s : Slot)
    → set (a ++ b) i s ≡ (if ltb i (length a) then set a i s ++ b else a ++ set b (i - length a) s)
set-append [] b i s = ground arith
set-append (x ∷ a) b zero s = ground arith
set-append (x ∷ a) b (suc i) s = ground (arith, set-append a b i s)

pub slots-write : (at : ℕ) (s : Slot) (c : Chain) → slots (write at s c) ≡ set (slots c) at s
unfolding write
slots-write at s (only b) = refl
slots-write at s (link b c) =
    ground (arith, set-append b.entries (slots c) at s, slots-write (at - length b.entries) s c)

pub slots-append_bucket :
    (c : Chain) (n : Bucket) → slots (append_bucket c n) ≡ slots c ++ n.entries
unfolding append_bucket
slots-append_bucket (only b) n = refl
slots-append_bucket (link b c) n = rw (slots-append_bucket c n, append_assoc)

pub slots-with_lock : (l : ℕ) (c : Chain) → slots (with_lock l c) ≡ slots c
unfolding with_lock
slots-with_lock l (only b) = refl
slots-with_lock l (link b c) = refl

pub size_loop-count : (c : Chain) → size_loop c ≡ count_slots (slots c)
unfolding size_loop
size_loop-count (only b) = refl
size_loop-count (link b c) = rw (count_slots-append, size_loop-count c)

-- A removal, seen on the row of slots.
pub remove_loop_absent : (k : ℕ) (c : Chain) → occurs k (slots c) ≡ 0 → remove_loop k c ≡ none
unfolding remove_loop
remove_loop_absent k (only b) h = ground (arith, remove_slot_absent k b.entries)
remove_loop_absent k (link b c) h = ground (
  arith,
  occurs-append k b.entries (slots c),
  remove_slot_absent k b.entries,
  remove_loop_absent k c,
)

pub remove_loop_present :
    (k v : ℕ) (c : Chain)
    → find k (slots c) ≡ some v
    → (c' : Chain) × (remove_loop k c ≡ some (v, c')) × (slots c' ≡ cleared k (slots c))
unfolding remove_loop or_else
remove_loop_present k v (only b) h = (
  only (record b { entries = cleared k b.entries }),
  rw (remove_slot_present k v b.entries h, remove_loop),
  refl,
)
remove_loop_present k v (link b c) h = elim (dec_lt 0 (occurs k b.entries)) [
  | yes here ↦
      let (w, e) = find-eq-some k b.entries here in
      let same : find k b.entries ≡ some v = ground (arith, find-append k b.entries (slots c)) in
      (
        link (record b { entries = cleared k b.entries }) c,
        rw (remove_slot_present k v b.entries same, remove_loop),
        sym (cleared-append_present k b.entries (slots c) here),
      )
  | no away ↦
      let absent : occurs k b.entries ≡ 0 = omega arith in
      let (c', run, e) =
        remove_loop_present k v c
          (ground (arith, find-append k b.entries (slots c), find-eq-none k b.entries)) in
      (
        link b c',
        rw (remove_slot_absent k b.entries absent, remove_loop, run),
        rw (e, cleared-append_absent k b.entries (slots c) absent),
      )
]

-- Filling a slot of a chain, seen on the row of slots.
pub fill_loop-eq-none : (k v : ℕ) (c : Chain) → fill_loop k v c ≡ none → IsFull (slots c)
unfolding fill_loop
fill_loop-eq-none k v (only b) h = ground (arith, fill_slot-eq-none k v b.entries)
fill_loop-eq-none k v (link b c) h =
    IsFull-append b.entries (slots c) (ground (arith, fill_slot-eq-none k v b.entries))
      (ground (arith, fill_loop-eq-none k v c))

pub fill_loop-IsEmptyAt :
    (k v : ℕ) (c c' : Chain)
    → fill_loop k v c ≡ some c'
    → (i : ℕ) × IsEmptyAt (slots c) i × (slots c' ≡ set (slots c) i (record { key = k; val = v }))
unfolding fill_loop
fill_loop-IsEmptyAt k v (only b) c' h = elim (Option-cases (fill_slot k v b.entries)) [
  | inl e ↦ absurd (ground arith)
  | inr (es, e) ↦
      let (i, empty, at_i) = fill_slot-IsEmptyAt k v b.entries es e in (i, empty, ground arith)
]
fill_loop-IsEmptyAt k v (link b c) c' h = elim (Option-cases (fill_slot k v b.entries)) [
  | inr (es, e) ↦
      let (i, empty, at_i) = fill_slot-IsEmptyAt k v b.entries es e in
      (
        i,
        IsEmptyAt-append b.entries (slots c) i empty,
        ground (arith, set-append_left b.entries (slots c) i (record { key = k; val = v }) empty),
      )
  | inl e ↦ elim (Option-cases (fill_loop k v c)) [
    | inl n ↦ absurd (ground arith)
    | inr (d, f) ↦
        let (i, empty, at_i) = fill_loop-IsEmptyAt k v c d f in
        let (j, there, w) =
          IsEmptyAt-append_right b.entries (slots c) i (record { key = k; val = v }) empty in
        (j, there, ground arith)
  ]
]

-- The lock word of the first bucket, which the loops leave alone.
pub lock-with_lock : (l : ℕ) (c : Chain) → (first (with_lock l c)).lock ≡ l
unfolding with_lock
lock-with_lock l (only b) = refl
lock-with_lock l (link b c) = refl

pub lock-append_bucket :
    (c : Chain) (n : Bucket) → (first (append_bucket c n)).lock ≡ (first c).lock
unfolding append_bucket
lock-append_bucket (only b) n = refl
lock-append_bucket (link b c) n = refl

pub lock-fill_loop :
    (k v : ℕ) (c c' : Chain) → fill_loop k v c ≡ some c' → (first c').lock ≡ (first c).lock
unfolding fill_loop
lock-fill_loop k v (only b) c' h = ground arith
lock-fill_loop k v (link b c) c' h = ground arith

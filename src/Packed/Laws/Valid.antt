-- ===== src/Packed/Laws/Valid.antt =====
-- The invariant of a packed table, the map that it stands for, and what its calls have to do.
use mathlib.Core.List.{map}
use cht_bench.Prelude.{
  ℕ, ◌+◌, ◌-◌, ◌^◌, ◌≤◌, ◌<◌, ◌≡◌, refl, ◌≢◌, Bool, ◌&&◌, not, Option, none, some, List, arith,
  ◌==◌, if◌then◌else◌, is_none, or_zero, get_elem?, length,
}
use cht_bench.Hash.{hash_bin}
use cht_bench.Chain.{Chain as SlotChain, only as one_bucket}
use cht_bench.Chain.Slots.{one_if}
use cht_bench.Table.Rows.{IsPlaced, view, total}
use cht_bench.Packed.{Chain, Hashtable, first, only, link, with_lock}
use cht_bench.Packed.Laws.Rows.{content, IsPacked}

-- A packed chain as one bucket of Chain, with the used slots only.
abbrev pub as_chain : Chain → SlotChain
as_chain c = one_bucket (record { lock = (first c).lock; entries = content c })

abbrev pub chains : Hashtable → List SlotChain
chains h = map as_chain h.table

abbrev pub home : Hashtable → ℕ → ℕ
home h = hash_bin (h.num_buckets - 1)

pub record IsValid (h : Hashtable) : Type 0 where
  pub filled : 0 < h.num_buckets
  pub fits : h.num_buckets ≤ 2 ^ 32
  pub width : length h.table ≡ h.num_buckets
  pub placed : IsPlaced (home h) (chains h)
  pub packed : (i : ℕ) (c : Chain) → get_elem? h.table i ≡ some c → IsPacked c
  pub unlocked : (i : ℕ) (c : Chain) → get_elem? h.table i ≡ some c → (first c).lock ≡ 0

-- The map from keys to values that a table stands for.
abbrev pub map_of : Hashtable → ℕ → Option ℕ
map_of h = view (home h) (chains h)

-- What a put of `v` has to do: it answers whether the key was absent, binds it only then, and counts
-- one entry more then.
pub record Puts (h : Hashtable) (k v : ℕ) (r : Bool × Hashtable) : Type 0 where
  pub valid : IsValid r.1
  pub answers : r.0 ≡ is_none (map_of h k)
  pub reads :
      (q : ℕ)
      → q ≢ 0
      → map_of r.1 q ≡ (if is_none (map_of h k) && (k == q) then some v else map_of h q)
  pub size : total (chains r.1) ≡ total (chains h) + one_if r.0

-- What a removal has to do: it answers the value of the key, or 0 where it is absent, unbinds it,
-- and counts one entry less where it was bound.
pub record Takes (h : Hashtable) (k : ℕ) (r : ℕ × Hashtable) : Type 0 where
  pub valid : IsValid r.1
  pub answers : r.0 ≡ or_zero (map_of h k)
  pub reads : (q : ℕ) → q ≢ 0 → map_of r.1 q ≡ (if k == q then none else map_of h q)
  pub size : total (chains r.1) + one_if (not (is_none (map_of h k))) ≡ total (chains h)

pub unbind_absent : (k q : ℕ) (f : ℕ → Option ℕ) → f k ≡ none → f q ≡ (if k == q then none else f q)
unbind_absent k q f h = ground arith

pub content-with_lock : (l : ℕ) (c : Chain) → content (with_lock l c) ≡ content c
content-with_lock l (only b) = refl
content-with_lock l (link b c) = refl

pub with_lock-IsPacked : (l : ℕ) (c : Chain) → IsPacked c → IsPacked (with_lock l c)
with_lock-IsPacked l (only b) p = p
with_lock-IsPacked l (link b c) p = p

pub lock-with_lock : (l : ℕ) (c : Chain) → (first (with_lock l c)).lock ≡ l
lock-with_lock l (only b) = refl
lock-with_lock l (link b c) = refl

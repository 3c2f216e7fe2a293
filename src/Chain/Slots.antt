-- ===== src/Chain/Slots.antt =====
-- The slots of a chain in one row: what such a row holds for a key, and what the loops over one
-- bucket of Chain do to it.
use mathlib.Core.Option.{or_else}
use cht_bench.Prelude.{
  ℕ, zero, suc, ◌+◌, ◌<◌, ◌≡◌, refl, ◌≢◌, Bool, true, false, ◌&&◌, Option, none, some, List, [],
  ◌∷◌, ◌++◌, arith, inl, inr, ◌==◌, ltb, if◌then◌else◌, is_none, Bool-cases, ==→eq,
}
use cht_bench.Chain.{Slot, search, bucket_has, hit, miss, scan, count_slots}

-- The value in the first slot with a key.
unfoldable pub find : ℕ → List Slot → Option ℕ
find k [] = none
find k (s ∷ r) = if s.key == k then some s.val else find k r

-- How many slots hold a key.
unfoldable pub occurs : ℕ → List Slot → ℕ
occurs k [] = 0
occurs k (s ∷ r) = (if s.key == k then 1 else 0) + occurs k r

abbrev pub one_if : Bool → ℕ
one_if true = 1
one_if false = 0

-- The slot at an index is empty.
abbrev pub IsEmptyAt : List Slot → ℕ → Type 0
IsEmptyAt [] i = ⊥
IsEmptyAt (s ∷ r) zero = s.key ≡ 0
IsEmptyAt (s ∷ r) (suc i) = IsEmptyAt r i

unfoldable pub first_empty : ℕ → List Slot → Option ℕ
first_empty at [] = none
first_empty at (s ∷ r) = let rest = first_empty (at + 1) r in if s.key == 0 then some at else rest

pub find-append : (k : ℕ) (a b : List Slot) → find k (a ++ b) ≡ or_else (find k a) (find k b)
unfolding find or_else
find-append k [] b = refl
find-append k (s ∷ a) b = rw (find-append k a b) (ground arith)

pub occurs-append : (k : ℕ) (a b : List Slot) → occurs k (a ++ b) ≡ occurs k a + occurs k b
unfolding occurs
occurs-append k [] b = omega arith
occurs-append k (s ∷ a) b = omega (arith, occurs-append k a b)

pub count_slots-append : (a b : List Slot) → count_slots (a ++ b) ≡ count_slots a + count_slots b
unfolding count_slots
count_slots-append [] b = omega arith
count_slots-append (s ∷ a) b = ground (arith, count_slots-append a b)

pub find-eq-none : (k : ℕ) (l : List Slot) → occurs k l ≡ 0 → find k l ≡ none
unfolding find occurs
find-eq-none k [] h = refl
find-eq-none k (s ∷ r) h = ground (arith, find-eq-none k r)

pub occurs-eq-zero : (k : ℕ) (l : List Slot) → find k l ≡ none → occurs k l ≡ 0
unfolding find occurs
occurs-eq-zero k [] h = refl
occurs-eq-zero k (s ∷ r) h = ground (arith, occurs-eq-zero k r)

pub find-occurs : (k v : ℕ) (l : List Slot) → find k l ≡ some v → 0 < occurs k l
unfolding find occurs
find-occurs k v [] h = absurd (cc)
find-occurs k v (s ∷ r) h = ground (arith, find-occurs k v r)

pub find-eq-some : (k : ℕ) (l : List Slot) → 0 < occurs k l → (v : ℕ) × (find k l ≡ some v)
unfolding find occurs
find-eq-some k [] h = absurd (omega arith)
find-eq-some k (s ∷ r) h = elim (Bool-cases (s.key == k)) [
  | inl same ↦ (s.val, rw same)
  | inr other ↦ let (v, e) = find-eq-some k r (ground arith) in (v, rw other e)
]

pub search-find : (k : ℕ) (l : List Slot) → search k l ≡ find k l
unfolding search find
search-find k [] = refl
search-find k (s ∷ r) = ground (arith, search-find k r)

pub bucket_has-occurs : (k : ℕ) (l : List Slot) → bucket_has k l ≡ ltb 0 (occurs k l)
unfolding bucket_has occurs
bucket_has-occurs k [] = refl
bucket_has-occurs k (s ∷ r) = ground (arith, bucket_has-occurs k r)

pub scan_present : (k at : ℕ) (e : Option ℕ) (l : List Slot) → 0 < occurs k l → scan k at e l ≡ hit
unfolding scan occurs
scan_present k at e [] h = absurd (omega arith)
scan_present k at e (s ∷ r) h =
    ground (arith, scan_present k (at + 1) (if is_none e && (s.key == 0) then some at else e) r)

pub scan_absent :
    (k at : ℕ) (e : Option ℕ) (l : List Slot)
    → occurs k l ≡ 0
    → scan k at e l ≡ miss (or_else e (first_empty at l))
unfolding scan occurs first_empty or_else
scan_absent k at none [] h = refl
scan_absent k at (some p) [] h = refl
scan_absent k at none (s ∷ r) h =
    ground (arith, scan_absent k (at + 1) none r, scan_absent k (at + 1) (some at) r)
scan_absent k at (some p) (s ∷ r) h = ground (arith, scan_absent k (at + 1) (some p) r)

-- `empty` points at an empty slot of the row that starts at `at`.
pub first_empty-IsEmptyAt :
    (at : ℕ) (l : List Slot) (p : ℕ)
    → first_empty at l ≡ some p
    → (i : ℕ) × (p ≡ at + i) × IsEmptyAt l i
unfolding first_empty
first_empty-IsEmptyAt at [] p h = absurd (cc)
first_empty-IsEmptyAt at (s ∷ r) p h = elim (Bool-cases (s.key == 0)) [
  | inl e ↦ (0, ground arith, ==→eq s.key 0 e)
  | inr n ↦
      let (i, at_i, e) = first_empty-IsEmptyAt (at + 1) r p (ground arith) in
      (suc i, omega arith, e)
]

-- With no `empty`, no slot is empty.
abbrev pub IsFull : List Slot → Type 0
IsFull [] = Unit {0}
IsFull (s ∷ r) = (s.key ≢ 0) × IsFull r

pub first_empty-IsFull : (at : ℕ) (l : List Slot) → first_empty at l ≡ none → IsFull l
unfolding first_empty
first_empty-IsFull at [] h = tt
first_empty-IsFull at (s ∷ r) h = ground (arith, first_empty-IsFull (at + 1) r)

-- ===== src/Chain/Writes.antt =====
-- What the writes of Chain do to a row of slots: a new entry at an empty slot, and a removal.
use cht_bench.Prelude.{
  ℕ, zero, suc, ◌+◌, ◌≤◌, ◌<◌, ◌≡◌, refl, ap, ◌≢◌, none, some, List, [], ◌∷◌, ◌++◌, arith, inl, inr,
  ◌==◌, if◌then◌else◌, Bool-cases, Option-cases, ==→eq, set,
}
use cht_bench.Chain.{Slot, remove_slot, fill_slot, count_slots}
use cht_bench.Chain.Slots.{find, occurs, one_if, IsEmptyAt, IsFull, find-eq-none}

module _ (k v : ℕ) (used : k ≢ 0) (q : ℕ) (real : q ≢ 0) where
  abbrev new : Slot
  new = record { key = k; val = v }

  pub find-set :
      (l : List Slot) (i : ℕ)
      → IsEmptyAt l i
      → occurs k l ≡ 0
      → find q (set l i new) ≡ (if k == q then some v else find q l)
  unfolding find occurs
  find-set [] i e h = absurd e
  find-set (s ∷ r) zero e h = ground arith
  find-set (s ∷ r) (suc i) e h = ground (arith, find-set r i)

  pub occurs-set :
      (l : List Slot) (i : ℕ)
      → IsEmptyAt l i
      → occurs q (set l i new) ≡ occurs q l + one_if (k == q)
  unfolding occurs
  occurs-set [] i e = absurd e
  occurs-set (s ∷ r) zero e = ground arith
  occurs-set (s ∷ r) (suc i) e = ground (arith, occurs-set r i)

pub count_slots-set :
    (k v : ℕ) (l : List Slot) (i : ℕ)
    → k ≢ 0
    → IsEmptyAt l i
    → count_slots (set l i (record { key = k; val = v })) ≡ suc (count_slots l)
unfolding count_slots
count_slots-set k v [] i used e = absurd e
count_slots-set k v (s ∷ r) zero used e = ground arith
count_slots-set k v (s ∷ r) (suc i) used e = ground (arith, count_slots-set k v r i used)

pub IsFull-append : (a b : List Slot) → IsFull a → IsFull b → IsFull (a ++ b)
IsFull-append [] b ha hb = hb
IsFull-append (s ∷ a) b ha hb = (ha.0, IsFull-append a b ha.1 hb)

pub IsEmptyAt-append : (a b : List Slot) (i : ℕ) → IsEmptyAt a i → IsEmptyAt (a ++ b) i
IsEmptyAt-append [] b i h = absurd h
IsEmptyAt-append (s ∷ a) b zero h = h
IsEmptyAt-append (s ∷ a) b (suc i) h = IsEmptyAt-append a b i h

pub set-append_left :
    (a b : List Slot) (i : ℕ) (s : Slot) → IsEmptyAt a i → set (a ++ b) i s ≡ set a i s ++ b
set-append_left [] b i s h = absurd h
set-append_left (x ∷ a) b zero s h = refl
set-append_left (x ∷ a) b (suc i) s h = ap (λ r. x ∷ r) (set-append_left a b i s h)

-- An index counted from the start of the second row.
pub IsEmptyAt-append_right :
    (a b : List Slot) (i : ℕ) (s : Slot)
    → IsEmptyAt b i
    → (j : ℕ) × IsEmptyAt (a ++ b) j × (set (a ++ b) j s ≡ a ++ set b i s)
IsEmptyAt-append_right [] b i s h = (i, h, refl)
IsEmptyAt-append_right (x ∷ a) b i s h =
    let (j, e, w) = IsEmptyAt-append_right a b i s h in (suc j, e, ap (λ r. x ∷ r) w)

-- `fill_slot` fails only where every slot is taken.
pub fill_slot-eq-none : (k v : ℕ) (l : List Slot) → fill_slot k v l ≡ none → IsFull l
unfolding fill_slot
fill_slot-eq-none k v [] h = tt
fill_slot-eq-none k v (s ∷ r) h = elim (Option-cases (fill_slot k v r)) [
  | inl e ↦ ground (arith, fill_slot-eq-none k v r)
  | inr (r', e) ↦ absurd (ground arith)
]

-- Otherwise it writes the new entry at an empty slot.
pub fill_slot-IsEmptyAt :
    (k v : ℕ) (l l' : List Slot)
    → fill_slot k v l ≡ some l'
    → (i : ℕ) × IsEmptyAt l i × (l' ≡ set l i (record { key = k; val = v }))
unfolding fill_slot
fill_slot-IsEmptyAt k v [] l' h = absurd (cc)
fill_slot-IsEmptyAt k v (s ∷ r) l' h = elim (Bool-cases (s.key == 0)) [
  | inl e ↦ (0, ==→eq s.key 0 e, ground arith)
  | inr n ↦ elim (Option-cases (fill_slot k v r)) [
    | inl e ↦ absurd (ground arith)
    | inr (r', e) ↦ let (i, at_i, t) = fill_slot-IsEmptyAt k v r r' e in (suc i, at_i, ground arith)
  ]
]

pub remove_slot_absent : (k : ℕ) (l : List Slot) → occurs k l ≡ 0 → remove_slot k l ≡ none
unfolding remove_slot occurs
remove_slot_absent k [] h = refl
remove_slot_absent k (s ∷ r) h = ground (arith, remove_slot_absent k r)

-- The row without the first slot with the key.
unfoldable pub cleared : ℕ → List Slot → List Slot
cleared k [] = []
cleared k (s ∷ r) = if s.key == k then record s { key = 0 } ∷ r else s ∷ cleared k r

pub remove_slot_present :
    (k v : ℕ) (l : List Slot) → find k l ≡ some v → remove_slot k l ≡ some (v, cleared k l)
unfolding remove_slot find cleared
remove_slot_present k v [] h = absurd (cc)
remove_slot_present k v (s ∷ r) h = ground (arith, remove_slot_present k v r)

pub cleared-append_present :
    (k : ℕ) (a b : List Slot) → 0 < occurs k a → cleared k (a ++ b) ≡ cleared k a ++ b
unfolding cleared occurs
cleared-append_present k [] b h = absurd (omega arith)
cleared-append_present k (s ∷ a) b h = ground (arith, cleared-append_present k a b)

pub cleared-append_absent :
    (k : ℕ) (a b : List Slot) → occurs k a ≡ 0 → cleared k (a ++ b) ≡ a ++ cleared k b
unfolding cleared occurs
cleared-append_absent k [] b h = refl
cleared-append_absent k (s ∷ a) b h = ground (arith, cleared-append_absent k a b)

module _ (k : ℕ) (used : k ≢ 0) where
  pub count_slots-cleared :
      (l : List Slot) → 0 < occurs k l → suc (count_slots (cleared k l)) ≡ count_slots l
  unfolding count_slots cleared occurs
  count_slots-cleared [] h = absurd (omega arith)
  count_slots-cleared (s ∷ r) h = ground (arith, count_slots-cleared r)

  module _ (q : ℕ) (real : q ≢ 0) where
    pub occurs-cleared :
        (l : List Slot) → 0 < occurs k l → occurs q (cleared k l) + one_if (k == q) ≡ occurs q l
    unfolding occurs cleared
    occurs-cleared [] h = absurd (omega arith)
    occurs-cleared (s ∷ r) h = ground (arith, occurs-cleared r)

    pub find-cleared :
        (l : List Slot)
        → occurs k l ≤ 1
        → find q (cleared k l) ≡ (if k == q then none else find q l)
    unfolding find occurs cleared
    find-cleared [] h = ground arith
    find-cleared (s ∷ r) h = ground (arith, find-cleared r, find-eq-none k r)

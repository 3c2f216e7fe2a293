-- ===== src/Chain/Effects.antt =====
-- What a write means for a row of slots: an entry is added, or the entry of a key is removed.
-- The key 0 marks an empty slot, so nothing is said of it.
use cht_bench.Prelude.{
  ℕ, suc, ◌+◌, ◌≤◌, ◌<◌, ◌≡◌, ◌≢◌, none, some, List, [], ◌∷◌, ◌++◌, arith, ◌==◌, if◌then◌else◌, set,
}
use mathlib.Core.Option.{or_else}
use cht_bench.Chain.{Slot, count_slots}
use cht_bench.Chain.Slots.{
  find, occurs, one_if, IsEmptyAt, find-append, occurs-append, count_slots-append, find-eq-none,
}
use cht_bench.Chain.Writes.{
  find-set, occurs-set, count_slots-set, cleared, count_slots-cleared, occurs-cleared, find-cleared,
}

pub record Adds (k v : ℕ) (l l' : List Slot) : Type 0 where
  pub reads : (q : ℕ) → q ≢ 0 → find q l' ≡ (if k == q then some v else find q l)
  pub counts : (q : ℕ) → q ≢ 0 → occurs q l' ≡ occurs q l + one_if (k == q)
  pub size : count_slots l' ≡ suc (count_slots l)

pub record Removes (k : ℕ) (l l' : List Slot) : Type 0 where
  pub reads : (q : ℕ) → q ≢ 0 → find q l' ≡ (if k == q then none else find q l)
  pub counts : (q : ℕ) → q ≢ 0 → occurs q l' + one_if (k == q) ≡ occurs q l
  pub size : suc (count_slots l') ≡ count_slots l

-- `val[0]` and `key[0]` of a new bucket
abbrev pub new_row : ℕ → ℕ → ℕ → ℕ → List Slot
new_row k v x y =
    record { key = k; val = v } ∷ record { key = 0; val = x } ∷ record { key = 0; val = y } ∷ []

module _ (k v : ℕ) (used : k ≢ 0) (l : List Slot) (absent : occurs k l ≡ 0) where
  pub set-Adds : (i : ℕ) → IsEmptyAt l i → Adds k v l (set l i (record { key = k; val = v }))
  set-Adds i e = record {
    reads = λ q real. find-set k v used q real l i e absent;
    counts = λ q real. occurs-set k v used q real l i e;
    size = count_slots-set k v l i used e;
  }

  pub append-Adds : (x y : ℕ) → Adds k v l (l ++ new_row k v x y)
  unfolding find occurs count_slots or_else
  append-Adds x y = record {
    reads = λ q real. ground (arith, find-append q l (new_row k v x y), find-eq-none k l absent);
    counts = λ q real. ground (arith, occurs-append q l (new_row k v x y));
    size = ground (arith, count_slots-append l (new_row k v x y));
  }

-- An entry behind all others.
pub push-Adds :
    (k v : ℕ)
    → k ≢ 0
    → (l : List Slot) → occurs k l ≡ 0
    → Adds k v l (l ++ record { key = k; val = v } ∷ [])
unfolding find occurs count_slots or_else
push-Adds k v used l absent =
    let s : Slot = record { key = k; val = v } in
    record {
      reads = λ q real. ground (arith, find-append q l (s ∷ []), find-eq-none k l absent);
      counts = λ q real. ground (arith, occurs-append q l (s ∷ []));
      size = ground (arith, count_slots-append l (s ∷ []));
    }

pub cleared-Removes :
    (k : ℕ) (l : List Slot) → k ≢ 0 → 0 < occurs k l → occurs k l ≤ 1 → Removes k l (cleared k l)
cleared-Removes k l used here once = record {
  reads = λ q real. find-cleared k used q real l once;
  counts = λ q real. occurs-cleared k used q real l here;
  size = count_slots-cleared k used l here;
}

-- ===== src/Packed/Laws/Swap.antt =====
-- A removal that fills the hole with the last entry of the row.
use mathlib.Core.Option.{or_else}
use mathlib.Core.List.{append_assoc}
use cht_bench.Prelude.{ℕ, ◌≤◌, ◌≡◌, ap, ◌≢◌, some, List, [], ◌∷◌, ◌++◌, arith}
use cht_bench.Chain.{Slot, count_slots}
use cht_bench.Chain.Slots.{
  find, occurs, find-append, occurs-append, find-eq-none, count_slots-append,
}
use cht_bench.Chain.Effects.{Removes}

-- The slot `s` leaves the row: it was the last one, or the last one takes its place.
pub data Swaps (l : List Slot) (s : Slot) (l' : List Slot) : Type 0 where
  drops : (a : List Slot) → l ≡ a ++ s ∷ [] → l' ≡ a → Swaps l s l'
  moves : (a b : List Slot) (t : Slot) → l ≡ a ++ s ∷ (b ++ t ∷ []) → l' ≡ a ++ t ∷ b → Swaps l s l'

-- A row in front stays.
pub Swaps-append : (p l l' : List Slot) (s : Slot) → Swaps l s l' → Swaps (p ++ l) s (p ++ l')
Swaps-append p l l' s (drops a e f) = drops (p ++ a) (rw (e, append_assoc)) (rw f)
Swaps-append p l l' s (moves a b t e f) =
    moves (p ++ a) b t (rw (e, append_assoc)) (rw (f, append_assoc))

module _ (l l' : List Slot) (s : Slot) (k : ℕ) (same : s.key ≡ k) (used : k ≢ 0) where
  drops-Removes :
      (a : List Slot)
      → l ≡ a ++ s ∷ []
      → l' ≡ a
      → ((q : ℕ) → q ≢ 0 → occurs q l ≤ 1)
      → Removes k l l'
  unfolding find occurs count_slots or_else
  drops-Removes a e f once = record {
    reads = λ q real. ground (
      arith,
      once q real,
      ap (occurs q) e,
      occurs-append q a (s ∷ []),
      ap (find q) e,
      find-append q a (s ∷ []),
      ap (find q) f,
      find-eq-none q a,
    );
    counts = λ q real. ground (arith, ap (occurs q) e, occurs-append q a (s ∷ []), ap (occurs q) f);
    size = ground (arith, ap count_slots e, count_slots-append a (s ∷ []), ap count_slots f);
  }

  moves-Removes :
      (a b : List Slot) (t : Slot)
      → l ≡ a ++ s ∷ (b ++ t ∷ [])
      → l' ≡ a ++ t ∷ b
      → ((q : ℕ) → q ≢ 0 → occurs q l ≤ 1)
      → Removes k l l'
  unfolding find occurs count_slots or_else
  moves-Removes a b t e f once = record {
    reads = λ q real. ground (
      arith,
      once q real,
      ap (occurs q) e,
      occurs-append q a (s ∷ (b ++ t ∷ [])),
      occurs-append q b (t ∷ []),
      ap (find q) e,
      find-append q a (s ∷ (b ++ t ∷ [])),
      find-append q b (t ∷ []),
      ap (find q) f,
      find-append q a (t ∷ b),
      find-eq-none q a,
      find-eq-none q b,
    );
    counts = λ q real. ground (
      arith,
      ap (occurs q) e,
      occurs-append q a (s ∷ (b ++ t ∷ [])),
      occurs-append q b (t ∷ []),
      ap (occurs q) f,
      occurs-append q a (t ∷ b),
    );
    size = ground (
      arith,
      ap count_slots e,
      count_slots-append a (s ∷ (b ++ t ∷ [])),
      count_slots-append b (t ∷ []),
      ap count_slots f,
      count_slots-append a (t ∷ b),
    );
  }

  pub Swaps-Removes : Swaps l s l' → ((q : ℕ) → q ≢ 0 → occurs q l ≤ 1) → Removes k l l'
  Swaps-Removes (drops a e f) once = drops-Removes a e f once
  Swaps-Removes (moves a b t e f) once = moves-Removes a b t e f once

  -- The value in the slot is that of the key.
  pub Swaps-find : Swaps l s l' → occurs k l ≤ 1 → find k l ≡ some s.val
  unfolding find occurs or_else
  Swaps-find (drops a e f) once = ground (
    arith,
    ap (occurs k) e,
    occurs-append k a (s ∷ []),
    ap (find k) e,
    find-append k a (s ∷ []),
    find-eq-none k a,
  )
  Swaps-find (moves a b t e f) once = ground (
    arith,
    ap (occurs k) e,
    occurs-append k a (s ∷ (b ++ t ∷ [])),
    ap (find k) e,
    find-append k a (s ∷ (b ++ t ∷ [])),
    find-eq-none k a,
  )

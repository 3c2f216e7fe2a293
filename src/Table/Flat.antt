-- ===== src/Table/Flat.antt =====
-- All the slots of an array of chains in one row. Where each key is in its bin, the row holds what
-- the array holds.
use mathlib.Core.Option.{or_else}
use cht_bench.Prelude.{ℕ, zero, suc, ◌≤◌, ◌≡◌, refl, ◌≢◌, List, [], ◌∷◌, ◌++◌, arith}
use cht_bench.Chain.{Slot, Chain, count_slots}
use cht_bench.Chain.Slots.{
  find, occurs, find-append, occurs-append, find-eq-none, count_slots-append,
}
use cht_bench.Chain.Laws.{slots}
use cht_bench.Table.Rows.{row, total, IsPlaced, view}

abbrev pub flat : List Chain → List Slot
flat [] = []
flat (c ∷ t) = slots c ++ flat t

pub total-flat : (t : List Chain) → total t ≡ count_slots (flat t)
unfolding total count_slots
total-flat [] = refl
total-flat (c ∷ t) = omega (arith, total-flat t, count_slots-append (slots c) (flat t))

flat_nowhere : (q : ℕ) (t : List Chain) → ((i : ℕ) → occurs q (row t i) ≡ 0) → occurs q (flat t) ≡ 0
unfolding occurs
flat_nowhere q [] h = refl
flat_nowhere q (c ∷ t) h =
    omega (arith, occurs-append q (slots c) (flat t), h 0, flat_nowhere q t (λ i. h (suc i)))

-- A key that stands in one row only is found there.
flat_only :
    (q : ℕ) (t : List Chain) (j : ℕ)
    → ((i : ℕ) → j ≢ i → occurs q (row t i) ≡ 0)
    → (find q (flat t) ≡ find q (row t j)) × (occurs q (flat t) ≡ occurs q (row t j))
unfolding find occurs or_else
flat_only q [] j h = (refl, refl)
flat_only q (c ∷ t) zero h =
    let rest = flat_nowhere q t (λ i. h (suc i) (omega arith)) in
    (
      ground (arith, find-append q (slots c) (flat t), find-eq-none q (flat t) rest),
      omega (arith, occurs-append q (slots c) (flat t), rest),
    )
flat_only q (c ∷ t) (suc j) h =
    let here = h 0 (omega arith) in
    let (found, counted) = flat_only q t j (λ i n. h (suc i) (omega arith)) in
    (
      ground (arith, find-append q (slots c) (flat t), find-eq-none q (slots c) here, found),
      omega (arith, occurs-append q (slots c) (flat t), here, counted),
    )

module _ (home : ℕ → ℕ) (t : List Chain) (placed : IsPlaced home t) (q : ℕ) (real : q ≢ 0) where
  only_home :
      (find q (flat t) ≡ find q (row t (home q))) × (occurs q (flat t) ≡ occurs q (row t (home q)))
  only_home = flat_only q t (home q) (λ i away. placed.apart q i real away)

  pub find-flat : find q (flat t) ≡ view home t q
  unfolding view
  find-flat = only_home.0

  pub occurs-flat : occurs q (flat t) ≤ 1
  occurs-flat = omega (arith, only_home.1, placed.once q (home q) real)

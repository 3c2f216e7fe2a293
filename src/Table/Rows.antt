-- ===== src/Table/Rows.antt =====
-- The rows of slots of an array of chains, with the bin of each key given by `home`.
use cht_bench.Prelude.{
  ℕ, zero, suc, ◌+◌, ◌≤◌, ◌<◌, ◌≡◌, ◌≢◌, Option, none, some, List, [], ◌∷◌, arith, ◌==◌,
  if◌then◌else◌, get_elem?, lt-get_elem?, length, set,
}
use cht_bench.Chain.{Slot, Chain, count_slots}
use cht_bench.Chain.Slots.{find, occurs}
use cht_bench.Chain.Laws.{slots}
use cht_bench.Chain.Effects.{Adds, Removes}

abbrev pub row : List Chain → ℕ → List Slot
row [] i = []
row (c ∷ t) zero = slots c
row (c ∷ t) (suc i) = row t i

-- The entries in all the chains.
unfoldable pub total : List Chain → ℕ
total [] = 0
total (c ∷ t) = count_slots (slots c) + total t

pub row-get_elem? :
    (t : List Chain) (i : ℕ) (c : Chain) → get_elem? t i ≡ some c → row t i ≡ slots c
row-get_elem? [] i c h = absurd (cc)
row-get_elem? (d ∷ t) zero c h = ground arith
row-get_elem? (d ∷ t) (suc i) c h = row-get_elem? t i c h

pub row-set :
    (t : List Chain) (i j : ℕ) (c : Chain)
    → i < length t
    → row (set t i c) j ≡ (if i == j then slots c else row t j)
row-set [] i j c h = absurd (omega arith)
row-set (d ∷ t) zero zero c h = ground arith
row-set (d ∷ t) zero (suc j) c h = ground arith
row-set (d ∷ t) (suc i) zero c h = ground arith
row-set (d ∷ t) (suc i) (suc j) c h = ground (arith, row-set t i j c)

pub total-set :
    (t : List Chain) (i : ℕ) (c c' : Chain)
    → get_elem? t i ≡ some c
    → total (set t i c') + count_slots (slots c) ≡ total t + count_slots (slots c')
unfolding total
total-set [] i c c' h = absurd (cc)
total-set (d ∷ t) zero c c' h = ground arith
total-set (d ∷ t) (suc i) c c' h = omega (arith, total-set t i c c' h)

module _ (home : ℕ → ℕ) where
  -- A key stands at most once, and only in its bin.
  pub record IsPlaced (t : List Chain) : Type 0 where
    pub once : (q i : ℕ) → q ≢ 0 → occurs q (row t i) ≤ 1
    pub apart : (q i : ℕ) → q ≢ 0 → home q ≢ i → occurs q (row t i) ≡ 0

  -- The map that the array stands for.
  unfoldable pub view : List Chain → ℕ → Option ℕ
  view t q = find q (row t (home q))

  -- The array stands for the map with `k` bound to `v`, and counts one entry more.
  pub record Inserts (k v : ℕ) (t t' : List Chain) : Type 0 where
    pub placed : IsPlaced t'
    pub reads : (q : ℕ) → q ≢ 0 → view t' q ≡ (if k == q then some v else view t q)
    pub size : total t' ≡ suc (total t)

  pub record Deletes (k : ℕ) (t t' : List Chain) : Type 0 where
    pub placed : IsPlaced t'
    pub reads : (q : ℕ) → q ≢ 0 → view t' q ≡ (if k == q then none else view t q)
    pub size : suc (total t') ≡ total t

  module _ (t : List Chain) (placed : IsPlaced t) (k : ℕ) (c c' : Chain) (used : k ≢ 0)
      (at_home : get_elem? t (home k) ≡ some c) where
    here : row t (home k) ≡ slots c
    here = row-get_elem? t (home k) c at_home

    inside : home k < length t
    inside = lt-get_elem? t (home k) c at_home

    pub set-Inserts :
        (v : ℕ)
        → occurs k (slots c) ≡ 0
        → Adds k v (slots c) (slots c')
        → Inserts k v t (set t (home k) c')
    unfolding view
    set-Inserts v absent a = record {
      placed = record {
        once = λ q i real.
            ground
              (arith, row-set t (home k) i c' inside, a.counts q real, placed.once q i real, here);
        apart = λ q i real away. ground (
          arith,
          row-set t (home k) i c' inside,
          a.counts q real,
          placed.apart q i real away,
          here,
        );
      };
      reads = λ q real. ground (arith, row-set t (home k) (home q) c' inside, a.reads q real, here);
      size = omega (arith, total-set t (home k) c c' at_home, a.size);
    }

    pub set-Deletes : Removes k (slots c) (slots c') → Deletes k t (set t (home k) c')
    unfolding view
    set-Deletes a = record {
      placed = record {
        once = λ q i real.
            ground
              (arith, row-set t (home k) i c' inside, a.counts q real, placed.once q i real, here);
        apart = λ q i real away. ground (
          arith,
          row-set t (home k) i c' inside,
          a.counts q real,
          placed.apart q i real away,
          here,
        );
      };
      reads = λ q real. ground (arith, row-set t (home k) (home q) c' inside, a.reads q real, here);
      size = omega (arith, total-set t (home k) c c' at_home, a.size);
    }

-- ===== src/Tests/Packing.antt =====
-- A packed table of one full bucket.
use mathlib.Core.List.{map}
use cht_bench.Prelude.{
  ℕ, zero, suc, ◌+◌, ◌*◌, ◌≤◌, ◌≡◌, refl, ◌≢◌, true, none, some, [], ◌∷◌, arith, bit_and-le,
  get_elem?, or_zero,
}
use cht_bench.Prelude.Run.{ok, Returns}
use cht_bench.Hash.{hash_bin}
use cht_bench.Chain.Slots.{occurs}
use cht_bench.Table.Rows.{row}
use cht_bench.KeyMap.{run, spec_run}
use cht_bench.Packed.{Hashtable, Chain, only, first, create, get, put, remove}
use cht_bench.Packed.Laws.Rows.{upto, IsPacked}
use cht_bench.Packed.Laws.Table.{get-map_of_packed, put-Puts_packed, remove-Takes_packed}
use cht_bench.Packed.Laws.Valid.{IsValid, as_chain, home, map_of, Puts, Takes}
use cht_bench.Packed.Laws.Session.{packing, create-run_packed}
use cht_bench.Tests.Resizing.{calls}

abbrev full_chain : Chain
full_chain =
    only (record { lock = 0; last = 3; entries = λ j. record { key = j + 1; val = 10 * (j + 1) } })

abbrev packed : Hashtable
packed = record { num_buckets = 1; table = full_chain ∷ [] }

packed_once : (q i : ℕ) → occurs q (row (map as_chain packed.table) i) ≤ 1
unfolding occurs upto
packed_once q zero = ground arith
packed_once q (suc i) = omega arith

packed_apart : (q i : ℕ) → home packed q ≢ i → occurs q (row (map as_chain packed.table) i) ≡ 0
unfolding hash_bin
packed_apart q zero away = absurd (away (omega (arith, bit_and-le q 0)))
packed_apart q (suc i) away = unfold occurs in refl

packed_ready :
    (i : ℕ) (c : Chain) → get_elem? packed.table i ≡ some c → IsPacked c × ((first c).lock ≡ 0)
packed_ready zero c e = let same : full_chain ≡ c = ground arith in rw (← same) (omega arith, refl)
packed_ready (suc i) c e = absurd (cc)

packed-IsValid : IsValid packed
packed-IsValid = record {
  filled = omega arith;
  fits = omega arith;
  width = refl;
  placed = record {
    once = λ q i real. packed_once q i;
    apart = λ q i real away. packed_apart q i away;
  };
  packed = λ i c e. (packed_ready i c e).0;
  unlocked = λ i c e. (packed_ready i c e).1;
}

put-Puts_packed_example : Returns (put (some (λ j. 7)) packed 4 40) (Puts packed 4 40)
put-Puts_packed_example = put-Puts_packed packed packed-IsValid 4 (λ j. 7) 40 (omega arith)

-- The removal of the first entry moves the last one.
remove-Takes_packed_example : Returns (remove packed 1) (Takes packed 1)
remove-Takes_packed_example = remove-Takes_packed packed packed-IsValid 1 (omega arith)

get-map_of_packed_example : get packed 3 ≡ ok (or_zero (map_of packed 3))
get-map_of_packed_example = get-map_of_packed packed packed-IsValid 3 (omega arith)

create-run_packed_example :
    (h : Hashtable) × (create true 1 ≡ some h)
    × (run (packing (λ call j. 7)) 0 calls h ≡ ok (spec_run calls (λ q. none)))
create-run_packed_example =
    create-run_packed (λ call j. 7) 1 calls (omega arith) (omega arith) (omega arith)

-- ===== src/LfRes/Laws/Entry.antt =====
-- One bucket under `clht_put`, `clht_put_seq` and `clht_remove`, for a thread that runs alone.
use cht_bench.Prelude.{
  ℕ, suc, ◌+◌, ◌<◌, ◌≡◌, refl, ◌∙◌, ap, ◌≢◌, true, false, none, some, arith, inl, inr, ◌==◌,
  or_zero, Option-cases, ne→==,
}
use cht_bench.Prelude.Run.{ok}
use cht_bench.Chain.Slots.{find, occurs, occurs-eq-zero, find-eq-none}
use cht_bench.Chain.Effects.{Adds, set-Adds}
use cht_bench.Lf.{Bucket, key_buckt, map_insrt, snap_set_map, same_snapshot, snap_get_empty_index}
use cht_bench.Lf.Laws.Snapshots.{snap_get_empty_index-lt}
use cht_bench.Lf.Laws.Alone.{with_entry}
use cht_bench.LfRes.{bucket_search, attempt, answered, reserve, commit, retry}
use cht_bench.LfRes.Laws.Rows.{
  slot_at, slots_of, IsSound, Overwrites, slots_from-set, slots_from-IsEmptyAt, search_from-find,
  find-real, hidden,
}

pub same_snapshot_refl : (b : Bucket) → same_snapshot b.snapshot b.snapshot ≡ true
unfolding same_snapshot
same_snapshot_refl b = ground arith

-- The slot `i` gets the entry and becomes valid.
with_entry-Overwrites :
    (b : Bucket) (i k v : ℕ) → Overwrites i (record { key = k; val = v }) b (with_entry b i k v)
with_entry-Overwrites b i k v = record { at = ground arith; others = λ x away. ground arith }

module _ (k v : ℕ) (used : k ≢ 0) (b b' : Bucket) (absent : occurs k (slots_of b) ≡ 0) (i : ℕ)
    (inside : i < key_buckt) (empty : (slot_at b i).key ≡ 0)
    (w : Overwrites i (record { key = k; val = v }) b b') where
  pub Overwrites-Adds : Adds k v (slots_of b) (slots_of b')
  unfolding slots_of
  Overwrites-Adds =
      let at_i : i ≡ 0 + i = omega arith in
      rw (slots_from-set key_buckt 0 i i (record { key = k; val = v }) b b' inside at_i w) (
        set-Adds k v used (slots_of b) absent i
          (slots_from-IsEmptyAt key_buckt 0 i i b inside at_i empty))

-- A valid entry with a value other than 0 stands in the slot.
pub with_entry-IsSound :
    (b : Bucket) (i k v : ℕ) → k ≢ 0 → v ≢ 0 → IsSound b → IsSound (with_entry b i k v)
with_entry-IsSound b i k v used real sound = record {
  named = λ j valid. ground (arith, sound.named j);
  real = λ j valid. ground (arith, sound.real j);
  settled = λ j free. ground (arith, sound.settled j);
}

-- What the passes of a put over one bucket come to.
pub data PutCase (k v : ℕ) (b : Bucket) : Type 0 where
  taken : (w : ℕ) → find k (slots_of b) ≡ some w → PutCase k v b
  placed :
      (i : ℕ) → occurs k (slots_of b) ≡ 0 → snap_get_empty_index b.snapshot ≡ some i → PutCase k v b
  without : occurs k (slots_of b) ≡ 0 → snap_get_empty_index b.snapshot ≡ none → PutCase k v b

pub put_case : (k v : ℕ) (b : Bucket) → PutCase k v b
put_case k v b = elim (Option-cases (find k (slots_of b))) [
  | inr (w, e) ↦ taken w e
  | inl e ↦
      let absent = occurs-eq-zero k (slots_of b) e in
      elim (Option-cases (snap_get_empty_index b.snapshot)) [
        | inl n ↦ without absent n
        | inr (i, s) ↦ placed i absent s
      ]
]

module _ (k v : ℕ) (used : k ≢ 0) (fuel : ℕ) (b : Bucket) (sound : IsSound b) where
  search-slots : bucket_search b k ≡ or_zero (find k (slots_of b))
  unfolding bucket_search slots_of
  search-slots = search_from-find k key_buckt 0 b used

  pub retry_taken :
      (w : ℕ) → find k (slots_of b) ≡ some w → retry (suc fuel) k v none b ≡ ok (some false, b)
  unfolding retry attempt slots_of
  retry_taken w e =
      let there : bucket_search b k ≡ w = rw (search-slots, e) refl in
      let other : (w == 0) ≡ false = ne→== w 0 (find-real k key_buckt 0 w b used sound e) in
      rw (there, other, attempt, retry) refl

  missing : occurs k (slots_of b) ≡ 0 → bucket_search b k ≡ 0
  missing absent = search-slots ∙ ap or_zero (find-eq-none k (slots_of b) absent)

  reserved : (i : ℕ) → reserve k v b.snapshot i b ≡ answered true (with_entry b i k v)
  unfolding reserve commit
  reserved i =
      rw
        (
          same_snapshot_refl b,
          same_snapshot_refl (record b { snapshot = snap_set_map b.snapshot i map_insrt }),
        )
        refl

  pub retry_placed :
      (i : ℕ)
      → occurs k (slots_of b) ≡ 0
      → snap_get_empty_index b.snapshot ≡ some i
      → retry (suc fuel) k v none b ≡ ok (some true, with_entry b i k v)
  unfolding retry attempt
  retry_placed i absent e = rw (missing absent, e, reserved i, attempt, retry) refl

  pub retry_without :
      occurs k (slots_of b) ≡ 0
      → snap_get_empty_index b.snapshot ≡ none
      → retry (suc fuel) k v none b ≡ ok (none, b)
  unfolding retry attempt
  retry_without absent e = rw (missing absent, e, attempt, retry) refl

-- The slot that a put takes is empty in the row.
pub empty_index-empty :
    (b : Bucket) (i : ℕ)
    → snap_get_empty_index b.snapshot ≡ some i
    → (i < key_buckt) × ((slot_at b i).key ≡ 0)
empty_index-empty b i e =
    let (inside, free) = snap_get_empty_index-lt b.snapshot i e in (inside, rw free refl)

pub with_entry-Adds :
    (k v : ℕ) (b : Bucket) (i : ℕ)
    → k ≢ 0
    → occurs k (slots_of b) ≡ 0
    → snap_get_empty_index b.snapshot ≡ some i
    → Adds k v (slots_of b) (slots_of (with_entry b i k v))
with_entry-Adds k v b i used absent e =
    let (inside, free) = empty_index-empty b i e in
    Overwrites-Adds k v used b (with_entry b i k v) absent i inside free
      (with_entry-Overwrites b i k v)

pub hidden-IsSound : (b : Bucket) (i : ℕ) → IsSound b → IsSound (hidden b i)
hidden-IsSound b i sound = record {
  named = λ j valid. ground (arith, sound.named j);
  real = λ j valid. ground (arith, sound.real j);
  settled = λ j free. ground (arith, sound.settled j);
}

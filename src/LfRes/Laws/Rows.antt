-- ===== src/LfRes/Laws/Rows.antt =====
-- A bucket as a row of slots, in which a slot that is not valid is empty; and what the loops over
-- one bucket do to the row.
use cht_bench.Prelude.{
  ℕ, zero, suc, ◌+◌, ◌≤◌, ◌<◌, ◌≡◌, refl, ap, ◌≢◌, ◌&&◌, none, some, List, [], ◌∷◌, arith, inl, inr,
  ◌==◌, if◌then◌else◌, or_zero, Bool-cases, set, length,
}
use cht_bench.Chain.{Slot, Chain, only, count_slots}
use cht_bench.Chain.Slots.{find, IsEmptyAt}
use cht_bench.Chain.Writes.{cleared}
use cht_bench.Lf.{Bucket, key_buckt, map_valid, map_invld, snap_set_map}
use cht_bench.LfRes.{search_from, remove_from}
use cht_bench.LfRes.Seq.{size_from}

abbrev pub slot_at : Bucket → ℕ → Slot
slot_at b i = record { key = if b.snapshot.map i == map_valid then b.key i else 0; val = b.val i }

unfoldable pub slots_from : ℕ → ℕ → Bucket → List Slot
slots_from zero i b = []
slots_from (suc left) i b = slot_at b i ∷ slots_from left (suc i) b

unfoldable pub slots_of : Bucket → List Slot
unfolding slots_from
slots_of b = slots_from key_buckt 0 b

-- The same row as a chain of one bucket.
abbrev pub chain_of : Bucket → Chain
chain_of b = only (record { lock = 0; entries = slots_of b })

-- Valid slots have a key and a value other than 0, and no slot is reserved.
pub record IsSound (b : Bucket) : Type 0 where
  pub named : (j : ℕ) → b.snapshot.map j ≡ map_valid → b.key j ≢ 0
  pub real : (j : ℕ) → b.snapshot.map j ≡ map_valid → b.val j ≢ 0
  pub settled : (j : ℕ) → b.snapshot.map j ≢ map_valid → b.snapshot.map j ≡ map_invld

-- The bucket `b'` is `b` with another slot `s` at `j`.
pub record Overwrites (j : ℕ) (s : Slot) (b b' : Bucket) : Type 0 where
  pub at : slot_at b' j ≡ s
  pub others : (x : ℕ) → x ≢ j → slot_at b' x ≡ slot_at b x

pub slots_from-agree :
    (left i : ℕ) (b b' : Bucket)
    → ((x : ℕ) → i ≤ x → slot_at b' x ≡ slot_at b x)
    → slots_from left i b' ≡ slots_from left i b
unfolding slots_from
slots_from-agree zero i b b' h = refl
slots_from-agree (suc left) i b b' h =
    rw (h i (omega arith), slots_from-agree left (suc i) b b' (λ x le. h x (omega arith))) refl

pub slots_from-set :
    (left i d j : ℕ) (s : Slot) (b b' : Bucket)
    → d < left
    → j ≡ i + d
    → Overwrites j s b b'
    → slots_from left i b' ≡ set (slots_from left i b) d s
unfolding slots_from
slots_from-set zero i d j s b b' inside e w = absurd (omega arith)
slots_from-set (suc left) i zero j s b b' inside e w =
    let here : i ≡ j = omega arith in
    let tail = slots_from-agree left (suc i) b b' (λ x le. w.others x (omega arith)) in
    rw (here, w.at, ← here, tail) refl
slots_from-set (suc left) i (suc d) j s b b' inside e w =
    rw
      (
        w.others i (omega arith),
        slots_from-set left (suc i) d j s b b' (omega arith) (omega arith) w,
      )
      refl

pub slots_from-IsEmptyAt :
    (left i d j : ℕ) (b : Bucket)
    → d < left
    → j ≡ i + d
    → (slot_at b j).key ≡ 0
    → IsEmptyAt (slots_from left i b) d
unfolding slots_from
slots_from-IsEmptyAt zero i d j b inside e empty = absurd (omega arith)
slots_from-IsEmptyAt (suc left) i zero j b inside e empty =
    let here : i ≡ j = omega arith in rw here empty
slots_from-IsEmptyAt (suc left) i (suc d) j b inside e empty =
    slots_from-IsEmptyAt left (suc i) d j b (omega arith) (omega arith) empty

pub length-slots_from : (left i : ℕ) (b : Bucket) → length (slots_from left i b) ≡ left
unfolding slots_from
length-slots_from zero i b = refl
length-slots_from (suc left) i b = ap suc (length-slots_from left (suc i) b)

-- `clht_bucket_search` finds what the row has.
pub search_from-find :
    (k left i : ℕ) (b : Bucket)
    → k ≢ 0
    → search_from k left i b ≡ or_zero (find k (slots_from left i b))
unfolding search_from find slots_from
search_from-find k zero i b used = refl
search_from-find k (suc left) i b used = ground (arith, search_from-find k left (suc i) b used)

pub find-real :
    (k left i w : ℕ) (b : Bucket)
    → k ≢ 0
    → IsSound b
    → find k (slots_from left i b) ≡ some w
    → w ≢ 0
unfolding find slots_from
find-real k zero i w b used sound h = absurd (cc)
find-real k (suc left) i w b used sound h =
    ground (arith, find-real k left (suc i) w b used sound, sound.real i)

pub size_from-count :
    (left i : ℕ) (b : Bucket) → size_from left i b ≡ count_slots (slots_from left i b)
unfolding size_from count_slots slots_from
size_from-count zero i b = refl
size_from-count (suc left) i b = ground (arith, size_from-count left (suc i) b)

-- The bucket with the slot `j` not valid.
abbrev pub hidden : Bucket → ℕ → Bucket
hidden b j = record b { snapshot = snap_set_map b.snapshot j map_invld }

remove_from-ge : (k left i j : ℕ) (b : Bucket) → remove_from k b.snapshot left i b ≡ some j → i ≤ j
unfolding remove_from
remove_from-ge k zero i j b h = absurd (cc)
remove_from-ge k (suc left) i j b h = ground (arith, remove_from-ge k left (suc i) j b)

hidden-agree : (b : Bucket) (j x : ℕ) → x ≢ j → slot_at (hidden b j) x ≡ slot_at b x
hidden-agree b j x away = ground arith

-- What `clht_remove` hides is the first slot of the row with the key.
pub remove_from-cleared :
    (k left i j : ℕ) (b : Bucket)
    → k ≢ 0
    → remove_from k b.snapshot left i b ≡ some j
    → (slots_from left i (hidden b j) ≡ cleared k (slots_from left i b))
      × (find k (slots_from left i b) ≡ some (b.val j))
unfolding remove_from cleared find slots_from
remove_from-cleared k zero i j b used h = absurd (cc)
remove_from-cleared k (suc left) i j b used h =
    elim (Bool-cases (b.key i == k && b.snapshot.map i == map_valid)) [
      | inl hit ↦
          let here : i ≡ j = ground arith in
          let tail =
            slots_from-agree left (suc i) b (hidden b j)
              (λ x le. hidden-agree b j x (omega arith)) in
          (ground (arith, tail), ground arith)
      | inr other ↦
          let rest : remove_from k b.snapshot left (suc i) b ≡ some j = ground arith in
          let after = remove_from-ge k left (suc i) j b rest in
          let head = hidden-agree b j i (omega arith) in
          let (clear, found) = remove_from-cleared k left (suc i) j b used rest in
          (ground (arith, clear, head), ground (arith, found))
    ]

pub remove_from-none :
    (k left i : ℕ) (b : Bucket)
    → k ≢ 0
    → remove_from k b.snapshot left i b ≡ none
    → find k (slots_from left i b) ≡ none
unfolding remove_from find slots_from
remove_from-none k zero i b used h = refl
remove_from-none k (suc left) i b used h = ground (arith, remove_from-none k left (suc i) b used)

-- ===== src/LfRes/Laws/Put.antt =====
-- `clht_put` of clht_lf_res.c: with a slot at once, after the table has doubled often enough, and
-- never where the full bucket stands in a table that is nearly empty.
use cht_bench.Prelude.{
  ℕ, zero, suc, ◌+◌, ◌≤◌, ◌<◌, ◌≡◌, refl, ◌∙◌, ap, ◌≢◌, Bool, true, false, none, some, List, [],
  ◌∷◌, arith, leb, get_elem?, set_same, dec_lt,
}
use cht_bench.Prelude.Run.{Run, ok, ◌>>=◌}
use cht_bench.Hash.{hash_bin}
use cht_bench.Chain.{Slot, Chain, count_slots}
use cht_bench.Chain.Slots.{find, occurs}
use cht_bench.Chain.Laws.{slots}
use cht_bench.Table.Rows.{row}
use cht_bench.Table.Flat.{flat}
use cht_bench.Lf.{Bucket, key_buckt, empty_from, snap_get_empty_index}
use cht_bench.Lf.Laws.Alone.{with_entry}
use cht_bench.LfRes.{Clht, Memory, clht_lock_free, check_resize, hash, with_bucket, no_update}
use cht_bench.LfRes.Resize.{put_all, ht_status, no_empty_slot_tries}
use cht_bench.LfRes.Laws.Rows.{slots_from, slots_of, IsSound}
use cht_bench.LfRes.Laws.Entry.{retry_taken, retry_placed, retry_without}
use cht_bench.LfRes.Laws.Valid.{IsValid, bucket_at-home}
use cht_bench.LfRes.Laws.Fill.{load, load-append}

-- A bucket without a free slot has three entries.
empty_from-count :
    (left i : ℕ) (b : Bucket)
    → IsSound b
    → empty_from left i b.snapshot.map ≡ none
    → count_slots (slots_from left i b) ≡ left
unfolding empty_from slots_from count_slots
empty_from-count zero i b sound h = refl
empty_from-count (suc left) i b sound h =
    ground (arith, empty_from-count left (suc i) b sound, sound.named i, sound.settled i)

pub full-count :
    (b : Bucket)
    → IsSound b
    → snap_get_empty_index b.snapshot ≡ none
    → count_slots (slots_of b) ≡ key_buckt
unfolding snap_get_empty_index slots_of
full-count b sound h = empty_from-count key_buckt 0 b sound h

-- A row whose keys all belong to the bin.
pub load_all :
    (home : ℕ → ℕ) (bin : ℕ) (l : List Slot)
    → ((q : ℕ) → q ≢ 0 → 0 < occurs q l → home q ≡ bin)
    → load home bin l ≡ count_slots l
unfolding load occurs count_slots
load_all home bin [] h = refl
load_all home bin (s ∷ r) h =
    let rest = load_all home bin r (λ q real here. h q real (omega arith)) in
    elim (dec_lt 0 s.key) [
      | no empty ↦ ground arith
      | yes used ↦ let same = h s.key (λ e. omega arith) (ground arith) in ground arith
    ]

pub load-row-le :
    (home : ℕ → ℕ) (bin i : ℕ) (t : List Chain) → load home bin (row t i) ≤ load home bin (flat t)
unfolding load
load-row-le home bin i [] = omega arith
load-row-le home bin zero (c ∷ t) = omega (arith, load-append home bin (slots c) (flat t))
load-row-le home bin (suc i) (c ∷ t) =
    omega (arith, load-append home bin (slots c) (flat t), load-row-le home bin i t)

module _ (h : Clht) (valid : IsValid h.ht) (free : h.resize_lock ≡ clht_lock_free) (mem : Memory)
    (key v : ℕ) (used : key ≢ 0) (b : Bucket)
    (e : get_elem? h.ht.table (hash_bin h.ht.hash key) ≡ some b) where
  abbrev home_bin : ℕ
  home_bin = hash_bin h.ht.hash key

  sound : IsSound b
  sound = valid.sound home_bin b e

  goes_on : check_resize h ≡ ok h
  unfolding check_resize
  goes_on = rw free refl

  pub put_taken :
      (fuel tries w : ℕ)
      → find key (slots_of b) ≡ some w
      → put_all (suc fuel) mem tries h key v ≡ ok (false, no_update h)
  unfolding put_all hash
  put_taken fuel tries w there =
      rw
        (
          goes_on,
          bucket_at-home h.ht valid key b e,
          ◌>>=◌,
          retry_taken key v used fuel b sound w there,
          set_same h.ht.table home_bin b e,
        )
        refl

  pub put_placed :
      (fuel tries i : ℕ)
      → occurs key (slots_of b) ≡ 0
      → snap_get_empty_index b.snapshot ≡ some i
      → put_all (suc fuel) mem tries h key v
        ≡ ok (true, no_update (record h { ht = with_bucket h.ht home_bin (with_entry b i key v) }))
  unfolding put_all hash
  put_placed fuel tries i absent some_slot =
      rw
        (
          goes_on,
          bucket_at-home h.ht valid key b e,
          ◌>>=◌,
          retry_placed key v used fuel b sound i absent some_slot,
        )
        refl

  module _ (absent : occurs key (slots_of b) ≡ 0)
      (none_left : snap_get_empty_index b.snapshot ≡ none) where
    unchanged : (record h { ht = with_bucket h.ht home_bin b }) ≡ h
    unchanged =
        ap (λ t. record h { ht = record h.ht { table = t } }) (set_same h.ht.table home_bin b e)

    -- The end of a pass without a slot.
    abbrev pub go_on : ℕ → ℕ → Clht → Run (Bool × Clht)
    go_on fuel tries y = elim (leb no_empty_slot_tries tries) [
      | true ↦ ht_status mem y false true false >>= λ (_, h'). put_all fuel mem 0 h' key v
      | false ↦ put_all fuel mem (suc tries) y key v
    ]

    pub put_without : (fuel tries : ℕ) → put_all (suc fuel) mem tries h key v ≡ go_on fuel tries h
    unfolding put_all hash
    put_without fuel tries =
        rw
          (
            goes_on,
            bucket_at-home h.ht valid key b e,
            ◌>>=◌,
            retry_without key v used fuel b sound absent none_left,
          )
          (ap (go_on fuel tries) unchanged)

    -- Sixteen more passes, and then `ht_status`.
    pub put_tries :
        (left fuel tries : ℕ)
        → tries + left ≡ no_empty_slot_tries
        → put_all (left + suc fuel) mem tries h key v
          ≡ ht_status mem h false true false >>= λ (_, h'). put_all fuel mem 0 h' key v
    put_tries zero fuel tries whole =
        let z : 0 + suc fuel ≡ suc fuel = omega arith in
        let last : tries ≡ no_empty_slot_tries = omega arith in
        rw (z, last) (put_without fuel no_empty_slot_tries)
    put_tries (suc left) fuel tries whole =
        let z : suc left + suc fuel ≡ suc (left + suc fuel) = omega arith in
        let more : leb no_empty_slot_tries tries ≡ false = ground arith in
        rw z (
          put_without (left + suc fuel) tries
          ∙ rw (more, go_on) (put_tries left fuel (suc tries) (omega arith)))

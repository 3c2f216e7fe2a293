-- ===== src/LfRes/Laws/Calls.antt =====
-- `clht_get` and `clht_remove` on a well-formed table.
use cht_bench.Prelude.{
  ℕ, suc, ◌≡◌, refl, ◌∙◌, ◌≢◌, none, some, arith, inl, inr, or_zero, ◌==◌, if◌then◌else◌, get_elem?,
  set_same, Option-cases,
}
use cht_bench.Prelude.Run.{ok, ◌>>=◌, Returns}
use cht_bench.Hash.{hash_bin}
use cht_bench.Chain.Slots.{find, occurs, find-eq-none, find-occurs, occurs-eq-zero}
use cht_bench.Chain.Writes.{cleared}
use cht_bench.Chain.Effects.{cleared-Removes}
use cht_bench.Lf.{Bucket, key_buckt}
use cht_bench.LfRes.{
  Clht, clht_lock_free, hash, with_bucket, bucket_search, get, no_update, use_version, check_resize,
  remove, remove_from, remove_retry,
}
use cht_bench.LfRes.Laws.Rows.{
  slots_of, search_from-find, hidden, remove_from-cleared, remove_from-none,
}
use cht_bench.LfRes.Laws.Entry.{hidden-IsSound, same_snapshot_refl}
use cht_bench.LfRes.Laws.Valid.{
  IsValid, map_of, locate, bucket_at-home, map_of-find, stored-Unbinds, row_once,
}

-- clht_get of the lock-free table with resizing, for a key other than 0 on a well-formed table,
-- returns the value that the table's map has for the key, or 0 where it has none, and publishes
-- the version of the table.
pub get-map_of_lf_res :
    (h : Clht) (k : ℕ)
    → IsValid h.ht
    → k ≢ 0
    → get h k ≡ ok (or_zero (map_of h.ht k), use_version h.ht.version h)
unfolding get bucket_search
get-map_of_lf_res h k valid used =
    let (b, e) = locate h.ht valid k in
    let found = search_from-find k key_buckt 0 b used in
    rw (bucket_at-home h.ht valid k b e, ◌>>=◌, found, map_of-find h.ht valid k b e)
      (unfold slots_of in refl)

module _ (h : Clht) (valid : IsValid h.ht) (free : h.resize_lock ≡ clht_lock_free) (fuel k : ℕ)
    (used : k ≢ 0) (b : Bucket) (e : get_elem? h.ht.table (hash_bin h.ht.hash k) ≡ some b) where
  -- A removal stores what the loop over the bucket leaves.
  remove-retry :
      (val : ℕ) (b' : Bucket)
      → remove_retry (suc fuel) k b ≡ ok (val, b')
      → remove (suc fuel) h k
        ≡ ok (val, no_update (record h { ht = with_bucket h.ht (hash_bin h.ht.hash k) b' }))
  unfolding remove check_resize hash
  remove-retry val b' run = rw (free, bucket_at-home h.ht valid k b e, ◌>>=◌, run) refl

  remove_retry_absent : occurs k (slots_of b) ≡ 0 → remove_retry (suc fuel) k b ≡ ok (0, b)
  unfolding remove_retry slots_of
  remove_retry_absent absent = elim (Option-cases (remove_from k b.snapshot key_buckt 0 b)) [
    | inl n ↦ rw (n, remove_retry) refl
    | inr (j, hit) ↦
        let (clear, found) = remove_from-cleared k key_buckt 0 j b used hit in
        let missed = find-eq-none k (slots_of b) absent in absurd (cc)
  ]

  remove_retry_present :
      (w : ℕ)
      → find k (slots_of b) ≡ some w
      → (j : ℕ) × (remove_retry (suc fuel) k b ≡ ok (w, hidden b j))
        × (slots_of (hidden b j) ≡ cleared k (slots_of b))
  unfolding remove_retry slots_of
  remove_retry_present w there = elim (Option-cases (remove_from k b.snapshot key_buckt 0 b)) [
    | inl n ↦ let missed = remove_from-none k key_buckt 0 b used n in absurd (cc)
    | inr (j, hit) ↦
        let (clear, found) = remove_from-cleared k key_buckt 0 j b used hit in
        let val : b.val j ≡ w = cc in
        (j, rw (hit, same_snapshot_refl b, val, remove_retry) refl, clear)
  ]

-- clht_remove of the lock-free table with resizing, for a key other than 0 on a well-formed table
-- that is not being resized, returns within one pass the value that the table's map has for the
-- key, or 0 where it has none; the table is well-formed afterwards, and its map is the old one
-- without the key.
pub remove-Takes_lf_res :
    (h : Clht) (fuel k : ℕ)
    → IsValid h.ht
    → h.resize_lock ≡ clht_lock_free
    → k ≢ 0
    → Returns (remove (suc fuel) h k) (λ r.
      (r.0 ≡ or_zero (map_of h.ht k))
      × IsValid r.1.ht
      × ((q : ℕ) → q ≢ 0 → map_of r.1.ht q ≡ (if k == q then none else map_of h.ht q)))
remove-Takes_lf_res h fuel k valid free used =
    let (b, e) = locate h.ht valid k in
    let at_home = map_of-find h.ht valid k b e in
    elim (Option-cases (find k (slots_of b))) [
      | inl n ↦
          let absent = occurs-eq-zero k (slots_of b) n in
          (
            (0, no_update h),
            remove-retry h valid free fuel k used b e 0 b
                  (remove_retry_absent h valid free fuel k used b e absent)
                ∙ rw (set_same h.ht.table (hash_bin h.ht.hash k) b e) refl,
            (rw (at_home, n) refl, valid, λ q real. ground arith),
          )
      | inr (w, there) ↦
          let (j, run, clear) = remove_retry_present h valid free fuel k used b e w there in
          let here = find-occurs k w (slots_of b) there in
          let once = row_once h.ht valid k b e used in
          let r =
            stored-Unbinds h.ht valid k b e (hidden b j) used
              (hidden-IsSound b j (valid.sound _ b e))
              (rw clear (cleared-Removes k (slots_of b) used here once)) in
          (
            (w, no_update (record h { ht = with_bucket h.ht (hash_bin h.ht.hash k) (hidden b j) })),
            remove-retry h valid free fuel k used b e w (hidden b j) run,
            (rw (at_home, there) refl, r.valid, r.reads),
          )
    ]

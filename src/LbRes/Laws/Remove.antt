-- ===== src/LbRes/Laws/Remove.antt =====
-- `clht_remove`: the result, the map afterwards, and the entries.
use cht_bench.Prelude.{
  ℕ, ◌+◌, ◌≤◌, ◌≡◌, refl, ◌≢◌, true, Option, none, some, arith, ◌==◌, ltb, if◌then◌else◌, is_none,
  or_zero, not, dec_lt,
}
use cht_bench.Prelude.Run.{Returns}
use cht_bench.Hash.{hash_bin}
use cht_bench.Chain.{with_lock}
use cht_bench.Chain.Slots.{find, occurs, one_if, find-eq-none, find-eq-some}
use cht_bench.Chain.Effects.{Removes, cleared-Removes}
use cht_bench.Chain.Laws.{slots, bucket_exists-occurs, remove_loop_present, slots-with_lock}
use cht_bench.Table.Rows.{total, row-get_elem?, set-Deletes}
use cht_bench.LbRes.{Hashtable, lock_free, lock_update, hash}
use cht_bench.LbRes.Ops.{remove, remove_locked, release}
use cht_bench.LbRes.Laws.Valid.{
  IsValid, map_of, home-lt, locate, bucket_at-home, map_of-find, acquire-free, release-IsValid,
}

-- What a removal of `k` has to do: it answers the value of `k`, or 0 where `k` is absent, unbinds
-- `k`, and counts one entry less where it was bound. The number of buckets stays.
pub record Takes (h : Hashtable) (k : ℕ) (r : ℕ × Hashtable) : Type 0 where
  pub valid : IsValid r.1
  pub answers : r.0 ≡ or_zero (map_of h k)
  pub reads : (q : ℕ) → q ≢ 0 → map_of r.1 q ≡ (if k == q then none else map_of h q)
  pub size : total r.1.table + one_if (not (is_none (map_of h k))) ≡ total h.table
  pub same_size : r.1.num_buckets ≡ h.num_buckets

unbind : (k q : ℕ) (f : ℕ → Option ℕ) → f k ≡ none → f q ≡ (if k == q then none else f q)
unbind k q f h = ground arith

-- clht_remove of a key other than 0 on a well-formed table returns, keeps the table well-formed,
-- answers the value of the key or 0 where it is absent, unbinds the key and leaves every other key
-- alone, counts one entry less where the key was bound, and keeps the number of buckets.
pub remove-Takes : (h : Hashtable) (k : ℕ) → IsValid h → k ≢ 0 → Returns (remove h k) (Takes h k)
unfolding remove remove_locked hash
remove-Takes h k valid used =
    let (c, e) = locate h valid k in
    let row_c = row-get_elem? h.table (hash_bin h.hash k) c e in
    elim (dec_lt 0 (occurs k (slots c))) [
      | no away ↦
          let absent : occurs k (slots c) ≡ 0 = omega arith in
          let unbound : map_of h k ≡ none =
            rw (map_of-find h valid k c e) (find-eq-none k (slots c) absent) in
          (
            (0, h),
            rw (bucket_at-home h valid k c e, bucket_exists-occurs k c) (ground arith),
            record {
              valid = valid;
              answers = ground arith;
              reads = λ q real. unbind k q (map_of h) unbound;
              size = ground arith;
              same_size = refl;
            },
          )
      | yes here ↦
          let there : ltb 0 (occurs k (slots c)) ≡ true = ground arith in
          let (v, found) = find-eq-some k (slots c) here in
          let bound : map_of h k ≡ some v = rw (map_of-find h valid k c e) found in
          let locked = with_lock lock_update c in
          let found_locked : find k (slots locked) ≡ some v =
            rw (slots-with_lock lock_update c) found in
          let (d, took, row_d) = remove_loop_present k v locked found_locked in
          let once : occurs k (slots c) ≤ 1 =
            rw row_c at (valid.placed.once k (hash_bin h.hash k) used) in
          let whole : Removes k (slots c) (slots (with_lock lock_free d)) =
            rw (slots-with_lock lock_free d, row_d, slots-with_lock lock_update c)
              (cleared-Removes k (slots c) used here once) in
          let t =
            set-Deletes (hash_bin h.hash) h.table valid.placed k c (with_lock lock_free d) used e
              whole in
          (
            (v, release h (hash_bin h.hash k) d),
            rw
                (
                  bucket_at-home h valid k c e,
                  bucket_exists-occurs k c,
                  there,
                  acquire-free h valid _ c e,
                )
                (rw (took, remove_locked)),
            record {
              valid =
                  release-IsValid h valid h.num_expands (hash_bin h.hash k) d (home-lt h valid k)
                    t.placed;
              answers = ground arith;
              reads = t.reads;
              size = ground (arith, t.size);
              same_size = refl;
            },
          )
    ]

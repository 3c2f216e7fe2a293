-- ===== src/Packed/Laws/Table.antt =====
-- The table of packed chains, its invariant, the map that it stands for, and the calls on it.
use cht_bench.Prelude.{
  ℕ, ◌≤◌, ◌<◌, ◌≡◌, refl, ◌∙◌, ◌≢◌, true, false, none, some, [], ◌∷◌, ◌++◌, arith, ltb, or_zero,
  get_elem?, get_elem?-lt, get_elem?-set_self, get_elem?-set_ne, get_elem?-map, set-map, length,
  length-set, set, ℕ_discrete, dec_lt,
}
use cht_bench.Prelude.Run.{ok, ◌>>=◌, Returns}
use cht_bench.Hash.Laws.{hash_bin-lt}
use cht_bench.Chain.Slots.{find, occurs, find-eq-none, find-eq-some}
use cht_bench.Chain.Effects.{Adds, Removes, push-Adds}
use cht_bench.Table.Rows.{IsPlaced, view, row-get_elem?, set-Inserts, set-Deletes}
use cht_bench.Packed.{
  Chain, Hashtable, with_lock, hash, bucket_at, lock_acq, release, get, put, remove,
}
use cht_bench.Packed.Laws.Rows.{content, IsPacked, get_loop-find, bucket_exists-occurs}
use cht_bench.Packed.Laws.Swap.{Swaps-Removes, Swaps-find}
use cht_bench.Packed.Laws.Loops.{put_loop-append, remove_loop-Swaps}
use cht_bench.Packed.Laws.Valid.{
  as_chain, chains, home, IsValid, map_of, Puts, Takes, unbind_absent, content-with_lock,
  with_lock-IsPacked, lock-with_lock,
}

module _ (h : Hashtable) (valid : IsValid h) (k : ℕ) where
  inside : home h k < length h.table
  inside = rw valid.width (hash_bin-lt h.num_buckets k valid.filled valid.fits)

  locate : (c : Chain) × (get_elem? h.table (home h k) ≡ some c)
  locate = get_elem?-lt h.table (home h k) inside

  module _ (c : Chain) (at_home : get_elem? h.table (home h k) ≡ some c) where
    bucket_at-home : bucket_at h (hash h k) ≡ ok c
    unfolding bucket_at hash
    bucket_at-home = rw (at_home, bucket_at)

    row_home : get_elem? (chains h) (home h k) ≡ some (as_chain c)
    row_home = get_elem?-map as_chain h.table (home h k) c at_home

    map_of-find : map_of h k ≡ find k (content c)
    unfolding view
    map_of-find = rw (row-get_elem? (chains h) (home h k) (as_chain c) row_home) refl

    once : (q : ℕ) → q ≢ 0 → occurs q (content c) ≤ 1
    once q real =
        rw (row-get_elem? (chains h) (home h k) (as_chain c) row_home) at
          (valid.placed.once q (home h k) real)

    lock_acq-free : lock_acq c ≡ ok (with_lock 0xff c)
    unfolding lock_acq
    lock_acq-free = rw (valid.unlocked (home h k) c at_home) refl

  -- Storing a packed chain keeps the invariant.
  release-IsValid :
      (c : Chain)
      → IsPacked c
      → IsPlaced (home h) (set (chains h) (home h k) (as_chain (with_lock 0 c)))
      → IsValid (release h (home h k) c)
  release-IsValid c packed placed = record {
    filled = valid.filled;
    fits = valid.fits;
    width = length-set h.table (home h k) (with_lock 0 c) ∙ valid.width;
    placed = rw (← set-map as_chain h.table (home h k) (with_lock 0 c)) placed;
    packed = λ i d e. elim (ℕ_discrete (home h k) i) [
      | yes same ↦
          let there = get_elem?-set_self h.table (home h k) (with_lock 0 c) inside in
          let is : with_lock 0 c ≡ d = ground (arith, there) in
          rw (← is) (with_lock-IsPacked 0 c packed)
      | no other ↦
          valid.packed i d
            (ground (arith, get_elem?-set_ne h.table (home h k) i (with_lock 0 c) other))
    ];
    unlocked = λ i d e. elim (ℕ_discrete (home h k) i) [
      | yes same ↦
          let there = get_elem?-set_self h.table (home h k) (with_lock 0 c) inside in
          let is : with_lock 0 c ≡ d = ground (arith, there) in rw (← is) (lock-with_lock 0 c)
      | no other ↦
          valid.unlocked i d
            (ground (arith, get_elem?-set_ne h.table (home h k) i (with_lock 0 c) other))
    ];
  }

  -- clht_get of clht_lb_packed.c, for a key other than 0 on a well-formed table, returns the value
  -- that the table's map has for the key, or 0 where it has none.
  pub get-map_of_packed : k ≢ 0 → get h k ≡ ok (or_zero (map_of h k))
  unfolding get
  get-map_of_packed used =
      let (c, e) = locate in
      rw
        (
          bucket_at-home c e,
          get_loop-find k c (valid.packed (home h k) c e) (once c e k used),
          map_of-find c e,
        )
        refl

  module _ (used : k ≢ 0) (c : Chain) (at_home : get_elem? h.table (home h k) ≡ some c) where
    -- The chain with the entry behind all others.
    stored-Puts :
        (v : ℕ) (d : Chain)
        → occurs k (content c) ≡ 0
        → IsPacked d
        → content d ≡ content c ++ record { key = k; val = v } ∷ []
        → Puts h k v (true, release h (home h k) d)
    stored-Puts v d absent packed row =
        let whole : Adds k v (content c) (content (with_lock 0 d)) =
          rw (content-with_lock 0 d, row) (push-Adds k v used (content c) absent) in
        let t =
          set-Inserts (home h) (chains h) valid.placed k (as_chain c) (as_chain (with_lock 0 d))
            used (row_home c at_home) v absent whole in
        let stored = set-map as_chain h.table (home h k) (with_lock 0 d) in
        let unbound : map_of h k ≡ none =
          rw (map_of-find c at_home) (find-eq-none k (content c) absent) in
        record {
          valid = release-IsValid d packed t.placed;
          answers = rw unbound refl;
          reads = λ q real. rw unbound (rw stored at (t.reads q real));
          size = rw (← stored) (omega (arith, t.size));
        }

    stored-Takes :
        (v : ℕ) (d : Chain)
        → find k (content c) ≡ some v
        → IsPacked d
        → Removes k (content c) (content d)
        → Takes h k (v, release h (home h k) d)
    stored-Takes v d found packed removes =
        let whole : Removes k (content c) (content (with_lock 0 d)) =
          rw (content-with_lock 0 d) removes in
        let t =
          set-Deletes (home h) (chains h) valid.placed k (as_chain c) (as_chain (with_lock 0 d))
            used (row_home c at_home) whole in
        let stored = set-map as_chain h.table (home h k) (with_lock 0 d) in
        let bound : map_of h k ≡ some v = rw (map_of-find c at_home) found in
        record {
          valid = release-IsValid d packed t.placed;
          answers = rw bound refl;
          reads = λ q real. rw stored at (t.reads q real);
          size = rw (← stored, bound) (omega (arith, t.size));
        }

  -- clht_put of clht_lb_packed.c, for a key other than 0 on a well-formed table, with memory
  -- granted, returns, keeps the table well-formed, with its buckets packed, answers whether the
  -- key was absent, binds the key only then and leaves every other key alone, and counts one entry
  -- more then.
  pub put-Puts_packed :
      (junk : ℕ → ℕ) (v : ℕ) → k ≢ 0 → Returns (put (some junk) h k v) (Puts h k v)
  unfolding put hash
  put-Puts_packed junk v used =
      let (c, e) = locate in
      let packed = valid.packed (home h k) c e in
      elim (dec_lt 0 (occurs k (content c))) [
        | yes here ↦
            let (w, found) = find-eq-some k (content c) here in
            let bound : map_of h k ≡ some w = rw (map_of-find c e) found in
            let there : ltb 0 (occurs k (content c)) ≡ true = ground arith in
            (
              (false, h),
              rw (bucket_at-home c e, bucket_exists-occurs k c packed, there) refl,
              record {
                valid = valid;
                answers = rw bound refl;
                reads = λ q real. rw bound refl;
                size = omega arith;
              },
            )
        | no away ↦
            let absent : occurs k (content c) ≡ 0 = omega arith in
            let (d, run, row, packed') =
              put_loop-append junk (record { key = k; val = v }) (with_lock 0xff c)
                (with_lock-IsPacked 0xff c packed) (rw (content-with_lock 0xff c) absent) in
            (
              (true, release h (home h k) d),
              rw
                  (
                    bucket_at-home c e,
                    bucket_exists-occurs k c packed,
                    absent,
                    lock_acq-free c e,
                    ◌>>=◌,
                    run,
                  )
                  refl,
              stored-Puts used c e v d absent packed' (rw (content-with_lock 0xff c) at row),
            )
      ]

  -- clht_remove of clht_lb_packed.c, for a key other than 0 on a well-formed table, returns, keeps
  -- the table well-formed, with its buckets packed, answers the value of the key or 0 where it is
  -- absent, unbinds the key and leaves every other key alone, also the one whose entry it moves,
  -- and counts one entry less where the key was bound.
  pub remove-Takes_packed : k ≢ 0 → Returns (remove h k) (Takes h k)
  unfolding remove hash
  remove-Takes_packed used =
      let (c, e) = locate in
      let packed = valid.packed (home h k) c e in
      elim (dec_lt 0 (occurs k (content c))) [
        | no away ↦
            let absent : occurs k (content c) ≡ 0 = omega arith in
            let unbound : map_of h k ≡ none =
              rw (map_of-find c e) (find-eq-none k (content c) absent) in
            (
              (0, h),
              rw (bucket_at-home c e, bucket_exists-occurs k c packed, absent) refl,
              record {
                valid = valid;
                answers = rw unbound refl;
                reads = λ q real. unbind_absent k q (map_of h) unbound;
                size = rw unbound (omega arith);
              },
            )
        | yes here ↦
            let there : ltb 0 (occurs k (content c)) ≡ true = ground arith in
            let (s, d, key, run, swaps, packed') =
              remove_loop-Swaps k (with_lock 0xff c) (with_lock-IsPacked 0xff c packed)
                (rw (content-with_lock 0xff c) here) in
            let swaps' = rw (content-with_lock 0xff c) at swaps in
            (
              (s.val, release h (home h k) d),
              rw
                  (
                    bucket_at-home c e,
                    bucket_exists-occurs k c packed,
                    there,
                    lock_acq-free c e,
                    ◌>>=◌,
                    run,
                  )
                  refl,
              stored-Takes used c e s.val d
                  (Swaps-find (content c) (content d) s k key used swaps' (once c e k used)) packed'
                  (Swaps-Removes (content c) (content d) s k key used swaps' (once c e)),
            )
      ]

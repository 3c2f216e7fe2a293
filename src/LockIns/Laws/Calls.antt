-- ===== src/LockIns/Laws/Calls.antt =====
-- A put is one of clht_lb, and a removal takes the entry out of its chain.
use cht_bench.Prelude.{
  ℕ, ◌-◌, ◌≡◌, refl, ◌∙◌, sym, ap, ◌≢◌, Bool, some, arith, or_zero, inl, inr, Bool-cases,
  Option-cases, get_elem?, set_same,
}
use cht_bench.Prelude.Run.{Run, ok, bind_assoc, ◌>>=◌, Returns}
use cht_bench.Hash.{hash_bin}
use cht_bench.Chain.{Chain, Allocation, first, with_lock, bucket_exists}
use cht_bench.Chain.Slots.{find, find-occurs, occurs-eq-zero}
use cht_bench.Chain.Laws.{slots, remove_loop_absent, remove_loop_present}
use cht_bench.Chain.Effects.{Removes, cleared-Removes}
use cht_bench.Table.Rows.{row-get_elem?, set-Deletes}
use cht_bench.LbRes.Laws.Valid.{locate, home-lt, map_of-find, store-IsValid}
use cht_bench.KeyMap.{Map, unbind}
use cht_bench.Lb
use cht_bench.Lb.Laws.Simulation.{as_res, lock_acq-free}
use cht_bench.Lb.Laws.Session.{Models}
use cht_bench.LockIns.{
  Hashtable, hash, bucket_at, with_bucket, lock_acq_chk_resize, put, take_loop, remove,
}
use cht_bench.LockIns.Laws.Take.{take_loop-remove_loop, lock-remove_loop}

-- The same buckets as a table of clht_lb.
abbrev pub as_lb : Hashtable → Lb.Hashtable
as_lb h = record { num_buckets = h.num_buckets; table = h.table }

-- The table is well-formed and stands for `f`.
pub record Stands (f : Map) (h : Hashtable) : Type 0 where
  pub mask : h.hash ≡ h.num_buckets - 1
  pub models : Models f (as_lb h)

-- A result of the table of clht_lb, as one of the table `h`.
abbrev pub back : Hashtable → Bool × Lb.Hashtable → Run (Bool × Hashtable)
back h (answer, h') = ok (answer, record h { table = h'.table })

module _ (f : Map) (h : Hashtable) (m : Stands f h) (k : ℕ) where
  pub same_bin : hash h k ≡ Lb.hash (as_lb h) k
  unfolding hash Lb.hash
  same_bin = rw m.mask refl

  module _ (c : Chain) (e : get_elem? h.table (hash_bin (h.num_buckets - 1) k) ≡ some c) where
    bucket_at-home : bucket_at h (Lb.hash (as_lb h) k) ≡ ok c
    unfolding bucket_at Lb.hash
    bucket_at-home = rw (e, bucket_at) refl

    acquire-free : lock_acq_chk_resize (first c).lock ≡ ok 1
    unfolding lock_acq_chk_resize
    acquire-free = rw (m.models.valid.unlocked (hash_bin (h.num_buckets - 1) k) c e) refl

  pub put-put :
      (alloc : Allocation) (v : ℕ) → put alloc h k v ≡ Lb.put alloc (as_lb h) k v >>= back h
  unfolding put Lb.put
  put-put alloc v =
      let (c, e) = locate (as_res (as_lb h)) m.models.valid k in
      let locked = lock_acq-free (as_lb h) m.models.valid k _ c e in
      elim (Bool-cases (bucket_exists k c)) [
        | inl present ↦ rw (same_bin, bucket_at-home c e, ◌>>=◌, present) refl
        | inr absent ↦
            rw (same_bin, bucket_at-home c e, ◌>>=◌, absent, acquire-free c e, locked)
              (sym (
                bind_assoc (Lb.put_chain alloc (with_lock 1 c) k v)
                  (λ (answer, c'). ok (answer, Lb.release (as_lb h) (Lb.hash (as_lb h) k) c'))
                  (back h)))
      ]

module _ (f : Map) (h : Hashtable) (m : Stands f h) (k : ℕ) (used : k ≢ 0) where
  abbrev bin : ℕ
  bin = hash_bin (h.num_buckets - 1) k

  removed :
      (c c' : Chain) (v : ℕ)
      → get_elem? h.table bin ≡ some c
      → take_loop k c ≡ (v, c')
      → remove h k ≡ ok (v, with_bucket h bin c')
  unfolding remove
  removed c c' v e took =
      rw (same_bin f h m k, bucket_at-home f h m k c e, ◌>>=◌, took) (unfold Lb.hash in refl)

  pub remove-Stands : Returns (remove h k) (λ r. (r.0 ≡ or_zero (f k)) × Stands (unbind f k) r.1)
  remove-Stands =
      let valid = m.models.valid in
      let res = as_res (as_lb h) in
      let (c, e) = locate res valid k in
      let at_home : f k ≡ find k (slots c) =
        sym (m.models.reads k used) ∙ map_of-find res valid k c e in
      elim (Option-cases (find k (slots c))) [
        | inl n ↦
            let absent = occurs-eq-zero k (slots c) n in
            let missed = take_loop-remove_loop k c in
            let none_there = remove_loop_absent k c absent in
            (
              (0, h),
              removed c c 0 e (rw none_there at missed)
                  ∙ ap (λ t. ok (0, record h { table = t })) (set_same h.table bin c e),
              (
                rw (at_home, n) refl,
                record {
                  mask = m.mask;
                  models = record {
                    valid = valid;
                    reads = λ q real. ground (arith, m.models.reads q real);
                  };
                },
              ),
            )
        | inr (v, there) ↦
            let (c', took, row_c) = remove_loop_present k v c there in
            let whole : Removes k (slots c) (slots c') = rw row_c (
              cleared-Removes k (slots c) used (find-occurs k v (slots c) there)
                (rw (row-get_elem? h.table bin c e) at (valid.placed.once k bin used))) in
            let t =
              set-Deletes (hash_bin (h.num_buckets - 1)) h.table valid.placed k c c' used e whole in
            let lock = lock-remove_loop k v c c' took ∙ valid.unlocked bin c e in
            (
              (v, with_bucket h bin c'),
              removed c c' v e (take_loop-remove_loop k c ∙ rw took refl),
              (
                rw (at_home, there) refl,
                record {
                  mask = m.mask;
                  models = record {
                    valid = store-IsValid res valid 0 bin c' (home-lt res valid k) lock t.placed;
                    reads = λ q real. ground (arith, t.reads q real, m.models.reads q real);
                  };
                },
              ),
            )
      ]

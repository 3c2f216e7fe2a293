-- ===== src/LbRes/Seq.antt =====
-- Filling a table that no other thread sees: `clht_put_seq` and `bucket_cpy` of clht_lb_res.c, the
-- loop of `ht_resize_pes` over the old buckets, and `clht_size`.
use cht_bench.Prelude.{ℕ, ◌+◌, none, some, List, [], ◌∷◌, ◌==◌, if◌then◌else◌}
use cht_bench.Prelude.Run.{Run, ok, fault, ◌>>=◌}
use cht_bench.Hash.{next_int32}
use cht_bench.Chain.{Slot, Chain, only, link, fill_loop, append_bucket, first, with_lock, size_loop}
use cht_bench.LbRes.{
  Hashtable, Memory, bucket_create_stats, hash, bucket_at, with_bucket, lock_acq_resize, fill_first,
}

unfoldable pub put_seq : Memory → Hashtable → ℕ → ℕ → ℕ → Run Hashtable
unfolding bucket_at fill_loop append_bucket bucket_create_stats
put_seq mem hashtable key val bin = bucket_at hashtable bin >>= λ c. elim (fill_loop key val c) [
  | some c' ↦ ok (with_bucket hashtable bin c')
  | none ↦
      let (b, h', resize) = bucket_create_stats mem hashtable in
      elim b [
        | none ↦ fault
        | some n ↦ ok (with_bucket h' bin (append_bucket c (fill_first key val n)))
      ]
]

-- The entries of one bucket.
unfoldable pub copy_slots : Memory → List Slot → Hashtable → Run Hashtable
unfolding put_seq hash
copy_slots mem [] ht_new = ok ht_new
copy_slots mem (s ∷ r) ht_new =
    let here =
      if s.key == 0 then ok ht_new else put_seq mem ht_new s.key s.val (hash ht_new s.key) in
    here >>= copy_slots mem r

unfoldable pub copy_loop : Memory → Chain → Hashtable → Run Hashtable
unfolding copy_slots
copy_loop mem (only b) ht_new = copy_slots mem b.entries ht_new
copy_loop mem (link b c) ht_new = copy_slots mem b.entries ht_new >>= copy_loop mem c

-- The old chain, whose lock stays LOCK_RESIZE, and the new table. Where the lock is already
-- LOCK_RESIZE nothing is copied (the result 0, which the caller ignores).
unfoldable pub bucket_cpy : Memory → Chain → Hashtable → Run (Chain × Hashtable)
unfolding lock_acq_resize with_lock copy_loop
bucket_cpy mem bucket ht_new = lock_acq_resize (first bucket).lock >>= λ a. elim a [
  | none ↦ ok (bucket, ht_new)
  | some l ↦ copy_loop mem bucket ht_new >>= λ h. ok (with_lock l bucket, h)
]

-- `for (b = 0; b < ht_old->num_buckets; b++) bucket_cpy(ht_old->table + b, ht_new)`, from `b` on,
-- with the old buckets that are left. `b` is an `int32_t`.
unfoldable pub copy_table : Memory → ℕ → List Chain → Hashtable → Run (List Chain × Hashtable)
unfolding bucket_cpy next_int32
copy_table mem b [] ht_new = ok ([], ht_new)
copy_table mem b (c ∷ t) ht_new = bucket_cpy mem c ht_new >>= λ (c', h).
    next_int32 b >>= λ b'. copy_table mem b' t h >>= λ (t', h'). ok (c' ∷ t', h')

unfoldable pub size_table : List Chain → ℕ
unfolding size_loop
size_table [] = 0
size_table (c ∷ t) = size_loop c + size_table t

unfoldable pub size : Hashtable → ℕ
unfolding size_table
size hashtable = size_table hashtable.table

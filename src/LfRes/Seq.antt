-- ===== src/LfRes/Seq.antt =====
-- Filling a table that no other thread sees: `clht_put_seq` and `bucket_cpy` of clht_lf_res.c, the
-- loop of `ht_resize_pes` over the old buckets, `clht_size` and `clht_size_mem`.
use cht_bench.Prelude.{
  ℕ, zero, suc, ◌+◌, Bool, true, false, not, ◌&&◌, Option, none, some, List, [], ◌∷◌, ◌==◌,
  if◌then◌else◌,
}
use cht_bench.Prelude.Run.{Run, ok, ◌>>=◌}
use cht_bench.Hash.{next_int32}
use cht_bench.Lf.{Bucket, key_buckt, map_valid, put_at, snap_set_map}
use cht_bench.LfRes.{Hashtable, hash, bucket_at, with_bucket}

-- The first slot from `j` on with the key 0, filled; `none` where there is none.
unfoldable pub put_slot : ℕ → ℕ → ℕ → ℕ → Bucket → Option Bucket
put_slot key val zero j b = none
put_slot key val (suc left) j b =
    let rest = put_slot key val left (suc j) b in
    if b.key j == 0
    then some (record {
      snapshot = snap_set_map b.snapshot j map_valid;
      key = put_at b.key j key;
      val = put_at b.val j val;
    })
    else rest

-- The result, which `bucket_cpy` does not read, and the table.
unfoldable pub put_seq : Hashtable → ℕ → ℕ → ℕ → Run (Bool × Hashtable)
unfolding bucket_at put_slot
put_seq hashtable key val bin = bucket_at hashtable bin >>= λ b.
    elim (put_slot key val key_buckt 0 b) [
      | some b' ↦ ok (true, with_bucket hashtable bin b')
      | none ↦ ok (false, hashtable)
    ]

-- The slots of a bucket from `j` on, `left` of them.
unfoldable pub copy_from : ℕ → ℕ → Bucket → Hashtable → Run Hashtable
unfolding put_seq hash
copy_from zero j bucket ht_new = ok ht_new
copy_from (suc left) j bucket ht_new =
    let here =
      if bucket.snapshot.map j == map_valid
      then (put_seq ht_new (bucket.key j) (bucket.val j) (hash ht_new (bucket.key j)) >>= λ (_, h).
          ok h)
      else ok ht_new in
    here >>= copy_from left (suc j) bucket

unfoldable pub bucket_cpy : Bucket → Hashtable → Run Hashtable
unfolding copy_from
bucket_cpy bucket ht_new = copy_from key_buckt 0 bucket ht_new

-- `for (b = 0; b < ht_old->num_buckets; b++) bucket_cpy(ht_old->table + b, ht_new)`, from `b` on,
-- with the old buckets that are left. `b` is an `int32_t`.
unfoldable pub copy_table : ℕ → List Bucket → Hashtable → Run Hashtable
unfolding bucket_cpy next_int32
copy_table b [] ht_new = ok ht_new
copy_table b (bu_cur ∷ t) ht_new =
    bucket_cpy bu_cur ht_new >>= λ h. next_int32 b >>= λ b'. copy_table b' t h

unfoldable pub size_from : ℕ → ℕ → Bucket → ℕ
size_from zero i b = 0
size_from (suc left) i b =
    let n = size_from left (suc i) b in
    if not (b.key i == 0) && b.snapshot.map i == map_valid then suc n else n

unfoldable pub size_table : List Bucket → ℕ
unfolding size_from
size_table [] = 0
size_table (b ∷ t) = size_from key_buckt 0 b + size_table t

unfoldable pub size : Hashtable → ℕ
unfolding size_table
size hashtable = size_table hashtable.table

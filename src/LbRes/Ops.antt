-- ===== src/LbRes/Ops.antt =====
-- `clht_get`, `clht_put` and `clht_remove` of clht_lb_res.c. `put_bucket` is `clht_put` without the
-- call of `ht_status` at its end, for which it returns `resize`.
use cht_bench.Prelude.{ℕ, Bool, true, false, none, some, if◌then◌else◌}
use cht_bench.Prelude.Run.{Run, ok, fault, blocked, ◌>>=◌}
use cht_bench.Chain.{
  Chain, get_loop, bucket_exists, present, room, full, put_loop, write, append_bucket, remove_loop,
  first, with_lock,
}
use cht_bench.LbRes.{
  Hashtable, Memory, lock_free, bucket_create_stats, hash, bucket_at, with_bucket,
  lock_acq_chk_resize, fill_first,
}

unfoldable pub get : Hashtable → ℕ → Run ℕ
unfolding hash bucket_at get_loop
get hashtable key = bucket_at hashtable (hash hashtable key) >>= λ c. ok (get_loop key c)

-- `while (!LOCK_ACQ(lock, hashtable)) hashtable = h->ht`: where the lock is refused, a lone thread
-- reads the same table again and never gets on.
unfoldable pub acquire : Hashtable → Chain → Run Chain
unfolding lock_acq_chk_resize with_lock
acquire h c = lock_acq_chk_resize (first c).lock h >>= λ a. elim a [
  | none ↦ blocked
  | some l ↦ ok (with_lock l c)
]

-- `LOCK_RLS(lock)`, and the chain stored back in its bin
abbrev pub release : Hashtable → ℕ → Chain → Hashtable
release h bin c = with_bucket h bin (with_lock lock_free c)

-- The work under the lock: the result, the table, and `resize`.
unfoldable pub put_locked : Memory → Hashtable → ℕ → Chain → ℕ → ℕ → Run (Bool × Hashtable × Bool)
unfolding put_loop write append_bucket with_lock bucket_create_stats
put_locked mem h bin c key val = elim (put_loop key 0 none c) [
  | present ↦ ok (false, release h bin c, false)
  | room p ↦ ok (true, release h bin (write p (record { key = key; val = val }) c), false)
  | full ↦
      let (b, h', resize) = bucket_create_stats mem h in
      elim b [
        | none ↦ fault
        | some n ↦ ok (true, release h' bin (append_bucket c (fill_first key val n)), resize)
      ]
]

unfoldable pub put_bucket : Memory → Hashtable → ℕ → ℕ → Run (Bool × Hashtable × Bool)
unfolding hash bucket_at bucket_exists acquire put_locked
put_bucket mem hashtable key val =
    let bin = hash hashtable key in
    bucket_at hashtable bin >>= λ c.
    if bucket_exists key c
    then ok (false, hashtable, false)
    else acquire hashtable c >>= λ locked. put_locked mem hashtable bin locked key val

unfoldable pub remove_locked : Hashtable → ℕ → Chain → ℕ → Run (ℕ × Hashtable)
unfolding remove_loop
remove_locked h bin c key = elim (remove_loop key c) [
  | some (val, c') ↦ ok (val, release h bin c')
  | none ↦ ok (0, release h bin c)
]

unfoldable pub remove : Hashtable → ℕ → Run (ℕ × Hashtable)
unfolding hash bucket_at bucket_exists acquire remove_locked
remove hashtable key =
    let bin = hash hashtable key in
    bucket_at hashtable bin >>= λ c.
    if bucket_exists key c
    then (acquire hashtable c >>= λ locked. remove_locked hashtable bin locked key)
    else ok (0, hashtable)

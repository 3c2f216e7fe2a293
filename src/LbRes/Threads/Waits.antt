-- ===== src/LbRes/Threads/Waits.antt =====
-- Where clht_put, clht_remove and ht_resize_pes of clht_lb_res.c can wait: on a lock only, neither in
-- the work under a lock nor in the copy of a bucket that is locked.
use cht_bench.Prelude.{
  ℕ, ◌≡◌, ◌≢◌, ◌⊎◌, inl, inr, false, List, [], ◌∷◌, ◌==◌, get_elem?, Option-cases, Bool-cases,
  arith,
}
use cht_bench.Prelude.Run.{ok, fault, blocked, ◌>>=◌, bind-blocked}
use cht_bench.Chain.{Slot, Chain, first, remove_loop, bucket_create}
use cht_bench.Chain.Laws.{slots}
use cht_bench.LbRes.{
  Hashtable, Memory, lock_update, lock_resize, bucket_at, hash, bucket_create_stats,
  lock_acq_chk_resize, lock_acq_resize,
}
use cht_bench.LbRes.Ops.{put_locked, remove_locked}
use cht_bench.LbRes.Seq.{put_seq, copy_slots, bucket_cpy}
use cht_bench.LbRes.Laws.Resize.{copy_loop-slots}
use cht_bench.LbRes.Threads.{Update, put_of, remove_of, Store, work}

pub bucket_at_goes : (h : Hashtable) (i : ℕ) → bucket_at h i ≢ blocked
unfolding bucket_at
bucket_at_goes h i e = elim (Option-cases (get_elem? h.table i)) [
  | inl z ↦ let w : fault ≡ blocked = rw (z, bucket_at) at e in cc
  | inr (c, z) ↦ let w : ok c ≡ blocked = rw (z, bucket_at) at e in cc
]

put_locked_goes :
    (mem : Memory) (h : Hashtable) (bin : ℕ) (c : Chain) (k v : ℕ)
    → put_locked mem h bin c k v ≢ blocked
unfolding put_locked bucket_create_stats bucket_create
put_locked_goes mem h bin c k v e = ground arith

remove_locked_goes :
    (h : Hashtable) (bin : ℕ) (c : Chain) (k : ℕ) → remove_locked h bin c k ≢ blocked
unfolding remove_locked
remove_locked_goes h bin c k e = elim (Option-cases (remove_loop k c)) [
  | inl z ↦ absurd (let w = e in ground arith)
  | inr (r, z) ↦ absurd (let w = e in ground arith)
]

put_seq_goes : (mem : Memory) (h : Hashtable) (k v bin : ℕ) → put_seq mem h k v bin ≢ blocked
unfolding put_seq bucket_create_stats bucket_create
put_seq_goes mem h k v bin e = ground arith

pub work_goes :
    (mem : Memory) (call : Update) (t : ℕ) (c : Chain) (y : Store) → work mem call t c y ≢ blocked
unfolding work
work_goes mem (put_of k v) t c y e =
    ground (arith, put_locked_goes mem (y.tables t) (hash (y.tables t) k) c k v)
work_goes mem (remove_of k) t c y e =
    ground (arith, remove_locked_goes (y.tables t) (hash (y.tables t) k) c k)

copy_slots_goes : (mem : Memory) (l : List Slot) (h : Hashtable) → copy_slots mem l h ≢ blocked
unfolding copy_slots
copy_slots_goes mem [] h e = cc
copy_slots_goes mem (s ∷ l) h e = elim (Bool-cases (s.key == 0)) [
  | inl z ↦ copy_slots_goes mem l h (rw z at e)
  | inr z ↦
      let w : put_seq mem h s.key s.val (hash h s.key) >>= copy_slots mem l ≡ blocked = rw z at e in
      elim (bind-blocked (put_seq mem h s.key s.val (hash h s.key)) (copy_slots mem l) w) [
        | inl stops ↦ put_seq_goes mem h s.key s.val (hash h s.key) stops
        | inr (g, put, rest) ↦ copy_slots_goes mem l g rest
      ]
]

-- The copy of a bucket waits for the thread that holds its lock.
pub bucket_cpy-blocked :
    (mem : Memory) (c : Chain) (h : Hashtable)
    → bucket_cpy mem c h ≡ blocked
    → (first c).lock ≡ lock_update
unfolding bucket_cpy lock_acq_resize
bucket_cpy-blocked mem c h e =
    ground (arith, copy_loop-slots mem c h, copy_slots_goes mem (slots c) h)

pub lock_acq-blocked :
    (l : ℕ) (h : Hashtable)
    → lock_acq_chk_resize l h ≡ blocked
    → (l ≡ lock_update) ⊎ ((l ≡ lock_resize) × (h.has_new ≡ false))
unfolding lock_acq_chk_resize
lock_acq-blocked l h e = ground arith

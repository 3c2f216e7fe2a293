-- ===== src/Lb/Laws/Simulation.antt =====
-- The calls on the table without resizing against those on one bin of the table with resizing.
use cht_bench.Prelude.{
  ℕ, ◌-◌, ◌≡◌, refl, ◌∙◌, ◌≢◌, sym, ap, Bool, true, false, none, some, inl, inr, Bool-cases,
  Option-cases, get_elem?, ◌⊎◌,
}
use cht_bench.Prelude.Run.{Run, ok, ◌>>=◌, Returns}
use cht_bench.Hash.{hash_bin}
use cht_bench.Chain.{
  Chain, Allocation, bucket_create, Found, present, room, full, put_loop, with_lock, bucket_exists,
  remove_loop,
}
use cht_bench.LbRes.{Memory}
use cht_bench.LbRes
use cht_bench.LbRes.Ops.{put_bucket, put_locked, acquire, remove_locked}
use cht_bench.LbRes.Ops
use cht_bench.LbRes.Laws.Valid.{IsValid, map_of, locate, acquire-free}
use cht_bench.LbRes.Laws.Put.{Puts, put_bucket-Puts}
use cht_bench.LbRes.Laws.Remove.{Takes, remove-Takes}
use cht_bench.Lb.{Hashtable, hash, bucket_at, lock_acq, put_chain, release, put, get, remove}

-- The same buckets as a table of clht_lb_res, with its counters at the start.
abbrev pub as_res : Hashtable → LbRes.Hashtable
as_res h = record {
  num_buckets = h.num_buckets;
  table = h.table;
  hash = h.num_buckets - 1;
  version = 0;
  num_expands = 0;
  num_expands_threshold = 1;
  has_new = false;
}

-- One answer of `memalign` for every bucket.
abbrev pub always : Allocation → Memory
always alloc = record { grants = λ n. true; bucket = λ version n. alloc }

Found-cases : (f : Found) → (f ≡ present) ⊎ ((f ≡ full) ⊎ ((p : ℕ) × (f ≡ room p)))
Found-cases present = inl refl
Found-cases full = inr (inl refl)
Found-cases (room p) = inr (inr (p, refl))

-- A result of the table with resizing, as one of the table `h` without.
abbrev pub back : Hashtable → Bool × LbRes.Hashtable × Bool → Run (Bool × Hashtable)
back h (answer, h', resize) = ok (answer, record h { table = h'.table })

abbrev pub back_remove : Hashtable → ℕ × LbRes.Hashtable → Run (ℕ × Hashtable)
back_remove h (val, h') = ok (val, record h { table = h'.table })

-- The end of `clht_put`: the lock is released.
abbrev stored : Hashtable → ℕ → Bool × Chain → Run (Bool × Hashtable)
stored h bin (answer, c) = ok (answer, release h bin c)

module _ (h : Hashtable) (valid : IsValid (as_res h)) (k : ℕ) where
  bucket_at-home_lb :
      (c : Chain)
      → get_elem? h.table (hash_bin (h.num_buckets - 1) k) ≡ some c
      → bucket_at h (hash h k) ≡ ok c
  unfolding bucket_at hash
  bucket_at-home_lb c e = rw (e, bucket_at)

  pub lock_acq-free :
      (i : ℕ) (c : Chain) → get_elem? h.table i ≡ some c → lock_acq c ≡ ok (with_lock 1 c)
  unfolding lock_acq
  lock_acq-free i c e = rw (valid.unlocked i c e)

  -- The work under the lock.
  put_chain-put_locked :
      (alloc : Allocation) (v bin : ℕ) (c : Chain)
      → (put_chain alloc c k v >>= stored h bin)
        ≡ (put_locked (always alloc) (as_res h) bin c k v >>= back h)
  unfolding put_chain put_locked LbRes.bucket_create_stats
  put_chain-put_locked alloc v bin c = elim (Found-cases (put_loop k 0 none c)) [
    | inl f ↦ rw (f, ◌>>=◌, put_chain, put_locked) refl
    | inr (inr (p, f)) ↦ rw (f, ◌>>=◌, put_chain, put_locked) refl
    | inr (inl f) ↦ elim (Option-cases (bucket_create alloc)) [
      | inl n ↦ rw (f, n, ◌>>=◌, put_chain, put_locked, LbRes.bucket_create_stats) refl
      | inr (n, m) ↦ rw (f, m, ◌>>=◌, put_chain, put_locked, LbRes.bucket_create_stats) refl
    ]
  ]

  -- The two puts share the loop over a chain.
  pub put-put_bucket :
      (alloc : Allocation) (v : ℕ)
      → put alloc h k v ≡ (put_bucket (always alloc) (as_res h) k v >>= back h)
  unfolding put put_bucket hash LbRes.hash
  put-put_bucket alloc v =
      let (c, e) = locate (as_res h) valid k in
      elim (Bool-cases (bucket_exists k c)) [
        | inl there ↦ rw (bucket_at-home_lb c e, there) refl
        | inr absent ↦
            rw
              (
                bucket_at-home_lb c e,
                absent,
                lock_acq-free _ c e,
                acquire-free (as_res h) valid _ c e,
              )
              (put_chain-put_locked alloc v (hash_bin (h.num_buckets - 1) k) (with_lock 1 c))
      ]

  -- So do the two removals.
  pub remove-remove : remove h k ≡ (LbRes.Ops.remove (as_res h) k >>= back_remove h)
  unfolding remove LbRes.Ops.remove remove_locked hash LbRes.hash
  remove-remove =
      let (c, e) = locate (as_res h) valid k in
      elim (Bool-cases (bucket_exists k c)) [
        | inr absent ↦ rw (bucket_at-home_lb c e, absent) refl
        | inl there ↦
            let took = remove_loop k (with_lock 1 c) in
            elim (Option-cases took) [
              | inl n ↦
                  rw
                    (
                      bucket_at-home_lb c e,
                      there,
                      lock_acq-free _ c e,
                      acquire-free (as_res h) valid _ c e,
                      ◌>>=◌,
                      remove_locked,
                      n,
                    )
                    refl
              | inr (r, n) ↦
                  rw
                    (
                      bucket_at-home_lb c e,
                      there,
                      lock_acq-free _ c e,
                      acquire-free (as_res h) valid _ c e,
                      ◌>>=◌,
                      remove_locked,
                      n,
                    )
                    refl
            ]
      ]

  pub get-get : get h k ≡ LbRes.Ops.get (as_res h) k
  unfolding get LbRes.Ops.get hash LbRes.hash bucket_at LbRes.bucket_at
  get-get = refl

-- A table with the buckets of `r`, whose counters do not matter.
module _ (h : Hashtable) (r : LbRes.Hashtable) (mask : h.num_buckets - 1 ≡ r.hash)
    (same : h.num_buckets ≡ r.num_buckets) where
  pub rebuilt-IsValid : IsValid r → IsValid (as_res (record h { table = r.table }))
  rebuilt-IsValid valid = record {
    filled = rw same valid.filled;
    fits = rw same valid.fits;
    width = rw same valid.width;
    mask = refl;
    placed = rw mask valid.placed;
    unlocked = valid.unlocked;
  }

  pub rebuilt-map_of : (q : ℕ) → map_of (as_res (record h { table = r.table })) q ≡ map_of r q
  rebuilt-map_of q = rw mask refl

module _ (h : Hashtable) (valid : IsValid (as_res h)) (k : ℕ) (used : k ≢ 0) where
  -- clht_put of clht_lb.c, for a key other than 0 on a well-formed table, with memory granted,
  -- returns, keeps the table well-formed, answers whether the key was absent, binds the key only
  -- then and leaves every other key alone, and counts one entry more then.
  pub put-Puts :
      (alloc : Allocation) (v : ℕ)
      → alloc ≢ none
      → Returns (put alloc h k v) (λ r. Puts (as_res h) k v (r.0, as_res r.1, false))
  put-Puts alloc v granted =
      let (r, run, p) = put_bucket-Puts (always alloc) (as_res h) k v valid used (λ n. granted) in
      let same = sym p.same_size in
      let mask : h.num_buckets - 1 ≡ r.1.hash = sym (p.valid.mask ∙ ap (λ n. n - 1) p.same_size) in
      (
        (r.0, record h { table = r.1.table }),
        put-put_bucket h valid k alloc v ∙ rw run refl,
        record {
          valid = rebuilt-IsValid h r.1 mask same p.valid;
          answers = p.answers;
          reads = λ q real. rebuilt-map_of h r.1 mask same q ∙ p.reads q real;
          size = p.size;
          same_size = refl;
          grows = λ e. absurd (cc);
        },
      )

  -- clht_remove of clht_lb.c, for a key other than 0 on a well-formed table, returns, keeps the
  -- table well-formed, answers the value of the key or 0 where it is absent, unbinds the key and
  -- leaves every other key alone, and counts one entry less where the key was bound.
  pub remove-Takes_lb : Returns (remove h k) (λ r. Takes (as_res h) k (r.0, as_res r.1))
  remove-Takes_lb =
      let (r, run, p) = remove-Takes (as_res h) k valid used in
      let same = sym p.same_size in
      let mask : h.num_buckets - 1 ≡ r.1.hash = sym (p.valid.mask ∙ ap (λ n. n - 1) p.same_size) in
      (
        (r.0, record h { table = r.1.table }),
        remove-remove h valid k ∙ rw run refl,
        record {
          valid = rebuilt-IsValid h r.1 mask same p.valid;
          answers = p.answers;
          reads = λ q real. rebuilt-map_of h r.1 mask same q ∙ p.reads q real;
          size = p.size;
          same_size = refl;
        },
      )

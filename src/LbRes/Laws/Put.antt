-- ===== src/LbRes/Laws/Put.antt =====
-- `clht_put` up to its call of `ht_status`: the result, the map afterwards, and the entries.
use mathlib.Core.Option.{or_else}
use cht_bench.Prelude.{
  ℕ, ◌+◌, ◌<◌, ◌≡◌, refl, ◌∙◌, ◌≢◌, ◌⊎◌, ◌++◌, Bool, true, false, ◌&&◌, Option, none, some, arith,
  inl, inr, ◌==◌, if◌then◌else◌, is_none, get_elem?, set, Option-cases, dec_lt,
}
use cht_bench.Prelude.Run.{fault, Returns}
use cht_bench.Hash.{hash_bin, u32}
use cht_bench.Chain.{miss, Bucket, Chain, bucket_create, put_loop, write, append_bucket, with_lock}
use cht_bench.Chain.Slots.{
  occurs, one_if, find-eq-none, find-eq-some, scan_absent, first_empty, first_empty-IsEmptyAt,
}
use cht_bench.Chain.Effects.{Adds, set-Adds, append-Adds, new_row}
use cht_bench.Chain.Laws.{
  slots, bucket_exists-occurs, decide_found, put_loop-scan, slots-write, slots-append_bucket,
  slots-with_lock,
}
use cht_bench.Table.Rows.{row, row-get_elem?, total, set-Inserts}
use cht_bench.LbRes.{Hashtable, Memory, lock_free, lock_update, hash, bucket_create_stats}
use cht_bench.LbRes.Ops.{put_locked, put_bucket, release}
use cht_bench.LbRes.Laws.Valid.{
  IsValid, map_of, home-lt, locate, bucket_at-home, map_of-find, acquire-free, release-IsValid,
}

-- What a put of `v` under `k` has to do: it answers whether `k` was absent, binds `k` only then, and
-- counts one entry more then. The number of buckets stays. It asks for a resize only after an
-- insertion.
pub record Puts (h : Hashtable) (k v : ℕ) (r : Bool × Hashtable × Bool) : Type 0 where
  pub valid : IsValid r.1
  pub answers : r.0 ≡ is_none (map_of h k)
  pub reads :
      (q : ℕ)
      → q ≢ 0
      → map_of r.1 q ≡ (if is_none (map_of h k) && (k == q) then some v else map_of h q)
  pub size : total r.1.table ≡ total h.table + one_if r.0
  pub same_size : r.1.num_buckets ≡ h.num_buckets
  pub grows : r.2 ≡ true → r.0 ≡ true

module _ (mem : Memory) (h : Hashtable) (valid : IsValid h) (k v : ℕ) (used : k ≢ 0) (c : Chain)
    (at_home : get_elem? h.table (hash_bin h.hash k) ≡ some c) where
  abbrev bin : ℕ
  bin = hash_bin h.hash k

  abbrev locked : Chain
  locked = with_lock lock_update c

  -- The new bucket, with the entry in its first slot.
  abbrev expansion : (ℕ → ℕ) → Bucket
  expansion junk = record { lock = 0; entries = new_row k v (junk 1) (junk 2) }

  -- A chain that adds the entry is stored back.
  stored-Puts :
      (absent : occurs k (slots c) ≡ 0) (n : ℕ) (d : Chain) (again : Bool)
      → Adds k v (slots c) (slots d)
      → Puts h k v (true, release (record h { num_expands = n }) bin d, again)
  stored-Puts absent n d again a =
      let whole : Adds k v (slots c) (slots (with_lock lock_free d)) =
        rw (slots-with_lock lock_free d) a in
      let t =
        set-Inserts (hash_bin h.hash) h.table valid.placed k c (with_lock lock_free d) used at_home
          v absent whole in
      let unbound : map_of h k ≡ none =
        rw (map_of-find h valid k c at_home) (find-eq-none k (slots c) absent) in
      record {
        valid = release-IsValid h valid n bin d (home-lt h valid k) t.placed;
        answers = ground arith;
        reads = λ q real. ground (arith, t.reads q real);
        size = omega (arith, t.size);
        same_size = refl;
        grows = λ again. refl;
      }

  -- The loop of `clht_put` on a chain without the key.
  decided :
      {e : Option ℕ}
      → occurs k (slots c) ≡ 0
      → first_empty 0 (slots c) ≡ e
      → put_loop k 0 none locked ≡ decide_found (miss e)
  unfolding or_else
  decided absent e = rw (
    put_loop-scan k 0 none locked,
    slots-with_lock lock_update c,
    scan_absent k 0 none (slots c) absent,
    e,
  )

  -- The work under the lock for a key that is absent: it stores the entry, or stops at a bucket that
  -- `memalign` refuses.
  put_locked-ends :
      occurs k (slots c) ≡ 0
      → ((put_locked mem h bin locked k v ≡ fault)
          × (first_empty 0 (slots c) ≡ none)
          × (mem.bucket h.version h.num_expands ≡ none))
        ⊎ Returns (put_locked mem h bin locked k v) (Puts h k v)
  unfolding put_locked bucket_create_stats bucket_create
  put_locked-ends absent = elim (Option-cases (first_empty 0 (slots c))) [
    | inr (p, e) ↦
        let (i, p_i, empty) = first_empty-IsEmptyAt 0 (slots c) p e in
        let i_p : i ≡ p = omega arith in
        let d = write p (record { key = k; val = v }) locked in
        let row_d : slots d ≡ set (slots c) p (record { key = k; val = v }) =
          rw (slots-write p (record { key = k; val = v }) locked, slots-with_lock lock_update c) in
        inr (
          (true, release h bin d, false),
          rw (decided absent e, put_locked),
          stored-Puts absent h.num_expands d false
              (rw row_d (set-Adds k v used (slots c) absent p (rw i_p at empty))),
        )
    | inl e ↦ elim (Option-cases (mem.bucket h.version h.num_expands)) [
      | inl null ↦
          inl (rw (decided absent e, put_locked, bucket_create_stats, null, bucket_create), e, null)
      | inr (junk, got) ↦
          let n = u32 (h.num_expands + 1) in
          let again = if n == h.num_expands_threshold then true else false in
          let d = append_bucket locked (expansion junk) in
          let row_d : slots d ≡ slots c ++ new_row k v (junk 1) (junk 2) =
            rw (slots-append_bucket locked (expansion junk), slots-with_lock lock_update c) in
          inr (
            (true, release (record h { num_expands = n }) bin d, again),
            rw (decided absent e, put_locked, bucket_create_stats, got, bucket_create),
            stored-Puts absent n d again
                (rw row_d (append-Adds k v used (slots c) absent (junk 1) (junk 2))),
          )
    ]
  ]

  present-Puts : 0 < occurs k (slots c) → Puts h k v (false, h, false)
  present-Puts here =
      let (w, e) = find-eq-some k (slots c) here in
      let bound : map_of h k ≡ some w = rw (map_of-find h valid k c at_home) e in
      record {
        valid = valid;
        answers = ground arith;
        reads = λ q real. ground arith;
        size = omega arith;
        same_size = refl;
        grows = λ again. again;
      }

-- Where a put stops at a null pointer: the key is absent, every slot of its bin is in use, and
-- `memalign` refuses the bucket.
pub record Stops (mem : Memory) (h : Hashtable) (k v : ℕ) : Type 0 where
  pub run : put_bucket mem h k v ≡ fault
  pub absent : map_of h k ≡ none
  pub no_room : first_empty 0 (row h.table (hash_bin h.hash k)) ≡ none
  pub null : mem.bucket h.version h.num_expands ≡ none

-- clht_put up to its call of ht_status, for a key other than 0 on a well-formed table and any
-- memory: either it stops at a null pointer, and then the key is absent, every slot of its bin is
-- in use and memalign refuses the bucket, or it returns, keeps the table well-formed with its
-- locks released, answers whether the key was absent, binds the key only then and leaves every
-- other key alone, counts one entry more then, keeps the number of buckets, and asks for a resize
-- only after an insertion.
pub put_bucket-ends :
    (mem : Memory) (h : Hashtable) (k v : ℕ)
    → IsValid h
    → k ≢ 0
    → Stops mem h k v ⊎ Returns (put_bucket mem h k v) (Puts h k v)
unfolding put_bucket hash
put_bucket-ends mem h k v valid used =
    let (c, e) = locate h valid k in
    elim (dec_lt 0 (occurs k (slots c))) [
      | yes here ↦ inr (
        (false, h, false),
        rw (bucket_at-home h valid k c e, bucket_exists-occurs k c) (ground arith),
        present-Puts mem h valid k v used c e here,
      )
      | no away ↦
          let absent : occurs k (slots c) ≡ 0 = omega arith in
          let reaches : put_bucket mem h k v
              ≡ put_locked mem h (hash_bin h.hash k) (with_lock lock_update c) k v =
            rw
              (
                bucket_at-home h valid k c e,
                bucket_exists-occurs k c,
                absent,
                acquire-free h valid _ c e,
              )
              refl in
          elim (put_locked-ends mem h valid k v used c e absent) [
            | inl (stops, none_left, null) ↦ inl (record {
              run = reaches ∙ stops;
              absent = rw (map_of-find h valid k c e) (find-eq-none k (slots c) absent);
              no_room = rw (row-get_elem? h.table (hash_bin h.hash k) c e) none_left;
              null = null;
            })
            | inr (r, run, puts) ↦ inr (r, reaches ∙ run, puts)
          ]
    ]

-- With memory granted there is no fault.
pub put_bucket-Puts :
    (mem : Memory) (h : Hashtable) (k v : ℕ)
    → IsValid h
    → k ≢ 0
    → ((n : ℕ) → mem.bucket h.version n ≢ none)
    → Returns (put_bucket mem h k v) (Puts h k v)
put_bucket-Puts mem h k v valid used granted = elim (put_bucket-ends mem h k v valid used) [
  | inl stops ↦ absurd (granted h.num_expands stops.null)
  | inr returns ↦ returns
]

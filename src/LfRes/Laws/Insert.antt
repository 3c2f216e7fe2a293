-- ===== src/LfRes/Laws/Insert.antt =====
-- What `clht_put` of clht_lf_res.c comes to.
use native.Mathlib.Nat.{pow-le-pow_right}
use cht_bench.Prelude.{
  ℕ, zero, suc, ◌+◌, ◌-◌, ◌*◌, ◌^◌, ◌≤◌, ◌<◌, ◌≡◌, refl, ◌∙◌, ap, ◌≢◌, ◌⊎◌, Bool, true, false, none,
  some, arith, inl, inr, ◌==◌, leb, if◌then◌else◌, is_none, get_elem?, get_elem?-map, Bool-cases,
  ℕ_discrete,
}
use cht_bench.Prelude.Run.{out_of_fuel, ◌>>=◌, Returns}
use cht_bench.Hash.{hash_bin}
use cht_bench.Chain.{count_slots}
use cht_bench.Chain.Slots.{occurs, find-eq-none}
use cht_bench.Table.Rows.{row, total, row-get_elem?}
use cht_bench.Table.Flat.{flat}
use cht_bench.Lf.{Bucket, key_buckt, snap_get_empty_index}
use cht_bench.Lf.Laws.Alone.{with_entry}
use cht_bench.LfRes.{Hashtable, Clht, Memory, clht_lock_free, with_bucket, no_update}
use cht_bench.LfRes.Seq.{size}
use cht_bench.LfRes.Resize.{put_all, put, is_sparse, no_empty_slot_tries}
use cht_bench.LfRes.Laws.Rows.{slots_of, chain_of}
use cht_bench.LfRes.Laws.Entry.{
  taken, placed, without, put_case, with_entry-Adds, with_entry-IsSound,
}
use cht_bench.LfRes.Laws.Valid.{rows, IsValid, map_of, locate, map_of-find, stored-Binds}
use cht_bench.LfRes.Laws.Fill.{load}
use cht_bench.LfRes.Laws.Grow.{Rebuilds}
use cht_bench.LfRes.Laws.Resize.{IsGenerous, IsReady}
use cht_bench.LfRes.Laws.Status.{ht_status-doubles, ht_status_sparse}
use cht_bench.LfRes.Laws.Put.{
  full-count, load_all, load-row-le, put_taken, put_placed, go_on, put_without, put_tries,
}

-- What a put of `v` at `k` has to do: it answers whether the key was absent, and binds it then.
pub record Stores (k v : ℕ) (h : Clht) (r : Bool × Clht) : Type 0 where
  pub answers : r.0 ≡ is_none (map_of h.ht k)
  pub valid : IsValid r.1.ht
  pub reads :
      (q : ℕ)
      → q ≢ 0
      → map_of r.1.ht q ≡ (
          if is_none (map_of h.ht k)
          then (if k == q then some v else map_of h.ht q)
          else map_of h.ht q)

-- No slot of the bucket of the key has the key, and none is free.
pub record IsStuck (h : Hashtable) (key : ℕ) : Type 0 where
  pub bucket : Bucket
  pub at : get_elem? h.table (hash_bin h.hash key) ≡ some bucket
  pub absent : occurs key (slots_of bucket) ≡ 0
  pub none_left : snap_get_empty_index bucket.snapshot ≡ none

-- A pass ends with an answer, or the bucket is full.
put_ends :
    (mem : Memory) (h : Clht) (key v fuel tries : ℕ)
    → IsValid h.ht
    → h.resize_lock ≡ clht_lock_free
    → key ≢ 0
    → v ≢ 0
    → Returns (put_all (suc fuel) mem tries h key v) (Stores key v h) ⊎ IsStuck h.ht key
put_ends mem h key v fuel tries valid free used real =
    let (b, e) = locate h.ht valid key in
    let at_home = map_of-find h.ht valid key b e in
    elim (put_case key v b) [
      | taken w there ↦ inl (
        (false, no_update h),
        put_taken h valid free mem key v used b e fuel tries w there,
        record { answers = ground arith; valid = valid; reads = λ q nonzero. ground arith },
      )
      | placed i absent some_slot ↦
          let missed = find-eq-none key (slots_of b) absent in
          let t =
            stored-Binds h.ht valid key b e v (with_entry b i key v) used absent
              (with_entry-IsSound b i key v used real (valid.sound _ b e))
              (with_entry-Adds key v b i used absent some_slot) in
          inl (
            (
              true,
              no_update (record h {
                ht = with_bucket h.ht (hash_bin h.ht.hash key) (with_entry b i key v);
              }),
            ),
            put_placed h valid free mem key v used b e fuel tries i absent some_slot,
            record {
              answers = ground arith;
              valid = t.valid;
              reads = λ q nonzero. ground (arith, t.reads q nonzero);
            },
          )
      | without absent none_left ↦
          inr (record { bucket = b; at = e; absent = absent; none_left = none_left })
    ]

-- A full bucket has three entries whose keys share its bin.
stuck-load :
    (h : Hashtable) (key : ℕ)
    → IsValid h
    → IsStuck h key
    → key_buckt ≤ load (hash_bin h.hash) (hash_bin h.hash key) (flat (rows h.table))
stuck-load h key valid stuck =
    let bin = hash_bin h.hash key in
    let at_row =
      row-get_elem? (rows h.table) bin (chain_of stuck.bucket)
        (get_elem?-map chain_of h.table bin stuck.bucket stuck.at) in
    let three = full-count stuck.bucket (valid.sound _ stuck.bucket stuck.at) stuck.none_left in
    let all = load_all (hash_bin h.hash) bin (row (rows h.table) bin) (λ q real here.
      elim (ℕ_discrete (hash_bin h.hash q) bin) [
        | yes same ↦ same
        | no away ↦ absurd (omega (arith, here, valid.placed.apart q bin real away))
      ]) in
    let counted : count_slots (row (rows h.table) bin) ≡ key_buckt = rw at_row three in
    omega (arith, all, counted, load-row-le (hash_bin h.hash) bin bin (rows h.table))

-- What a put does to the doubled table, it does to the old one.
Stores-Rebuilds :
    (key v n version : ℕ) (h h' : Clht) (r : Bool × Clht)
    → key ≢ 0
    → Rebuilds h.ht n version h'.ht
    → Stores key v h' r
    → Stores key v h r
Stores-Rebuilds key v n version h h' r used same stores = record {
  answers = rw (← same.reads key used) stores.answers;
  valid = stores.valid;
  reads = λ q real. rw (← same.reads key used, ← same.reads q real) (stores.reads q real);
}

module _ (mem : Memory) (generous : IsGenerous mem) (m key v : ℕ) (m-fits : m ≤ 31) (used : key ≢ 0)
    (real : v ≢ 0) where
  -- The table doubles from 2^k to 2^m buckets at most.
  put_all-Stores :
      (d k fuel : ℕ) (h : Clht)
      → k + d ≡ m
      → IsReady k h
      → h.ht.version + 2 * d < 2 ^ 64
      → (0 < d → 3 * 2 ^ m ≤ 100 * total (rows h.ht.table))
      → load (hash_bin (2 ^ m - 1)) (hash_bin (2 ^ m - 1) key) (flat (rows h.ht.table)) ≤ 2
      → Returns (put_all (17 * d + suc fuel) mem 0 h key v) (Stores key v h)
  put_all-Stores zero k fuel h at_m ready versions dense few =
      elim (put_ends mem h key v fuel 0 ready.valid ready.resizable used real) [
        | inl done ↦ let z : 0 + suc fuel ≡ suc fuel = omega arith in rw z done
        | inr stuck ↦
            let same : h.ht.hash ≡ 2 ^ m - 1 =
              rw (ready.valid.mask, ready.power) (ap (λ x. 2 ^ x - 1) (omega arith)) in
            let many = rw same at (stuck-load h.ht key ready.valid stuck) in
            absurd (omega (arith, many, few))
      ]
  put_all-Stores (suc d) k fuel h at_m ready versions dense few =
      let z : 17 * suc d + suc fuel ≡ suc (17 * d + 17 + fuel) = omega arith in
      elim (put_ends mem h key v (17 * d + 17 + fuel) 0 ready.valid ready.resizable used real) [
        | inl done ↦ rw z done
        | inr stuck ↦
            let up : k + 1 ≤ m = omega arith in
            let smaller : 2 ^ (k + 1) ≤ 2 ^ m = pow-le-pow_right (omega arith) up in
            let (r, run, (ready', same)) =
              ht_status-doubles mem h k ready generous (omega (arith, m-fits)) (omega arith)
                (omega (arith, smaller, dense)) in
            let (s, stored, post) =
              put_all-Stores d (k + 1) fuel r.1 (omega arith) ready'
                (omega (arith, same.same_version)) (λ more. omega (arith, dense, same.size))
                (omega
                  (arith, few, same.loads (hash_bin (2 ^ m - 1)) (hash_bin (2 ^ m - 1) key))) in
            let y : 17 * suc d + suc fuel ≡ 16 + suc (17 * d + suc fuel) = omega arith in
            let tries =
              put_tries h ready.valid ready.resizable mem key v used stuck.bucket stuck.at
                stuck.absent stuck.none_left 16 (17 * d + suc fuel) 0 refl in
            (
              s,
              rw y (tries ∙ rw (run, ◌>>=◌) stored),
              Stores-Rebuilds key v (2 ^ (k + 1)) (h.ht.version + 2) h r.1 s used same post,
            )
      ]

  -- clht_put of the lock-free table with resizing, for a key and a value other than 0, on a well-
  -- formed table of 2^k buckets with no lock held, the other threads idle, memory granted and
  -- versions below 2^64: if at most two entries agree with the key modulo 2^m, k at most m at most
  -- 31, and 100 times the entries are at least 3 * 2^m where k is less than m, it returns after at
  -- most 17 passes for each of the m - k possible doublings and one more; it answers whether the
  -- key was absent, and leaves a well-formed table that stands for the old map, with the key bound
  -- if it was absent.
  pub put-Stores_lf_res :
      (d k fuel : ℕ) (h : Clht)
      → k + d ≡ m
      → IsReady k h
      → h.ht.version + 2 * d < 2 ^ 64
      → (0 < d → 3 * 2 ^ m ≤ 100 * total (rows h.ht.table))
      → load (hash_bin (2 ^ m - 1)) (hash_bin (2 ^ m - 1) key) (flat (rows h.ht.table)) ≤ 2
      → Returns (put (17 * d + suc fuel) mem h key v) (Stores key v h)
  unfolding put
  put-Stores_lf_res d k fuel h at_m ready versions dense few =
      put_all-Stores d k fuel h at_m ready versions dense few

put_all_spins :
    (mem : Memory) (t : Hashtable) (key v fuel tries : ℕ) (h : Clht)
    → IsValid t
    → key ≢ 0
    → IsStuck t key
    → is_sparse (size t) t.num_buckets ≡ true
    → h.ht ≡ t
    → h.resize_lock ≡ clht_lock_free
    → put_all fuel mem tries h key v ≡ out_of_fuel
unfolding put_all
put_all_spins mem t key v zero tries h valid used stuck sparse same free = refl
put_all_spins mem t key v (suc fuel) tries h valid used stuck sparse same free =
    let stuck_h : IsStuck h.ht key = rw same stuck in
    let step =
      put_without h (rw same valid) free mem key v used stuck_h.bucket stuck_h.at stuck_h.absent
        stuck_h.none_left fuel tries in
    elim (Bool-cases (leb no_empty_slot_tries tries)) [
      | inr more ↦
          step
          ∙ rw (more, go_on)
              (put_all_spins mem t key v fuel (suc tries) h valid used stuck sparse same free)
      | inl last ↦
          let (r, run, (kept, lock)) = ht_status_sparse mem h (rw same sparse) in
          step
          ∙ rw (last, go_on, run, ◌>>=◌)
              (put_all_spins mem t key v fuel 0 r.1 valid used stuck sparse (kept ∙ same)
                (lock ∙ free))
    ]

-- clht_put of the lock-free table with resizing, for a key other than 0 that is not there and
-- whose bucket has no free slot, on a well-formed table that has entries in less than 2 percent of
-- its slots, and at least one, and is not being resized, has no answer after any number of passes:
-- ht_status leaves such a table alone.
pub put_spins :
    (mem : Memory) (h : Clht) (key v fuel : ℕ)
    → IsValid h.ht
    → key ≢ 0
    → IsStuck h.ht key
    → is_sparse (size h.ht) h.ht.num_buckets ≡ true
    → h.resize_lock ≡ clht_lock_free
    → put fuel mem h key v ≡ out_of_fuel
unfolding put
put_spins mem h key v fuel valid used stuck sparse free =
    put_all_spins mem h.ht key v fuel 0 h valid used stuck sparse refl free

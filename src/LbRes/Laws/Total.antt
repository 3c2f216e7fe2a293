-- ===== src/LbRes/Laws/Total.antt =====
-- `ht_status`, and `clht_put` with its resizes.
use cht_bench.Prelude.{
  ℕ, zero, suc, ◌+◌, ◌*◌, ◌^◌, ◌≤◌, ◌<◌, ◌≡◌, refl, ◌∙◌, ◌≢◌, ◌⊎◌, Bool, true, false, not, ◌&&◌,
  ◌||◌, some, arith, inl, inr, ◌==◌, ltb, if◌then◌else◌, is_none, Bool-cases,
}
use native.Mathlib.Nat.{two-pow-succ, mul-le-mul_right}
use cht_bench.Prelude.Run.{Run, ok, ◌>>=◌, Returns}
use cht_bench.Chain.Slots.{one_if}
use cht_bench.Table.Rows.{total}
use cht_bench.LbRes.{Clht, Memory, lock_free}
use cht_bench.LbRes.Seq.{size}
use cht_bench.LbRes.Resize.{
  tas_taken, resize_pes, is_sparse, is_dense, expands_max, inc_by_pow2, ht_status, put,
}
use cht_bench.LbRes.Laws.Valid.{IsValid, map_of}
use cht_bench.LbRes.Laws.Put.{put_bucket-Puts}
use cht_bench.LbRes.Laws.Resize.{IsGenerous}
use cht_bench.LbRes.Laws.Growth.{Keeps, relock, inc-le, size-total, resize_pes-Keeps}

not_sparse : (s n : ℕ) → 0 < s → is_sparse s n ≡ false → 3 * n ≤ 20 * s
unfolding is_sparse
not_sparse s n pos h = ground arith

-- The premises of `ht_status`, with fuel for the doublings that are left.
pub record IsReady (fuel : ℕ) (h : Clht) : Type 0 where
  pub valid : IsValid h.ht
  pub open_lock : h.resize_lock ≡ lock_free
  pub used : 0 < total h.ht.table
  pub small : total h.ht.table ≤ 2 ^ 28
  pub enough : 20 * total h.ht.table < 3 * (h.ht.num_buckets * 2 ^ fuel)

-- The table that `ht_status` works on while it holds the status lock.
abbrev held : Clht → Clht
held h = record h { status_lock = tas_taken }

double : (n fuel : ℕ) → 3 * (n * 2 ^ suc fuel) ≡ 3 * (2 * n * 2 ^ fuel)
double n fuel = rw (two-pow-succ fuel) (omega arith)

-- Without fuel the table is too sparse to grow.
sparse_zero : (h : Clht) → IsReady 0 h → is_sparse (size h.ht) h.ht.num_buckets ≡ false → ⊥
sparse_zero h ready sparse =
    let counted = size-total h.ht in
    omega (
      arith,
      counted,
      ready.enough,
      not_sparse (size h.ht) h.ht.num_buckets (omega (arith, counted, ready.used)) sparse,
    )

IsReady-next :
    (fuel : ℕ) (h h' : Clht) (by : ℕ)
    → IsReady (suc fuel) h
    → Keeps (held h) h'
    → 2 ≤ by
    → h'.ht.num_buckets ≡ by * h.ht.num_buckets
    → IsReady fuel h'
IsReady-next fuel h h' by ready kept two grown = record {
  valid = kept.valid;
  open_lock = kept.unlocked;
  used = omega (arith, kept.size, ready.used);
  small = omega (arith, kept.size, ready.small);
  enough =
      let wider = mul-le-mul_right (2 ^ fuel) (mul-le-mul_right h.ht.num_buckets two) in
      rw grown (omega (arith, kept.size, ready.enough, wider, double h.ht.num_buckets fuel));
}

-- The shape of the tests in `ht_status`.
ladder :
    {R : Type 0} (a b c d : Bool) (x y z : R)
    → let r = if a then x else if b then y else if c then y else if d then z else y in
      (r ≡ x) ⊎ (r ≡ y) ⊎ ((c ≡ false) × (r ≡ z))
ladder true b c d x y z = inl refl
ladder false true c d x y z = inr (inl refl)
ladder false false true d x y z = inr (inl refl)
ladder false false false true x y z = inr (inr (refl, refl))
ladder false false false false x y z = inr (inl refl)

module _ (mem : Memory) (generous : IsGenerous mem) where
  -- The growing branch of `ht_status`.
  grow : (Clht → Run (ℕ × Clht)) → Clht → Run (ℕ × Clht)
  grow status h =
      resize_pes status mem (held h) true (inc_by_pow2 (size h.ht) h.ht.num_buckets) >>= λ (_, h').
      ok (size h.ht, record h' { status_lock = lock_free })

  grow-Keeps :
      (fuel : ℕ) (h : Clht)
      → IsReady (suc fuel) h
      → is_sparse (size h.ht) h.ht.num_buckets ≡ false
      → ((h' : Clht)
          → IsReady fuel h'
          → Returns (ht_status (suc fuel) mem h' true false) (λ r. Keeps h' r.1))
      → Returns (grow (λ h'. ht_status (suc fuel) mem h' true false) h) (λ r. Keeps h r.1)
  unfolding grow
  grow-Keeps fuel h ready sparse go_on =
      let s = total h.ht.table in
      let n = h.ht.num_buckets in
      let by = inc_by_pow2 (size h.ht) n in
      let filled = ready.valid.filled in
      let counted = size-total h.ht in
      let used : 0 < size h.ht = omega (arith, counted, ready.used) in
      let inc =
        inc-le (size h.ht) n filled (not_sparse (size h.ht) n used sparse)
          (omega (arith, counted, ready.small)) in
      let twice = mul-le-mul_right n inc.0 in
      let (r, run, (done, kept)) =
        resize_pes-Keeps mem generous (λ h'. ht_status (suc fuel) mem h' true false) (held h)
          ready.valid ready.open_lock by (omega (arith, twice))
          (omega (arith, inc.1, counted, ready.small))
          (omega (arith, twice, inc.1, counted, ready.small))
          (λ h' kept grown. go_on h' (IsReady-next fuel h h' by ready kept inc.0 grown)) in
      (
        (size h.ht, record r.1 { status_lock = lock_free }),
        rw run refl,
        record {
          valid = kept.valid;
          reads = kept.reads;
          size = kept.size;
          unlocked = kept.unlocked;
        },
      )

  -- `ht_status` leaves the table alone or grows it, and grows it only where it is not sparse.
  status_cases :
      (fuel : ℕ) (h : Clht) (resize_increase just_print : Bool)
      → ((r : ℕ × Clht) × (ht_status (suc fuel) mem h resize_increase just_print ≡ ok r)
          × ((l : ℕ) × (r.1 ≡ record h { status_lock = l })))
        ⊎ ((is_sparse (size h.ht) h.ht.num_buckets ≡ false)
            × (ht_status (suc fuel) mem h resize_increase just_print
                ≡ grow (λ h'. ht_status fuel mem h' true false) h))
  unfolding ht_status grow
  status_cases fuel h resize_increase just_print =
      elim (ladder (not (h.status_lock == lock_free) && not resize_increase) just_print
        (is_sparse (size h.ht) h.ht.num_buckets)
        (is_dense (size h.ht) h.ht.num_buckets
          || (ltb 24 (expands_max h.ht.table) || resize_increase))
        (ok (0, held h)) (ok (size h.ht, record h { status_lock = lock_free }))
        (grow (λ h'. ht_status fuel mem h' true false) h)) [
          | inl e ↦ inl ((0, held h), e, (tas_taken, refl))
          | inr (inl e) ↦
              inl ((size h.ht, record h { status_lock = lock_free }), e, (lock_free, refl))
          | inr (inr (sparse, e)) ↦ inr (sparse, e)
        ]

  pub ht_status-Keeps :
      (fuel : ℕ) (h : Clht) (resize_increase just_print : Bool)
      → IsReady fuel h
      → Returns (ht_status (suc fuel) mem h resize_increase just_print) (λ r. Keeps h r.1)
  ht_status-Keeps zero h resize_increase just_print ready =
      elim (status_cases zero h resize_increase just_print) [
        | inl (r, run, (l, e)) ↦ (r, run, rw e (relock h l ready.valid ready.open_lock))
        | inr (sparse, run) ↦ absurd (sparse_zero h ready sparse)
      ]
  ht_status-Keeps (suc fuel) h resize_increase just_print ready =
      elim (status_cases (suc fuel) h resize_increase just_print) [
        | inl (r, run, (l, e)) ↦ (r, run, rw e (relock h l ready.valid ready.open_lock))
        | inr (sparse, run) ↦
            let (r, grown, kept) =
              grow-Keeps fuel h ready sparse (λ h' next. ht_status-Keeps fuel h' true false next) in
            (r, run ∙ grown, kept)
      ]

-- What `clht_put` has to do to the whole structure: as `Puts`, with the table resized or not.
pub record Stores (h : Clht) (k v : ℕ) (r : Bool × Clht) : Type 0 where
  pub valid : IsValid r.1.ht
  pub unlocked : r.1.resize_lock ≡ lock_free
  pub answers : r.0 ≡ is_none (map_of h.ht k)
  pub reads :
      (q : ℕ)
      → q ≢ 0
      → map_of r.1.ht q ≡ (if is_none (map_of h.ht k) && (k == q) then some v else map_of h.ht q)
  pub size : total r.1.ht.table ≡ total h.ht.table + one_if r.0

-- clht_put of a key other than 0 returns on every well-formed table with less than 2^28 entries
-- and a free resize lock, through any number of resizes, given fuel for the doublings that are
-- left and memalign never returning NULL: the table stays well-formed, the answer says whether the
-- key was absent, the map gains the entry only then, and the entries are counted.
pub put-Stores :
    (fuel : ℕ) (mem : Memory) (h : Clht) (k v : ℕ)
    → IsGenerous mem
    → IsValid h.ht
    → h.resize_lock ≡ lock_free
    → k ≢ 0
    → total h.ht.table < 2 ^ 28
    → 20 * suc (total h.ht.table) < 3 * (h.ht.num_buckets * 2 ^ fuel)
    → Returns (put (suc fuel) mem h k v) (Stores h k v)
unfolding put
put-Stores fuel mem h k v generous valid open_lock used small enough =
    let (r, run, p) = put_bucket-Puts mem h.ht k v valid used (generous.buckets h.ht.version) in
    let stored : Clht = record h { ht = r.1 } in
    elim (Bool-cases r.2) [
      | inr done ↦ (
        (r.0, stored),
        rw (run, ◌>>=◌, done),
        record {
          valid = p.valid;
          unlocked = open_lock;
          answers = p.answers;
          reads = p.reads;
          size = p.size;
        },
      )
      | inl again ↦
          let inserted = p.grows again in
          let one : one_if r.0 ≡ 1 = rw inserted in
          let ready : IsReady fuel stored = record {
            valid = p.valid;
            open_lock = open_lock;
            used = omega (arith, p.size, one);
            small = omega (arith, p.size, one);
            enough = rw p.same_size (omega (arith, p.size, one, enough));
          } in
          let (s, run', kept) = ht_status-Keeps mem generous fuel stored true false ready in
          (
            (r.0, s.1),
            rw (run, ◌>>=◌, again, run'),
            record {
              valid = kept.valid;
              unlocked = kept.unlocked;
              answers = p.answers;
              reads = λ q real. kept.reads q real ∙ p.reads q real;
              size = kept.size ∙ p.size;
            },
          )
    ]

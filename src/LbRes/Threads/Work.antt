-- ===== src/LbRes/Threads/Work.antt =====
-- The work of a call under the lock of its bucket (clht_put and clht_remove of clht_lb_res.c), on a
-- table of which other buckets may be locked.
use mathlib.Core.Option.{or_else}
use cht_bench.Prelude.{
  ℕ, ◌+◌, ◌≤◌, ◌<◌, ◌≡◌, refl, ◌≢◌, ◌⊎◌, Bool, true, false, Option, none, some, arith, inl, inr,
  ◌==◌, if◌then◌else◌, set, Option-cases, dec_lt,
}
use cht_bench.Prelude.Run.{ok, fault, Returns-ok}
use cht_bench.Hash.{u32}
use cht_bench.Chain.{
  hit, miss, Bucket, Chain, bucket_create, put_loop, write, append_bucket, with_lock, first,
}
use cht_bench.Chain.Slots.{
  find, occurs, find-eq-some, scan_absent, scan_present, first_empty, first_empty-IsEmptyAt,
}
use cht_bench.Chain.Effects.{Adds, Removes, cleared-Removes, set-Adds, append-Adds, new_row}
use cht_bench.Chain.Laws.{
  slots, decide_found, put_loop-scan, slots-write, slots-append_bucket, slots-with_lock,
  lock-with_lock, remove_loop_present, remove_loop_absent,
}
use cht_bench.LbRes.{Hashtable, Memory, lock_free, bucket_create_stats}
use cht_bench.LbRes.Ops.{put_locked, remove_locked}

-- A table with one chain replaced, and another count of expansions.
abbrev pub rewritten : Hashtable → ℕ → ℕ → Chain → Hashtable
rewritten h n bin c = record h { num_expands = n; table = set h.table bin c }

-- What the counter does: it stays, or a bucket was granted and it is one higher, and only the one that
-- makes it reach the threshold asks for a resize.
pub data Counts (mem : Memory) (h : Hashtable) : ℕ → Bool → Type 0 where
  stays : Counts mem h h.num_expands false
  grows :
      (again : Bool)
      → mem.bucket h.version h.num_expands ≢ none
      → again ≡ (if u32 (h.num_expands + 1) == h.num_expands_threshold then true else false)
      → Counts mem h (u32 (h.num_expands + 1)) again

pub record PutWork (mem : Memory) (h : Hashtable) (bin : ℕ) (c : Chain) (k v : ℕ)
    (r : Bool × Hashtable × Bool) : Type 0 where
  pub chain : Chain
  pub expands : ℕ
  pub same : r.1 ≡ rewritten h expands bin chain
  pub unlocked : (first chain).lock ≡ lock_free
  pub counts : Counts mem h expands r.2
  pub stored : r.0 ≡ true → (occurs k (slots c) ≡ 0) × Adds k v (slots c) (slots chain)
  pub refused : r.0 ≡ false → (0 < occurs k (slots c)) × (slots chain ≡ slots c)

pub record RemoveWork (h : Hashtable) (bin : ℕ) (c : Chain) (k : ℕ) (r : ℕ × Hashtable)
    : Type 0 where
  pub chain : Chain
  pub same : r.1 ≡ rewritten h h.num_expands bin chain
  pub unlocked : (first chain).lock ≡ lock_free
  pub did :
      ((find k (slots c) ≡ some r.0) × Removes k (slots c) (slots chain))
      ⊎ ((r.0 ≡ 0) × (occurs k (slots c) ≡ 0) × (slots chain ≡ slots c))

module _ (mem : Memory) (h : Hashtable) (bin : ℕ) (c : Chain) (k v : ℕ) (used : k ≢ 0) where
  stored-PutWork :
      (n : ℕ) (again : Bool) (d : Chain)
      → Counts mem h n again
      → occurs k (slots c) ≡ 0
      → Adds k v (slots c) (slots d)
      → PutWork mem h bin c k v (true, rewritten h n bin (with_lock lock_free d), again)
  stored-PutWork n again d counts absent a = record {
    chain = with_lock lock_free d;
    expands = n;
    same = refl;
    unlocked = lock-with_lock lock_free d;
    counts = counts;
    stored = λ e. (absent, rw (slots-with_lock lock_free d) a);
    refused = λ e. absurd (cc);
  }

  absent_loop :
      {e : Option ℕ}
      → occurs k (slots c) ≡ 0
      → first_empty 0 (slots c) ≡ e
      → put_loop k 0 none c ≡ decide_found (miss e)
  unfolding or_else
  absent_loop absent e = rw (put_loop-scan k 0 none c, scan_absent k 0 none (slots c) absent, e)

  -- The work of a put, where it returns.
  pub put_locked-PutWork :
      (r : Bool × Hashtable × Bool) → put_locked mem h bin c k v ≡ ok r → PutWork mem h bin c k v r
  unfolding put_locked bucket_create_stats bucket_create
  put_locked-PutWork r run = elim (dec_lt 0 (occurs k (slots c))) [
    | yes here ↦
        let found : put_loop k 0 none c ≡ decide_found hit =
          rw (put_loop-scan k 0 none c, scan_present k 0 none (slots c) here) in
        Returns-ok (PutWork mem h bin c k v) (put_locked mem h bin c k v) r
          (
            (false, rewritten h h.num_expands bin (with_lock lock_free c), false),
            rw (found, put_locked),
            record {
              chain = with_lock lock_free c;
              expands = h.num_expands;
              same = refl;
              unlocked = lock-with_lock lock_free c;
              counts = stays;
              stored = λ e. absurd (cc);
              refused = λ e. (here, slots-with_lock lock_free c);
            },
          )
          run
    | no away ↦
        let absent : occurs k (slots c) ≡ 0 = omega arith in
        elim (Option-cases (first_empty 0 (slots c))) [
          | inr (p, e) ↦
              let (i, p_i, empty) = first_empty-IsEmptyAt 0 (slots c) p e in
              let i_p : i ≡ p = omega arith in
              let d = write p (record { key = k; val = v }) c in
              Returns-ok (PutWork mem h bin c k v) (put_locked mem h bin c k v) r
                (
                  (true, rewritten h h.num_expands bin (with_lock lock_free d), false),
                  rw (absent_loop absent e, put_locked),
                  stored-PutWork h.num_expands false d stays absent (
                      rw (slots-write p (record { key = k; val = v }) c)
                        (set-Adds k v used (slots c) absent p (rw i_p at empty))),
                )
                run
          | inl e ↦ elim (Option-cases (mem.bucket h.version h.num_expands)) [
            | inl null ↦
                let stops : put_locked mem h bin c k v ≡ fault =
                  rw (absent_loop absent e, put_locked, bucket_create_stats, null, bucket_create) in
                absurd (cc)
            | inr (junk, got) ↦
                let n = u32 (h.num_expands + 1) in
                let again = if n == h.num_expands_threshold then true else false in
                let b : Bucket = record { lock = 0; entries = new_row k v (junk 1) (junk 2) } in
                let d = append_bucket c b in
                Returns-ok (PutWork mem h bin c k v) (put_locked mem h bin c k v) r
                  (
                    (true, rewritten h n bin (with_lock lock_free d), again),
                    rw (absent_loop absent e, put_locked, bucket_create_stats, got, bucket_create),
                    stored-PutWork n again d (grows again (λ z. absurd (cc)) refl) absent (
                        rw (slots-append_bucket c b)
                          (append-Adds k v used (slots c) absent (junk 1) (junk 2))),
                  )
                  run
          ]
        ]
  ]

  -- The work of a removal.
  pub remove_locked-RemoveWork :
      (r : ℕ × Hashtable)
      → occurs k (slots c) ≤ 1
      → remove_locked h bin c k ≡ ok r
      → RemoveWork h bin c k r
  unfolding remove_locked
  remove_locked-RemoveWork r once run = elim (dec_lt 0 (occurs k (slots c))) [
    | yes here ↦
        let (w, found) = find-eq-some k (slots c) here in
        let (d, took, row_d) = remove_loop_present k w c found in
        Returns-ok (RemoveWork h bin c k) (remove_locked h bin c k) r
          (
            (w, rewritten h h.num_expands bin (with_lock lock_free d)),
            rw (took, remove_locked),
            record {
              chain = with_lock lock_free d;
              same = refl;
              unlocked = lock-with_lock lock_free d;
              did = inl (
                found,
                rw (slots-with_lock lock_free d, row_d)
                    (cleared-Removes k (slots c) used here once),
              );
            },
          )
          run
    | no away ↦
        let absent : occurs k (slots c) ≡ 0 = omega arith in
        Returns-ok (RemoveWork h bin c k) (remove_locked h bin c k) r
          (
            (0, rewritten h h.num_expands bin (with_lock lock_free c)),
            rw (remove_loop_absent k c absent, remove_locked),
            record {
              chain = with_lock lock_free c;
              same = refl;
              unlocked = lock-with_lock lock_free c;
              did = inr (refl, absent, slots-with_lock lock_free c);
            },
          )
          run
  ]

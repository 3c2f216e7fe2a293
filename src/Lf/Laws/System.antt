-- ===== src/Lf/Laws/System.antt =====
-- Any number of threads on one bucket: the invariant of every reachable state, and the entries before
-- and after every step.
use cht_bench.Prelude.{
  ℕ, ◌+◌, ◌^◌, ◌≤◌, ◌<◌, ◌≡◌, refl, ◌∙◌, sym, ◌≢◌, inl, inr, none, some, arith, ℕ_discrete,
}
use mathlib.Core.Path.{subst}
use cht_bench.Lf.{
  Bucket, Thread, put_retry, get_search, remove_retry, at_val, Event, none_yet, Outcome, System,
  with_thread, stepped, Step, moves, calls_put, calls_remove, calls_get, Reach, start, then_step,
}
use cht_bench.Lf.Laws.Local.{Local, Local-Evolves, owned, owned-insrt}
use cht_bench.Lf.Laws.Slot.{IsOk}
use cht_bench.Lf.Laws.Own.{Fair}
use cht_bench.Lf.Laws.Step.{advance-Fair}
use cht_bench.Lf.Laws.Refine.{Specified, advance-Specified}

pub record Invariant (y : System) : Type 0 where
  pub ok : IsOk y.bucket
  pub local : (t : ℕ) → Local y.bucket (y.threads t)
  pub apart : (t u i : ℕ) → t ≢ u → owned (y.threads t) ≡ some i → owned (y.threads u) ≢ some i
  pub version : y.bucket.snapshot.version ≡ y.inserted

module _ (ts : ℕ → Thread) (t : ℕ) (x : Thread) where
  replaced : (u : ℕ) → t ≡ u → with_thread ts t x u ≡ x
  replaced u e = ground arith

  unreplaced : (u : ℕ) → t ≢ u → with_thread ts t x u ≡ ts u
  unreplaced u n = ground arith

  -- A property of all threads, when one is replaced.
  each_thread :
      (P : Thread → Type 0)
      → P x
      → ((u : ℕ) → t ≢ u → P (ts u))
      → (u : ℕ) → P (with_thread ts t x u)
  each_thread P here other u = elim (ℕ_discrete t u) [
    | yes e ↦ rw (replaced u e) here
    | no n ↦ rw (unreplaced u n) (other u n)
  ]

  -- Threads own different slots, when one is replaced.
  all_apart :
      ((a b i : ℕ) → a ≢ b → owned (ts a) ≡ some i → owned (ts b) ≢ some i)
      → ((u i : ℕ) → t ≢ u → owned x ≡ some i → owned (ts u) ≢ some i)
      → (a b i : ℕ) → a ≢ b
      → owned (with_thread ts t x a) ≡ some i
      → owned (with_thread ts t x b) ≢ some i
  all_apart old new a b i away = elim (ℕ_discrete t a) [
    | yes e ↦
        let n : t ≢ b = λ f. away (sym e ∙ f) in
        rw (replaced a e, unreplaced b n) (λ p q. new b i n p q)
    | no n ↦ elim (ℕ_discrete t b) [
      | yes f ↦ rw (unreplaced a n, replaced b f) (λ p q. new a i n q p)
      | no m ↦ rw (unreplaced a n, unreplaced b m) (old a b i away)
    ]
  ]

module _ (y : System) (inv : Invariant y) where
  -- The step of one thread keeps the invariant.
  moves-Invariant :
      (t : ℕ) (o : Outcome) → Fair y.bucket (y.threads t) o → Invariant (stepped y t o)
  moves-Invariant t o fair = record {
    ok = fair.ok;
    local = each_thread y.threads t o.thread (Local o.bucket) fair.local (λ u away.
        Local-Evolves y.bucket o.bucket fair.evolves (y.threads u)
          (λ i below held theirs.
            fair.leaves i below held (λ mine. inv.apart t u i away mine theirs))
          (inv.local u));
    apart = all_apart y.threads t o.thread inv.apart (λ u i away mine theirs.
        elim (fair.owns i mine) [
          | inl before ↦ inv.apart t u i away before theirs
          | inr free ↦
              let held = owned-insrt y.bucket (y.threads u) i (inv.local u) theirs in
              absurd (omega (arith, held.1, free))
        ]);
    version = omega (arith, fair.version, inv.version);
  }

  -- A thread enters a call.
  calls-Invariant :
      (t : ℕ) (th : Thread)
      → Local y.bucket th
      → owned th ≡ none
      → Invariant (record y { threads = with_thread y.threads t th })
  calls-Invariant t th l free = record {
    ok = inv.ok;
    local = each_thread y.threads t th (Local y.bucket) l (λ u away. inv.local u);
    apart = all_apart y.threads t th inv.apart (λ u i away mine. absurd (cc));
    version = inv.version;
  }

-- No step takes an insertion back.
Step-le : {y : System} {e : Event} {z : System} → Step y e z → y.inserted ≤ z.inserted
Step-le (moves t o h) = omega arith
Step-le (calls_put t k v free real) = omega arith
Step-le (calls_remove t k free) = omega arith
Step-le (calls_get t k free) = omega arith

Step-Invariant :
    {y : System} {e : Event} {z : System}
    → Invariant y
    → Step y e z
    → y.inserted + 1 < 2 ^ 32
    → Invariant z
Step-Invariant {y} inv (moves t o h) few =
    let fair =
      advance-Fair y.bucket inv.ok (y.threads t) (inv.local t) (omega (arith, inv.version)) in
    moves-Invariant y inv t o (rw h fair)
Step-Invariant {y} inv (calls_put t k v free real) few =
    calls-Invariant y inv t (put_retry k v none) (real, tt) refl
Step-Invariant {y} inv (calls_remove t k free) few =
    calls-Invariant y inv t (remove_retry k) tt refl
Step-Invariant {y} inv (calls_get t k free) few =
    calls-Invariant y inv t (get_search k (at_val 0)) tt refl

-- In every state that any number of threads can reach on one bucket of the lock-free table, with
-- fewer than 2^32 - 1 insertions and values other than 0 put, no two valid slots have the same
-- key, no valid slot has the value 0, a slot that a put has reserved belongs to one thread, and
-- the version counts the insertions.
pub Reach-Invariant :
    (junk : ℕ → ℕ) {y : System} → Reach junk y → y.inserted + 1 < 2 ^ 32 → Invariant y
Reach-Invariant junk start few = record {
  ok = record {
    nonzero = λ j below valid. absurd (omega (arith, valid));
    unique = λ i j below_i below_j valid_i valid_j e. absurd (omega (arith, valid_i));
  };
  local = λ t. tt;
  apart = λ t u i away h. absurd (cc);
  version = refl;
}
Reach-Invariant junk (then_step before step) few =
    let le = Step-le step in
    Step-Invariant (Reach-Invariant junk before (omega (arith, le))) step (omega (arith, le))

calls-Specified : (b : Bucket) → Specified none_yet b b
calls-Specified b q u = (λ h. h, λ h. h)

-- Every step of any number of threads on one bucket of the lock-free table, from a reachable state
-- with fewer than 2^32 - 1 insertions before it and values other than 0 put, does to the entries
-- of the bucket what its event says: where clht_put returns true the key was not there and just
-- its entry is added, where clht_remove returns a value the entry of the key with that value was
-- there and just it is removed, and no other step changes an entry.
pub Reach-Specified :
    (junk : ℕ → ℕ) {y : System} {e : Event} {z : System}
    → Reach junk y
    → Step y e z
    → y.inserted + 1 < 2 ^ 32
    → Specified e y.bucket z.bucket
Reach-Specified junk {y} before (moves t o h) few =
    let inv = Reach-Invariant junk before few in
    let did =
      advance-Specified y.bucket inv.ok (y.threads t) (inv.local t) (omega (arith, inv.version)) in
    subst (λ x. Specified x.event y.bucket x.bucket) (sym h) did
Reach-Specified junk {y} before (calls_put t k v free real) few = calls-Specified y.bucket
Reach-Specified junk {y} before (calls_remove t k free) few = calls-Specified y.bucket
Reach-Specified junk {y} before (calls_get t k free) few = calls-Specified y.bucket

-- ===== src/LbRes/Threads/Transfer.antt =====
-- What the copy of a bucket and the swap of the tables do to the threads.
use cht_bench.LbRes.Threads.Effects.{replaced, replace-Shared}
use cht_bench.Prelude.{
  ℕ, suc, ◌≤◌, ◌≡◌, refl, ap, ◌≢◌, inl, inr, Bool, true, false, none, some, arith, get_elem?, set,
  length, Option-cases,
}
use cht_bench.Chain.{Chain, first}
use cht_bench.LbRes.{Hashtable, Memory, lock_free, lock_update}
use cht_bench.LbRes.Threads.{
  Update, Thread, idle, enter, exists, acquire, again, locked, status, start_resize, trylock, copy,
  publish, unlock, with_thread,
}
use cht_bench.LbRes.Threads.Copying.{Copied}
use cht_bench.LbRes.Threads.Work.{rewritten}
use cht_bench.LbRes.Threads.Invariant.{
  lock_at, lock_at_lem, lock_at-lt, bin, claims, holds, Local, Sound, Shared, holds-Local,
  Local-rewritten,
}

-- Only a copying thread looks at how far the copy is.
pub Local-progress :
    (mem : Memory) (cur : Hashtable) (current p q : ℕ) (th : Thread)
    → claims th ≡ false
    → Local mem cur current p th
    → Local mem cur current q th
Local-progress mem cur current p q (copy o b n) plain l = absurd (cc)
Local-progress mem cur current p q idle plain l = l
Local-progress mem cur current p q (enter call) plain l = l
Local-progress mem cur current p q (exists call t at) plain l = l
Local-progress mem cur current p q (acquire call t) plain l = l
Local-progress mem cur current p q (again call) plain l = l
Local-progress mem cur current p q (locked call t) plain l = l
Local-progress mem cur current p q status plain l = l
Local-progress mem cur current p q (start_resize by) plain l = l
Local-progress mem cur current p q (trylock by o) plain l = l
Local-progress mem cur current p q (publish o more) plain l = l
Local-progress mem cur current p q (unlock more) plain l = l

-- A thread that holds no lock and may not resize does not look at the table.
pub Local-swap :
    (mem : Memory) (cur new : Hashtable) (current p q : ℕ) (th : Thread)
    → claims th ≡ false
    → holds th ≡ none
    → Local mem cur current p th
    → Local mem new (suc current) q th
Local-swap mem cur new current p q (copy o b n) plain free l = absurd (cc)
Local-swap mem cur new current p q idle plain free l = l
Local-swap mem cur new current p q (enter call) plain free l = l
Local-swap mem cur new current p q (exists call t at) plain free l = (l.0, omega (arith, l.1))
Local-swap mem cur new current p q (acquire call t) plain free l = (l.0, omega (arith, l.1))
Local-swap mem cur new current p q (again call) plain free l = l
Local-swap mem cur new current p q (locked call t) plain free l = absurd (cc)
Local-swap mem cur new current p q status plain free l = l
Local-swap mem cur new current p q (start_resize by) plain free l = l
Local-swap mem cur new current p q (trylock by o) plain free l = absurd (cc)
Local-swap mem cur new current p q (publish o more) plain free l = omega (arith, l)
Local-swap mem cur new current p q (unlock more) plain free l = l

module _ (mem : Memory) (cur : Hashtable) (current p : ℕ) (ts : ℕ → Thread) (sound : Sound cur p)
    (shared : Shared mem cur current p ts) (a : ℕ) (claiming : claims (ts a) ≡ true) where
  -- The next bucket is copied: it was free, and is locked for good.
  pub copy-Shared :
      (o : ℕ) (c d : Chain) (ht_new : Hashtable)
      → o ≡ current
      → get_elem? cur.table p ≡ some c
      → (first c).lock ≡ lock_free
      → Copied mem (suc p) (set cur.table p d) ht_new
      → Shared mem
          (rewritten cur cur.num_expands p d)
          current
          (suc p)
          (with_thread ts a (copy o (suc p) ht_new))
  copy-Shared o c d ht_new is_current here unlocked done =
      let others : (b : ℕ) → a ≢ b → (u : Update) → holds (ts b) ≡ some u → bin cur u ≢ p =
        λ b away u held same.
          let mine = holds-Local mem cur current p (ts b) u (shared.local b) held in
          let free = lock_at_lem cur.table p c here in
          let at_p = ap (lock_at cur.table) same in absurd (cc) in
      replace-Shared mem cur current p ts shared a (rewritten cur cur.num_expands p d) current
        (suc p) (copy o (suc p) ht_new) (is_current, refl, done)
        (λ b away.
          Local-progress mem (rewritten cur cur.num_expands p d) current p (suc p) (ts b)
            (shared.sole a b away claiming)
            (Local-rewritten mem cur current p cur.num_expands p d (ts b) (omega arith)
              (others b away) (shared.local b)))
        shared.apart (λ b away u v mine theirs. absurd (cc))
        (λ now b away. shared.sole a b away claiming) (λ now. shared.spent a claiming)
        (λ b away. shared.spent b)
        (λ more. (a, rw (replaced ts a (copy o (suc p) ht_new) a refl) refl))

  -- The tables are exchanged when all buckets are copied: no thread holds a lock of the old one.
  pub nothing_held : length cur.table ≤ p → (b : ℕ) (u : Update) → holds (ts b) ≢ some u
  nothing_held all b u held =
      let mine = holds-Local mem cur current p (ts b) u (shared.local b) held in
      let inside = lock_at-lt cur.table (bin cur u) lock_update mine in
      absurd (omega (arith, sound.frozen (bin cur u) lock_update (omega (arith, inside, all)) mine))

  pub swap-Shared :
      (new : Hashtable) (more : Bool)
      → length cur.table ≤ p
      → (more ≡ true → new.num_expands_threshold ≤ new.num_expands)
      → Shared mem new (suc current) 0 (with_thread ts a (publish current more))
  swap-Shared new more all enough =
      let free : (b : ℕ) → holds (ts b) ≡ none = λ b. elim (Option-cases (holds (ts b))) [
        | inl e ↦ e
        | inr (u, e) ↦ absurd (nothing_held all b u e)
      ] in
      replace-Shared mem cur current p ts shared a new (suc current) 0 (publish current more)
        (omega arith)
        (λ b away.
          Local-swap mem cur new current p 0 (ts b) (shared.sole a b away claiming) (free b)
            (shared.local b))
        (λ b c away u v mine theirs. absurd (let e = free b in cc))
        (λ b away u v mine theirs. absurd (cc)) (λ now b away. shared.sole a b away claiming) enough
        (λ b away now. absurd (let e = shared.sole a b away claiming in cc))
        (λ some_copied. absurd (omega arith))

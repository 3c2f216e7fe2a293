-- ===== src/LbRes/Threads/Moving.antt =====
-- The steps of ht_resize_pes: the resize lock and the new table, the copy of a bucket, and the swap.
use mathlib.Core.Path.{subst}
use cht_bench.Prelude.{
  ℕ, suc, ◌≤◌, ◌<◌, ◌≡◌, refl, ap, ◌⊎◌, Bool, true, false, none, some, arith, inl, inr, ltb, leb,
  length, Bool-cases, ℕ_discrete,
}
use cht_bench.Prelude.Run.{Run, ok, blocked, ◌>>=◌, bind-ok}
use cht_bench.Hash.{hash_bin}
use cht_bench.Chain.{Chain, first}
use cht_bench.Chain.Laws.{slots, slots-with_lock, lock-with_lock}
use cht_bench.LbRes.{
  Hashtable, Memory, lock_free, lock_update, lock_resize, bucket_at, with_bucket, lock_acq_resize,
}
use cht_bench.LbRes.Seq.{bucket_cpy}
use cht_bench.LbRes.Threads.{
  copy, publish, unlock, silent, Outcome, outcome, with_table, swap, copy_next, System,
}
use cht_bench.LbRes.Threads.Work.{rewritten}
use cht_bench.LbRes.Threads.Copying.{Copied, Copied-next, Copied-Moved}
use cht_bench.Hash.{next_int32}
use cht_bench.Hash.Laws.{next_int32-ok}
use cht_bench.LbRes.Threads.Invariant.{holds, publishes, lock_at, lock_at_lem, lock_at-lt}
use cht_bench.LbRes.Threads.Frontier.{nothing_locked, copy-Sound, IsValid-Sound, view-set}
use cht_bench.LbRes.Threads.Effects.{
  quiet, replaced, unreplaced, other_stays, Held-other, Held-rewritten,
}
use cht_bench.LbRes.Threads.Transfer.{copy-Shared, swap-Shared}
use cht_bench.LbRes.Threads.Kept.{
  Invariant, Kept, current_table, with_table_self, with_table_ne, bucket_at-ok, current-Kept,
}

-- A bucket whose lock is free or held for an update is copied only when the lock is free.
bucket_cpy-waits :
    (mem : Memory) (c : Chain) (ht_new : Hashtable) (r : Chain × Hashtable)
    → ((first c).lock ≡ lock_free) ⊎ ((first c).lock ≡ lock_update)
    → bucket_cpy mem c ht_new ≡ ok r
    → (first c).lock ≡ lock_free
unfolding bucket_cpy lock_acq_resize
bucket_cpy-waits mem c ht_new r (inl free) run = free
bucket_cpy-waits mem c ht_new r (inr taken) run =
    let z : blocked ≡ ok r = rw taken at run in absurd (cc)

module _ (mem : Memory) (y : System) (inv : Invariant mem y) (a : ℕ) (ht_new : Hashtable)
    (here : y.threads a ≡ copy y.store.current inv.progress ht_new)
    (done : Copied mem inv.progress (current_table y.store).table ht_new) where
  abbrev cur : Hashtable
  cur = current_table y.store

  -- The next bucket.
  round-Kept :
      (o : Outcome)
      → bucket_at cur inv.progress >>= (λ c. bucket_cpy mem c ht_new >>= λ (c', ht_new').
          next_int32 inv.progress >>= λ b'. ok (
            outcome
              (with_table y.store y.store.current (with_bucket cur inv.progress c'))
              (copy y.store.current b' ht_new')
              silent))
        ≡ ok o
      → Kept mem y a o
  round-Kept o run =
      let p = inv.progress in
      let last : Chain × Hashtable → ℕ → Run Outcome = λ r b'. ok (
        outcome (with_table y.store y.store.current (with_bucket cur p r.0))
          (copy y.store.current b' r.1) silent) in
      let next : Chain × Hashtable → Run Outcome = λ r. next_int32 p >>= last r in
      let (c, at_p, rest) =
        bind-ok (bucket_at cur p) (λ c. bucket_cpy mem c ht_new >>= next) o run in
      let (r, copied, counting) = bind-ok (bucket_cpy mem c ht_new) next o rest in
      let (b', counted, e) = bind-ok (next_int32 p) (last r) o counting in
      let one_more : suc p ≡ b' = next_int32-ok p b' counted in
      let there = bucket_at-ok cur p c at_p in
      let word = lock_at_lem cur.table p c there in
      let free =
        bucket_cpy-waits mem c ht_new r (inv.sound.ahead p (first c).lock (omega arith) word)
          copied in
      let (chain, moved) = Copied-next mem p cur.table c ht_new r there free copied done in
      let taken : (first r.0).lock ≡ lock_resize = rw chain (lock-with_lock lock_resize c) in
      let same : slots r.0 ≡ slots c = rw chain (slots-with_lock lock_resize c) in
      let o_is : outcome (with_table y.store y.store.current (with_bucket cur p r.0))
            (copy y.store.current (suc p) r.1) silent
          ≡ o =
        cc in
      subst (Kept mem y a) o_is (
        current-Kept mem y inv a (rewritten cur cur.num_expands p r.0) (suc p)
          (copy y.store.current (suc p) r.1) silent
          (copy-Sound cur p cur.num_expands c r.0 inv.sound there same taken)
          (copy-Shared mem cur y.store.current p y.threads inv.sound inv.shared a (rw here refl)
            y.store.current c r.0 r.1 refl there free moved)
          (Held-rewritten cur cur.num_expands p c r.0 y.threads a (copy y.store.current (suc p) r.1)
            there (λ updated. absurd (omega (arith, updated, taken)))
            (λ u mine. absurd (let z : holds (y.threads a) ≡ none = rw here refl in cc)) inv.held)
          (rw here refl) (λ q real. view-set (hash_bin cur.hash) cur.table p c r.0 there same q))

  -- The swap, when all buckets are copied.
  swap-Kept :
      cur.num_buckets ≤ inv.progress
      → Kept mem y a (
          outcome
            (swap y.store ht_new)
            (publish y.store.current (leb ht_new.num_expands_threshold ht_new.num_expands))
            silent)
  swap-Kept all =
      let t = y.store.current in
      let whole : length cur.table ≤ inv.progress = omega (arith, inv.sound.width, all) in
      let moved = Copied-Moved mem inv.progress cur ht_new inv.sound.placed whole done in
      let self = with_table_self y.store (suc t) ht_new in
      record {
        invariant = record {
          progress = 0;
          sound = rw self (IsValid-Sound ht_new moved.valid);
          shared = rw self (
              swap-Shared mem cur t inv.progress y.threads inv.sound inv.shared a (rw here refl)
                ht_new (leb ht_new.num_expands_threshold ht_new.num_expands) whole
                (λ more. ground arith));
          old = λ u i l before at_i.
              let kept = with_table_ne y.store (suc t) u ht_new (λ z. absurd (omega arith)) in
              let at_u : lock_at (y.store.tables u).table i ≡ some l = rw kept at at_i in
              elim (ℕ_discrete u t) [
                | no n ↦ inv.old u i l (omega arith) at_u
                | yes e ↦
                    let at_t : lock_at cur.table i ≡ some l = rw e at at_u in
                    let inside = lock_at-lt cur.table i l at_t in
                    inv.sound.frozen i l (omega (arith, inside, whole)) at_t
              ];
          held = rw self (λ i taken. absurd (nothing_locked ht_new i moved.valid taken));
          published = λ u before unset.
              let kept = with_table_ne y.store (suc t) u ht_new (λ z. absurd (omega arith)) in
              let more = leb ht_new.num_expands_threshold ht_new.num_expands in
              elim (ℕ_discrete t u) [
                | yes e ↦ (a, rw (replaced y.threads a (publish t more) a refl) (ap some e))
                | no n ↦
                    let (b, f) = inv.published u (omega arith) (rw kept at unset) in
                    (b, other_stays y.threads a (publish t more) publishes b u (rw here refl) f)
              ];
        };
        specified = rw self (λ q real. moved.reads q real);
      }

  pub copy_next-Kept :
      (o : Outcome)
      → copy_next mem y.store.current inv.progress ht_new y.store ≡ ok o
      → Kept mem y a o
  unfolding copy_next
  copy_next-Kept o run = elim (Bool-cases (ltb inv.progress cur.num_buckets)) [
    | inl more ↦ round-Kept o (rw more at run)
    | inr all ↦
        let th = publish y.store.current (leb ht_new.num_expands_threshold ht_new.num_expands) in
        let z : ok (outcome (swap y.store ht_new) th silent) ≡ ok o = rw all at run in
        let same : outcome (swap y.store ht_new) th silent ≡ o = cc in
        subst (Kept mem y a) same (swap-Kept (ground arith))
  ]

module _ (mem : Memory) (y : System) (inv : Invariant mem y) (a : ℕ) where
  -- `table_new` of an old table is set.
  pub publish-Kept :
      (ht_old : ℕ) (more : Bool)
      → y.threads a ≡ publish ht_old more
      → ht_old < y.store.current
      → Kept mem y a (
          outcome
            (with_table y.store ht_old (record (y.store.tables ht_old) { has_new = true }))
            (unlock more)
            silent)
  publish-Kept ht_old more here before =
      let h = record (y.store.tables ht_old) { has_new = true } in
      let kept = with_table_ne y.store ht_old y.store.current h (λ z. absurd (omega arith)) in
      record {
        invariant = record {
          progress = inv.progress;
          sound = rw kept inv.sound;
          shared = rw kept (
              quiet mem (current_table y.store) y.store.current inv.progress y.threads inv.shared a
                (unlock more) tt refl (λ now. rw here now) (rw here refl));
          old = λ t i l older at_i. elim (ℕ_discrete ht_old t) [
            | no n ↦ inv.old t i l older (rw (with_table_ne y.store ht_old t h n) at at_i)
            | yes e ↦
                inv.old ht_old i l before
                  (rw (with_table_self y.store ht_old h) at (rw (← e) at at_i))
          ];
          held = rw kept (
              Held-other (current_table y.store) y.threads a (unlock more) (rw here refl) inv.held);
          published = λ t older unset. elim (ℕ_discrete ht_old t) [
            | yes e ↦
                let set_now : true ≡ false =
                  rw (with_table_self y.store ht_old h) at (rw (← e) at unset) in
                absurd (cc)
            | no n ↦
                let (b, f) =
                  inv.published t older (rw (with_table_ne y.store ht_old t h n) at unset) in
                elim (ℕ_discrete a b) [
                  | yes z ↦
                      let w = ap (λ x. publishes (y.threads x)) z in
                      let mine : publishes (y.threads a) ≡ some ht_old = rw here refl in
                      absurd (n (cc))
                  | no m ↦ (b, rw (unreplaced y.threads a (unlock more) b m) f)
                ]
          ];
        };
        specified = rw kept (λ q real. refl);
      }

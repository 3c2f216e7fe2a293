-- ===== src/LbRes/Threads/Progress.antt =====
-- No deadlock: as long as a thread is in a call, some thread in a call does not wait.
use cht_bench.Prelude.{
  ◌*◌, ℕ, suc, ◌≤◌, ◌≡◌, refl, ◌∙◌, ap, ◌≢◌, ◌⊎◌, inl, inr, true, false, Option, none, some, arith,
  ◌==◌, if◌then◌else◌, get_elem?, Option-cases, Bool-cases, ℕ_discrete, dec_lt,
}
use cht_bench.Prelude.Run.{Run, ok, fault, blocked, ◌>>=◌, bind-blocked, blocked-cases}
use cht_bench.Hash.{u64}
use cht_bench.Chain.{Chain}
use cht_bench.Chain.Laws.{slots}
use cht_bench.LbRes.{
  Hashtable, Memory, lock_free, lock_update, lock_resize, hashtable_create, bucket_at, hash,
}
use cht_bench.LbRes.Laws.Valid.{IsValid}
use cht_bench.LbRes.Threads.{
  Update, key_of, Thread, idle, enter, exists, acquire, again, locked, status, start_resize,
  trylock, copy, publish, unlock, Outcome, outcome, silent, after_exists, work, try_acquire,
  try_resize, copy_next, advance, System, Reach,
}
use cht_bench.LbRes.Threads.Invariant.{lock_at, bin, Local}
use cht_bench.LbRes.Threads.Kept.{Invariant, current_table}
use cht_bench.LbRes.Threads.Steps.{IsBounded}
use cht_bench.LbRes.Threads.All.{Reach-Invariant_lb}
use cht_bench.LbRes.Threads.Waits.{bucket_at_goes, work_goes}
use cht_bench.LbRes.Threads.Blocked.{
  holds-cases, publishes-cases, is_copy-cases, copy_next-blocked, acquire-blocked,
}

-- A thread is in a call and does not wait, whatever `ht_status` decides.
pub record Goes (mem : Memory) (y : System) (b : ℕ) : Type 0 where
  pub busy : y.threads b ≢ idle
  pub moves_on : (decision : Option ℕ) → advance mem decision (y.threads b) y.store ≢ blocked

module _ (mem : Memory) (y : System) (inv : Invariant mem y) where
  abbrev cur : Hashtable
  cur = current_table y.store

  -- A thread at `th` that does not wait.
  goes :
      (b : ℕ) (th : Thread)
      → y.threads b ≡ th
      → th ≢ idle
      → ((decision : Option ℕ) → advance mem decision th y.store ≢ blocked)
      → (c : ℕ) × Goes mem y c
  goes b th here busy moves = (b, record { busy = rw here busy; moves_on = λ d. rw here (moves d) })

  -- The thread that holds a lock.
  holder-Goes : (i : ℕ) → lock_at cur.table i ≡ some lock_update → (c : ℕ) × Goes mem y c
  unfolding advance
  holder-Goes i taken =
      let (b, u, h, e) = inv.held i taken in
      let (t, here) = holds-cases (y.threads b) u h in
      let t_h = y.store.tables t in
      goes b (locked u t) here (λ z. cc)
        (λ d z.
          elim (bind-blocked (bucket_at t_h (hash t_h (key_of u))) (λ c. work mem u t c y.store)
            z) [
              | inl w ↦ bucket_at_goes t_h (hash t_h (key_of u)) w
              | inr (c, got, w) ↦ work_goes mem u t c y.store w
            ])

  -- The thread that copies, or the one for which it waits.
  copier-Goes :
      (b : ℕ) (o p : ℕ) (n : Hashtable) → y.threads b ≡ copy o p n → (c : ℕ) × Goes mem y c
  unfolding advance copy_next
  copier-Goes b o p n here = elim (blocked-cases (copy_next mem o p n y.store)) [
    | inr free ↦ goes b (copy o p n) here (λ z. cc) (λ d. free)
    | inl waits ↦
        let l : Local mem cur y.store.current inv.progress (copy o p n) =
          rw here at (inv.shared.local b) in
        let at_o = copy_next-blocked mem o p n y.store waits in holder-Goes p (rw l.0 at at_o)
  ]

  -- A thread that waits for a lock.
  waiter-Goes :
      (call : Update) (t l : ℕ)
      → t ≤ y.store.current
      → lock_at (y.store.tables t).table (bin (y.store.tables t) call) ≡ some l
      → ((l ≡ lock_update) ⊎ ((l ≡ lock_resize) × ((y.store.tables t).has_new ≡ false)))
      → (c : ℕ) × Goes mem y c
  unfolding advance
  waiter-Goes call t l upto word why = elim (ℕ_discrete t y.store.current) [
    | no n ↦
        let stale = inv.old t (bin (y.store.tables t) call) l (omega arith) word in
        elim why [
          | inl z ↦ absurd (omega (arith, z, stale))
          | inr (z, unset) ↦
              let (b, e) = inv.published t (omega arith) unset in
              let (more, here) = publishes-cases (y.threads b) t e in
              goes b (publish t more) here (λ x. cc) (λ d x. cc)
        ]
    | yes now ↦
        let at_cur : lock_at cur.table (bin cur call) ≡ some l = rw now at word in
        elim why [
          | inl z ↦ holder-Goes (bin cur call) (at_cur ∙ ap some z)
          | inr (z, unset) ↦ elim (dec_lt (bin cur call) inv.progress) [
            | no n ↦ elim (inv.sound.ahead (bin cur call) l (omega arith) at_cur) [
              | inl f ↦ absurd (omega (arith, f, z))
              | inr f ↦ absurd (omega (arith, f, z))
            ]
            | yes below ↦
                let (b, e) = inv.shared.working (omega arith) in
                let (o, p, n, here) = is_copy-cases (y.threads b) e in copier-Goes b o p n here
          ]
        ]
  ]

  after_exists_goes :
      (call : Update) (t at : ℕ) (decision : Option ℕ)
      → advance mem decision (exists call t at) y.store ≢ blocked
  unfolding advance
  after_exists_goes call t at decision z =
      let h = y.store.tables t in
      let next : Chain → Run Outcome = λ c. elim (get_elem? (slots c) at) [
        | none ↦ ok (after_exists call t false y.store)
        | some s ↦
            if s.key == key_of call
            then ok (after_exists call t true y.store)
            else ok (outcome y.store (exists call t (suc at)) silent)
      ] in
      elim (bind-blocked (bucket_at h (hash h (key_of call))) next z) [
        | inl w ↦ bucket_at_goes h (hash h (key_of call)) w
        | inr (c, got, w) ↦ elim (Option-cases (get_elem? (slots c) at)) [
          | inl e ↦ let x : ok (after_exists call t false y.store) ≡ blocked = rw e at w in cc
          | inr (s, e) ↦ elim (Bool-cases (s.key == key_of call)) [
            | inl hit ↦
                let x : ok (after_exists call t true y.store) ≡ blocked = rw (e, hit) at w in cc
            | inr miss ↦
                let x : ok (outcome y.store (exists call t (suc at)) silent) ≡ blocked =
                  rw (e, miss) at w in
                cc
          ]
        ]
      ]

  try_resize_goes : (by o : ℕ) → try_resize mem by o y.store ≢ blocked
  unfolding try_resize
  try_resize_goes by o z =
      let n = u64 (by * (y.store.tables o).num_buckets) in
      elim (Bool-cases (y.store.resize_lock == lock_free)) [
        | inr taken ↦ ground arith
        | inl free ↦ elim (Option-cases (hashtable_create mem n)) [
          | inl null ↦ let x : fault ≡ blocked = rw (free, null) at z in cc
          | inr (ht_new, made) ↦ ground arith
        ]
      ]

  -- A thread in a call, and one that does not wait.
  busy-Goes : (a : ℕ) (th : Thread) → y.threads a ≡ th → th ≢ idle → (c : ℕ) × Goes mem y c
  unfolding advance
  busy-Goes a idle here busy = absurd (busy refl)
  busy-Goes a (enter call) here busy = goes a (enter call) here busy (λ d z. cc)
  busy-Goes a (exists call t at) here busy =
      goes a (exists call t at) here busy (after_exists_goes call t at)
  busy-Goes a (again call) here busy = goes a (again call) here busy (λ d z. cc)
  busy-Goes a (locked call t) here busy =
      let l : Local mem cur y.store.current inv.progress (locked call t) =
        rw here at (inv.shared.local a) in
      holder-Goes (bin cur call) l.2
  busy-Goes a status here busy = goes a status here busy (λ d z. elim (Option-cases d) [
    | inl e ↦ let x : advance mem none status y.store ≡ blocked = rw e at z in cc
    | inr (by, e) ↦ let x : advance mem (some by) status y.store ≡ blocked = rw e at z in cc
  ])
  busy-Goes a (start_resize by) here busy = goes a (start_resize by) here busy (λ d z. cc)
  busy-Goes a (trylock by o) here busy = goes a (trylock by o) here busy (λ d. try_resize_goes by o)
  busy-Goes a (copy o p n) here busy = copier-Goes a o p n here
  busy-Goes a (publish o more) here busy = goes a (publish o more) here busy (λ d z. cc)
  busy-Goes a (unlock more) here busy = goes a (unlock more) here busy (λ d z. cc)
  busy-Goes a (acquire call t) here busy =
      let h = y.store.tables t in
      let run = bucket_at h (hash h (key_of call)) >>= λ c. try_acquire call t c y.store in
      elim (blocked-cases run) [
        | inr free ↦ goes a (acquire call t) here busy (λ d. free)
        | inl waits ↦
            let l : Local mem cur y.store.current inv.progress (acquire call t) =
              rw here at (inv.shared.local a) in
            let (w, word, why) = acquire-blocked call t y.store waits in
            waiter-Goes call t w l.1 word why
      ]

-- No deadlock: in every state that any number of threads that put, remove, and make the resizes
-- that their puts ask for can reach without a fault on the lock-based table from a well-formed
-- table, with keys other than 0 and memalign never giving the buckets for 2^32 expansions of one
-- table, if some thread is in a call, then there is a thread in a call whose next step does not
-- wait for a lock, whatever ht_status decides (it faults where memalign gives no table, or the
-- counter of the copying loop overflows).
pub Reach-Goes :
    (mem : Memory) (h : Hashtable) {y : System}
    → IsBounded mem
    → IsValid h
    → Reach mem h y
    → (a : ℕ) → y.threads a ≢ idle
    → (b : ℕ) × Goes mem y b
Reach-Goes mem h {y} bounded valid reached a busy =
    busy-Goes mem y (Reach-Invariant_lb mem h bounded valid reached) a (y.threads a) refl busy

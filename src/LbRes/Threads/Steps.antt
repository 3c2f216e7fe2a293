-- ===== src/LbRes/Threads/Steps.antt =====
-- The steps of a call: taking the lock of a bucket, and the work under it.
use mathlib.Core.Path.{subst}
use cht_bench.Prelude.{
  ℕ, ◌+◌, ◌^◌, ◌≤◌, ◌≡◌, refl, ◌∙◌, sym, ap, ◌≢◌, ◌⊎◌, Option, none, some, arith, inl, inr,
  get_elem?, Option-cases, Bool-cases, ℕ_discrete, dec_lt,
}
use cht_bench.Prelude.Run.{Run, ok, blocked, ◌>>=◌, bind-ok}
use cht_bench.Hash.{hash_bin}
use cht_bench.Chain.{Chain, first, with_lock}
use cht_bench.Chain.Laws.{slots-with_lock, lock-with_lock}
use cht_bench.Table.Rows.{view}
use cht_bench.LbRes.{
  Hashtable, Memory, lock_free, lock_update, lock_resize, bucket_at, hash, lock_acq_chk_resize,
  with_bucket,
}
use cht_bench.LbRes.Threads.{
  Update, key_of, acquire, again, locked, silent, Outcome, outcome, with_table, try_acquire, System,
}
use cht_bench.LbRes.Threads.Work.{rewritten}
use cht_bench.LbRes.Threads.Invariant.{
  holds, lock_at, lock_at_lem, lock_at-set_self, bin, holds-Local,
}
use cht_bench.LbRes.Threads.Frontier.{rewrite-Sound, IsPlaced-set, view-set}
use cht_bench.LbRes.Threads.Effects.{rewrite-Shared, Held-rewritten}
use cht_bench.LbRes.Threads.Kept.{
  Invariant, Kept, current_table, bucket_at-ok, quiet-Kept, current-Kept,
}

-- Memory does not hold 2^32 buckets of expansions of one table.
abbrev pub IsBounded : Memory → Type 0
IsBounded mem = (version n : ℕ) → 2 ^ 32 ≤ n + 1 → mem.bucket version n ≡ none

-- `lock_acq_chk_resize` takes a lock that is free, and no other.
acquired :
    (l r : ℕ) (h : Hashtable)
    → (l ≡ lock_free) ⊎ (l ≡ lock_update)
    → lock_acq_chk_resize l h ≡ ok (some r)
    → (l ≡ lock_free) × (r ≡ lock_update)
unfolding lock_acq_chk_resize
acquired l r h (inl free) run =
    let z : ok (some lock_update) ≡ ok (some r) = rw free at run in (free, cc)
acquired l r h (inr taken) run = let z : blocked ≡ ok (some r) = rw taken at run in absurd (cc)

refused : (l r : ℕ) (h : Hashtable) → l ≡ lock_resize → lock_acq_chk_resize l h ≢ ok (some r)
unfolding lock_acq_chk_resize
refused l r h taken run = elim (Bool-cases h.has_new) [
  | inl new ↦ let z : ok none ≡ ok (some r) = rw (taken, new) at run in cc
  | inr old ↦ let z : blocked ≡ ok (some r) = rw (taken, old) at run in cc
]

module _ (mem : Memory) (y : System) (inv : Invariant mem y) (a : ℕ) where
  abbrev cur : Hashtable
  cur = current_table y.store

  -- The lock of a bucket of the current table is taken.
  takes-Kept :
      (call : Update) (c : Chain)
      → y.threads a ≡ acquire call y.store.current
      → key_of call ≢ 0
      → get_elem? cur.table (bin cur call) ≡ some c
      → (first c).lock ≡ lock_free
      → Kept mem y a (
          outcome
            (with_table y.store y.store.current
              (with_bucket cur (bin cur call) (with_lock lock_update c)))
            (locked call y.store.current)
            silent)
  unfolding view
  takes-Kept call c here used there free =
      let d = with_lock lock_update c in
      let i = bin cur call in
      let word = lock_at_lem cur.table i c there in
      let above : inv.progress ≤ i = elim (dec_lt i inv.progress) [
        | yes below ↦ absurd (omega (arith, inv.sound.frozen i (first c).lock below word, free))
        | no n ↦ omega arith
      ] in
      let placed =
        IsPlaced-set (hash_bin cur.hash) cur.table i c d there (slots-with_lock lock_update c)
          inv.sound.placed in
      current-Kept mem y inv a (rewritten cur cur.num_expands i d) inv.progress
        (locked call y.store.current) silent
        (rewrite-Sound cur inv.progress cur.num_expands i c d inv.sound above there
          (inr (lock-with_lock lock_update c)) placed)
        (rewrite-Shared mem cur y.store.current inv.progress y.threads inv.shared a cur.num_expands
          i d (locked call y.store.current) above
          (λ b away u held same.
            let theirs =
              holds-Local mem cur y.store.current inv.progress (y.threads b) u (inv.shared.local b)
                held in
            let at_i = ap (lock_at cur.table) same in absurd (cc))
          (
            used,
            refl,
            lock_at-set_self cur.table i c d there ∙ ap some (lock-with_lock lock_update c),
          )
          (λ u mine. let z : call ≡ u = cc in rw z refl) (omega arith) (λ now. absurd (cc))
          (rw here refl))
        (Held-rewritten cur cur.num_expands i c d y.threads a (locked call y.store.current) there
          (λ taken. (call, refl, refl))
          (λ u mine. absurd (let z : holds (y.threads a) ≡ none = rw here refl in cc)) inv.held)
        (rw here refl)
        (λ q real.
          view-set (hash_bin cur.hash) cur.table i c d there (slots-with_lock lock_update c) q)

  -- What a thread that asks for a lock does: it goes back for another table, or has the lock.
  abbrev Asks : Update → ℕ → Outcome → Type 0
  Asks call t o =
      let h = y.store.tables t in
      (outcome y.store (again call) silent ≡ o)
      ⊎ ((c : Chain) × (l : ℕ) × (get_elem? h.table (bin h call) ≡ some c)
          × (lock_acq_chk_resize (first c).lock h ≡ ok (some l))
          × (outcome (with_table y.store t (with_bucket h (bin h call) (with_lock l c)))
                (locked call t) silent
              ≡ o))

  try_acquire-Asks :
      (call : Update) (t : ℕ) (o : Outcome)
      → bucket_at (y.store.tables t) (hash (y.store.tables t) (key_of call))
          >>= (λ c. try_acquire call t c y.store)
        ≡ ok o
      → Asks call t o
  unfolding try_acquire hash
  try_acquire-Asks call t o run =
      let h = y.store.tables t in
      let i = bin h call in
      let (c, at_i, rest) = bind-ok (bucket_at h i) (λ c. try_acquire call t c y.store) o run in
      let taken : ℕ → Run Outcome = λ l.
        ok (
          outcome (with_table y.store t (with_bucket h i (with_lock l c))) (locked call t)
            silent) in
      let next : Option ℕ → Run Outcome =
        λ r. elim r [ none ↦ ok (outcome y.store (again call) silent) | some l ↦ taken l ] in
      let (r, got, e) = bind-ok (lock_acq_chk_resize (first c).lock h) next o rest in
      elim (Option-cases r) [
        | inl z ↦ let same : next none ≡ ok o = ap next (sym z) ∙ e in inl (cc)
        | inr (l, z) ↦
            let same : next (some l) ≡ ok o = ap next (sym z) ∙ e in
            inr (c, l, bucket_at-ok h i c at_i, got ∙ ap ok z, cc)
      ]

  Asks-Kept :
      (call : Update) (o : Outcome)
      → y.threads a ≡ acquire call y.store.current
      → key_of call ≢ 0
      → Asks call y.store.current o
      → Kept mem y a o
  Asks-Kept call o here used (inl e) = subst (Kept mem y a) e (
      quiet-Kept mem y inv a y.store.resize_lock (again call) used refl (λ now. absurd (cc))
        (rw here (refl, refl, refl)))
  Asks-Kept call o here used (inr (c, l, there, got, e)) =
      let word = lock_at_lem cur.table (bin cur call) c there in
      elim (dec_lt (bin cur call) inv.progress) [
        | yes below ↦ absurd (
            refused (first c).lock l cur (inv.sound.frozen (bin cur call) (first c).lock below word)
              got)
        | no above ↦
            let (free, update) =
              acquired (first c).lock l cur
                (inv.sound.ahead (bin cur call) (first c).lock (omega arith) word) got in
            subst (Kept mem y a) (rw update at e) (takes-Kept call c here used there free)
      ]

  -- The lock is taken only on the current table, as all locks of older tables are LOCK_RESIZE.
  pub acquire-Kept :
      (call : Update) (t : ℕ) (o : Outcome)
      → y.threads a ≡ acquire call t
      → key_of call ≢ 0
      → t ≤ y.store.current
      → bucket_at (y.store.tables t) (hash (y.store.tables t) (key_of call))
          >>= (λ c. try_acquire call t c y.store)
        ≡ ok o
      → Kept mem y a o
  acquire-Kept call t o here used upto run = elim (ℕ_discrete t y.store.current) [
    | yes now ↦ Asks-Kept call o (rw now at here) used (rw now at (try_acquire-Asks call t o run))
    | no n ↦ elim (try_acquire-Asks call t o run) [
      | inl e ↦ subst (Kept mem y a) e (
          quiet-Kept mem y inv a y.store.resize_lock (again call) used refl (λ z. absurd (cc))
            (rw here (refl, refl, refl)))
      | inr (c, l, there, got, e) ↦
          let h = y.store.tables t in
          let word = lock_at_lem h.table (bin h call) c there in
          absurd (
            refused (first c).lock l h (inv.old t (bin h call) (first c).lock (omega arith) word)
              got)
    ]
  ]

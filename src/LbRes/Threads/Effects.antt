-- ===== src/LbRes/Threads/Effects.antt =====
-- What the steps do to the invariant: a step that leaves the tables alone, one that changes a bucket
-- of the current table, one that copies a bucket, and the swap.
use cht_bench.Prelude.{
  ℕ, ◌≤◌, ◌<◌, ◌≡◌, refl, ◌∙◌, sym, ap, ◌≢◌, inl, inr, true, false, none, Option, some, arith,
  get_elem?, set, Bool-cases, ℕ_discrete,
}
use cht_bench.Chain.{Chain, first}
use cht_bench.LbRes.{Hashtable, Memory, lock_update}
use cht_bench.LbRes.Threads.{Update, Thread, with_thread}
use cht_bench.LbRes.Threads.Work.{rewritten}
use cht_bench.LbRes.Threads.Invariant.{
  lock_at, lock_at-set_self, lock_at-set_ne, bin, claims, is_copy, holds, Held, Local, Shared,
  Apart, Sole, Spent, Local-rewritten,
}

module _ (ts : ℕ → Thread) (a : ℕ) (th : Thread) where
  pub replaced : (b : ℕ) → a ≡ b → with_thread ts a th b ≡ th
  replaced b e = ground arith

  pub unreplaced : (b : ℕ) → a ≢ b → with_thread ts a th b ≡ ts b
  unreplaced b n = ground arith

  pub each_thread :
      (P : Thread → Type 0)
      → P th
      → ((b : ℕ) → a ≢ b → P (ts b))
      → (b : ℕ) → P (with_thread ts a th b)
  each_thread P here other b = elim (ℕ_discrete a b) [
    | yes e ↦ rw (replaced b e) here
    | no n ↦ rw (unreplaced b n) (other b n)
  ]

  -- A relation between any two threads, when one is replaced.
  pub each_pair :
      (P : Thread → Thread → Type 0)
      → ((b : ℕ) → a ≢ b → P th (ts b))
      → ((b : ℕ) → a ≢ b → P (ts b) th)
      → ((b c : ℕ) → b ≢ c → P (ts b) (ts c))
      → (b c : ℕ) → b ≢ c
      → P (with_thread ts a th b) (with_thread ts a th c)
  each_pair P left right old b c away = elim (ℕ_discrete a b) [
    | yes e ↦ let n : a ≢ c = λ f. away (sym e ∙ f) in rw (replaced b e, unreplaced c n) (left c n)
    | no n ↦ elim (ℕ_discrete a c) [
      | yes f ↦ rw (unreplaced b n, replaced c f) (right b n)
      | no m ↦ rw (unreplaced b n, unreplaced c m) (old b c away)
    ]
  ]

-- Another thread stays where it is.
pub other_stays {ℓ} :
    {A : Type ℓ} (ts : ℕ → Thread) (a : ℕ) (th : Thread) (f : Thread → Option A) (b : ℕ) (x : A)
    → f (ts a) ≡ none
    → f (ts b) ≡ some x
    → f (with_thread ts a th b) ≡ some x
other_stays ts a th f b x mine theirs = elim (ℕ_discrete a b) [
  | yes e ↦ let z = ap (λ i. f (ts i)) e in absurd (cc)
  | no n ↦ rw (unreplaced ts a th b n) theirs
]

-- The thread that moves holds no lock.
pub Held-other :
    (cur : Hashtable) (ts : ℕ → Thread) (a : ℕ) (th : Thread)
    → holds (ts a) ≡ none
    → Held cur ts
    → Held cur (with_thread ts a th)
Held-other cur ts a th free held i taken =
    let (b, u, h, e) = held i taken in (b, u, other_stays ts a th holds b u free h, e)

-- A bucket changes; the thread that moves holds its lock, if any, before and after.
pub Held-rewritten :
    (cur : Hashtable) (n i : ℕ) (c d : Chain) (ts : ℕ → Thread) (a : ℕ) (th : Thread)
    → get_elem? cur.table i ≡ some c
    → ((first d).lock ≡ lock_update → (u : Update) × (holds th ≡ some u) × (bin cur u ≡ i))
    → ((u : Update) → holds (ts a) ≡ some u → bin cur u ≡ i)
    → Held cur ts
    → Held (rewritten cur n i d) (with_thread ts a th)
Held-rewritten cur n i c d ts a th there mine before held j taken = elim (ℕ_discrete i j) [
  | yes same ↦
      let now = lock_at-set_self cur.table i c d there in
      let at_j = ap (lock_at (set cur.table i d)) same in
      let word : (first d).lock ≡ lock_update = cc in
      let (u, h, e) = mine word in (a, u, rw (replaced ts a th a refl) h, e ∙ same)
  | no other ↦
      let (b, u, h, e) = held j (sym (lock_at-set_ne cur.table i j d other) ∙ taken) in
      elim (ℕ_discrete a b) [
        | yes z ↦
            let w = ap (λ x. holds (ts x)) z in
            let his : holds (ts a) ≡ some u = w ∙ h in absurd (other (sym (before u his) ∙ e))
        | no n ↦ (b, u, rw (unreplaced ts a th b n) h, e)
      ]
]

module _ (mem : Memory) (cur : Hashtable) (current p : ℕ) (ts : ℕ → Thread)
    (shared : Shared mem cur current p ts) (a : ℕ) where
  -- One thread moves on, and the table is another.
  pub replace-Shared :
      (h : Hashtable) (t q : ℕ) (th : Thread)
      → Local mem h t q th
      → ((b : ℕ) → a ≢ b → Local mem h t q (ts b))
      → ((b c : ℕ) → b ≢ c → Apart h (ts b) (ts c))
      → ((b : ℕ) → a ≢ b → Apart h th (ts b))
      → (claims th ≡ true → (b : ℕ) → a ≢ b → claims (ts b) ≡ false)
      → Spent h th
      → ((b : ℕ) → a ≢ b → Spent h (ts b))
      → (0 < q → (b : ℕ) × (is_copy (with_thread ts a th b) ≡ true))
      → Shared mem h t q (with_thread ts a th)
  replace-Shared h t q th l rest kept apart alone spent spent_rest working = record {
    local = each_thread ts a th (Local mem h t q) l rest;
    apart =
        each_pair ts a th (Apart h) apart
          (λ b n u v theirs mine e. apart b n v u mine theirs (sym e)) kept;
    sole =
        each_pair ts a th Sole (λ b n mine. alone mine b n)
          (λ b n theirs. elim (Bool-cases (claims th)) [
            | inl mine ↦ absurd (let e = alone mine b n in cc)
            | inr e ↦ e
          ])
          shared.sole;
    spent = each_thread ts a th (Spent h) spent spent_rest;
    working = working;
  }

  -- A copying thread stays, where another one moves.
  still_working :
      (th : Thread)
      → is_copy (ts a) ≡ false
      → 0 < p
      → (b : ℕ) × (is_copy (with_thread ts a th b) ≡ true)
  still_working th plain more =
      let (b, e) = shared.working more in
      elim (ℕ_discrete a b) [
        | yes same ↦ let z = ap (λ i. is_copy (ts i)) same in absurd (cc)
        | no n ↦ (b, rw (unreplaced ts a th b n) e)
      ]

  -- The thread moves on alone; it takes no lock and no claim.
  pub quiet :
      (th : Thread)
      → Local mem cur current p th
      → holds th ≡ none
      → (claims th ≡ true → claims (ts a) ≡ true)
      → is_copy (ts a) ≡ false
      → Shared mem cur current p (with_thread ts a th)
  quiet th l free claim plain =
      replace-Shared cur current p th l (λ b n. shared.local b) shared.apart
        (λ b n u v mine theirs. absurd (cc)) (λ mine b n. shared.sole a b n (claim mine))
        (λ mine. shared.spent a (claim mine)) (λ b n. shared.spent b) (still_working th plain)

  -- A bucket changes that no other thread holds. A claim is new only if the expansions have just
  -- reached the threshold.
  pub rewrite-Shared :
      (n i : ℕ) (c : Chain) (th : Thread)
      → p ≤ i
      → ((b : ℕ) → a ≢ b → (u : Update) → holds (ts b) ≡ some u → bin cur u ≢ i)
      → Local mem (rewritten cur n i c) current p th
      → ((u : Update) → holds th ≡ some u → bin cur u ≡ i)
      → cur.num_expands ≤ n
      → (claims th ≡ true
          → (cur.num_expands < cur.num_expands_threshold) × (cur.num_expands_threshold ≤ n))
      → is_copy (ts a) ≡ false
      → Shared mem (rewritten cur n i c) current p (with_thread ts a th)
  rewrite-Shared n i c th above others l mine more claim plain =
      replace-Shared (rewritten cur n i c) current p th l
        (λ b away.
          Local-rewritten mem cur current p n i c (ts b) above (others b away) (shared.local b))
        shared.apart (λ b away u v held theirs e. others b away v theirs (sym e ∙ mine u held))
        (λ now b away. elim (Bool-cases (claims (ts b))) [
          | inl theirs ↦
              let full = shared.spent b theirs in absurd (omega (arith, full, (claim now).0))
          | inr e ↦ e
        ])
        (λ now. (claim now).1)
        (λ b away theirs. let full = shared.spent b theirs in omega (arith, full, more))
        (still_working th plain)

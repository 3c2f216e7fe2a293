-- ===== src/LbRes/Threads/Invariant.antt =====
-- What holds of the tables and the threads between any two steps: who holds which lock, how far a
-- resize is, and who may start one.
use cht_bench.Prelude.{
  ℕ, ◌≤◌, ◌<◌, ◌≡◌, refl, ◌∙◌, sym, ◌≢◌, ◌⊎◌, inl, inr, Bool, true, false, Option, none, some, List,
  arith, get_elem?, get_elem?-set_self, get_elem?-set_ne, lt-get_elem?, set, length, Option-cases,
}
use cht_bench.Hash.{hash_bin}
use cht_bench.Chain.{Chain, first}
use cht_bench.Table.Rows.{IsPlaced}
use cht_bench.LbRes.{Hashtable, Memory, lock_free, lock_update, lock_resize}
use cht_bench.LbRes.Threads.{
  Update, key_of, Thread, idle, enter, exists, acquire, again, locked, status, start_resize,
  trylock, copy, publish, unlock,
}
use cht_bench.LbRes.Threads.Copying.{Copied, Copied-set}
use cht_bench.LbRes.Threads.Work.{rewritten}

-- The lock word of a bucket.
abbrev pub lock_at : List Chain → ℕ → Option ℕ
lock_at t i = elim (get_elem? t i) [ none ↦ none | some c ↦ some (first c).lock ]

pub lock_at_lem :
    (t : List Chain) (i : ℕ) (c : Chain)
    → get_elem? t i ≡ some c
    → lock_at t i ≡ some (first c).lock
lock_at_lem t i c h = rw (h, lock_at) refl

pub lock_at-set_self :
    (t : List Chain) (i : ℕ) (c d : Chain)
    → get_elem? t i ≡ some c
    → lock_at (set t i d) i ≡ some (first d).lock
lock_at-set_self t i c d h =
    lock_at_lem (set t i d) i d (get_elem?-set_self t i d (lt-get_elem? t i c h))

pub lock_at-set_ne :
    (t : List Chain) (i j : ℕ) (d : Chain) → i ≢ j → lock_at (set t i d) j ≡ lock_at t j
lock_at-set_ne t i j d h = rw (get_elem?-set_ne t i j d h, lock_at) refl

pub lock_at-lt : (t : List Chain) (i l : ℕ) → lock_at t i ≡ some l → i < length t
lock_at-lt t i l h = elim (Option-cases (get_elem? t i)) [
  | inl e ↦ let z : none ≡ some l = rw (e, lock_at) at h in absurd (cc)
  | inr (c, e) ↦ lt-get_elem? t i c e
]

abbrev pub bin : Hashtable → Update → ℕ
bin h call = hash_bin h.hash (key_of call)

-- The threads that may resize the current table.
abbrev pub claims : Thread → Bool
claims status = true
claims (start_resize by) = true
claims (trylock by o) = true
claims (copy o b n) = true
claims (publish o more) = more
claims (unlock more) = more
claims th = false

abbrev pub is_copy : Thread → Bool
is_copy (copy o b n) = true
is_copy th = false

-- The call for which a thread holds a lock.
abbrev pub holds : Thread → Option Update
holds (locked call t) = some call
holds th = none

-- The old table whose `table_new` a thread is about to set.
abbrev pub publishes : Thread → Option ℕ
publishes (publish o more) = some o
publishes th = none

-- A thread that takes no part in a resize or in a bucket.
abbrev pub IsPlain : Thread → Type 0
IsPlain th = (is_copy th ≡ false) × (holds th ≡ none) × (publishes th ≡ none)

-- Every lock that is taken for an update is held by a thread.
abbrev pub Held : Hashtable → (ℕ → Thread) → Type 0
Held cur ts =
    (i : ℕ)
    → lock_at cur.table i ≡ some lock_update
    → (b : ℕ) × (u : Update) × (holds (ts b) ≡ some u) × (bin cur u ≡ i)

-- What a thread relies on: `cur` is table number `current`, of which `p` buckets are copied.
abbrev pub Local : Memory → Hashtable → ℕ → ℕ → Thread → Type 0
Local mem cur current p (enter call) = key_of call ≢ 0
Local mem cur current p (exists call t at) = (key_of call ≢ 0) × (t ≤ current)
Local mem cur current p (acquire call t) = (key_of call ≢ 0) × (t ≤ current)
Local mem cur current p (again call) = key_of call ≢ 0
Local mem cur current p (locked call t) =
    (key_of call ≢ 0) × (t ≡ current) × (lock_at cur.table (bin cur call) ≡ some lock_update)
Local mem cur current p (trylock by o) = o ≡ current
Local mem cur current p (copy o b n) = (o ≡ current) × (p ≡ b) × Copied mem b cur.table n
Local mem cur current p (publish o more) = o < current
Local mem cur current p th = Unit

-- The table: its keys are placed, and the buckets copied so far, and only those, are locked for good.
pub record Sound (cur : Hashtable) (p : ℕ) : Type 0 where
  pub placed : IsPlaced (hash_bin cur.hash) cur.table
  pub width : length cur.table ≡ cur.num_buckets
  pub frozen : (i l : ℕ) → i < p → lock_at cur.table i ≡ some l → l ≡ lock_resize
  pub ahead : (i l : ℕ) → p ≤ i → lock_at cur.table i ≡ some l → (l ≡ lock_free) ⊎ (l ≡ lock_update)

-- Two threads that hold locks hold those of different buckets.
abbrev pub Apart : Hashtable → Thread → Thread → Type 0
Apart cur x y = (u v : Update) → holds x ≡ some u → holds y ≡ some v → bin cur u ≢ bin cur v

abbrev pub Sole : Thread → Thread → Type 0
Sole x y = claims x ≡ true → claims y ≡ false

-- A thread may resize only once the expansions have reached the threshold.
abbrev pub Spent : Hashtable → Thread → Type 0
Spent cur x = claims x ≡ true → cur.num_expands_threshold ≤ cur.num_expands

-- The threads: a bucket is held by one thread, and one thread at most may resize. Where buckets are
-- copied, a thread is copying.
pub record Shared (mem : Memory) (cur : Hashtable) (current p : ℕ) (ts : ℕ → Thread) : Type 0 where
  pub local : (a : ℕ) → Local mem cur current p (ts a)
  pub apart : (a b : ℕ) → a ≢ b → Apart cur (ts a) (ts b)
  pub sole : (a b : ℕ) → a ≢ b → Sole (ts a) (ts b)
  pub spent : (a : ℕ) → Spent cur (ts a)
  pub working : 0 < p → (a : ℕ) × (is_copy (ts a) ≡ true)

-- A thread that holds a lock knows that its bucket is locked.
pub holds-Local :
    (mem : Memory) (cur : Hashtable) (current p : ℕ) (th : Thread) (u : Update)
    → Local mem cur current p th
    → holds th ≡ some u
    → lock_at cur.table (bin cur u) ≡ some lock_update
holds-Local mem cur current p (locked call t) u l h = let same : call ≡ u = cc in rw same at l.2
holds-Local mem cur current p idle u l h = absurd (cc)
holds-Local mem cur current p (enter call) u l h = absurd (cc)
holds-Local mem cur current p (exists call t at) u l h = absurd (cc)
holds-Local mem cur current p (acquire call t) u l h = absurd (cc)
holds-Local mem cur current p (again call) u l h = absurd (cc)
holds-Local mem cur current p status u l h = absurd (cc)
holds-Local mem cur current p (start_resize by) u l h = absurd (cc)
holds-Local mem cur current p (trylock by o) u l h = absurd (cc)
holds-Local mem cur current p (copy o b n) u l h = absurd (cc)
holds-Local mem cur current p (publish o more) u l h = absurd (cc)
holds-Local mem cur current p (unlock more) u l h = absurd (cc)

-- A bucket that is not held by a thread changes, below no copied bucket: what that thread relies on
-- stays.
pub Local-rewritten :
    (mem : Memory) (cur : Hashtable) (current p n i : ℕ) (c : Chain) (th : Thread)
    → p ≤ i
    → ((u : Update) → holds th ≡ some u → bin cur u ≢ i)
    → Local mem cur current p th
    → Local mem (rewritten cur n i c) current p th
Local-rewritten mem cur current p n i c (locked call t) above free l =
    (l.0, l.1, lock_at-set_ne cur.table i (bin cur call) c (λ e. free call refl (sym e)) ∙ l.2)
Local-rewritten mem cur current p n i c (copy o b ht) above free l =
    (l.0, l.1, Copied-set mem b i cur.table c ht (omega (arith, l.1)) l.2)
Local-rewritten mem cur current p n i c idle above free l = l
Local-rewritten mem cur current p n i c (enter call) above free l = l
Local-rewritten mem cur current p n i c (exists call t at) above free l = l
Local-rewritten mem cur current p n i c (acquire call t) above free l = l
Local-rewritten mem cur current p n i c (again call) above free l = l
Local-rewritten mem cur current p n i c status above free l = l
Local-rewritten mem cur current p n i c (start_resize by) above free l = l
Local-rewritten mem cur current p n i c (trylock by o) above free l = l
Local-rewritten mem cur current p n i c (publish o more) above free l = l
Local-rewritten mem cur current p n i c (unlock more) above free l = l

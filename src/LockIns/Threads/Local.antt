-- ===== src/LockIns/Threads/Local.antt =====
-- What a thread relies on at each point, and which steps of the others leave that alone.
use mathlib.Core.Path.{subst}
use cht_bench.Prelude.{
  ℕ, ◌≤◌, ◌<◌, ◌≡◌, refl, ◌∙◌, sym, ◌≢◌, Bool, true, false, Option, none, some, arith,
}
use cht_bench.LockIns.{lock_update, key_blck}
use cht_bench.LockIns.Threads.{
  Bin, Thread, idle, put_exists, put_lock, put_scan, put_grow, put_val, put_key, put_unlock,
  remove_scan, remove_cas, remove_val, remove_zero, IsKey,
}

-- The first `n` slots do not have the key.
abbrev pub Absent : ℕ → ℕ → Bin → Type 0
Absent k n b = (i : ℕ) → i < n → b.key i ≢ k

-- An empty slot, if `empty` is set.
abbrev pub IsFree : Bin → Option ℕ → Type 0
IsFree b none = Unit
IsFree b (some at) = (at < b.len) × (b.key at ≡ 0)

-- The slot has lost its entry, whose value was `took`.
pub record IsTaken (b : Bin) (j took : ℕ) : Type 0 where
  pub inside : j < b.len
  pub marked : b.key j ≡ key_blck
  pub kept : b.val j ≡ took

-- A thread that has the lock: it looks for the key in the first `n` slots.
pub record IsSearched (k n : ℕ) (empty : Option ℕ) (b : Bin) : Type 0 where
  pub key : IsKey k
  pub locked : b.lock ≡ lock_update
  pub reached : n ≤ b.len
  pub absent : Absent k n b
  pub free : IsFree b empty

abbrev pub Local : Bin → Thread → Type 0
Local b idle = Unit
Local b (put_exists k v j) = IsKey k
Local b (put_lock k v) = IsKey k
Local b (put_scan k v j e) = IsSearched k j e b
Local b (put_grow k v) = IsSearched k b.len none b
Local b (put_val k v at) = IsSearched k b.len (some at) b
Local b (put_key k v at) = IsSearched k b.len (some at) b × (b.val at ≡ v)
Local b (put_unlock k v answer) = b.lock ≡ lock_update
Local b (remove_scan k j) = IsKey k
Local b (remove_cas k j) = IsKey k × (j < b.len)
Local b (remove_val k j took) = IsTaken b j took
Local b (remove_zero k j took v) = IsTaken b j took × (v ≡ took)

-- Whether the thread has the lock.
abbrev pub holds : Thread → Bool
holds (put_scan k v j e) = true
holds (put_grow k v) = true
holds (put_val k v at) = true
holds (put_key k v at) = true
holds (put_unlock k v answer) = true
holds t = false

-- The slot whose entry the thread has taken.
abbrev pub owns : Thread → Option ℕ
owns (remove_val k j took) = some j
owns (remove_zero k j took v) = some j
owns t = none

-- What the thread with the lock sees of a step of another.
pub record KeepsHeld (b b' : Bin) : Type 0 where
  pub lock : b'.lock ≡ b.lock
  pub len : b'.len ≡ b.len
  pub empty : (i : ℕ) → b.key i ≡ 0 → b'.key i ≡ 0
  pub absent : (i k : ℕ) → IsKey k → b.key i ≢ k → b'.key i ≢ k
  pub val : (i : ℕ) → b'.val i ≡ b.val i

pub record Keeps (u : Thread) (b b' : Bin) : Type 0 where
  pub longer : b.len ≤ b'.len
  pub held : holds u ≡ true → KeepsHeld b b'
  pub owned : (j : ℕ) → owns u ≡ some j → (b'.key j ≡ b.key j) × (b'.val j ≡ b.val j)

Keeps-IsSearched :
    (k n : ℕ) (e : Option ℕ) (b b' : Bin)
    → KeepsHeld b b'
    → IsSearched k n e b
    → IsSearched k n e b'
Keeps-IsSearched k n none b b' h s = record {
  key = s.key;
  locked = h.lock ∙ s.locked;
  reached = omega (arith, h.len, s.reached);
  absent = λ i below. h.absent i k s.key (s.absent i below);
  free = tt;
}
Keeps-IsSearched k n (some at) b b' h s = record {
  key = s.key;
  locked = h.lock ∙ s.locked;
  reached = omega (arith, h.len, s.reached);
  absent = λ i below. h.absent i k s.key (s.absent i below);
  free = (omega (arith, h.len, s.free.0), h.empty at s.free.1);
}

Keeps-IsTaken :
    (j took : ℕ) (b b' : Bin)
    → b.len ≤ b'.len
    → (b'.key j ≡ b.key j) × (b'.val j ≡ b.val j)
    → IsTaken b j took
    → IsTaken b' j took
Keeps-IsTaken j took b b' longer (key, val) s = record {
  inside = omega (arith, s.inside);
  marked = key ∙ s.marked;
  kept = val ∙ s.kept;
}

pub Keeps-Local : (u : Thread) (b b' : Bin) → Keeps u b b' → Local b u → Local b' u
Keeps-Local idle b b' h l = tt
Keeps-Local (put_exists k v j) b b' h l = l
Keeps-Local (put_lock k v) b b' h l = l
Keeps-Local (put_scan k v j e) b b' h l = Keeps-IsSearched k j e b b' (h.held refl) l
Keeps-Local (put_grow k v) b b' h l =
    let held = h.held refl in
    subst (λ n. IsSearched k n none b') (sym held.len) (Keeps-IsSearched k b.len none b b' held l)
Keeps-Local (put_val k v at) b b' h l =
    let held = h.held refl in
    subst (λ n. IsSearched k n (some at) b') (sym held.len)
      (Keeps-IsSearched k b.len (some at) b b' held l)
Keeps-Local (put_key k v at) b b' h l =
    let held = h.held refl in
    (
      subst (λ n. IsSearched k n (some at) b') (sym held.len)
          (Keeps-IsSearched k b.len (some at) b b' held l.0),
      held.val at ∙ l.1,
    )
Keeps-Local (put_unlock k v answer) b b' h l = (h.held refl).lock ∙ l
Keeps-Local (remove_scan k j) b b' h l = l
Keeps-Local (remove_cas k j) b b' h l = (l.0, omega (arith, h.longer, l.1))
Keeps-Local (remove_val k j took) b b' h l = Keeps-IsTaken j took b b' h.longer (h.owned j refl) l
Keeps-Local (remove_zero k j took v) b b' h l =
    (Keeps-IsTaken j took b b' h.longer (h.owned j refl) l.0, l.1)

-- A slot that a thread has taken stands at KEY_BLCK.
pub owns-marked :
    (u : Thread) (b : Bin) (j : ℕ)
    → Local b u
    → owns u ≡ some j
    → (j < b.len) × (b.key j ≡ key_blck)
owns-marked (remove_val k i took) b j l h =
    let same : i ≡ j = ground arith in rw (← same) (l.inside, l.marked)
owns-marked (remove_zero k i took v) b j l h =
    let same : i ≡ j = ground arith in rw (← same) (l.0.inside, l.0.marked)
owns-marked idle b j l h = absurd (cc)
owns-marked (put_exists k v i) b j l h = absurd (cc)
owns-marked (put_lock k v) b j l h = absurd (cc)
owns-marked (put_scan k v i e) b j l h = absurd (cc)
owns-marked (put_grow k v) b j l h = absurd (cc)
owns-marked (put_val k v at) b j l h = absurd (cc)
owns-marked (put_key k v at) b j l h = absurd (cc)
owns-marked (put_unlock k v answer) b j l h = absurd (cc)
owns-marked (remove_scan k i) b j l h = absurd (cc)
owns-marked (remove_cas k i) b j l h = absurd (cc)

-- A thread that has the lock sees it taken.
pub holds-locked : (u : Thread) (b : Bin) → Local b u → holds u ≡ true → b.lock ≡ lock_update
holds-locked (put_scan k v i e) b l h = l.locked
holds-locked (put_grow k v) b l h = l.locked
holds-locked (put_val k v at) b l h = l.locked
holds-locked (put_key k v at) b l h = l.0.locked
holds-locked (put_unlock k v answer) b l h = l
holds-locked idle b l h = absurd (cc)
holds-locked (put_exists k v i) b l h = absurd (cc)
holds-locked (put_lock k v) b l h = absurd (cc)
holds-locked (remove_scan k i) b l h = absurd (cc)
holds-locked (remove_cas k i) b l h = absurd (cc)
holds-locked (remove_val k i took) b l h = absurd (cc)
holds-locked (remove_zero k i took v) b l h = absurd (cc)

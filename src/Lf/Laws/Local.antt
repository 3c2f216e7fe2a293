-- ===== src/Lf/Laws/Local.antt =====
-- What each thread relies on at its point of the code.
use cht_bench.Prelude.{ℕ, ◌≤◌, ◌<◌, ◌≡◌, refl, ◌∙◌, sym, ◌≢◌, Option, none, some, arith}
use cht_bench.Lf.{
  key_buckt, map_invld, map_valid, map_insrt, Snapshot, Bucket, Probe, at_val, at_map, at_key,
  at_again, found, Thread, idle, put_retry, put_search, put_undo, put_reserve, put_val, put_key,
  put_commit, remove_retry, remove_key, remove_val, remove_cas, get_search,
}
use cht_bench.Lf.Laws.Snapshots.{
  IsValidAt, Evolves, Seen, Current, Seen-Evolves, Current-same, Current-Evolves, Current-valid,
}

-- No valid slot below `n` has the key.
abbrev pub Clear : ℕ → Bucket → ℕ → Type 0
Clear k b n = (j : ℕ) → j < n → IsValidAt b j → b.key j ≢ k

abbrev pub IsInside : Probe → Type 0
IsInside (at_val i) = i < key_buckt
IsInside (at_map i w) = i < key_buckt
IsInside (at_key i w) = i < key_buckt
IsInside (at_again i w) = i < key_buckt
IsInside (found r) = Unit {0}

-- What a search knows while its snapshot is current.
abbrev pub Probed : ℕ → Bucket → Probe → Type 0
Probed k b (at_val i) = Clear k b i
Probed k b (at_map i w) = Clear k b i × (IsValidAt b i → b.val i ≡ w)
Probed k b (at_key i w) = Clear k b i × IsValidAt b i × (b.val i ≡ w)
Probed k b (at_again i w) = IsValidAt b i × (b.key i ≡ k) × (b.val i ≡ w)
Probed k b (found r) = r ≡ 0 → Clear k b key_buckt

-- The slot that `empty_index` names holds the entry, not valid yet.
abbrev pub Holds : Bucket → ℕ → ℕ → Option ℕ → Type 0
Holds b k v none = Unit {0}
Holds b k v (some i) =
    (i < key_buckt) × (b.snapshot.map i ≡ map_insrt) × (b.key i ≡ k) × (b.val i ≡ v)

abbrev pub Marked : Snapshot → Option ℕ → Type 0
Marked s none = Unit {0}
Marked s (some i) = s.map i ≡ map_insrt

pub record Searching (b : Bucket) (k v : ℕ) (e : Option ℕ) (s : Snapshot) (p : Probe) : Type 0 where
  pub real : v ≢ 0
  pub holds : Holds b k v e
  pub marked : Marked s e
  pub seen : Seen s b
  pub inside : IsInside p
  pub probed : Current s b → Probed k b p

pub record Reserved (b : Bucket) (k v : ℕ) (s : Snapshot) (i : ℕ) : Type 0 where
  pub real : v ≢ 0
  pub inside : i < key_buckt
  pub held : b.snapshot.map i ≡ map_insrt
  pub marked : s.map i ≡ map_insrt
  pub seen : Seen s b
  pub clear : Current s b → Clear k b key_buckt

pub record Reserving (b : Bucket) (k v : ℕ) (s : Snapshot) (i : ℕ) : Type 0 where
  pub real : v ≢ 0
  pub inside : i < key_buckt
  pub marked : s.map i ≡ map_invld
  pub seen : Seen s b
  pub clear : Current s b → Clear k b key_buckt

pub record Removing (b : Bucket) (k : ℕ) (s : Snapshot) (i : ℕ) : Type 0 where
  pub inside : i < key_buckt
  pub marked : s.map i ≡ map_valid
  pub seen : Seen s b
  pub key : Current s b → b.key i ≡ k

abbrev pub Local : Bucket → Thread → Type 0
Local b idle = Unit {0}
Local b (put_retry k v e) = (v ≢ 0) × Holds b k v e
Local b (put_search k v e s p) = Searching b k v e s p
Local b (put_undo k v i) = (i < key_buckt) × (b.snapshot.map i ≡ map_insrt)
Local b (put_reserve k v s i) = Reserving b k v s i
Local b (put_val k v s i) = Reserved b k v s i
Local b (put_key k v s i) = Reserved b k v s i × (b.val i ≡ v)
Local b (put_commit k v s i) = Reserved b k v s i × (b.key i ≡ k) × (b.val i ≡ v)
Local b (remove_retry k) = Unit {0}
Local b (remove_key k s i) = (i < key_buckt) × Seen s b
Local b (remove_val k s i) = Removing b k s i
Local b (remove_cas k s i w) = Removing b k s i × (Current s b → b.val i ≡ w)
Local b (get_search k p) = Unit {0}

-- The slot that a thread has reserved.
abbrev pub owned : Thread → Option ℕ
owned (put_retry k v e) = e
owned (put_search k v e s p) = e
owned (put_undo k v i) = some i
owned (put_val k v s i) = some i
owned (put_key k v s i) = some i
owned (put_commit k v s i) = some i
owned th = none

-- A slot as it was.
abbrev pub Untouched : Bucket → Bucket → ℕ → Type 0
Untouched b b' i =
    (b'.snapshot.map i ≡ b.snapshot.map i) × (b'.key i ≡ b.key i) × (b'.val i ≡ b.val i)

module _ (s : Snapshot) (b b' : Bucket) (seen : Seen s b) (step : Evolves b b')
    (now : Current s b') where
  slot_kept :
      (j : ℕ)
      → j < key_buckt
      → IsValidAt b' j
      → IsValidAt b j × (b'.key j ≡ b.key j) × (b'.val j ≡ b.val j)
  slot_kept = step.kept (Current-same s b b' seen step now)

  Clear-Evolves : (k n : ℕ) → n ≤ key_buckt → Clear k b n → Clear k b' n
  Clear-Evolves k n le clear j below valid =
      let (was, key, val) = slot_kept j (omega arith) valid in λ e. clear j below was (sym key ∙ e)

  Probed-Evolves : (k : ℕ) (p : Probe) → IsInside p → Probed k b p → Probed k b' p
  Probed-Evolves k (at_val i) inside f = Clear-Evolves k i (omega arith) f
  Probed-Evolves k (at_map i w) inside (f, g) = (
    Clear-Evolves k i (omega arith) f,
    λ valid. let (was, key, val) = slot_kept i inside valid in val ∙ g was,
  )
  Probed-Evolves k (at_key i w) inside (f, g, h) =
      let valid = Current-valid s b b' seen step now i inside g in
      (Clear-Evolves k i (omega arith) f, valid, (slot_kept i inside valid).2 ∙ h)
  Probed-Evolves k (at_again i w) inside (f, g, h) =
      let valid = Current-valid s b b' seen step now i inside f in
      let (was, key, val) = slot_kept i inside valid in (valid, key ∙ g, val ∙ h)
  Probed-Evolves k (found r) inside f = λ e. Clear-Evolves k key_buckt (omega arith) (f e)

Holds-Evolves :
    (b b' : Bucket) (k v : ℕ) (e : Option ℕ)
    → ((i : ℕ) → i < key_buckt → b.snapshot.map i ≡ map_insrt → e ≡ some i → Untouched b b' i)
    → Holds b k v e
    → Holds b' k v e
Holds-Evolves b b' k v none safe h = tt
Holds-Evolves b b' k v (some i) safe (below, held, key, val) =
    let (map_i, key_i, val_i) = safe i below held refl in
    (below, map_i ∙ held, key_i ∙ key, val_i ∙ val)

-- A step that leaves the thread's own slot alone keeps what the thread relies on.
module _ (b b' : Bucket) (step : Evolves b b') where
  Reserved-Evolves :
      (k v : ℕ) (s : Snapshot) (i : ℕ)
      → b'.snapshot.map i ≡ b.snapshot.map i
      → Reserved b k v s i
      → Reserved b' k v s i
  Reserved-Evolves k v s i same l = record {
    real = l.real;
    inside = l.inside;
    held = same ∙ l.held;
    marked = l.marked;
    seen = Seen-Evolves s b b' l.seen step;
    clear = λ now.
        Clear-Evolves s b b' l.seen step now k key_buckt (omega arith)
          (l.clear (Current-Evolves s b b' l.seen step now));
  }

  Removing-Evolves : (k : ℕ) (s : Snapshot) (i : ℕ) → Removing b k s i → Removing b' k s i
  Removing-Evolves k s i l = record {
    inside = l.inside;
    marked = l.marked;
    seen = Seen-Evolves s b b' l.seen step;
    key = λ now.
        (slot_kept s b b' l.seen step now i l.inside (now.there i l.inside l.marked)).1
        ∙ l.key (Current-Evolves s b b' l.seen step now);
  }

  pub Local-Evolves :
      (th : Thread)
      → ((i : ℕ)
          → i < key_buckt
          → b.snapshot.map i ≡ map_insrt
          → owned th ≡ some i
          → Untouched b b' i)
      → Local b th
      → Local b' th
  Local-Evolves idle safe l = tt
  Local-Evolves (put_retry k v e) safe l = (l.0, Holds-Evolves b b' k v e safe l.1)
  Local-Evolves (put_search k v e s p) safe l = record {
    real = l.real;
    holds = Holds-Evolves b b' k v e safe l.holds;
    marked = l.marked;
    seen = Seen-Evolves s b b' l.seen step;
    inside = l.inside;
    probed = λ now.
        Probed-Evolves s b b' l.seen step now k p l.inside
          (l.probed (Current-Evolves s b b' l.seen step now));
  }
  Local-Evolves (put_undo k v i) safe l = (l.0, (safe i l.0 l.1 refl).0 ∙ l.1)
  Local-Evolves (put_reserve k v s i) safe l = record {
    real = l.real;
    inside = l.inside;
    marked = l.marked;
    seen = Seen-Evolves s b b' l.seen step;
    clear = λ now.
        Clear-Evolves s b b' l.seen step now k key_buckt (omega arith)
          (l.clear (Current-Evolves s b b' l.seen step now));
  }
  Local-Evolves (put_val k v s i) safe l =
      Reserved-Evolves k v s i (safe i l.inside l.held refl).0 l
  Local-Evolves (put_key k v s i) safe l =
      let (map_i, key_i, val_i) = safe i l.0.inside l.0.held refl in
      (Reserved-Evolves k v s i map_i l.0, val_i ∙ l.1)
  Local-Evolves (put_commit k v s i) safe l =
      let (map_i, key_i, val_i) = safe i l.0.inside l.0.held refl in
      (Reserved-Evolves k v s i map_i l.0, key_i ∙ l.1, val_i ∙ l.2)
  Local-Evolves (remove_retry k) safe l = tt
  Local-Evolves (remove_key k s i) safe l = (l.0, Seen-Evolves s b b' l.1 step)
  Local-Evolves (remove_val k s i) safe l = Removing-Evolves k s i l
  Local-Evolves (remove_cas k s i w) safe l = (
    Removing-Evolves k s i l.0,
    λ now.
        (slot_kept s b b' l.0.seen step now i l.0.inside (now.there i l.0.inside l.0.marked)).2
        ∙ l.1 (Current-Evolves s b b' l.0.seen step now),
  )
  Local-Evolves (get_search k p) safe l = tt

-- A thread's slot is marked as being inserted.
pub owned-insrt :
    (b : Bucket) (th : Thread) (i : ℕ)
    → Local b th
    → owned th ≡ some i
    → (i < key_buckt) × (b.snapshot.map i ≡ map_insrt)
owned-insrt b idle i l h = absurd (cc)
owned-insrt b (put_retry k v none) i l h = absurd (cc)
owned-insrt b (put_retry k v (some j)) i l h =
    let same : j ≡ i = ground arith in rw (← same) (l.1.0, l.1.1)
owned-insrt b (put_search k v none s p) i l h = absurd (cc)
owned-insrt b (put_search k v (some j) s p) i l h =
    let same : j ≡ i = ground arith in rw (← same) (l.holds.0, l.holds.1)
owned-insrt b (put_undo k v j) i l h = let same : j ≡ i = ground arith in rw (← same) l
owned-insrt b (put_reserve k v s j) i l h = absurd (cc)
owned-insrt b (put_val k v s j) i l h =
    let same : j ≡ i = ground arith in rw (← same) (l.inside, l.held)
owned-insrt b (put_key k v s j) i l h =
    let same : j ≡ i = ground arith in rw (← same) (l.0.inside, l.0.held)
owned-insrt b (put_commit k v s j) i l h =
    let same : j ≡ i = ground arith in rw (← same) (l.0.inside, l.0.held)
owned-insrt b (remove_retry k) i l h = absurd (cc)
owned-insrt b (remove_key k s j) i l h = absurd (cc)
owned-insrt b (remove_val k s j) i l h = absurd (cc)
owned-insrt b (remove_cas k s j w) i l h = absurd (cc)
owned-insrt b (get_search k p) i l h = absurd (cc)

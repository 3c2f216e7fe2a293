-- ===== src/Lf/Laws/Own.antt =====
-- What one step of a thread does: to the bucket, to the thread, and to the slots of the others.
use cht_bench.Prelude.{
  ℕ, zero, suc, ◌+◌, ◌<◌, ◌≡◌, refl, ◌≢◌, ◌⊎◌, inl, inr, false, Option, none, some, arith, ◌==◌,
  ltb, ℕ_discrete, Bool-cases, Option-cases, ==→eq,
}
use cht_bench.Lf.{
  key_buckt, map_invld, map_valid, map_insrt, Snapshot, Bucket, snap_get_empty_index, snap_set_map,
  Probe, at_val, at_map, at_key, at_again, found, bucket_search, next_slot, Thread, idle, put_retry,
  put_search, put_undo, put_reserve, put_commit, Event, none_yet, put_returns, Outcome, outcome,
  after_search, counts,
}
use cht_bench.Lf.Laws.Snapshots.{
  IsValidAt, snap_get_empty_index-lt, Evolves, Seen, Current, Evolves-refl,
}
use cht_bench.Lf.Laws.Local.{
  Clear, IsInside, Probed, Searching, Reserved, Reserving, Local, owned, Untouched,
}
use cht_bench.Lf.Laws.Slot.{IsOk, Hides, Hides-Evolves, Hides-IsOk}

-- The step of a thread is fair: it keeps the invariant, gives the thread what it relies on, leaves
-- the reserved slots of others alone, and reserves only a slot that was free.
pub record Fair (b : Bucket) (th : Thread) (o : Outcome) : Type 0 where
  pub evolves : Evolves b o.bucket
  pub ok : IsOk o.bucket
  pub local : Local o.bucket o.thread
  pub version : o.bucket.snapshot.version ≡ b.snapshot.version + counts o.event
  pub leaves :
      (i : ℕ)
      → i < key_buckt
      → b.snapshot.map i ≡ map_insrt
      → owned th ≢ some i
      → Untouched b o.bucket i
  pub owns :
      (i : ℕ) → owned o.thread ≡ some i → (owned th ≡ some i) ⊎ (b.snapshot.map i ≡ map_invld)

-- A step that only reads.
pub quiet :
    (b : Bucket) (th next : Thread) (e : Event)
    → IsOk b
    → counts e ≡ 0
    → Local b next
    → ((i : ℕ) → owned next ≡ some i → owned th ≡ some i)
    → Fair b th (outcome b next e)
quiet b th next e ok zeroed l owns = record {
  evolves = Evolves-refl b;
  ok = ok;
  local = l;
  version = omega (arith, zeroed);
  leaves = λ i below held other. (refl, refl, refl);
  owns = λ i h. inl (owns i h);
}

-- A step that changes a slot, which is not valid after it.
pub hiding :
    (b : Bucket) (th : Thread) (i : ℕ) (o : Outcome)
    → IsOk b
    → Hides i b o.bucket
    → counts o.event ≡ 0
    → Local o.bucket o.thread
    → (b.snapshot.map i ≡ map_insrt → owned th ≡ some i)
    → ((j : ℕ) → owned o.thread ≡ some j → (owned th ≡ some j) ⊎ (b.snapshot.map j ≡ map_invld))
    → Fair b th o
hiding b th i o ok h zeroed l mine owns = record {
  evolves = Hides-Evolves i b o.bucket h;
  ok = Hides-IsOk i b o.bucket h ok;
  local = l;
  version = omega (arith, zeroed, h.same);
  leaves = λ j below held other. elim (ℕ_discrete j i) [
    | yes e ↦ absurd (other (rw (← e) at mine held))
    | no away ↦ h.changes.others j below away
  ];
  owns = owns;
}

module _ (b : Bucket) (ok : IsOk b) (k : ℕ) where
  Clear-next : (i : ℕ) → Clear k b i → (IsValidAt b i → b.key i ≢ k) → Clear k b (suc i)
  Clear-next i clear here j below valid = elim (ℕ_discrete j i) [
    | yes e ↦ rw e (here (rw e at valid))
    | no away ↦ clear j (omega arith) valid
  ]

  -- A slot was looked at and does not have the key.
  Probed-next :
      (i : ℕ)
      → i < key_buckt
      → Clear k b i
      → (IsValidAt b i → b.key i ≢ k)
      → Probed k b (next_slot i)
  Probed-next i below clear here = elim (Bool-cases (ltb (suc i) key_buckt)) [
    | inl e ↦ rw e (Clear-next i clear here)
    | inr e ↦ rw e (λ zeroed j inside. Clear-next i clear here j (ground arith))
  ]

  IsInside-next : (i : ℕ) → IsInside (next_slot i)
  IsInside-next i = elim (Bool-cases (ltb (suc i) key_buckt)) [
    | inl e ↦ rw e (ground arith)
    | inr e ↦ rw e tt
  ]

  IsInside-search : (p : Probe) → IsInside p → IsInside (bucket_search k b p)
  unfolding bucket_search
  IsInside-search (at_val i) h = h
  IsInside-search (at_map i w) h = elim (Bool-cases (b.snapshot.map i == map_valid)) [
    | inl e ↦ rw e h
    | inr n ↦ rw n (IsInside-next i)
  ]
  IsInside-search (at_key i w) h = elim (Bool-cases (b.key i == k)) [
    | inl e ↦ rw e h
    | inr n ↦ rw n (IsInside-next i)
  ]
  IsInside-search (at_again i w) h = tt
  IsInside-search (found r) h = tt

  Probed-search : (p : Probe) → IsInside p → Probed k b p → Probed k b (bucket_search k b p)
  unfolding bucket_search
  Probed-search (at_val i) below f = (f, λ valid. refl)
  Probed-search (at_map i w) below (f, g) = elim (Bool-cases (b.snapshot.map i == map_valid)) [
    | inl e ↦ rw e (f, ==→eq (b.snapshot.map i) 1 e, g (==→eq (b.snapshot.map i) 1 e))
    | inr n ↦ rw n (Probed-next i below f (λ valid. absurd (ground arith)))
  ]
  Probed-search (at_key i w) below (f, g, h) = elim (Bool-cases (b.key i == k)) [
    | inl e ↦ rw e (g, ==→eq (b.key i) k e, h)
    | inr n ↦ rw n (Probed-next i below f (λ valid. λ e. absurd (ground arith)))
  ]
  Probed-search (at_again i w) below (f, g, h) =
      λ zeroed. absurd (ok.nonzero i below f (ground arith))
  Probed-search (found r) below f = f

module _ (b : Bucket) (ok : IsOk b) where
  pub search-Fair :
      (k v : ℕ) (e : Option ℕ) (s : Snapshot) (p : Probe)
      → Searching b k v e s p
      → Fair b
          (put_search k v e s p)
          (outcome b (put_search k v e s (bucket_search k b p)) none_yet)
  search-Fair k v e s p l =
      let next : Searching b k v e s (bucket_search k b p) = record {
        real = l.real;
        holds = l.holds;
        marked = l.marked;
        seen = l.seen;
        inside = IsInside-search b ok k p l.inside;
        probed = λ now. Probed-search b ok k p l.inside (l.probed now);
      } in
      quiet b (put_search k v e s p) (put_search k v e s (bucket_search k b p)) none_yet ok refl
        next (λ i h. h)

  -- The snapshot with a reserved slot is current only where the one before was.
  reserved-Clear :
      (k : ℕ) (s : Snapshot) (i : ℕ)
      → i < key_buckt
      → s.map i ≢ map_valid
      → (Current s b → Clear k b key_buckt)
      → Current (snap_set_map s i map_insrt) b
      → Clear k b key_buckt
  reserved-Clear k s i below free clear now =
      clear
        (record { same = now.same; there = λ j inside valid. now.there j inside (ground arith) })

  reserved-Seen :
      (s : Snapshot) (i : ℕ)
      → b.snapshot.map i ≢ map_valid
      → Seen s b
      → Seen (snap_set_map s i map_insrt) b
  reserved-Seen s i free seen = record {
    before = seen.before;
    back = λ same j inside valid. ground (arith, seen.back same j inside valid);
  }

  pub after_search-Fair :
      (k v : ℕ) (e : Option ℕ) (s : Snapshot) (r : ℕ)
      → Searching b k v e s (found r)
      → Fair b (put_search k v e s (found r)) (after_search k v e s r b)
  unfolding after_search
  after_search-Fair k v none s zero l = elim (Option-cases (snap_get_empty_index s)) [
    | inl e ↦
        rw (e, after_search)
          (quiet b (put_search k v none s (found 0)) (put_retry k v none) none_yet ok refl
            (l.real, tt) (λ i h. h))
    | inr (i, e) ↦
        let (below, free) = snap_get_empty_index-lt s i e in
        let next : Reserving b k v s i = record {
          real = l.real;
          inside = below;
          marked = free;
          seen = l.seen;
          clear = λ now. l.probed now refl;
        } in
        rw (e, after_search)
          (quiet b (put_search k v none s (found 0)) (put_reserve k v s i) none_yet ok refl next
            (λ j h. absurd (cc)))
  ]
  after_search-Fair k v (some i) s zero l =
      let (below, held, key, val) = l.holds in
      let s1 = snap_set_map s i map_insrt in
      let next : Reserved b k v s1 i = record {
        real = l.real;
        inside = below;
        held = held;
        marked = ground arith;
        seen = reserved-Seen s i (λ e. absurd (omega arith)) l.seen;
        clear =
            reserved-Clear k s i below (λ e. absurd (omega (arith, l.marked)))
              (λ now. l.probed now refl);
      } in
      quiet b (put_search k v (some i) s (found 0)) (put_commit k v s1 i) none_yet ok refl
        (next, key, val) (λ j h. h)
  after_search-Fair k v none s (suc r) l =
      quiet b (put_search k v none s (found (suc r))) idle (put_returns k v false) ok refl tt
        (λ i h. absurd (cc))
  after_search-Fair k v (some i) s (suc r) l =
      quiet b (put_search k v (some i) s (found (suc r))) (put_undo k v i) none_yet ok refl
        (l.holds.0, l.holds.1) (λ j h. h)

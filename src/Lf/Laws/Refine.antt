-- ===== src/Lf/Laws/Refine.antt =====
-- What the steps mean for the entries of the bucket.
use cht_bench.Prelude.{
  ℕ, zero, suc, ◌+◌, ◌^◌, ◌<◌, ◌≡◌, ◌∙◌, sym, ap, ◌≢◌, ◌⊎◌, ◌↔◌, inl, inr, true, false, Option,
  none, some, arith, ◌==◌, ltb, ◌&&◌, ℕ_discrete, Bool-cases, Option-cases,
}
use cht_bench.Lf.{
  key_buckt, map_invld, map_valid, map_insrt, Snapshot, Bucket, put_at, same_snapshot,
  snap_get_empty_index, snap_set_map, Probe, at_val, at_map, at_key, at_again, found, Thread, idle,
  put_retry, put_search, put_undo, put_reserve, put_val, put_key, put_commit, remove_retry,
  remove_key, remove_val, remove_cas, get_search, Event, none_yet, put_returns, remove_returns,
  get_returns, after_search, advance,
}
use cht_bench.Lf.Laws.Snapshots.{IsValidAt, same_snapshot-IsSame, IsSame-Current}
use cht_bench.Lf.Laws.Local.{Local}
use cht_bench.Lf.Laws.Slot.{IsOk, ChangesAt, Hides, hidden-kept, Shows, shown}
use cht_bench.Lf.Laws.Step.{put_commit-Shows, inserted, marks, undo-Hides, val-Hides, key-Hides}

-- The bucket has the entry.
pub record Binds (b : Bucket) (k v : ℕ) : Type 0 where
  pub index : ℕ
  pub inside : index < key_buckt
  pub valid : IsValidAt b index
  pub key : b.key index ≡ k
  pub val : b.val index ≡ v

abbrev pub Unchanged : Bucket → Bucket → Type 0
Unchanged b b' = (q u : ℕ) → Binds b' q u ↔ Binds b q u

-- What an event says of the entries before and after its step.
abbrev pub Specified : Event → Bucket → Bucket → Type 0
Specified (put_returns k v true) b b' =
    ((u : ℕ) → Binds b k u → ⊥) × ((q u : ℕ) → Binds b' q u ↔ (Binds b q u ⊎ ((q ≡ k) × (u ≡ v))))
Specified (put_returns k v false) b b' = Unchanged b b'
Specified (remove_returns k zero) b b' = Unchanged b b'
Specified (remove_returns k (suc w)) b b' =
    Binds b k (suc w) × ((q u : ℕ) → Binds b' q u ↔ (Binds b q u × (q ≢ k)))
Specified (get_returns k v) b b' = Unchanged b b'
Specified none_yet b b' = Unchanged b b'

Unchanged-refl : (b : Bucket) → Unchanged b b
Unchanged-refl b q u = (λ h. h, λ h. h)

-- An entry of another slot stays.
Binds-others :
    (i : ℕ) (b b' : Bucket) (q u : ℕ)
    → ChangesAt i b b'
    → (h : Binds b q u) → h.index ≢ i
    → Binds b' q u
Binds-others i b b' q u changes h away =
    let (map_j, key_j, val_j) = changes.others h.index h.inside away in
    record {
      index = h.index;
      inside = h.inside;
      valid = map_j ∙ h.valid;
      key = key_j ∙ h.key;
      val = val_j ∙ h.val;
    }

module _ (i : ℕ) (b b' : Bucket) (hides : Hides i b b') where
  Binds-back : (q u : ℕ) → Binds b' q u → Binds b q u
  Binds-back q u h =
      let (was, key, val) = hidden-kept i b b' hides h.index h.inside h.valid in
      record {
        index = h.index;
        inside = h.inside;
        valid = was;
        key = sym key ∙ h.key;
        val = sym val ∙ h.val;
      }

  Hides-Unchanged : b.snapshot.map i ≢ map_valid → Unchanged b b'
  Hides-Unchanged hidden q u =
      (Binds-back q u, λ h. Binds-others i b b' q u hides.changes h (λ e. hidden (rw e at h.valid)))

-- The slot that becomes valid adds its entry.
Shows-Specified :
    (i : ℕ) (b b' : Bucket) (k v : ℕ)
    → Shows i b b'
    → b.snapshot.map i ≢ map_valid
    → IsValidAt b' i
    → b'.key i ≡ k
    → b'.val i ≡ v
    → Specified (put_returns k v true) b b'
Shows-Specified i b b' k v s hidden valid key val = (
  λ u h. s.clear h.index h.inside h.valid (h.key ∙ sym key),
  λ q u. (
    λ h. elim (ℕ_discrete h.index i) [
      | yes e ↦ inr (sym h.key ∙ ap b'.key e ∙ key, sym h.val ∙ ap b'.val e ∙ val)
      | no away ↦
          let (was, key_j, val_j) = shown i b b' s h.index h.inside h.valid away in
          inl (record {
            index = h.index;
            inside = h.inside;
            valid = was;
            key = sym key_j ∙ h.key;
            val = sym val_j ∙ h.val;
          })
    ],
    λ h. elim h [
      | inl old ↦ Binds-others i b b' q u s.changes old (λ e. hidden (rw e at old.valid))
      | inr (same_key, same_val) ↦ record {
        index = i;
        inside = s.inside;
        valid = valid;
        key = key ∙ sym same_key;
        val = val ∙ sym same_val;
      }
    ],
  ),
)

-- The slot that is hidden takes its entry away, and no other entry has its key.
Hides-Specified :
    (i : ℕ) (b b' : Bucket) (k w : ℕ)
    → IsOk b
    → Hides i b b'
    → i < key_buckt
    → IsValidAt b i
    → b.key i ≡ k
    → b.val i ≡ w
    → Specified (remove_returns k w) b b'
Hides-Specified i b b' k zero ok h inside valid key val = absurd (ok.nonzero i inside valid val)
Hides-Specified i b b' k (suc w) ok h inside valid key val = (
  record { index = i; inside = inside; valid = valid; key = key; val = val },
  λ q u. (
    λ new.
        let old = Binds-back i b b' h q u new in
        (
          old,
          λ e.
              let (was, key_j, val_j) = hidden-kept i b b' h new.index new.inside new.valid in
              let same : new.index ≡ i =
                ok.unique new.index i new.inside inside was valid
                  (sym key_j ∙ new.key ∙ e ∙ sym key) in
              h.hidden (rw same at new.valid),
        ),
    λ (old, other).
        Binds-others i b b' q u h.changes old (λ e. other (sym old.key ∙ ap b.key e ∙ key)),
  ),
)

module _ (b : Bucket) (ok : IsOk b) where
  after_search-Specified :
      (k v : ℕ) (e : Option ℕ) (s : Snapshot) (r : ℕ)
      → let o = after_search k v e s r b in Specified o.event b o.bucket
  unfolding after_search
  after_search-Specified k v none s zero = elim (Option-cases (snap_get_empty_index s)) [
    | inl e ↦ rw (e, after_search) (Unchanged-refl b)
    | inr (i, e) ↦ rw (e, after_search) (Unchanged-refl b)
  ]
  after_search-Specified k v (some i) s zero = Unchanged-refl b
  after_search-Specified k v none s (suc r) = Unchanged-refl b
  after_search-Specified k v (some i) s (suc r) = Unchanged-refl b

  search-Specified :
      (k v : ℕ) (e : Option ℕ) (s : Snapshot) (p : Probe)
      → let o = advance (put_search k v e s p) b in Specified o.event b o.bucket
  unfolding advance
  search-Specified k v e s (at_val i) = Unchanged-refl b
  search-Specified k v e s (at_map i w) = Unchanged-refl b
  search-Specified k v e s (at_key i w) = Unchanged-refl b
  search-Specified k v e s (at_again i w) = Unchanged-refl b
  search-Specified k v e s (found r) = after_search-Specified k v e s r

  get-Specified :
      (k : ℕ) (p : Probe) → let o = advance (get_search k p) b in Specified o.event b o.bucket
  unfolding advance
  get-Specified k (at_val i) = Unchanged-refl b
  get-Specified k (at_map i w) = Unchanged-refl b
  get-Specified k (at_key i w) = Unchanged-refl b
  get-Specified k (at_again i w) = Unchanged-refl b
  get-Specified k (found r) = Unchanged-refl b

  -- A reserved slot is not valid.
  reserved_hidden : (i : ℕ) → b.snapshot.map i ≡ map_insrt → b.snapshot.map i ≢ map_valid
  reserved_hidden i h e = absurd (omega (arith, h, e))

  pub advance-Specified :
      (th : Thread)
      → Local b th
      → b.snapshot.version + 1 < 2 ^ 32
      → let o = advance th b in Specified o.event b o.bucket
  unfolding advance
  advance-Specified idle l fits = Unchanged-refl b
  advance-Specified (put_retry k v e) l fits = Unchanged-refl b
  advance-Specified (put_search k v e s p) l fits = search-Specified k v e s p
  advance-Specified (put_undo k v i) l fits =
      Hides-Unchanged i b (record b { snapshot = snap_set_map b.snapshot i map_invld })
        (undo-Hides b ok i) (reserved_hidden i l.1)
  advance-Specified (put_reserve k v s i) l fits = elim (Bool-cases (same_snapshot b.snapshot s)) [
    | inr n ↦ rw n (Unchanged-refl b)
    | inl e ↦
        let same = same_snapshot-IsSame b.snapshot s e in
        let hides = marks b ok s i map_insrt same (λ e. absurd (omega arith)) in
        rw e (
          Hides-Unchanged i b (record b { snapshot = snap_set_map s i map_insrt }) hides
            (λ e. absurd (omega (arith, same.map i l.inside, l.marked))))
  ]
  advance-Specified (put_val k v s i) l fits =
      let hidden = reserved_hidden i l.held in
      Hides-Unchanged i b (record b { val = put_at b.val i v }) (val-Hides b ok i v hidden) hidden
  advance-Specified (put_key k v s i) l fits =
      let hidden = reserved_hidden i l.0.held in
      Hides-Unchanged i b (record b { key = put_at b.key i k }) (key-Hides b ok i k hidden) hidden
  advance-Specified (put_commit k v s i) l fits = elim (Bool-cases (same_snapshot b.snapshot s)) [
    | inr n ↦ rw n (Unchanged-refl b)
    | inl e ↦
        let shows = put_commit-Shows b ok k v s i l (same_snapshot-IsSame b.snapshot s e) fits in
        let done =
          Shows-Specified i b (inserted b ok s i) k v shows (reserved_hidden i l.0.held)
            (ground arith) l.1 l.2 in
        rw e done
  ]
  advance-Specified (remove_retry k) l fits = Unchanged-refl b
  advance-Specified (remove_key k s i) l fits =
      elim (Bool-cases (b.key i == k && s.map i == map_valid)) [
        | inl e ↦ rw e (Unchanged-refl b)
        | inr n ↦ elim (Bool-cases (ltb (suc i) key_buckt)) [
          | inl m ↦ rw (n, m) (Unchanged-refl b)
          | inr m ↦ rw (n, m) (Unchanged-refl b)
        ]
      ]
  advance-Specified (remove_val k s i) l fits = Unchanged-refl b
  advance-Specified (remove_cas k s i w) l fits = elim (Bool-cases (same_snapshot b.snapshot s)) [
    | inr n ↦ rw n (Unchanged-refl b)
    | inl e ↦
        let same = same_snapshot-IsSame b.snapshot s e in
        let now = IsSame-Current s b same in
        let hides = marks b ok s i map_invld same (λ e. absurd (omega arith)) in
        let done =
          Hides-Specified i b (record b { snapshot = snap_set_map s i map_invld }) k w ok hides
            l.0.inside (now.there i l.0.inside l.0.marked) (l.0.key now) (l.1 now) in
        rw e done
  ]
  advance-Specified (get_search k p) l fits = get-Specified k p

-- ===== src/Lf/Laws/Step.antt =====
-- The steps that change the bucket, and the step of any thread.
use cht_bench.Prelude.{
  ℕ, suc, ◌+◌, ◌^◌, ◌<◌, ◌≡◌, refl, ◌∙◌, sym, ap, ◌≢◌, inl, inr, true, Option, none, some, arith,
  ◌==◌, ltb, ◌&&◌, ℕ_discrete, Bool-cases,
}
use cht_bench.Lf.{
  key_buckt, map_invld, map_valid, map_insrt, Snapshot, Bucket, put_at, same_snapshot, snap_set_map,
  snap_set_map_and_inc_version, Probe, at_val, at_map, at_key, at_again, found, bucket_search,
  Thread, idle, put_retry, put_search, put_undo, put_reserve, put_val, put_key, put_commit,
  remove_retry, remove_key, remove_val, remove_cas, get_search, none_yet, put_returns,
  remove_returns, get_returns, outcome, advance,
}
use cht_bench.Lf.Laws.Snapshots.{IsSame, same_snapshot-IsSame, Seen, Seen-refl, IsSame-Current}
use cht_bench.Lf.Laws.Local.{Holds, Marked, Searching, Reserved, Reserving, Removing, Local}
use cht_bench.Lf.Laws.Slot.{IsOk, Hides, Shows, Shows-Evolves, Shows-IsOk}
use cht_bench.Lf.Laws.Own.{Fair, quiet, hiding, search-Fair, after_search-Fair}

module _ (b : Bucket) (ok : IsOk b) where
  -- A snapshot with another mark on one slot.
  pub marks :
      (s : Snapshot) (i m : ℕ)
      → IsSame b.snapshot s
      → m ≢ map_valid
      → Hides i b (record b { snapshot = snap_set_map s i m })
  marks s i m same other = record {
    same = sym same.version;
    changes = record { others = λ j below away. (ground (arith, same.map j below), refl, refl) };
    hidden = λ e. other (ground arith);
  }

  pub undo-Hides : (i : ℕ) → Hides i b (record b { snapshot = snap_set_map b.snapshot i map_invld })
  undo-Hides i =
      marks b.snapshot i map_invld (record { version = refl; map = λ j below. refl })
        (λ e. absurd (omega arith))

  pub val-Hides :
      (i v : ℕ) → b.snapshot.map i ≢ map_valid → Hides i b (record b { val = put_at b.val i v })
  val-Hides i v hidden = record {
    same = refl;
    changes = record { others = λ j below away. (refl, refl, ground arith) };
    hidden = hidden;
  }

  pub key-Hides :
      (i k : ℕ) → b.snapshot.map i ≢ map_valid → Hides i b (record b { key = put_at b.key i k })
  key-Hides i k hidden = record {
    same = refl;
    changes = record { others = λ j below away. (refl, ground arith, refl) };
    hidden = hidden;
  }

  put_undo-Fair :
      (k v i : ℕ) → Local b (put_undo k v i) → Fair b (put_undo k v i) (advance (put_undo k v i) b)
  unfolding advance
  put_undo-Fair k v i l =
      hiding b (put_undo k v i) i (advance (put_undo k v i) b) ok (undo-Hides i) refl tt
        (λ held. refl) (λ j e. absurd (cc))

  put_reserve-Fair :
      (k v : ℕ) (s : Snapshot) (i : ℕ)
      → Reserving b k v s i
      → Fair b (put_reserve k v s i) (advance (put_reserve k v s i) b)
  unfolding advance
  put_reserve-Fair k v s i l = elim (Bool-cases (same_snapshot b.snapshot s)) [
    | inr n ↦ rw n (
        quiet b (put_reserve k v s i) (put_retry k v none) none_yet ok refl (l.real, tt)
          (λ j h. absurd (cc)))
    | inl e ↦
        let same = same_snapshot-IsSame b.snapshot s e in
        let s1 = snap_set_map s i map_insrt in
        let b' : Bucket = record b { snapshot = s1 } in
        let next : Reserved b' k v s1 i = record {
          real = l.real;
          inside = l.inside;
          held = ground arith;
          marked = ground arith;
          seen = Seen-refl b';
          clear = λ now j below valid.
              l.clear (IsSame-Current s b same) j below (ground (arith, same.map j below));
        } in
        rw e (
          hiding b (put_reserve k v s i) i (outcome b' (put_val k v s1 i) none_yet) ok
            (marks s i map_insrt same (λ e. absurd (omega arith))) refl next
            (λ held. absurd (omega (arith, same.map i l.inside, l.marked)))
            (λ j h. inr (ground (arith, same.map i l.inside, l.marked))))
  ]

  put_val-Fair :
      (k v : ℕ) (s : Snapshot) (i : ℕ)
      → Reserved b k v s i
      → Fair b (put_val k v s i) (advance (put_val k v s i) b)
  unfolding advance
  put_val-Fair k v s i l =
      let b' : Bucket = record b { val = put_at b.val i v } in
      let h = val-Hides i v (λ e. absurd (omega (arith, l.held))) in
      let next : Reserved b' k v s i = record {
        real = l.real;
        inside = l.inside;
        held = l.held;
        marked = l.marked;
        seen = record { before = l.seen.before; back = l.seen.back };
        clear = λ now. l.clear (record { same = now.same; there = now.there });
      } in
      hiding b (put_val k v s i) i (advance (put_val k v s i) b) ok h refl (next, ground arith)
        (λ held. refl) (λ j e. inl e)

  put_key-Fair :
      (k v : ℕ) (s : Snapshot) (i : ℕ)
      → Reserved b k v s i × (b.val i ≡ v)
      → Fair b (put_key k v s i) (advance (put_key k v s i) b)
  unfolding advance
  put_key-Fair k v s i (l, value) =
      let b' : Bucket = record b { key = put_at b.key i k } in
      let h = key-Hides i k (λ e. absurd (omega (arith, l.held))) in
      let next : Reserved b' k v s i = record {
        real = l.real;
        inside = l.inside;
        held = l.held;
        marked = l.marked;
        seen = record { before = l.seen.before; back = l.seen.back };
        clear = λ now j below valid.
            let apart : j ≢ i = λ e. absurd (omega (arith, l.held, (rw e at valid))) in
            ground (arith, l.clear (record { same = now.same; there = now.there }) j below valid);
      } in
      hiding b (put_key k v s i) i (advance (put_key k v s i) b) ok h refl
        (next, ground arith, value) (λ held. refl) (λ j e. inl e)

  -- The bucket that a successful insertion leaves.
  abbrev pub inserted : Snapshot → ℕ → Bucket
  inserted s i = record b { snapshot = snap_set_map_and_inc_version s i map_valid }

  pub put_commit-Shows :
      (k v : ℕ) (s : Snapshot) (i : ℕ)
      → Local b (put_commit k v s i)
      → IsSame b.snapshot s
      → b.snapshot.version + 1 < 2 ^ 32
      → Shows i b (inserted s i)
  put_commit-Shows k v s i (l, key, val) same fits = record {
    inside = l.inside;
    newer = omega (arith, same.version);
    changes = record { others = λ j below away. (ground (arith, same.map j below), refl, refl) };
    real = λ zeroed. l.real (sym val ∙ zeroed);
    clear = λ j below valid e. l.clear (IsSame-Current s b same) j below valid (e ∙ key);
  }

  put_commit-Fair :
      (k v : ℕ) (s : Snapshot) (i : ℕ)
      → Local b (put_commit k v s i)
      → b.snapshot.version + 1 < 2 ^ 32
      → Fair b (put_commit k v s i) (advance (put_commit k v s i) b)
  unfolding advance
  put_commit-Fair k v s i l fits = elim (Bool-cases (same_snapshot b.snapshot s)) [
    | inr n ↦ rw n (
        quiet b (put_commit k v s i) (put_retry k v (some i)) none_yet ok refl
          (l.0.real, (l.0.inside, l.0.held, l.1, l.2)) (λ j h. h))
    | inl e ↦
        let shows = put_commit-Shows k v s i l (same_snapshot-IsSame b.snapshot s e) fits in
        let fair : Fair b (put_commit k v s i)
            (outcome (inserted s i) idle (put_returns k v true)) =
          record {
            evolves = Shows-Evolves i b (inserted s i) shows;
            ok = Shows-IsOk i b (inserted s i) shows ok;
            local = tt;
            version = shows.newer;
            leaves = λ j below held other. elim (ℕ_discrete j i) [
              | yes e ↦ absurd (other (ap some (sym e)))
              | no away ↦ shows.changes.others j below away
            ];
            owns = λ j h. absurd (cc);
          } in
        rw e fair
  ]

  remove_key-Fair :
      (k : ℕ) (s : Snapshot) (i : ℕ)
      → (i < key_buckt) × Seen s b
      → Fair b (remove_key k s i) (advance (remove_key k s i) b)
  unfolding advance
  remove_key-Fair k s i (below, seen) = elim (Bool-cases (b.key i == k && s.map i == map_valid)) [
    | inl e ↦
        let next : Removing b k s i = record {
          inside = below;
          marked = ground arith;
          seen = seen;
          key = λ now. ground arith;
        } in
        rw e
          (quiet b (remove_key k s i) (remove_val k s i) none_yet ok refl next (λ j h. absurd (cc)))
    | inr n ↦ elim (Bool-cases (ltb (suc i) key_buckt)) [
      | inl m ↦
          rw (n, m)
            (quiet b (remove_key k s i) (remove_key k s (suc i)) none_yet ok refl
              (ground arith, seen) (λ j h. absurd (cc)))
      | inr m ↦
          rw (n, m)
            (quiet b (remove_key k s i) idle (remove_returns k 0) ok refl tt (λ j h. absurd (cc)))
    ]
  ]

  remove_cas-Fair :
      (k : ℕ) (s : Snapshot) (i w : ℕ)
      → Local b (remove_cas k s i w)
      → Fair b (remove_cas k s i w) (advance (remove_cas k s i w) b)
  unfolding advance
  remove_cas-Fair k s i w (l, val) = elim (Bool-cases (same_snapshot b.snapshot s)) [
    | inr n ↦
        rw n
          (quiet b (remove_cas k s i w) (remove_retry k) none_yet ok refl tt (λ j h. absurd (cc)))
    | inl e ↦
        let same = same_snapshot-IsSame b.snapshot s e in
        let b' : Bucket = record b { snapshot = snap_set_map s i map_invld } in
        rw e (
          hiding b (remove_cas k s i w) i (outcome b' idle (remove_returns k w)) ok
            (marks s i map_invld same (λ e. absurd (omega arith))) refl tt
            (λ held. absurd (omega (arith, same.map i l.inside, l.marked))) (λ j h. absurd (cc)))
  ]

  get_search-Fair : (k : ℕ) (p : Probe) → Fair b (get_search k p) (advance (get_search k p) b)
  unfolding advance
  get_search-Fair k (at_val i) =
      quiet b (get_search k (at_val i)) (get_search k (bucket_search k b (at_val i))) none_yet ok
        refl tt (λ j h. absurd (cc))
  get_search-Fair k (at_map i w) =
      quiet b (get_search k (at_map i w)) (get_search k (bucket_search k b (at_map i w))) none_yet
        ok refl tt (λ j h. absurd (cc))
  get_search-Fair k (at_key i w) =
      quiet b (get_search k (at_key i w)) (get_search k (bucket_search k b (at_key i w))) none_yet
        ok refl tt (λ j h. absurd (cc))
  get_search-Fair k (at_again i w) =
      quiet b (get_search k (at_again i w)) (get_search k (bucket_search k b (at_again i w)))
        none_yet ok refl tt (λ j h. absurd (cc))
  get_search-Fair k (found r) =
      quiet b (get_search k (found r)) idle (get_returns k r) ok refl tt (λ j h. absurd (cc))

  put_search-Fair :
      (k v : ℕ) (e : Option ℕ) (s : Snapshot) (p : Probe)
      → Searching b k v e s p
      → Fair b (put_search k v e s p) (advance (put_search k v e s p) b)
  unfolding advance
  put_search-Fair k v e s (at_val i) l = search-Fair b ok k v e s (at_val i) l
  put_search-Fair k v e s (at_map i w) l = search-Fair b ok k v e s (at_map i w) l
  put_search-Fair k v e s (at_key i w) l = search-Fair b ok k v e s (at_key i w) l
  put_search-Fair k v e s (at_again i w) l = search-Fair b ok k v e s (at_again i w) l
  put_search-Fair k v e s (found r) l = after_search-Fair b ok k v e s r l

  Holds-Marked : (k v : ℕ) (e : Option ℕ) → Holds b k v e → Marked b.snapshot e
  Holds-Marked k v none h = tt
  Holds-Marked k v (some i) h = h.1

  put_retry-Fair :
      (k v : ℕ) (e : Option ℕ)
      → (v ≢ 0) × Holds b k v e
      → Fair b (put_retry k v e) (advance (put_retry k v e) b)
  unfolding advance
  put_retry-Fair k v e l =
      let next : Searching b k v e b.snapshot (at_val 0) = record {
        real = l.0;
        holds = l.1;
        marked = Holds-Marked k v e l.1;
        seen = Seen-refl b;
        inside = omega arith;
        probed = λ now j below valid. absurd (omega arith);
      } in
      quiet b (put_retry k v e) (put_search k v e b.snapshot (at_val 0)) none_yet ok refl next
        (λ i h. h)

  -- The step of any thread is fair, while the version does not wrap around.
  pub advance-Fair :
      (th : Thread) → Local b th → b.snapshot.version + 1 < 2 ^ 32 → Fair b th (advance th b)
  unfolding advance
  advance-Fair idle l fits = quiet b idle idle none_yet ok refl tt (λ i h. h)
  advance-Fair (put_retry k v e) l fits = put_retry-Fair k v e l
  advance-Fair (put_search k v e s p) l fits = put_search-Fair k v e s p l
  advance-Fair (put_undo k v i) l fits = put_undo-Fair k v i l
  advance-Fair (put_reserve k v s i) l fits = put_reserve-Fair k v s i l
  advance-Fair (put_val k v s i) l fits = put_val-Fair k v s i l
  advance-Fair (put_key k v s i) l fits = put_key-Fair k v s i l
  advance-Fair (put_commit k v s i) l fits = put_commit-Fair k v s i l fits
  advance-Fair (remove_retry k) l fits =
      quiet b (remove_retry k) (remove_key k b.snapshot 0) none_yet ok refl
        (omega arith, Seen-refl b) (λ i h. absurd (cc))
  advance-Fair (remove_key k s i) l fits = remove_key-Fair k s i l
  advance-Fair (remove_val k s i) l fits =
      quiet b (remove_val k s i) (remove_cas k s i (b.val i)) none_yet ok refl (l, λ now. refl)
        (λ j h. absurd (cc))
  advance-Fair (remove_cas k s i w) l fits = remove_cas-Fair k s i w l
  advance-Fair (get_search k p) l fits = get_search-Fair k p

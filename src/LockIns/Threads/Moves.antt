-- ===== src/LockIns/Threads/Moves.antt =====
-- A step of one thread: what it does to the bin, and what the thread then relies on.
use mathlib.Core.Path.{subst}
use cht_bench.Prelude.{
  ℕ, suc, ◌<◌, ◌≡◌, refl, ◌∙◌, sym, ap, ◌≢◌, ◌⊎◌, inl, inr, true, false, Option, none, some, arith,
  ◌==◌, ltb, if◌then◌else◌, is_none, ◌&&◌, Bool-cases, Option-cases,
}
use cht_bench.LockIns.{lock_free, lock_update}
use cht_bench.LockIns.Threads.{
  Bin, Thread, idle, put_exists, put_lock, put_scan, put_grow, put_val, put_key, put_unlock,
  remove_scan, remove_cas, remove_val, remove_zero, Event, none_yet, put_returns, remove_fails,
  Outcome, outcome, advance, IsKey,
}
use cht_bench.LockIns.Threads.Local.{IsSearched, Local, holds, owns}
use cht_bench.LockIns.Threads.Effects.{
  Specified, Does, Same-refl, grown_key, Does-nothing, Does-lock, Does-val, Does-grow, Does-add,
  Does-take, Does-clear,
}

-- A thread gets the lock only when it is free, and a slot only when it takes its entry.
pub record Move (t : Thread) (b : Bin) (o : Outcome) : Type 0 where
  pub does : Does t o.event b o.bin
  pub local : Local o.bin o.thread
  pub holder : holds o.thread ≡ true → (holds t ≡ true) ⊎ (b.lock ≡ lock_free)
  pub owner : (j : ℕ) → owns o.thread ≡ some j → (owns t ≡ some j) ⊎ IsKey (b.key j)

-- A step that changes no slot and no lock.
pub looks :
    (t : Thread) (b : Bin) (u : Thread) (e : Event)
    → Specified e b b
    → Local b u
    → holds u ≡ holds t
    → owns u ≡ owns t
    → Move t b (outcome b u e)
looks t b u e same local holder owner = record {
  does = Does-nothing t b e same;
  local = local;
  holder = λ h. inl (sym holder ∙ h);
  owner = λ j h. inl (sym owner ∙ h);
}

module _ (junk : ℕ → ℕ) (b : Bin) where
  -- The scan without the lock looks at a slot.
  put_exists-Move :
      (k v j : ℕ) → IsKey k → Move (put_exists k v j) b (advance junk (put_exists k v j) b)
  unfolding advance
  put_exists-Move k v j key = elim (Bool-cases (ltb j b.len)) [
    | inl e ↦ elim (Bool-cases (b.key j == k)) [
      | inl here ↦
          rw (e, here)
            (looks (put_exists k v j) b idle (put_returns k v false) (Same-refl b) tt refl refl)
      | inr away ↦
          rw (e, away)
            (looks (put_exists k v j) b (put_exists k v (suc j)) none_yet (Same-refl b) key refl
              refl)
    ]
    | inr e ↦ rw e (looks (put_exists k v j) b (put_lock k v) none_yet (Same-refl b) key refl refl)
  ]

  put_lock-Move : (k v : ℕ) → IsKey k → Move (put_lock k v) b (advance junk (put_lock k v) b)
  unfolding advance
  put_lock-Move k v key = elim (Bool-cases (b.lock == lock_free)) [
    | inl e ↦
        let free : b.lock ≡ lock_free = ground arith in
        rw e record {
          does = Does-lock (put_lock k v) b lock_update none_yet (inr free) (Same-refl b);
          local = record {
            key = key;
            locked = refl;
            reached = omega arith;
            absent = λ i below. absurd (omega (arith, below));
            free = tt;
          };
          holder = λ h. inr free;
          owner = λ j h. absurd (cc);
        }
    | inr e ↦ rw e (looks (put_lock k v) b (put_lock k v) none_yet (Same-refl b) key refl refl)
  ]

  -- The scan with the lock has looked at one more slot.
  IsSearched-next :
      (k j : ℕ) (empty : Option ℕ)
      → IsSearched k j empty b
      → j < b.len
      → b.key j ≢ k
      → IsSearched k (suc j) (if is_none empty && (b.key j == 0) then some j else empty) b
  IsSearched-next k j none s below away = record {
    key = s.key;
    locked = s.locked;
    reached = omega (arith, below);
    absent = λ i h. ground (arith, s.absent i);
    free = elim (Bool-cases (b.key j == 0)) [
      | inl e ↦ rw e (below, ground arith)
      | inr e ↦ rw e tt
    ];
  }
  IsSearched-next k j (some at) s below away = record {
    key = s.key;
    locked = s.locked;
    reached = omega (arith, below);
    absent = λ i h. ground (arith, s.absent i);
    free = s.free;
  }

  -- Every slot has been looked at.
  IsSearched-all :
      (k j : ℕ) (empty : Option ℕ)
      → IsSearched k j empty b
      → ltb j b.len ≡ false
      → IsSearched k b.len empty b
  IsSearched-all k j empty s e =
      let all : j ≡ b.len = ground (arith, s.reached) in subst (λ n. IsSearched k n empty b) all s

  put_scan-Move :
      (k v j : ℕ) (empty : Option ℕ)
      → IsSearched k j empty b
      → Move (put_scan k v j empty) b (advance junk (put_scan k v j empty) b)
  unfolding advance
  put_scan-Move k v j empty s = elim (Bool-cases (ltb j b.len)) [
    | inl e ↦ elim (Bool-cases (b.key j == k)) [
      | inl here ↦
          rw (e, here)
            (looks (put_scan k v j empty) b (put_unlock k v false) none_yet (Same-refl b) s.locked
              refl refl)
      | inr away ↦
          rw (e, away)
            (looks (put_scan k v j empty) b
              (put_scan k v (suc j) (if is_none empty && (b.key j == 0) then some j else empty))
              none_yet (Same-refl b) (IsSearched-next k j empty s (ground arith) (ground arith))
              refl refl)
    ]
    | inr e ↦ elim (Option-cases empty) [
      | inl missing ↦
          rw (e, missing)
            (looks (put_scan k v j none) b (put_grow k v) none_yet (Same-refl b)
              (IsSearched-all k j none (subst (λ o. IsSearched k j o b) missing s) e) refl refl)
      | inr (at, there) ↦
          rw (e, there)
            (looks (put_scan k v j (some at)) b (put_val k v at) none_yet (Same-refl b)
              (IsSearched-all k j (some at) (subst (λ o. IsSearched k j o b) there s) e) refl refl)
    ]
  ]

  remove_scan-Move :
      (k j : ℕ) → IsKey k → Move (remove_scan k j) b (advance junk (remove_scan k j) b)
  unfolding advance
  remove_scan-Move k j key = elim (Bool-cases (ltb j b.len)) [
    | inl e ↦ elim (Bool-cases (b.key j == k)) [
      | inl here ↦
          rw (e, here)
            (looks (remove_scan k j) b (remove_cas k j) none_yet (Same-refl b) (key, ground arith)
              refl refl)
      | inr away ↦
          rw (e, away)
            (looks (remove_scan k j) b (remove_scan k (suc j)) none_yet (Same-refl b) key refl refl)
    ]
    | inr e ↦ rw e (looks (remove_scan k j) b idle (remove_fails k) (Same-refl b) tt refl refl)
  ]

  remove_cas-Move :
      (k j : ℕ) → IsKey k → j < b.len → Move (remove_cas k j) b (advance junk (remove_cas k j) b)
  unfolding advance
  remove_cas-Move k j key below = elim (Bool-cases (b.key j == k)) [
    | inl e ↦
        let here : b.key j ≡ k = ground arith in
        rw e record {
          does = Does-take (remove_cas k j) b k j key below here;
          local = record { inside = below; marked = ground arith; kept = refl };
          holder = λ h. absurd (cc);
          owner = λ i h.
              let same : j ≡ i = ground arith in inr (subst IsKey (sym here ∙ ap b.key same) key);
        }
    | inr e ↦ rw e (looks (remove_cas k j) b idle (remove_fails k) (Same-refl b) tt refl refl)
  ]

  -- Each step of a thread, by the point that it has reached.
  pub advance-Move : (t : Thread) → Local b t → Move t b (advance junk t b)
  unfolding advance
  advance-Move idle l = looks idle b idle none_yet (Same-refl b) tt refl refl
  advance-Move (put_exists k v j) l = put_exists-Move k v j l
  advance-Move (put_lock k v) l = put_lock-Move k v l
  advance-Move (put_scan k v j empty) l = put_scan-Move k v j empty l
  advance-Move (put_grow k v) l = record {
    does = Does-grow (put_grow k v) b refl junk;
    local = record {
      key = l.key;
      locked = l.locked;
      reached = omega arith;
      absent = λ i below e.
          let (inside, at) = grown_key junk b i (subst IsKey (sym e) l.key) in
          l.absent i inside (sym at ∙ e);
      free = (omega arith, ground arith);
    };
    holder = λ h. inl refl;
    owner = λ j h. absurd (cc);
  }
  advance-Move (put_val k v at) l = record {
    does = Does-val (put_val k v at) b refl at v l.free.1;
    local = (
      record {
        key = l.key;
        locked = l.locked;
        reached = l.reached;
        absent = l.absent;
        free = l.free;
      },
      ground arith,
    );
    holder = λ h. inl refl;
    owner = λ j h. absurd (cc);
  }
  advance-Move (put_key k v at) (s, val) = record {
    does = Does-add (put_key k v at) b refl at k v s.key s.free.0 s.free.1 val s.absent;
    local = s.locked;
    holder = λ h. inl refl;
    owner = λ j h. absurd (cc);
  }
  advance-Move (put_unlock k v answer) l = record {
    does =
        Does-lock (put_unlock k v answer) b lock_free (put_returns k v answer) (inl refl)
          (Same-refl b);
    local = tt;
    holder = λ h. absurd (cc);
    owner = λ j h. absurd (cc);
  }
  advance-Move (remove_scan k j) l = remove_scan-Move k j l
  advance-Move (remove_cas k j) l = remove_cas-Move k j l.0 l.1
  advance-Move (remove_val k j took) l =
      looks (remove_val k j took) b (remove_zero k j took (b.val j)) none_yet (Same-refl b)
        (l, l.kept) refl refl
  advance-Move (remove_zero k j took v) (s, val) = record {
    does = Does-clear (remove_zero k j took v) b k took v j refl s.marked val;
    local = tt;
    holder = λ h. absurd (cc);
    owner = λ j h. absurd (cc);
  }

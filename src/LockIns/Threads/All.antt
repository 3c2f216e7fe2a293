-- ===== src/LockIns/Threads/All.antt =====
-- All the threads of a bin: who has the lock, who has which slot, and what each step does.
use mathlib.Core.Path.{subst}
use cht_bench.Prelude.{
  ℕ, ◌≡◌, refl, ◌∙◌, sym, ap, ◌≢◌, inl, inr, false, none, arith, ◌==◌, Bool-cases,
}
use cht_bench.LockIns.Threads.{
  Thread, idle, put_exists, remove_scan, Event, none_yet, Outcome, outcome, System, with_thread,
  Step, moves, calls_put, calls_remove, Reach, start, then_step,
}
use cht_bench.LockIns.Threads.Local.{Local, holds, owns, Keeps-Local, owns-marked, holds-locked}
use cht_bench.LockIns.Threads.Effects.{Unique, Same, Specified, Apart, Same-refl}
use cht_bench.LockIns.Threads.Moves.{Move, looks, advance-Move}

pub record IsConsistent (y : System) : Type 0 where
  pub local : (t : ℕ) → Local y.bin (y.threads t)
  pub apart : (t u : ℕ) → t ≢ u → Apart (y.threads t) (y.threads u)
  pub unique : Unique y.bin

-- The others still rely on what they relied on, and neither has what the moved thread has.
module _ (y : System) (t : ℕ) (o : Outcome) (c : IsConsistent y)
    (m : Move (y.threads t) y.bin o) where
  moved-Local : (u : ℕ) → t ≢ u → Local o.bin (y.threads u)
  moved-Local u other =
      Keeps-Local (y.threads u) y.bin o.bin
        (m.does.keeps (y.threads u) (c.local u) (c.apart t u other)) (c.local u)

  moved-Apart : (u : ℕ) → t ≢ u → Apart o.thread (y.threads u)
  moved-Apart u other = record {
    holder = λ h h'. elim (m.holder h) [
      | inl had ↦ (c.apart t u other).holder had h'
      | inr free ↦ absurd (omega (arith, free, holds-locked (y.threads u) y.bin (c.local u) h'))
    ];
    owner = λ j h h'. elim (m.owner j h) [
      | inl had ↦ (c.apart t u other).owner j had h'
      | inr key ↦ key.plain (owns-marked (y.threads u) y.bin j (c.local u) h').1
    ];
  }

  Apart-sym : (a b : Thread) → Apart a b → Apart b a
  Apart-sym a b h = record { holder = λ x x'. h.holder x' x; owner = λ j x x'. h.owner j x' x }

  moved_all : (u : ℕ) → Local o.bin (with_thread y.threads t o.thread u)
  moved_all u = elim (Bool-cases (t == u)) [
    | inl e ↦ rw e m.local
    | inr e ↦ rw e (moved-Local u (ground arith))
  ]

  moved_pair :
      (u w : ℕ)
      → u ≢ w
      → Apart (with_thread y.threads t o.thread u) (with_thread y.threads t o.thread w)
  moved_pair u w other = elim (Bool-cases (t == u)) [
    | inl e ↦
        let away : t ≢ w = ground arith in
        let n : (t == w) ≡ false = ground arith in rw (e, n) (moved-Apart w away)
    | inr e ↦ elim (Bool-cases (t == w)) [
      | inl e' ↦ rw (e, e') (Apart-sym o.thread (y.threads u) (moved-Apart u (ground arith)))
      | inr e' ↦ rw (e, e') (c.apart u w other)
    ]
  ]

  moved :
      IsConsistent (record { bin = o.bin; threads = with_thread y.threads t o.thread })
      × Specified o.event y.bin o.bin
  moved = (
    record { local = moved_all; apart = moved_pair; unique = m.does.unique c.unique },
    m.does.effect c.unique,
  )

-- An idle thread enters a call.
entered :
    (y : System) (t : ℕ) (u : Thread)
    → IsConsistent y
    → y.threads t ≡ idle
    → Local y.bin u
    → holds u ≡ false
    → owns u ≡ none
    → IsConsistent (record y { threads = with_thread y.threads t u }) × Same y.bin y.bin
entered y t u c waits local holder owner = moved y t (outcome y.bin u none_yet) c (
    looks (y.threads t) y.bin u none_yet (Same-refl y.bin) local (holder ∙ sym (ap holds waits))
      (owner ∙ sym (ap owns waits)))

stepped :
    (junk : ℕ → ℕ) (y z : System) (e : Event)
    → IsConsistent y
    → Step junk y e z
    → IsConsistent z × Specified e y.bin z.bin
stepped junk y _ _ c (moves t o same) = moved y t o c (
    subst (Move (y.threads t) y.bin) (sym same) (advance-Move junk y.bin (y.threads t) (c.local t)))
stepped junk y _ _ c (calls_put t k v waits key) =
    entered y t (put_exists k v 0) c waits key refl refl
stepped junk y _ _ c (calls_remove t k waits key) =
    entered y t (remove_scan k 0) c waits key refl refl

Reach-IsConsistent : (junk : ℕ → ℕ) (y : System) → Reach junk y → IsConsistent y
Reach-IsConsistent junk _ start = record {
  local = λ t. tt;
  apart = λ t u other. record { holder = λ h. absurd (cc); owner = λ j h. absurd (cc) };
  unique = λ i j below below' key. absurd (key.used refl);
}
Reach-IsConsistent junk z (then_step {y} {e} r s) =
    (stepped junk y z e (Reach-IsConsistent junk y r) s).0

-- In every state that any number of threads reach on a bin of clht_lb_lock_ins.c by puts and
-- removals of keys other than 0 and KEY_BLCK, from an empty bin, every step does to the entries
-- what its event says, and no key has two slots: the key write of a put adds the entry, whose key
-- had none; the CAS of a removal takes an entry of the key; no other step changes an entry; and a
-- removal returns the value that its CAS took.
pub step-Specified_ins :
    (junk : ℕ → ℕ) (y z : System) (e : Event)
    → Reach junk y
    → Step junk y e z
    → Specified e y.bin z.bin × Unique z.bin
step-Specified_ins junk y z e r s =
    let (consistent, effect) = stepped junk y z e (Reach-IsConsistent junk y r) s in
    (effect, consistent.unique)

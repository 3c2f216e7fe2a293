-- ===== src/LockIns/Laws/Take.antt =====
-- A removal without the lock takes out what `remove_loop` of Chain takes out.
use cht_bench.Prelude.{
  ℕ, ◌≡◌, refl, Option, none, some, List, [], ◌∷◌, arith, inl, inr, ◌==◌, Bool-cases, Option-cases,
}
use cht_bench.Chain.{Slot, Chain, only, link, first, remove_slot, remove_loop}
use cht_bench.LockIns.{Taken, passed, ended, cas_key, take_slot, take_loop}

-- The slots of a bucket, and whether the loop has ended.
abbrev taken_of : Option (ℕ × List Slot) → Taken
taken_of none = passed
taken_of (some (v, es)) = ended v es

take_slot-remove_slot : (k : ℕ) (l : List Slot) → take_slot k l ≡ taken_of (remove_slot k l)
unfolding take_slot remove_slot cas_key
take_slot-remove_slot k [] = refl
take_slot-remove_slot k (s ∷ r) = elim (Bool-cases (s.key == k)) [
  | inl e ↦ rw e refl
  | inr n ↦ elim (Option-cases (remove_slot k r)) [
    | inl m ↦ rw (n, take_slot-remove_slot k r, m) refl
    | inr (t, m) ↦ rw (n, take_slot-remove_slot k r, m) refl
  ]
]

abbrev pub or_unchanged : Chain → Option (ℕ × Chain) → ℕ × Chain
or_unchanged c none = (0, c)
or_unchanged c (some r) = r

pub take_loop-remove_loop : (k : ℕ) (c : Chain) → take_loop k c ≡ or_unchanged c (remove_loop k c)
unfolding take_loop remove_loop
take_loop-remove_loop k (only b) =
    let here = take_slot-remove_slot k b.entries in
    elim (Option-cases (remove_slot k b.entries)) [
      | inl n ↦ rw (here, n, take_loop, remove_loop) refl
      | inr (t, n) ↦ rw (here, n, take_loop, remove_loop) refl
    ]
take_loop-remove_loop k (link b c) =
    let here = take_slot-remove_slot k b.entries in
    let rest = take_loop-remove_loop k c in
    elim (Option-cases (remove_slot k b.entries)) [
      | inr (t, n) ↦ rw (here, n, take_loop, remove_loop) refl
      | inl n ↦ elim (Option-cases (remove_loop k c)) [
        | inl m ↦ rw (here, n, rest, m, take_loop, remove_loop) refl
        | inr (t, m) ↦ rw (here, n, rest, m, take_loop, remove_loop) refl
      ]
    ]

-- A removal from a chain leaves the lock of its first bucket alone.
pub lock-remove_loop :
    (k v : ℕ) (c c' : Chain) → remove_loop k c ≡ some (v, c') → (first c').lock ≡ (first c).lock
unfolding remove_loop
lock-remove_loop k v (only b) c' h = elim (Option-cases (remove_slot k b.entries)) [
  | inl n ↦ absurd (ground arith)
  | inr (t, n) ↦ ground arith
]
lock-remove_loop k v (link b c) c' h = elim (Option-cases (remove_slot k b.entries)) [
  | inr (t, n) ↦ ground arith
  | inl n ↦ elim (Option-cases (remove_loop k c)) [
    | inl m ↦ absurd (ground arith)
    | inr (t, m) ↦ ground arith
  ]
]

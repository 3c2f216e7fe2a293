-- ===== src/LbRes/Threads/Frontier.antt =====
-- The table during a resize: what a change of a bucket and the copy of one keep.
use cht_bench.LbRes.Threads.Invariant.{
  lock_at, lock_at_lem, lock_at-set_self, lock_at-set_ne, Sound,
}
use cht_bench.Prelude.{
  ℕ, suc, ◌≤◌, ◌≡◌, ◌∙◌, sym, ap, ◌≢◌, ◌⊎◌, inl, inr, none, some, List, arith, get_elem?,
  lt-get_elem?, set, length-set, Option-cases, ℕ_discrete,
}
use cht_bench.Hash.{hash_bin}
use cht_bench.Chain.{Chain, first}
use cht_bench.Chain.Laws.{slots}
use cht_bench.Table.Rows.{IsPlaced, view, row, row-set, row-get_elem?}
use cht_bench.Chain.Slots.{find}
use cht_bench.LbRes.Laws.Valid.{IsValid}
use cht_bench.LbRes.{Hashtable, lock_free, lock_update, lock_resize}
use cht_bench.LbRes.Threads.Work.{rewritten}

-- A chain with the same slots keeps every row.
pub row-set_same :
    (t : List Chain) (i j : ℕ) (c d : Chain)
    → get_elem? t i ≡ some c
    → slots d ≡ slots c
    → row (set t i d) j ≡ row t j
row-set_same t i j c d here same =
    ground (arith, row-set t i j d (lt-get_elem? t i c here), row-get_elem? t i c here)

pub IsPlaced-set :
    (home : ℕ → ℕ) (t : List Chain) (i : ℕ) (c d : Chain)
    → get_elem? t i ≡ some c
    → slots d ≡ slots c
    → IsPlaced home t
    → IsPlaced home (set t i d)
IsPlaced-set home t i c d here same placed = record {
  once = λ q j real. rw (row-set_same t i j c d here same) (placed.once q j real);
  apart = λ q j real away. rw (row-set_same t i j c d here same) (placed.apart q j real away);
}

pub view-set :
    (home : ℕ → ℕ) (t : List Chain) (i : ℕ) (c d : Chain)
    → get_elem? t i ≡ some c
    → slots d ≡ slots c
    → (q : ℕ) → view home (set t i d) q ≡ view home t q
unfolding view
view-set home t i c d here same q = ap (find q) (row-set_same t i (home q) c d here same)

-- A bucket that is not copied yet changes.
pub rewrite-Sound :
    (cur : Hashtable) (p n i : ℕ) (c d : Chain)
    → Sound cur p
    → p ≤ i
    → get_elem? cur.table i ≡ some c
    → ((first d).lock ≡ lock_free) ⊎ ((first d).lock ≡ lock_update)
    → IsPlaced (hash_bin cur.hash) (set cur.table i d)
    → Sound (rewritten cur n i d) p
rewrite-Sound cur p n i c d sound above here open_lock placed = record {
  placed = placed;
  width = length-set cur.table i d ∙ sound.width;
  frozen = λ j l below e.
      sound.frozen j l below (sym (lock_at-set_ne cur.table i j d (λ z. absurd (omega arith))) ∙ e);
  ahead = λ j l from e. elim (ℕ_discrete i j) [
    | yes same ↦
        let now = lock_at-set_self cur.table i c d here in
        let at_j = ap (lock_at (set cur.table i d)) same in
        let word : (first d).lock ≡ l = cc in rw word at open_lock
    | no other ↦ sound.ahead j l from (sym (lock_at-set_ne cur.table i j d other) ∙ e)
  ];
}

-- The next bucket is copied.
pub copy-Sound :
    (cur : Hashtable) (p n : ℕ) (c d : Chain)
    → Sound cur p
    → get_elem? cur.table p ≡ some c
    → slots d ≡ slots c
    → (first d).lock ≡ lock_resize
    → Sound (rewritten cur n p d) (suc p)
copy-Sound cur p n c d sound here same taken = record {
  placed = IsPlaced-set (hash_bin cur.hash) cur.table p c d here same sound.placed;
  width = length-set cur.table p d ∙ sound.width;
  frozen = λ j l below e. elim (ℕ_discrete p j) [
    | yes eq ↦
        let now = lock_at-set_self cur.table p c d here in
        let at_j = ap (lock_at (set cur.table p d)) eq in
        let word : (first d).lock ≡ l = cc in rw word at taken
    | no other ↦ sound.frozen j l (omega arith) (sym (lock_at-set_ne cur.table p j d other) ∙ e)
  ];
  ahead = λ j l from e.
      sound.ahead j l (omega arith)
        (sym (lock_at-set_ne cur.table p j d (λ z. absurd (omega arith))) ∙ e);
}

-- No bucket of a well-formed table is copied.
pub IsValid-Sound : (h : Hashtable) → IsValid h → Sound h 0
IsValid-Sound h valid = record {
  placed = valid.placed;
  width = valid.width;
  frozen = λ i l below e. absurd (omega arith);
  ahead = λ i l from e. elim (Option-cases (get_elem? h.table i)) [
    | inl z ↦ let n : none ≡ some l = rw (z, lock_at) at e in absurd (cc)
    | inr (c, z) ↦
        let word = lock_at_lem h.table i c z in let unlocked = valid.unlocked i c z in inl (cc)
  ];
}

pub nothing_locked : (h : Hashtable) (i : ℕ) → IsValid h → lock_at h.table i ≢ some lock_update
nothing_locked h i valid taken = elim (Option-cases (get_elem? h.table i)) [
  | inl z ↦ let n : none ≡ some lock_update = rw (z, lock_at) at taken in cc
  | inr (c, z) ↦
      let word = lock_at_lem h.table i c z in
      let unlocked = valid.unlocked i c z in
      omega (arith, unlocked, (let e : (first c).lock ≡ lock_update = cc in e))
]

-- ===== src/Packed/Laws/Loops.antt =====
-- The loops of `clht_put` and `clht_remove`, seen on the row of used slots.
use mathlib.Core.List.{append_assoc, append-nil}
use cht_bench.Prelude.{
  ℕ, suc, ◌+◌, ◌-◌, ◌<◌, ◌≡◌, refl, ◌∙◌, sym, ap, true, some, [], ◌∷◌, ◌++◌, arith, inl, inr, ◌==◌,
  ltb, Bool-cases, ==→eq, eq→==, ne→==, ℕ_discrete, dec_lt,
}
use cht_bench.Prelude.Run.{ok}
use cht_bench.Chain.{Slot}
use cht_bench.Chain.Slots.{occurs, occurs-append}
use cht_bench.Packed.{
  Bucket, Chain, only, link, entries_per_bucket, first, write, push, bucket_create, put_loop, close,
  take_last, remove_at, remove_loop,
}
use cht_bench.Packed.Laws.Rows.{
  upto, used, content, IsEmpty, IsPacked, content-IsEmpty, first-IsEmpty, scan_absent, scan_present,
  upto-write, around, upto-around, upto_self, write_twice,
}
use cht_bench.Packed.Laws.Swap.{Swaps, drops, moves, Swaps-append}

used-push : (b : Bucket) (s : Slot) → used (push b s) ≡ used b ++ s ∷ []
unfolding upto
used-push b s =
    let z : b.last + 1 ≡ suc b.last = omega arith in
    rw (z, upto-write b.entries b.last b.last s (omega arith), eq→== b.last b.last refl) refl

-- The entry goes to the end of the row.
pub put_loop-append :
    (junk : ℕ → ℕ) (s : Slot) (c : Chain)
    → IsPacked c
    → occurs s.key (content c) ≡ 0
    → (c' : Chain) × (put_loop (some junk) s c ≡ ok (true, c'))
      × (content c' ≡ content c ++ s ∷ [])
      × IsPacked c'
unfolding put_loop bucket_create upto
put_loop-append junk s (only b) p absent =
    let missing = scan_absent s.key b absent in
    elim (Bool-cases (ltb b.last entries_per_bucket)) [
      | inl room ↦ (only (push b s), rw (missing, room, put_loop) refl, used-push b s, ground arith)
      | inr full ↦
          let n : Bucket = record {
            lock = 0;
            last = 0;
            entries = λ j. record { key = 0; val = junk j };
          } in
          (
            link b (only (push n s)),
            rw (missing, full, put_loop) refl,
            rw (used-push n s) refl,
            (p, λ more. absurd (ground arith), omega arith),
          )
    ]
put_loop-append junk s (link b c) p absent =
    let split = occurs-append s.key (used b) (content c) in
    let missing = scan_absent s.key b (omega (arith, split, absent)) in
    elim (Bool-cases (ltb b.last entries_per_bucket)) [
      | inl room ↦
          let behind : IsEmpty c = p.1 (ground arith) in
          (
            link (push b s) c,
            rw (missing, room, put_loop) refl,
            rw (used-push b s, content-IsEmpty c behind, append-nil, append-nil) refl,
            (ground arith, λ more. behind, p.2),
          )
      | inr full ↦
          let (c', run, row, packed) =
            put_loop-append junk s c p.2 (omega (arith, split, absent)) in
          (
            link b c',
            rw (missing, full, run, put_loop) refl,
            rw (row, append_assoc) refl,
            (p.0, λ more. absurd (ground arith), packed),
          )
    ]

used_last :
    (b : Bucket) → 0 < b.last → used b ≡ upto b.entries (b.last - 1) ++ b.entries (b.last - 1) ∷ []
unfolding upto
used_last b more = let z : b.last ≡ suc (b.last - 1) = omega arith in ap (upto b.entries) z

IsEmpty-first : (c : Chain) → IsEmpty c → (first c).last ≡ 0
IsEmpty-first (only b) h = h
IsEmpty-first (link b c) h = h.0

-- The entry that is taken off is the last one of the row.
take_last-append :
    (c : Chain)
    → IsPacked c
    → 0 < (first c).last
    → (content c ≡ content (take_last c).1 ++ (take_last c).0 ∷ []) × IsPacked (take_last c).1
unfolding take_last
take_last-append (only b) p more = (used_last b more, omega (arith, p))
take_last-append (link b c) p more = elim (Bool-cases ((first c).last == 0)) [
  | inl e ↦
      let behind = first-IsEmpty c p.2 (==→eq (first c).last 0 e) in
      rw e (
        rw (content-IsEmpty c behind, append-nil, append-nil) (used_last b more),
        (omega (arith, p.0), λ room. behind, p.2),
      )
  | inr n ↦
      let (row, packed) = take_last-append c p.2 (ground arith) in
      rw n (
        ap (λ l. used b ++ l) row
            ∙ sym (append_assoc (used b) (content (take_last c).1) ((take_last c).0 ∷ [])),
        (p.0, λ room. absurd (ground (arith, IsEmpty-first c (p.1 room))), packed),
      )
]

close-Swaps : (b : Bucket) (j : ℕ) → j < b.last → Swaps (used b) (b.entries j) (used (close b j))
unfolding close
close-Swaps b j below =
    let n = b.last - 1 in
    let hole = write b.entries j (record { key = 0; val = (b.entries j).val }) in
    elim (ℕ_discrete j n) [
      | yes e ↦ drops (upto b.entries n) (rw e (used_last b (omega arith))) (
          upto-write hole n j (hole n) (omega (arith, e))
          ∙ upto-write b.entries n j (record { key = 0; val = (b.entries j).val })
              (omega (arith, e)))
      | no other ↦
          let inside : j < n = omega arith in
          let kept : hole n ≡ b.entries n = rw (ne→== j n other) refl in
          moves (upto b.entries j) (around b.entries j n) (b.entries n)
            (used_last b (omega arith) ∙ rw (upto_self b.entries n j inside, append_assoc) refl)
            (rw (write_twice, kept) (upto-around b.entries n j (b.entries n) inside))
    ]

-- A removal from the first bucket.
remove_at-Swaps :
    (c : Chain) (j : ℕ)
    → IsPacked c
    → j < (first c).last
    → Swaps (content c) ((first c).entries j) (content (remove_at c j)) × IsPacked (remove_at c j)
unfolding remove_at
remove_at-Swaps (only b) j p below = (close-Swaps b j below, omega (arith, p))
remove_at-Swaps (link b c) j p below = elim (Bool-cases ((first c).last == 0)) [
  | inl e ↦
      let behind = first-IsEmpty c p.2 (==→eq (first c).last 0 e) in
      rw e (
        rw (content-IsEmpty c behind, append-nil, append-nil) (close-Swaps b j below),
        (omega (arith, p.0), λ room. behind, p.2),
      )
  | inr n ↦
      let (row, packed) = take_last-append c p.2 (ground arith) in
      rw n (
        moves (upto b.entries j) (around b.entries j b.last ++ content (take_last c).1)
            (take_last c).0 (rw (upto_self b.entries b.last j below, row) (simp append_assoc))
            (rw (upto-around b.entries b.last j (take_last c).0 below) (simp append_assoc)),
        (p.0, λ room. absurd (ground (arith, IsEmpty-first c (p.1 room))), packed),
      )
]

-- The loop of `clht_remove` on a chain that has the key.
pub remove_loop-Swaps :
    (k : ℕ) (c : Chain)
    → IsPacked c
    → 0 < occurs k (content c)
    → (s : Slot) × (c' : Chain) × (s.key ≡ k)
      × (remove_loop k c ≡ some (s.val, c'))
      × Swaps (content c) s (content c')
      × IsPacked c'
unfolding remove_loop occurs
remove_loop-Swaps k (only b) p here =
    let (j, found, below, key) = scan_present k b here in
    let (swaps, packed) = remove_at-Swaps (only b) j p below in
    (b.entries j, remove_at (only b) j, key, rw (found, remove_loop) refl, swaps, packed)
remove_loop-Swaps k (link b c) p here = elim (dec_lt 0 (occurs k (used b))) [
  | yes near ↦
      let (j, found, below, key) = scan_present k b near in
      let (swaps, packed) = remove_at-Swaps (link b c) j p below in
      (b.entries j, remove_at (link b c) j, key, rw (found, remove_loop) refl, swaps, packed)
  | no far ↦
      let missing = scan_absent k b (omega arith) in
      let split = occurs-append k (used b) (content c) in
      let (s, c', key, run, swaps, packed) = remove_loop-Swaps k c p.2 (omega (arith, split)) in
      elim (Bool-cases (ltb b.last entries_per_bucket)) [
        | inl room ↦
            let nothing = ap (occurs k) (content-IsEmpty c (p.1 (ground arith))) in
            absurd (omega (arith, here, split, nothing))
        | inr full ↦ (
          s,
          link b c',
          key,
          rw (missing, full, run, remove_loop) refl,
          Swaps-append (used b) (content c) (content c') s swaps,
          (p.0, λ more. absurd (ground arith), packed),
        )
      ]
]

-- ===== src/Lf/Laws/Search.antt =====
-- `clht_bucket_search` on a bucket that does not change.
use cht_bench.Prelude.{
  ℕ, zero, suc, ◌+◌, ◌*◌, ◌≤◌, ◌≡◌, refl, ◌∙◌, ◌&&◌, inl, inr, arith, ◌==◌, if◌then◌else◌,
  Bool-cases, eq→==,
}
use cht_bench.Lf.{key_buckt, map_valid, Bucket, Probe, at_val, found, bucket_search, next_slot}

-- The search again and again.
unfoldable pub search_steps : ℕ → ℕ → Bucket → Probe → Probe
search_steps zero k b p = p
search_steps (suc n) k b p = search_steps n k b (bucket_search k b p)

-- The value of the first valid slot with the key, from `i` on, or 0.
unfoldable pub lookup : ℕ → ℕ → ℕ → Bucket → ℕ
lookup k zero i b = 0
lookup k (suc left) i b =
    let rest = lookup k left (suc i) b in
    if b.snapshot.map i == map_valid && b.key i == k then b.val i else rest

search_steps-add :
    (n m k : ℕ) (b : Bucket) (p : Probe)
    → search_steps (n + m) k b p ≡ search_steps m k b (search_steps n k b p)
unfolding search_steps
search_steps-add zero m k b p = let z : 0 + m ≡ m = omega arith in rw z refl
search_steps-add (suc n) m k b p =
    let s : suc n + m ≡ suc (n + m) = omega arith in
    rw s (search_steps-add n m k b (bucket_search k b p))

-- One slot takes at most four accesses.
slot_steps :
    (k i : ℕ) (b : Bucket)
    → (n : ℕ) × (n ≤ 4)
      × (search_steps n k b (at_val i) ≡ (
          if b.snapshot.map i == map_valid && b.key i == k then found (b.val i) else next_slot i))
unfolding search_steps bucket_search
slot_steps k i b = elim (Bool-cases (b.snapshot.map i == map_valid)) [
  | inr n ↦ (2, omega arith, rw (n, ◌&&◌) refl)
  | inl e ↦ elim (Bool-cases (b.key i == k)) [
    | inr n ↦ (3, omega arith, rw (e, n) refl)
    | inl f ↦ (4, omega arith, rw (e, f, eq→== (b.val i) (b.val i) refl) refl)
  ]
]

next_slot-last : (i : ℕ) → i + 1 ≡ key_buckt → next_slot i ≡ found 0
next_slot-last i h = ground arith

next_slot-more : (i left : ℕ) → i + suc (suc left) ≡ key_buckt → next_slot i ≡ at_val (suc i)
next_slot-more i left h = ground arith

pub search-lookup :
    (k left i : ℕ) (b : Bucket)
    → i + suc left ≡ key_buckt
    → (n : ℕ) × (n ≤ 4 * suc left)
      × (search_steps n k b (at_val i) ≡ found (lookup k (suc left) i b))
unfolding lookup
search-lookup k zero i b total =
    let (n, few, one) = slot_steps k i b in
    elim (Bool-cases (b.snapshot.map i == map_valid && b.key i == k)) [
      | inl e ↦ (n, few, rw (one, e) refl)
      | inr e ↦ (n, few, rw (one, e) (next_slot-last i total))
    ]
search-lookup k (suc left) i b total =
    let (n, few, one) = slot_steps k i b in
    elim (Bool-cases (b.snapshot.map i == map_valid && b.key i == k)) [
      | inl e ↦ (n, omega (arith, few), rw (one, e) refl)
      | inr e ↦
          let (m, some_more, rest) = search-lookup k left (suc i) b (omega (arith, total)) in
          (
            n + m,
            omega (arith, few, some_more),
            search_steps-add n m k b (at_val i) ∙ rw (one, e, next_slot-more i left total) rest,
          )
    ]

-- ===== src/Packed/Laws/Rows.antt =====
-- The used slots of a bucket and of a chain in one row, and the loops that look for a key.
use mathlib.Core.Path.{fun_ext}
use mathlib.Core.Option.{or_else}
use mathlib.Core.List.{append_assoc, append-nil}
use cht_bench.Prelude.{
  ℕ, zero, suc, ◌+◌, ◌≤◌, ◌<◌, ◌≡◌, refl, ◌∙◌, sym, ap, ◌⊎◌, none, some, List, [], ◌∷◌, ◌++◌, arith,
  inl, inr, ◌==◌, ltb, if◌then◌else◌, or_zero, Bool-cases, ==→eq, eq→==, ne→==, ℕ_discrete,
}
use cht_bench.Chain.{Slot}
use cht_bench.Chain.Slots.{find, occurs, find-append, occurs-append, find-eq-none}
use cht_bench.Packed.{
  Bucket, Chain, only, link, entries_per_bucket, first, write, search, get_loop, bucket_has,
  bucket_exists, scan,
}

-- The slots below an index.
unfoldable pub upto : (ℕ → Slot) → ℕ → List Slot
upto es zero = []
upto es (suc n) = upto es n ++ es n ∷ []

abbrev pub used : Bucket → List Slot
used b = upto b.entries b.last

abbrev pub content : Chain → List Slot
content (only b) = used b
content (link b c) = used b ++ content c

abbrev pub IsEmpty : Chain → Type 0
IsEmpty (only b) = b.last ≡ 0
IsEmpty (link b c) = (b.last ≡ 0) × IsEmpty c

-- A bucket that is not full has only empty ones behind it.
abbrev pub IsPacked : Chain → Type 0
IsPacked (only b) = b.last ≤ entries_per_bucket
IsPacked (link b c) =
    (b.last ≤ entries_per_bucket) × (b.last < entries_per_bucket → IsEmpty c) × IsPacked c

upto_zero : (es : ℕ → Slot) (n : ℕ) → n ≡ 0 → upto es n ≡ []
unfolding upto
upto_zero es zero h = refl
upto_zero es (suc n) h = absurd (omega arith)

pub content-IsEmpty : (c : Chain) → IsEmpty c → content c ≡ []
content-IsEmpty (only b) h = upto_zero b.entries b.last h
content-IsEmpty (link b c) h = rw (upto_zero b.entries b.last h.0, content-IsEmpty c h.1)

pub first-IsEmpty : (c : Chain) → IsPacked c → (first c).last ≡ 0 → IsEmpty c
first-IsEmpty (only b) p h = h
first-IsEmpty (link b c) p h = (h, p.1 (omega (arith, h)))

search-find :
    (k : ℕ) (es : ℕ → Slot) (j : ℕ) → occurs k (upto es j) ≤ 1 → search k es j ≡ find k (upto es j)
unfolding search upto find occurs or_else
search-find k es zero h = refl
search-find k es (suc j) h =
    let more = occurs-append k (upto es j) (es j ∷ []) in
    ground (
      arith,
      more,
      find-append k (upto es j) (es j ∷ []),
      find-eq-none k (upto es j),
      search-find k es j,
    )

bucket_has-occurs :
    (k : ℕ) (es : ℕ → Slot) (j : ℕ) → bucket_has k es j ≡ ltb 0 (occurs k (upto es j))
unfolding bucket_has upto occurs
bucket_has-occurs k es zero = refl
bucket_has-occurs k es (suc j) =
    ground (arith, occurs-append k (upto es j) (es j ∷ []), bucket_has-occurs k es j)

-- `clht_get` finds the entry of the key.
pub get_loop-find :
    (k : ℕ) (c : Chain)
    → IsPacked c
    → occurs k (content c) ≤ 1
    → get_loop k c ≡ or_zero (find k (content c))
unfolding get_loop or_else
get_loop-find k (only b) p h = ground (arith, search-find k b.entries b.last)
get_loop-find k (link b c) p h =
    let split = occurs-append k (used b) (content c) in
    let here = search-find k b.entries b.last (omega (arith, split)) in
    let there = get_loop-find k c p.2 (omega (arith, split)) in
    elim (Bool-cases (ltb b.last entries_per_bucket)) [
      | inr full ↦ rw (find-append k (used b) (content c)) (ground (arith, here, there))
      | inl room ↦
          let nothing : content c ≡ [] = content-IsEmpty c (p.1 (ground arith)) in
          rw (nothing, append-nil) (ground (arith, here))
    ]

pub bucket_exists-occurs :
    (k : ℕ) (c : Chain) → IsPacked c → bucket_exists k c ≡ ltb 0 (occurs k (content c))
unfolding bucket_exists
bucket_exists-occurs k (only b) p = ground (arith, bucket_has-occurs k b.entries b.last)
bucket_exists-occurs k (link b c) p =
    let here = bucket_has-occurs k b.entries b.last in
    let there = bucket_exists-occurs k c p.2 in
    elim (Bool-cases (ltb b.last entries_per_bucket)) [
      | inr full ↦ rw (occurs-append k (used b) (content c)) (ground (arith, here, there))
      | inl room ↦
          let nothing : content c ≡ [] = content-IsEmpty c (p.1 (ground arith)) in
          rw (nothing, append-nil) (ground (arith, here))
    ]

-- The upward search of a bucket.
scan_from :
    (k : ℕ) (es : ℕ → Slot) (j left : ℕ)
    → ((scan k es j left ≡ none) × (occurs k (upto es (j + left)) ≡ occurs k (upto es j)))
      ⊎ ((i : ℕ) × (scan k es j left ≡ some i) × (i < j + left) × ((es i).key ≡ k))
unfolding scan upto occurs
scan_from k es j zero = let z : j + 0 ≡ j = omega arith in inl (refl, rw z refl)
scan_from k es j (suc left) =
    let z : j + suc left ≡ suc j + left = omega arith in
    elim (Bool-cases ((es j).key == k)) [
      | inl same ↦ inr (j, rw same refl, omega arith, ==→eq (es j).key k same)
      | inr other ↦ elim (scan_from k es (suc j) left) [
        | inl (e, count) ↦
            inl
              (rw other e, rw z (count ∙ (ground (arith, occurs-append k (upto es j) (es j ∷ [])))))
        | inr (i, e, below, key) ↦ inr (i, rw other e, omega arith, key)
      ]
    ]

occurs-upto : (k : ℕ) (es : ℕ → Slot) (n i : ℕ) → i < n → (es i).key ≡ k → 0 < occurs k (upto es n)
unfolding upto occurs
occurs-upto k es zero i below key = absurd (omega arith)
occurs-upto k es (suc n) i below key = elim (ℕ_discrete i n) [
  | yes e ↦
      let here : (es n).key ≡ k = rw e at key in
      ground (arith, occurs-append k (upto es n) (es n ∷ []))
  | no other ↦
      omega (arith, occurs-append k (upto es n) (es n ∷ []), occurs-upto k es n i (omega arith) key)
]

module _ (k : ℕ) (b : Bucket) where
  -- The search of a bucket finds no slot, or a used slot with the key.
  pub scan_absent : occurs k (used b) ≡ 0 → scan k b.entries 0 b.last ≡ none
  scan_absent absent = elim (scan_from k b.entries 0 b.last) [
    | inl (e, count) ↦ e
    | inr (i, e, below, key) ↦
        absurd (omega (arith, absent, occurs-upto k b.entries b.last i (omega arith) key))
  ]

  pub scan_present :
      0 < occurs k (used b)
      → (j : ℕ) × (scan k b.entries 0 b.last ≡ some j) × (j < b.last) × ((b.entries j).key ≡ k)
  unfolding occurs upto
  scan_present here = elim (scan_from k b.entries 0 b.last) [
    | inl (e, count) ↦
        let z : 0 + b.last ≡ b.last = omega arith in absurd (omega (arith, here, (rw z at count)))
    | inr (i, e, below, key) ↦ (i, e, omega arith, key)
  ]

-- A write behind the used slots.
pub upto-write : (es : ℕ → Slot) (n i : ℕ) (s : Slot) → n ≤ i → upto (write es i s) n ≡ upto es n
unfolding upto
upto-write es zero i s h = refl
upto-write es (suc n) i s h = ground (arith, upto-write es n i s)

-- The used slots around one of them.
pub around : (ℕ → Slot) → ℕ → ℕ → List Slot
around es i zero = []
around es i (suc n) = if ltb i n then around es i n ++ es n ∷ [] else []

pub upto-around :
    (es : ℕ → Slot) (n i : ℕ) (s : Slot)
    → i < n
    → upto (write es i s) n ≡ upto es i ++ s ∷ around es i n
unfolding upto around
upto-around es zero i s h = absurd (omega arith)
upto-around es (suc n) i s h = elim (ℕ_discrete i n) [
  | yes e ↦ ground (arith, upto-write es n i s, ap (upto es) e)
  | no other ↦
      let below : i < n = omega arith in
      rw (upto-around es n i s below, append_assoc) (ground arith)
]

write_self : (es : ℕ → Slot) (i : ℕ) → write es i (es i) ≡ es
write_self es i = fun_ext (λ j. elim (ℕ_discrete i j) [
  | yes e ↦ rw (eq→== i j e) (ap es e)
  | no n ↦ rw (ne→== i j n) refl
])

pub upto_self : (es : ℕ → Slot) (n i : ℕ) → i < n → upto es n ≡ upto es i ++ es i ∷ around es i n
upto_self es n i below =
    ap (λ f. upto f n) (sym (write_self es i)) ∙ upto-around es n i (es i) below

-- The later of two writes to a slot counts.
pub write_twice : (es : ℕ → Slot) (i : ℕ) (s t : Slot) → write (write es i s) i t ≡ write es i t
write_twice es i s t = fun_ext (λ j. ground arith)

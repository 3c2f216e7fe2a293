-- ===== src/Lf/Laws/Snapshots.antt =====
-- Snapshots, and what a thread knows of the bucket after it has read one.
use cht_bench.Prelude.{
  ℕ, zero, suc, ◌+◌, ◌≤◌, ◌<◌, ◌≡◌, refl, ◌∙◌, sym, ap, true, some, arith, ◌==◌, inl, inr,
  Bool-cases, ==→eq,
}
use cht_bench.Lf.{
  key_buckt, map_invld, map_valid, Snapshot, Bucket, same_snapshot, empty_from,
  snap_get_empty_index,
}

abbrev pub IsValidAt : Bucket → ℕ → Type 0
IsValidAt b j = b.snapshot.map j ≡ map_valid

-- The snapshot `s` is the one of `b`.
pub record IsSame (s t : Snapshot) : Type 0 where
  pub version : s.version ≡ t.version
  pub map : (j : ℕ) → j < key_buckt → s.map j ≡ t.map j

by_index : (f g : ℕ → ℕ) (j : ℕ) → f 0 ≡ g 0 → f 1 ≡ g 1 → f 2 ≡ g 2 → j < key_buckt → f j ≡ g j
by_index f g zero a b c below = a
by_index f g (suc zero) a b c below = b
by_index f g (suc (suc zero)) a b c below = c
by_index f g (suc (suc (suc j))) a b c below = absurd (omega arith)

pub same_snapshot-IsSame : (s t : Snapshot) → same_snapshot s t ≡ true → IsSame s t
unfolding same_snapshot
same_snapshot-IsSame s t h = record {
  version = ground arith;
  map = λ j below. by_index s.map t.map j (ground arith) (ground arith) (ground arith) below;
}

empty_from-lt :
    (left at i : ℕ) (map : ℕ → ℕ)
    → empty_from left at map ≡ some i
    → (i < at + left) × (map i ≡ map_invld)
unfolding empty_from
empty_from-lt zero at i map h = absurd (cc)
empty_from-lt (suc left) at i map h = elim (Bool-cases (map at == map_invld)) [
  | inl e ↦
      let same : at ≡ i = ground arith in
      (omega (arith, same), ap map (sym same) ∙ ==→eq (map at) 0 e)
  | inr n ↦
      let (below, empty) = empty_from-lt left (suc at) i map (ground arith) in
      (omega (arith, below), empty)
]

pub snap_get_empty_index-lt :
    (s : Snapshot) (i : ℕ)
    → snap_get_empty_index s ≡ some i
    → (i < key_buckt) × (s.map i ≡ map_invld)
unfolding snap_get_empty_index
snap_get_empty_index-lt s i h = empty_from-lt key_buckt 0 i s.map h

-- What the step of any thread may do to the bucket.
pub record Evolves (b b' : Bucket) : Type 0 where
  pub later : b.snapshot.version ≤ b'.snapshot.version
  pub kept :
      b'.snapshot.version ≡ b.snapshot.version
      → (j : ℕ) → j < key_buckt
      → IsValidAt b' j
      → IsValidAt b j × (b'.key j ≡ b.key j) × (b'.val j ≡ b.val j)

-- `s` was read from this bucket at some time.
pub record Seen (s : Snapshot) (b : Bucket) : Type 0 where
  pub before : s.version ≤ b.snapshot.version
  pub back :
      s.version ≡ b.snapshot.version → (j : ℕ) → j < key_buckt → IsValidAt b j → s.map j ≡ map_valid

-- Nothing was inserted or removed since `s` was read.
pub record Current (s : Snapshot) (b : Bucket) : Type 0 where
  pub same : s.version ≡ b.snapshot.version
  pub there : (j : ℕ) → j < key_buckt → s.map j ≡ map_valid → IsValidAt b j

pub Evolves-refl : (b : Bucket) → Evolves b b
Evolves-refl b = record { later = omega arith; kept = λ same j below valid. (valid, refl, refl) }

pub Seen-refl : (b : Bucket) → Seen b.snapshot b
Seen-refl b = record { before = omega arith; back = λ same j below valid. valid }

pub IsSame-Current : (s : Snapshot) (b : Bucket) → IsSame b.snapshot s → Current s b
IsSame-Current s b same = record {
  same = sym same.version;
  there = λ j below valid. same.map j below ∙ valid;
}

module _ (s : Snapshot) (b b' : Bucket) (seen : Seen s b) (step : Evolves b b') where
  pub Seen-Evolves : Seen s b'
  Seen-Evolves = record {
    before = omega (arith, seen.before, step.later);
    back = λ same j below valid.
        let eq : b'.snapshot.version ≡ b.snapshot.version =
          omega (arith, seen.before, step.later) in
        seen.back (omega arith) j below (step.kept eq j below valid).0;
  }

  pub Current-same : Current s b' → b'.snapshot.version ≡ b.snapshot.version
  Current-same now = omega (arith, seen.before, step.later, now.same)

  -- What is current was current before.
  pub Current-Evolves : Current s b' → Current s b
  Current-Evolves now = record {
    same = omega (arith, now.same, Current-same now);
    there = λ j below valid. (step.kept (Current-same now) j below (now.there j below valid)).0;
  }

  -- While the snapshot is current, the valid slots stay as they are.
  pub Current-valid : Current s b' → (j : ℕ) → j < key_buckt → IsValidAt b j → IsValidAt b' j
  Current-valid now j below valid =
      now.there j below (seen.back (omega (arith, now.same, Current-same now)) j below valid)

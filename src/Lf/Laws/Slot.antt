-- ===== src/Lf/Laws/Slot.antt =====
-- A step that changes one slot of the bucket: the slot is not valid afterwards, or it becomes valid
-- with a new version.
use cht_bench.Prelude.{ℕ, ◌+◌, ◌<◌, ◌≡◌, ◌∙◌, sym, ap, ◌≢◌, arith, ℕ_discrete}
use cht_bench.Lf.{key_buckt, map_valid, Bucket}
use cht_bench.Lf.Laws.Snapshots.{IsValidAt, Evolves}
use cht_bench.Lf.Laws.Local.{Untouched}

-- Values are not 0, and no two valid slots have the same key.
pub record IsOk (b : Bucket) : Type 0 where
  pub nonzero : (j : ℕ) → j < key_buckt → IsValidAt b j → b.val j ≢ 0
  pub unique :
      (i j : ℕ)
      → i < key_buckt
      → j < key_buckt
      → IsValidAt b i
      → IsValidAt b j
      → b.key i ≡ b.key j
      → i ≡ j

-- All slots but `i` are as they were.
pub record ChangesAt (i : ℕ) (b b' : Bucket) : Type 0 where
  pub others : (j : ℕ) → j < key_buckt → j ≢ i → Untouched b b' j

-- The slot is not valid afterwards.
pub record Hides (i : ℕ) (b b' : Bucket) : Type 0 where
  pub same : b'.snapshot.version ≡ b.snapshot.version
  pub changes : ChangesAt i b b'
  pub hidden : b'.snapshot.map i ≢ map_valid

module _ (i : ℕ) (b b' : Bucket) (h : Hides i b b') where
  pub hidden-kept :
      (j : ℕ)
      → j < key_buckt
      → IsValidAt b' j
      → IsValidAt b j × (b'.key j ≡ b.key j) × (b'.val j ≡ b.val j)
  hidden-kept j below valid = elim (ℕ_discrete j i) [
    | yes e ↦ absurd (h.hidden (rw e at valid))
    | no away ↦
        let (map_j, key_j, val_j) = h.changes.others j below away in
        (sym map_j ∙ valid, key_j, val_j)
  ]

  pub Hides-Evolves : Evolves b b'
  Hides-Evolves = record {
    later = omega (arith, h.same);
    kept = λ same j below valid. hidden-kept j below valid;
  }

  pub Hides-IsOk : IsOk b → IsOk b'
  Hides-IsOk ok = record {
    nonzero = λ j below valid zeroed.
        let (was, key, val) = hidden-kept j below valid in
        ok.nonzero j below was (sym val ∙ zeroed);
    unique = λ j k below_j below_k valid_j valid_k e.
        let (was_j, key_j, val_j) = hidden-kept j below_j valid_j in
        let (was_k, key_k, val_k) = hidden-kept k below_k valid_k in
        ok.unique j k below_j below_k was_j was_k (sym key_j ∙ e ∙ key_k);
  }

-- The slot becomes valid, with a value and a key that no valid slot has.
pub record Shows (i : ℕ) (b b' : Bucket) : Type 0 where
  pub inside : i < key_buckt
  pub newer : b'.snapshot.version ≡ b.snapshot.version + 1
  pub changes : ChangesAt i b b'
  pub real : b'.val i ≢ 0
  pub clear : (j : ℕ) → j < key_buckt → IsValidAt b j → b.key j ≢ b'.key i

module _ (i : ℕ) (b b' : Bucket) (h : Shows i b b') where
  pub Shows-Evolves : Evolves b b'
  Shows-Evolves = record {
    later = omega (arith, h.newer);
    kept = λ same j below valid. absurd (omega (arith, h.newer, same));
  }

  pub shown :
      (j : ℕ)
      → j < key_buckt
      → IsValidAt b' j
      → j ≢ i
      → IsValidAt b j × (b'.key j ≡ b.key j) × (b'.val j ≡ b.val j)
  shown j below valid away =
      let (map_j, key_j, val_j) = h.changes.others j below away in (sym map_j ∙ valid, key_j, val_j)

  other_key : (j : ℕ) → j < key_buckt → IsValidAt b' j → j ≢ i → b'.key j ≢ b'.key i
  other_key j below valid away e =
      let (was, key, val) = shown j below valid away in h.clear j below was (sym key ∙ e)

  pub Shows-IsOk : IsOk b → IsOk b'
  Shows-IsOk ok = record {
    nonzero = λ j below valid zeroed. elim (ℕ_discrete j i) [
      | yes e ↦ h.real (rw (← e) zeroed)
      | no away ↦
          let (was, key, val) = shown j below valid away in
          ok.nonzero j below was (sym val ∙ zeroed)
    ];
    unique = λ j k below_j below_k valid_j valid_k e. elim (ℕ_discrete j i) [
      | yes p ↦ elim (ℕ_discrete k i) [
        | yes q ↦ p ∙ sym q
        | no q ↦ absurd (other_key k below_k valid_k q (sym e ∙ ap b'.key p))
      ]
      | no p ↦ elim (ℕ_discrete k i) [
        | yes q ↦ absurd (other_key j below_j valid_j p (e ∙ ap b'.key q))
        | no q ↦
            let (was_j, key_j, val_j) = shown j below_j valid_j p in
            let (was_k, key_k, val_k) = shown k below_k valid_k q in
            ok.unique j k below_j below_k was_j was_k (sym key_j ∙ e ∙ key_k)
      ]
    ];
  }

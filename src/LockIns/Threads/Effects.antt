-- ===== src/LockIns/Threads/Effects.antt =====
-- What a step does to the entries of a bin, and what it leaves alone for the other threads.
use mathlib.Core.Path.{subst}
use cht_bench.Prelude.{
  ℕ, ◌<◌, ◌≡◌, refl, ◌∙◌, sym, ap, ◌≢◌, ◌↔◌, ◌⊎◌, inl, inr, true, some, arith, ℕ_discrete, dec_lt,
}
use cht_bench.Lf.{put_at}
use cht_bench.LockIns.{lock_free, key_blck}
use cht_bench.LockIns.Threads.{
  Bin, Thread, Event, none_yet, adds, takes, put_returns, remove_returns, remove_fails, grown,
  IsKey,
}
use cht_bench.LockIns.Threads.Local.{Absent, Local, holds, owns, Keeps, owns-marked, holds-locked}

-- A slot holds the entry.
abbrev pub Has : Bin → ℕ → ℕ → Type 0
Has b k v = (j : ℕ) × (j < b.len) × (b.key j ≡ k) × (b.val j ≡ v)

-- No key has two slots.
abbrev pub Unique : Bin → Type 0
Unique b = (i j : ℕ) → i < b.len → j < b.len → IsKey (b.key i) → b.key i ≡ b.key j → i ≡ j

abbrev pub Same : Bin → Bin → Type 0
Same b b' = (q w : ℕ) → IsKey q → Has b' q w ↔ Has b q w

-- What the entries become, by the event of the step.
abbrev pub Specified : Event → Bin → Bin → Type 0
Specified none_yet b b' = Same b b'
Specified (put_returns k v answer) b b' = Same b b'
Specified (remove_fails k) b b' = Same b b'
Specified (remove_returns k took v) b b' = (v ≡ took) × Same b b'
Specified (adds k v) b b' =
    ((w : ℕ) → ¬ Has b k w) × ((q w : ℕ) → IsKey q → Has b' q w ↔ (Has b q w ⊎ ((q ≡ k) × (w ≡ v))))
Specified (takes k v) b b' = Has b k v × ((q w : ℕ) → IsKey q → Has b' q w ↔ (Has b q w × (q ≢ k)))

-- The other thread `u` has not the lock that `t` has, nor the slot.
pub record Apart (t u : Thread) : Type 0 where
  pub holder : holds t ≡ true → holds u ≢ true
  pub owner : (j : ℕ) → owns t ≡ some j → owns u ≢ some j

-- A change of the bin by the thread `t`.
pub record Does (t : Thread) (e : Event) (b b' : Bin) : Type 0 where
  pub unique : Unique b → Unique b'
  pub effect : Unique b → Specified e b b'
  pub keeps : (u : Thread) → Local b u → Apart t u → Keeps u b b'

pub Same-refl : (b : Bin) → Same b b
Same-refl b q w key = (λ h. h, λ h. h)

pub Keeps-refl : (u : Thread) (b : Bin) → Keeps u b b
Keeps-refl u b = record {
  longer = omega arith;
  held = λ h. record {
    lock = refl;
    len = refl;
    empty = λ i e. e;
    absent = λ i k key away. away;
    val = λ i. refl;
  };
  owned = λ j h. (refl, refl);
}

module _ (junk : ℕ → ℕ) (b : Bin) (i : ℕ) where
  -- The slots of the new bucket are empty, and the others stay.
  grown_old : i < b.len → ((grown junk b).key i ≡ b.key i) × ((grown junk b).val i ≡ b.val i)
  grown_old below = (ground arith, ground arith)

  pub grown_key : IsKey ((grown junk b).key i) → (i < b.len) × ((grown junk b).key i ≡ b.key i)
  grown_key key = elim (dec_lt i b.len) [
    | yes below ↦ (below, (grown_old below).0)
    | no beyond ↦ absurd (key.used (ground arith))
  ]

-- A slot gets a mark that is no key.
marks-Unique :
    (b : Bin) (j x : ℕ) → ¬ IsKey x → Unique b → Unique (record b { key = put_at b.key j x })
marks-Unique b j x mark h i i' below below' key same =
    let away : j ≢ i = λ e. mark (subst IsKey (ground arith) key) in
    let away' : j ≢ i' = λ e. mark (subst IsKey (ground arith) key) in
    let at_i : put_at b.key j x i ≡ b.key i = ground arith in
    h i i' below below' (subst IsKey at_i key) (ground arith)

module _ (t : Thread) (b : Bin) where
  -- Nothing changes.
  pub Does-nothing : (e : Event) → Specified e b b → Does t e b b
  Does-nothing e same = record {
    unique = λ h. h;
    effect = λ h. same;
    keeps = λ u l apart. Keeps-refl u b;
  }

  -- The lock changes, and no other thread has it.
  pub Does-lock :
      (l : ℕ) (e : Event)
      → (holds t ≡ true) ⊎ (b.lock ≡ lock_free)
      → Specified e b (record b { lock = l })
      → Does t e b (record b { lock = l })
  Does-lock l e mine same = record {
    unique = λ h. h;
    effect = λ h. same;
    keeps = λ u local apart. record {
      longer = omega arith;
      held = λ h. elim mine [
        | inl has ↦ absurd (apart.holder has h)
        | inr free ↦ absurd (omega (arith, free, holds-locked u b local h))
      ];
      owned = λ j h. (refl, refl);
    };
  }

  module _ (holder : holds t ≡ true) where
    -- A value is written to an empty slot.
    pub Does-val :
        (at v : ℕ) → b.key at ≡ 0 → Does t none_yet b (record b { val = put_at b.val at v })
    Does-val at v empty = record {
      unique = λ h. h;
      effect = λ h q w key. (
        λ (j, below, k, val).
            let away : at ≢ j = λ e. key.used (sym k ∙ ap b.key (sym e) ∙ empty) in
            (j, below, k, ground arith),
        λ (j, below, k, val).
            let away : at ≢ j = λ e. key.used (sym k ∙ ap b.key (sym e) ∙ empty) in
            (j, below, k, ground arith),
      );
      keeps = λ u l apart. record {
        longer = omega arith;
        held = λ h. absurd (apart.holder holder h);
        owned = λ j h.
            let (inside, marked) = owns-marked u b j l h in
            let away : at ≢ j = λ e. absurd (omega (arith, marked, empty, ap b.key e)) in
            (refl, ground arith);
      };
    }

    -- A bucket is linked to the chain.
    pub Does-grow : (junk : ℕ → ℕ) → Does t none_yet b (grown junk b)
    Does-grow junk = record {
      unique = λ h i j below_i below_j key same.
          let (in_i, at_i) = grown_key junk b i key in
          let (in_j, at_j) = grown_key junk b j (subst IsKey same key) in
          h i j in_i in_j (subst IsKey at_i key) (sym at_i ∙ same ∙ at_j);
      effect = λ h q w key. (
        λ (j, below, k, val).
            let (inside, at) = grown_key junk b j (subst IsKey (sym k) key) in
            (j, inside, sym at ∙ k, sym (grown_old junk b j inside).1 ∙ val),
        λ (j, below, k, val).
            let (at, same) = grown_old junk b j below in
            (j, omega (arith, below), at ∙ k, same ∙ val),
      );
      keeps = λ u l apart. record {
        longer = omega arith;
        held = λ h. absurd (apart.holder holder h);
        owned = λ j h. grown_old junk b j (owns-marked u b j l h).0;
      };
    }

    -- An entry is completed in an empty slot, for a key that no slot has.
    pub Does-add :
        (at k v : ℕ)
        → IsKey k
        → at < b.len
        → b.key at ≡ 0
        → b.val at ≡ v
        → Absent k b.len b
        → Does t (adds k v) b (record b { key = put_at b.key at k })
    Does-add at k v real inside empty val absent = record {
      unique = λ h i j below_i below_j key same. elim (ℕ_discrete at i) [
        | yes e ↦ elim (ℕ_discrete at j) [
          | yes e' ↦ sym e ∙ e'
          | no n' ↦ absurd (absent j below_j (ground arith))
        ]
        | no n ↦ elim (ℕ_discrete at j) [
          | yes e' ↦ absurd (absent i below_i (ground arith))
          | no n' ↦
              let same_i : put_at b.key at k i ≡ b.key i = ground arith in
              h i j below_i below_j (subst IsKey same_i key) (ground arith)
        ]
      ];
      effect = λ h. (
        λ w (j, below, key, value). absent j below key,
        λ q w key. (
          λ (j, below, at_j, value). elim (ℕ_discrete at j) [
            | yes e ↦ inr (ground arith, sym value ∙ ap b.val (sym e) ∙ val)
            | no n ↦ inl (j, below, ground arith, value)
          ],
          λ c. elim c [
            | inl (j, below, at_j, value) ↦
                let away : at ≢ j = λ e. key.used (sym at_j ∙ ap b.key (sym e) ∙ empty) in
                (j, below, ground arith, value)
            | inr (same, value) ↦ (at, inside, ground arith, val ∙ sym value)
          ],
        ),
      );
      keeps = λ u l apart. record {
        longer = omega arith;
        held = λ h. absurd (apart.holder holder h);
        owned = λ j h.
            let (below, marked) = owns-marked u b j l h in
            let away : at ≢ j = λ e. absurd (omega (arith, marked, empty, ap b.key e)) in
            (ground arith, refl);
      };
    }

  -- An entry is taken: its slot stands at KEY_BLCK.
  pub Does-take :
      (k j : ℕ)
      → IsKey k
      → j < b.len
      → b.key j ≡ k
      → Does t (takes k (b.val j)) b (record b { key = put_at b.key j key_blck })
  Does-take k j real inside here = record {
    unique = marks-Unique b j key_blck (λ h. h.plain refl);
    effect = λ h. (
      (j, inside, here, refl),
      λ q w key. (
        λ (i, below, at_i, value). elim (ℕ_discrete j i) [
          | yes e ↦ absurd (key.plain (ground arith))
          | no n ↦
              let was : b.key i ≡ q = ground arith in
              (
                (i, below, was, value),
                λ e. n (h j i inside below (subst IsKey (sym here) real) (here ∙ sym e ∙ sym was)),
              )
        ],
        λ ((i, below, at_i, value), other).
            let away : j ≢ i = λ e. other (sym at_i ∙ ap b.key (sym e) ∙ here) in
            (i, below, ground arith, value),
      ),
    );
    keeps = λ u l apart. record {
      longer = omega arith;
      held = λ h. record {
        lock = refl;
        len = refl;
        empty = λ i e. ground (arith, real.used);
        absent = λ i q key away. ground (arith, key.plain);
        val = λ i. refl;
      };
      owned = λ i h.
          let (below, marked) = owns-marked u b i l h in
          let away : j ≢ i = λ e. real.plain (sym here ∙ ap b.key e ∙ marked) in
          (ground arith, refl);
    };
  }

  -- The slot of a taken entry becomes empty.
  pub Does-clear :
      (k took v j : ℕ)
      → owns t ≡ some j
      → b.key j ≡ key_blck
      → v ≡ took
      → Does t (remove_returns k took v) b (record b { key = put_at b.key j 0 })
  Does-clear k took v j owner marked same = record {
    unique = marks-Unique b j 0 (λ h. h.used refl);
    effect = λ h. (
      same,
      λ q w key. (
        λ (i, below, at_i, value).
            let away : j ≢ i = λ e. key.used (ground arith) in (i, below, ground arith, value),
        λ (i, below, at_i, value).
            let away : j ≢ i = λ e. key.plain (sym at_i ∙ ap b.key (sym e) ∙ marked) in
            (i, below, ground arith, value),
      ),
    );
    keeps = λ u l apart. record {
      longer = omega arith;
      held = λ h. record {
        lock = refl;
        len = refl;
        empty = λ i e. ground arith;
        absent = λ i q key away. ground (arith, key.used);
        val = λ i. refl;
      };
      owned = λ i h.
          let away : j ≢ i = λ e. apart.owner j owner (h ∙ ap some (sym e)) in (ground arith, refl);
    };
  }

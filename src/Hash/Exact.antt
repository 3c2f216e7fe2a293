-- ===== src/Hash/Exact.antt =====
-- What the helpers on words compute: `is_power_of_two` is true of the powers of two and of no other
-- word, and `pow2roundup` gives the least power of two that is not below its argument.
use Prim.Native.Nat.{max}
use native.Mathlib.Nat.{two-pow-succ, one-le-pow, mul-add, mul_comm, div-div-eq-div-mul}
use cht_bench.Prelude.{
  ℕ, zero, suc, ◌+◌, ◌-◌, ◌*◌, ◌/◌, ◌%◌, ◌^◌, ◌≤◌, ◌<◌, bit_and, bit_or, ◌≡◌, refl, ◌∙◌, sym, ap,
  ◌↔◌, true, false, arith, dec_lt, ℕ_discrete, bit_and-halves, bit_and-le, pow-times, ◌==◌, ==→eq,
}
use cht_bench.Hash.{smear, smear_all, u32, is_power_of_two, pow2roundup}
use cht_bench.Hash.Pow2.{bit_or-halves, smear_all-lt, pow2roundup-suc}

bit_and_self_fuel : (f a : ℕ) → a ≤ f → bit_and a a ≡ a
bit_and_self_fuel zero a small = let z : a ≡ 0 = omega arith in rw z refl
bit_and_self_fuel (suc f) a small = elim (dec_lt 0 a) [
  | no empty ↦ let z : a ≡ 0 = omega arith in rw z refl
  | yes more ↦
      let half = bit_and_self_fuel f (a / 2) (omega arith) in
      omega (arith, half, bit_and-halves a a)
]

bit_and_self : (a : ℕ) → bit_and a a ≡ a
bit_and_self a = bit_and_self_fuel a a (omega arith)

-- `x & (x - 1)` for an odd and for an even number.
below_odd : (y : ℕ) → bit_and (2 * y + 1) (2 * y + 1 - 1) ≡ y * 2
below_odd y =
    let a : (2 * y + 1) / 2 ≡ y = omega arith in
    let b : (2 * y + 1 - 1) / 2 ≡ y = omega arith in
    let halves = rw (a, b, bit_and_self y) at (bit_and-halves (2 * y + 1) (2 * y + 1 - 1)) in
    omega (arith, halves)

below_even : (y : ℕ) → 0 < y → bit_and (2 * y) (2 * y - 1) ≡ bit_and y (y - 1) * 2
below_even y pos =
    let a : 2 * y / 2 ≡ y = omega arith in
    let b : (2 * y - 1) / 2 ≡ y - 1 = omega arith in
    let halves = rw (a, b) at (bit_and-halves (2 * y) (2 * y - 1)) in omega (arith, halves)

-- The lowest one is the only one.
single_one : (f x : ℕ) → 0 < x → x ≤ f → bit_and x (x - 1) ≡ 0 → (k : ℕ) × (x ≡ 2 ^ k)
single_one zero x pos small none_left = absurd (omega arith)
single_one (suc f) x pos small none_left = elim (ℕ_discrete (x % 2) 0) [
  | yes even ↦
      let whole : x ≡ 2 * (x / 2) = omega arith in
      let half : bit_and (x / 2) (x / 2 - 1) ≡ 0 =
        omega (arith, below_even (x / 2) (omega arith), rw whole at none_left) in
      let (k, e) = single_one f (x / 2) (omega arith) (omega arith) half in
      (suc k, omega (arith, e, two-pow-succ k))
  | no odd ↦
      let whole : x ≡ 2 * (x / 2) + 1 = omega arith in
      (0, omega (arith, below_odd (x / 2), rw whole at none_left))
]

power_below : (k : ℕ) → bit_and (2 ^ k) (2 ^ k - 1) ≡ 0
power_below zero = omega (arith, bit_and-le 1 0)
power_below (suc k) =
    let twice : 2 ^ suc k ≡ 2 * 2 ^ k = omega (arith, two-pow-succ k) in
    rw twice (omega (arith, below_even (2 ^ k) (one-le-pow k 2 (omega arith)), power_below k))

-- is_power_of_two is true of a 32-bit word exactly if the word is a power of two.
pub is_power_of_two-exact :
    (x : ℕ) → x < 2 ^ 32 → (is_power_of_two x ≡ true) ↔ ((k : ℕ) × (x ≡ 2 ^ k))
unfolding is_power_of_two
is_power_of_two-exact zero word =
    (λ e. ground arith, λ (k, e). absurd (omega (arith, e, one-le-pow k 2 (omega arith))))
is_power_of_two-exact (suc y) word =
    let before : u32 (suc y + 2 ^ 32 - 1) ≡ suc y - 1 = omega arith in
    let filled : (suc y == 0) ≡ false = ground arith in
    (
      λ e.
          single_one (suc y) (suc y) (omega arith) (omega arith)
            (==→eq (bit_and (suc y) (suc y - 1)) 0 (rw (before, filled) at e)),
      λ (k, e).
          let none_left : bit_and (suc y) (suc y - 1) ≡ 0 = rw e (power_below k) in
          rw (before, filled, none_left) refl,
    )

-- The digit number `i`.
abbrev bit : ℕ → ℕ → ℕ
bit i x = x / 2 ^ i % 2

bit-suc : (i x : ℕ) → bit (suc i) x ≡ bit i (x / 2)
bit-suc i x =
    let twice : 2 ^ suc i ≡ 2 * 2 ^ i = omega (arith, two-pow-succ i) in
    rw (twice, ← div-div-eq-div-mul x 2 (2 ^ i)) refl

bit-or : (i a b : ℕ) → bit i (bit_or a b) ≡ max (bit i a) (bit i b)
bit-or zero a b = omega (arith, bit_or-halves a b)
bit-or (suc i) a b =
    let half : bit_or a b / 2 ≡ bit_or (a / 2) (b / 2) = omega (arith, bit_or-halves a b) in
    rw (bit-suc i (bit_or a b), half, bit-suc i a, bit-suc i b) (bit-or i (a / 2) (b / 2))

bit-shift : (i j x : ℕ) → bit i (x / 2 ^ j) ≡ bit (i + j) x
bit-shift i j x = rw (div-div-eq-div-mul x (2 ^ j) (2 ^ i), pow-times j i) refl

-- Where a smeared number has the digit 0, the number has it there and `j` places higher.
bit-smear : (i j x : ℕ) → bit i (smear j x) ≡ 0 → (bit i x ≡ 0) × (bit (i + j) x ≡ 0)
unfolding smear
bit-smear i j x h =
    let both = bit-or i x (x / 2 ^ j) in
    let there = bit-shift i j x in (omega (arith, both, h), omega (arith, both, there, h))

-- Every digit at a multiple of `m` below 32 is 0.
abbrev ZeroAt : ℕ → ℕ → Type 0
ZeroAt m x = (q : ℕ) → m * q < 32 → bit (m * q) x ≡ 0

ZeroAt-smear : (j x : ℕ) → ZeroAt (2 * j) (smear j x) → ZeroAt j x
ZeroAt-smear j x h q below =
    let p = q / 2 in
    let at_p : 2 * j * p ≡ j * (2 * p) = grind arith in
    elim (ℕ_discrete (q % 2) 0) [
      | yes even ↦
          let half : q ≡ 2 * p = omega arith in
          let whole : j * q ≡ 2 * j * p = ap (λ z. j * z) half ∙ sym at_p in
          rw whole (bit-smear (2 * j * p) j x (h p (omega (arith, whole)))).0
      | no odd ↦
          let half : q ≡ 2 * p + 1 = omega arith in
          let whole : j * q ≡ 2 * j * p + j =
            ap (λ z. j * z) half ∙ mul-add j (2 * p) 1 ∙ omega (arith, at_p) in
          rw whole (bit-smear (2 * j * p) j x (h p (omega (arith, whole)))).1
    ]

no_digit : (n x : ℕ) → x < 2 ^ n → ((i : ℕ) → i < n → bit i x ≡ 0) → x ≡ 0
no_digit zero x small h = omega arith
no_digit (suc n) x small h =
    let half =
      no_digit n (x / 2) (omega (arith, two-pow-succ n))
        (λ i below. sym (bit-suc i x) ∙ h (suc i) (omega arith)) in
    omega (arith, half, h 0 (omega arith))

-- A word other than 0 becomes odd.
smear_all_odd : (x : ℕ) → x < 2 ^ 32 → 0 < x → smear_all x % 2 ≡ 1
unfolding smear_all
smear_all_odd x word pos = elim (ℕ_discrete (smear_all x % 2) 0) [
  | no odd ↦ omega arith
  | yes even ↦
      let z32 : ZeroAt 32 (smear_all x) =
        λ q below. let none_else : q ≡ 0 = omega arith in rw none_else (omega (arith, even)) in
      let z1 =
        ZeroAt-smear 1 x
          (ZeroAt-smear 2 _ (ZeroAt-smear 4 _ (ZeroAt-smear 8 _ (ZeroAt-smear 16 _ z32)))) in
      let none_left =
        no_digit 32 x word
          (λ i below. let one : 1 * i ≡ i = omega arith in rw one at (z1 i (omega arith))) in
      absurd (omega (arith, none_left))
]

-- Smearing goes digit by digit.
smear-half : (j x : ℕ) → smear j x / 2 ≡ smear j (x / 2)
unfolding smear
smear-half j x =
    let half : bit_or x (x / 2 ^ j) / 2 ≡ bit_or (x / 2) (x / 2 ^ j / 2) =
      omega (arith, bit_or-halves x (x / 2 ^ j)) in
    let swap : x / 2 ^ j / 2 ≡ x / 2 / 2 ^ j =
      div-div-eq-div-mul x (2 ^ j) 2
      ∙ ap (λ m. x / m) (mul_comm (2 ^ j) 2)
      ∙ sym (div-div-eq-div-mul x 2 (2 ^ j)) in
    half ∙ ap (λ m. bit_or (x / 2) m) swap

smear_all-half : (x : ℕ) → smear_all x / 2 ≡ smear_all (x / 2)
unfolding smear_all
smear_all-half x = simp (smear-half)

-- A number with its highest one at k becomes k + 1 ones.
smear_all_ones : (k x : ℕ) → x < 2 ^ 32 → 2 ^ k ≤ x → x < 2 ^ suc k → smear_all x + 1 ≡ 2 ^ suc k
smear_all_ones zero x word above below =
    let one : x ≡ 1 = omega arith in rw one (unfold smear_all smear in refl)
smear_all_ones (suc k) x word above below =
    let half =
      smear_all_ones k (x / 2) (omega arith) (omega (arith, above, two-pow-succ k))
        (omega (arith, below, two-pow-succ (suc k))) in
    let odd = smear_all_odd x word (omega (arith, above, one-le-pow (suc k) 2 (omega arith))) in
    omega (arith, half, smear_all-half x, odd, two-pow-succ (suc k))

-- Every number but 0 has a highest one.
highest_one : (f x : ℕ) → 0 < x → x ≤ f → (k : ℕ) × (2 ^ k ≤ x) × (x < 2 ^ suc k)
highest_one zero x pos small = absurd (omega arith)
highest_one (suc f) x pos small = elim (dec_lt 1 x) [
  | no one ↦ (0, omega arith, omega arith)
  | yes more ↦
      let (k, above, below) = highest_one f (x / 2) (omega arith) (omega arith) in
      (suc k, omega (arith, above, two-pow-succ k), omega (arith, below, two-pow-succ (suc k)))
]

-- pow2roundup gives, for every x up to 2^31, a power of two that is not below x, and no power of
-- two from x on is less.
pub pow2roundup-exact :
    (x : ℕ)
    → x ≤ 2 ^ 31
    → (k : ℕ) × (pow2roundup x ≡ 2 ^ k) × (x ≤ 2 ^ k) × ((j : ℕ) → x ≤ 2 ^ j → 2 ^ k ≤ 2 ^ j)
pow2roundup-exact zero word =
    (0, unfold pow2roundup in refl, omega arith, λ j above. one-le-pow j 2 (omega arith))
pow2roundup-exact (suc y) word = elim (dec_lt 0 y) [
  | no one ↦
      let z : y ≡ 0 = omega arith in
      (
        0,
        rw z (unfold pow2roundup smear_all smear in refl),
        omega arith,
        λ j above. one-le-pow j 2 (omega arith),
      )
  | yes more ↦
      let (k, above, below) = highest_one y y more (omega arith) in
      let ones = smear_all_ones k y (omega arith) above below in
      let small : 2 ^ k < 2 ^ 31 = omega (arith, above) in
      (
        suc k,
        pow2roundup-suc y ∙ rw ones (omega (arith, small, two-pow-succ k)),
        omega (arith, below),
        λ j reaches. omega (arith, ones, smear_all-lt j y (omega arith)),
      )
]

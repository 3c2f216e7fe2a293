-- ===== src/Prelude/Run.antt =====
-- How a call of the program ends: with a value, at a null pointer or an address outside the table,
-- by spinning on a lock that no other thread gives back, or by running out of the model's fuel.
use mathlib.Core.Path.{◌≡◌, refl, subst}
use mathlib.Core.Logic.{◌≢◌, ◌⊎◌, inl, inr}

pub data Run {ℓ} (V : Type ℓ) : Type ℓ where
  fault : Run V
  blocked : Run V
  out_of_fuel : Run V
  ok : V → Run V

-- The call returns a value, and the value satisfies `Post`.
abbrev pub Returns {ℓ κ} : {V : Type ℓ} → Run V → (V → Type κ) → Type (ℓ ⊔ κ)
Returns {V} call Post = (v : V) × (call ≡ ok v) × Post v

-- One call, and then what its value is used for.
infixl 5 ◌>>=◌
abbrev pub ◌>>=◌ {ℓ κ} : {V : Type ℓ} {W : Type κ} → Run V → (V → Run W) → Run W
fault >>= next = fault
blocked >>= next = blocked
out_of_fuel >>= next = out_of_fuel
ok v >>= next = next v

pub bind_assoc {ℓ} :
    {V W X : Type ℓ} (call : Run V) (next : V → Run W) (last : W → Run X)
    → call >>= next >>= last ≡ call >>= (λ v. next v >>= last)
bind_assoc fault next last = refl
bind_assoc blocked next last = refl
bind_assoc out_of_fuel next last = refl
bind_assoc (ok v) next last = refl

pub bind_congr {ℓ κ} :
    {V : Type ℓ} {W : Type κ} (call : Run V) (next next' : V → Run W)
    → ((v : V) → next v ≡ next' v)
    → call >>= next ≡ call >>= next'
bind_congr fault next next' h = refl
bind_congr blocked next next' h = refl
bind_congr out_of_fuel next next' h = refl
bind_congr (ok v) next next' h = h v

-- What holds of the value that a call returns holds of the value it has returned.
pub Returns-ok {ℓ κ} :
    {V : Type ℓ} (P : V → Type κ) (call : Run V) (r : V) → Returns call P → call ≡ ok r → P r
Returns-ok P call r (v, run, post) h = let same : v ≡ r = cc in subst P same post

-- A call in two parts that returns has returned from both.
pub bind-ok {ℓ κ} :
    {V : Type ℓ} {W : Type κ} (call : Run V) (next : V → Run W) (r : W)
    → call >>= next ≡ ok r
    → (v : V) × (call ≡ ok v) × (next v ≡ ok r)
bind-ok fault next r h = absurd (cc)
bind-ok blocked next r h = absurd (cc)
bind-ok out_of_fuel next r h = absurd (cc)
bind-ok (ok v) next r h = (v, refl, h)

-- A call in two parts that waits waits in one of them.
pub bind-blocked {ℓ κ} :
    {V : Type ℓ} {W : Type κ} (call : Run V) (next : V → Run W)
    → call >>= next ≡ blocked
    → (call ≡ blocked) ⊎ ((v : V) × (call ≡ ok v) × (next v ≡ blocked))
bind-blocked fault next h = absurd (cc)
bind-blocked blocked next h = inl refl
bind-blocked out_of_fuel next h = absurd (cc)
bind-blocked (ok v) next h = inr (v, refl, h)

pub blocked-cases {ℓ} : {V : Type ℓ} (call : Run V) → (call ≡ blocked) ⊎ (call ≢ blocked)
blocked-cases fault = inr (λ e. cc)
blocked-cases blocked = inl refl
blocked-cases out_of_fuel = inr (λ e. cc)
blocked-cases (ok v) = inr (λ e. cc)

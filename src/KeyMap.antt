-- ===== src/KeyMap.antt =====
-- The interface that all tables offer, clht_put, clht_get and clht_remove (declared in each header of
-- src/clht/include), and sequences of its calls against a finite map. The key 0 marks an empty slot,
-- and the result 0 says that a key is not there.
use cht_bench.Prelude.{
  ℕ, suc, ◌≡◌, refl, ◌≢◌, Bool, true, false, ◌&&◌, Option, none, some, List, [], ◌∷◌, ◌==◌,
  if◌then◌else◌, is_none, or_zero,
}
use cht_bench.Prelude.Run.{Run, ok, ◌>>=◌, Returns}

-- A finite map.
abbrev pub Map : Type 0
Map = ℕ → Option ℕ

-- A put binds a key that is absent and leaves any other map alone.
abbrev pub bind : Map → ℕ → ℕ → Map
bind f k v q = if is_none (f k) && (k == q) then some v else f q

abbrev pub unbind : Map → ℕ → Map
unbind f k q = if k == q then none else f q

-- The operations of a table with states `S`, and their laws. `put` has the number of the call first,
-- by which memory answers. `Stands f n s` says that the table stands for `f` with at most `n` entries.
pub record KeyMap (S : Type 0) : Type 1 where
  pub put : ℕ → ℕ → ℕ → S → Run (Bool × S)
  pub get : ℕ → S → Run ℕ
  pub remove : ℕ → S → Run (ℕ × S)
  pub Stands : Map → ℕ → S → Type 0
  pub CanAdd : ℕ → Type 0
  pub put-Stands :
      (call k v : ℕ) (f : Map) (n : ℕ) (s : S)
      → k ≢ 0
      → Stands f n s
      → CanAdd n
      → Returns (put call k v s) (λ r. (r.0 ≡ is_none (f k)) × Stands (bind f k v) (suc n) r.1)
  pub get-Stands :
      (k : ℕ) (f : Map) (n : ℕ) (s : S) → k ≢ 0 → Stands f n s → get k s ≡ ok (or_zero (f k))
  pub remove-Stands :
      (k : ℕ) (f : Map) (n : ℕ) (s : S)
      → k ≢ 0
      → Stands f n s
      → Returns (remove k s) (λ r. (r.0 ≡ or_zero (f k)) × Stands (unbind f k) n r.1)

-- A call of the interface.
pub data Op : Type 0 where
  put_op : (key val : ℕ) → Op
  get_op : (key : ℕ) → Op
  remove_op : (key : ℕ) → Op

abbrev pub key_of : Op → ℕ
key_of (put_op k v) = k
key_of (get_op k) = k
key_of (remove_op k) = k

abbrev pub to_int : Bool → ℕ
to_int true = 1
to_int false = 0

-- A call on a map, with its result as an integer.
unfoldable pub spec_step : Op → Map → ℕ × Map
spec_step (put_op k v) f = (to_int (is_none (f k)), bind f k v)
spec_step (get_op k) f = (or_zero (f k), f)
spec_step (remove_op k) f = (or_zero (f k), unbind f k)

unfoldable pub spec_run : List Op → Map → List ℕ
spec_run [] f = []
spec_run (o ∷ os) f = let (r, f') = spec_step o f in r ∷ spec_run os f'

-- No call uses the key 0.
abbrev pub AllKeys : List Op → Type 0
AllKeys [] = Unit {0}
AllKeys (o ∷ os) = (key_of o ≢ 0) × AllKeys os

module _ {S : Type 0} (table : KeyMap S) where
  -- A call on the table, with its result as an integer.
  unfoldable pub step : ℕ → Op → S → Run (ℕ × S)
  step call (put_op k v) s = table.put call k v s >>= λ (answer, s'). ok (to_int answer, s')
  step call (get_op k) s = table.get k s >>= λ v. ok (v, s)
  step call (remove_op k) s = table.remove k s

  unfoldable pub run : ℕ → List Op → S → Run (List ℕ)
  run call [] s = ok []
  run call (o ∷ os) s = step call o s >>= λ (r, s'). run (suc call) os s' >>= λ rs. ok (r ∷ rs)

  -- The bound on the entries grows by one in each call at most.
  abbrev pub grown : Op → ℕ → ℕ
  grown (put_op k v) n = suc n
  grown (get_op k) n = n
  grown (remove_op k) n = n

  -- Every put of the sequence finds the table below its limit.
  abbrev pub AllFit : List Op → ℕ → Type 0
  AllFit [] n = Unit {0}
  AllFit (o ∷ os) n = table.CanAdd n × AllFit os (grown o n)

  step-Stands :
      (call : ℕ) (o : Op) (f : Map) (n : ℕ) (s : S)
      → key_of o ≢ 0
      → table.CanAdd n
      → table.Stands f n s
      → Returns
          (step call o s)
          (λ r. (r.0 ≡ (spec_step o f).0) × table.Stands (spec_step o f).1 (grown o n) r.1)
  unfolding step spec_step
  step-Stands call (put_op k v) f n s used fits m =
      let (r, did, (same, m')) = table.put-Stands call k v f n s used m fits in
      ((to_int r.0, r.1), rw did refl, (rw same refl, m'))
  step-Stands call (get_op k) f n s used fits m =
      ((or_zero (f k), s), rw (table.get-Stands k f n s used m) refl, (refl, m))
  step-Stands call (remove_op k) f n s used fits m = table.remove-Stands k f n s used m

  -- The calls answer as on the map.
  pub run-spec_run :
      (call : ℕ) (os : List Op) (f : Map) (n : ℕ) (s : S)
      → AllKeys os
      → AllFit os n
      → table.Stands f n s
      → run call os s ≡ ok (spec_run os f)
  unfolding run spec_run
  run-spec_run call [] f n s keys fits m = refl
  run-spec_run call (o ∷ os) f n s keys fits m =
      let (r, did, (same, m')) = step-Stands call o f n s keys.0 fits.0 m in
      rw (
        did,
        ◌>>=◌,
        run-spec_run (suc call) os (spec_step o f).1 (grown o n) r.1 keys.1 fits.1 m',
        same,
      )

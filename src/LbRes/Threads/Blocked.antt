-- ===== src/LbRes/Threads/Blocked.antt =====
-- The points at which a thread holds a lock, copies, or is about to set table_new, and the steps that wait.
use cht_bench.Prelude.{
  ℕ, ◌≡◌, refl, ◌∙◌, sym, ap, ◌⊎◌, inl, inr, Bool, true, false, Option, none, some, ltb, leb,
  Option-cases, Bool-cases,
}
use cht_bench.Prelude.Run.{Run, ok, blocked, ◌>>=◌, bind-blocked}
use cht_bench.Hash.{next_int32}
use cht_bench.Hash.Laws.{next_int32_goes}
use cht_bench.Chain.{Chain, first, with_lock}
use cht_bench.LbRes.{
  Hashtable, Memory, lock_update, lock_resize, bucket_at, hash, lock_acq_chk_resize,
}
use cht_bench.LbRes.Seq.{bucket_cpy}
use cht_bench.LbRes.Threads.{
  Store, Update, key_of, Thread, idle, enter, exists, acquire, again, locked, status, start_resize,
  trylock, copy, publish, unlock, Outcome, outcome, silent, try_acquire, copy_next, with_table,
  with_bucket, swap,
}
use cht_bench.LbRes.Threads.Invariant.{lock_at, lock_at_lem, bin, is_copy, holds, publishes}
use cht_bench.LbRes.Threads.Kept.{bucket_at-ok}
use cht_bench.LbRes.Threads.Waits.{bucket_at_goes, bucket_cpy-blocked, lock_acq-blocked}

pub holds-cases : (th : Thread) (u : Update) → holds th ≡ some u → (t : ℕ) × (th ≡ locked u t)
holds-cases (locked call t) u h = (t, let e : call ≡ u = cc in ap (λ x. locked x t) e)
holds-cases idle u h = absurd (cc)
holds-cases (enter call) u h = absurd (cc)
holds-cases (exists call t at) u h = absurd (cc)
holds-cases (acquire call t) u h = absurd (cc)
holds-cases (again call) u h = absurd (cc)
holds-cases status u h = absurd (cc)
holds-cases (start_resize by) u h = absurd (cc)
holds-cases (trylock by o) u h = absurd (cc)
holds-cases (copy o b n) u h = absurd (cc)
holds-cases (publish o more) u h = absurd (cc)
holds-cases (unlock more) u h = absurd (cc)

pub publishes-cases :
    (th : Thread) (t : ℕ) → publishes th ≡ some t → (more : Bool) × (th ≡ publish t more)
publishes-cases (publish o more) t h = (more, let e : o ≡ t = cc in ap (λ x. publish x more) e)
publishes-cases (locked call o) t h = absurd (cc)
publishes-cases idle t h = absurd (cc)
publishes-cases (enter call) t h = absurd (cc)
publishes-cases (exists call o at) t h = absurd (cc)
publishes-cases (acquire call o) t h = absurd (cc)
publishes-cases (again call) t h = absurd (cc)
publishes-cases status t h = absurd (cc)
publishes-cases (start_resize by) t h = absurd (cc)
publishes-cases (trylock by o) t h = absurd (cc)
publishes-cases (copy o b n) t h = absurd (cc)
publishes-cases (unlock more) t h = absurd (cc)

pub is_copy-cases :
    (th : Thread) → is_copy th ≡ true → (o b : ℕ) × (n : Hashtable) × (th ≡ copy o b n)
is_copy-cases (copy o b n) h = (o, b, n, refl)
is_copy-cases (publish o more) h = absurd (cc)
is_copy-cases (locked call o) h = absurd (cc)
is_copy-cases idle h = absurd (cc)
is_copy-cases (enter call) h = absurd (cc)
is_copy-cases (exists call o at) h = absurd (cc)
is_copy-cases (acquire call o) h = absurd (cc)
is_copy-cases (again call) h = absurd (cc)
is_copy-cases status h = absurd (cc)
is_copy-cases (start_resize by) h = absurd (cc)
is_copy-cases (trylock by o) h = absurd (cc)
is_copy-cases (unlock more) h = absurd (cc)

-- The copy waits at a bucket that is held for an update.
pub copy_next-blocked :
    (mem : Memory) (o p : ℕ) (n : Hashtable) (y : Store)
    → copy_next mem o p n y ≡ blocked
    → lock_at (y.tables o).table p ≡ some lock_update
unfolding copy_next
copy_next-blocked mem o p n y waits =
    let h = y.tables o in
    let last : Chain × Hashtable → ℕ → Run Outcome =
      λ r b'. ok (outcome (with_table y o (with_bucket h p r.0)) (copy o b' r.1) silent) in
    let next : Chain × Hashtable → Run Outcome = λ r. next_int32 p >>= last r in
    elim (Bool-cases (ltb p h.num_buckets)) [
      | inr all ↦
          let z : ok
                (outcome (swap y n) (publish o (leb n.num_expands_threshold n.num_expands)) silent)
              ≡ blocked =
            rw all at waits in
          absurd (cc)
      | inl more ↦
          elim (bind-blocked (bucket_at h p) (λ c. bucket_cpy mem c n >>= next)
            (rw more at waits)) [
              | inl w ↦ absurd (bucket_at_goes h p w)
              | inr (c, got, w) ↦ elim (bind-blocked (bucket_cpy mem c n) next w) [
                | inl z ↦
                    lock_at_lem h.table p c (bucket_at-ok h p c got)
                    ∙ ap some (bucket_cpy-blocked mem c n z)
                | inr (r, did, z) ↦ elim (bind-blocked (next_int32 p) (last r) z) [
                  | inl z ↦ absurd (next_int32_goes p z)
                  | inr (b', counted, z) ↦ absurd (cc)
                ]
              ]
            ]
    ]

-- A thread that waits for a lock waits for an update, or for `table_new`.
pub acquire-blocked :
    (call : Update) (t : ℕ) (y : Store)
    → bucket_at (y.tables t) (hash (y.tables t) (key_of call)) >>= (λ c. try_acquire call t c y)
      ≡ blocked
    → (l : ℕ) × (lock_at (y.tables t).table (bin (y.tables t) call) ≡ some l)
      × ((l ≡ lock_update) ⊎ ((l ≡ lock_resize) × ((y.tables t).has_new ≡ false)))
unfolding try_acquire hash
acquire-blocked call t y waits =
    let h = y.tables t in
    let i = bin h call in
    elim (bind-blocked (bucket_at h i) (λ c. try_acquire call t c y) waits) [
      | inl w ↦ absurd (bucket_at_goes h i w)
      | inr (c, got, w) ↦
          let next : Option ℕ → Run Outcome = λ r. elim r [
            | none ↦ ok (outcome y (again call) silent)
            | some l ↦
                ok (
                  outcome (with_table y t (with_bucket h i (with_lock l c))) (locked call t) silent)
          ] in
          elim (bind-blocked (lock_acq_chk_resize (first c).lock h) next w) [
            | inl z ↦ (
              (first c).lock,
              lock_at_lem h.table i c (bucket_at-ok h i c got),
              lock_acq-blocked (first c).lock h z,
            )
            | inr (r, did, z) ↦ elim (Option-cases r) [
              | inl e ↦ let x : next none ≡ blocked = ap next (sym e) ∙ z in absurd (cc)
              | inr (l, e) ↦ let x : next (some l) ≡ blocked = ap next (sym e) ∙ z in absurd (cc)
            ]
          ]
    ]

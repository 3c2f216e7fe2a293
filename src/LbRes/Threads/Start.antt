-- ===== src/LbRes/Threads/Start.antt =====
-- The step of ht_resize_pes that takes the resize lock and creates the new table.
use mathlib.Core.Path.{subst}
use cht_bench.Prelude.{
  ℕ, ◌+◌, ◌*◌, ◌<◌, ◌≡◌, refl, ◌∙◌, ap, true, false, none, some, arith, inl, inr, ne→==, ◌==◌,
  Option-cases, Bool-cases, ℕ_discrete, dec_lt,
}
use cht_bench.Prelude.Run.{ok, fault}
use cht_bench.Hash.{u32, u64}
use cht_bench.LbRes.{Hashtable, Memory, lock_free, hashtable_create}
use cht_bench.LbRes.Resize.{tas_taken}
use cht_bench.LbRes.Laws.Resize.{created}
use cht_bench.LbRes.Threads.{
  Store, Thread, idle, enter, exists, acquire, again, locked, status, start_resize, trylock, copy,
  publish, unlock, silent, Outcome, outcome, try_resize, System,
}
use cht_bench.LbRes.Threads.Copying.{Copied-start}
use cht_bench.LbRes.Threads.Invariant.{claims, is_copy}
use cht_bench.LbRes.Threads.Kept.{Invariant, Kept, current_table, quiet-Kept}

-- The table that was created, with the version that the caller gives it.
pub hashtable_create-created :
    (mem : Memory) (n : ℕ) (h : Hashtable)
    → hashtable_create mem n ≡ some h
    → (0 < u32 n) × (created (u32 n) 0 ≡ h)
unfolding hashtable_create
hashtable_create-created mem m h run =
    let n = u32 m in
    elim (ℕ_discrete n 0) [
      | yes e ↦ let z : none ≡ some h = rw e at run in absurd (cc)
      | no some_buckets ↦ elim (Bool-cases (mem.grants n)) [
        | inl granted ↦
            let z : some (created n 0) ≡ some h = rw (granted, ne→== n 0 some_buckets) at run in
            (omega arith, cc)
        | inr e ↦ let z : none ≡ some h = rw (e, ne→== n 0 some_buckets) at run in absurd (cc)
      ]
    ]

pub is_copy-claims : (th : Thread) → is_copy th ≡ true → claims th ≡ true
is_copy-claims (copy o b n) h = refl
is_copy-claims idle h = absurd (cc)
is_copy-claims (enter call) h = absurd (cc)
is_copy-claims (exists call t at) h = absurd (cc)
is_copy-claims (acquire call t) h = absurd (cc)
is_copy-claims (again call) h = absurd (cc)
is_copy-claims (locked call t) h = absurd (cc)
is_copy-claims status h = absurd (cc)
is_copy-claims (start_resize by) h = absurd (cc)
is_copy-claims (trylock by o) h = absurd (cc)
is_copy-claims (publish o more) h = absurd (cc)
is_copy-claims (unlock more) h = absurd (cc)

module _ (mem : Memory) (y : System) (inv : Invariant mem y) (a : ℕ) where
  -- A thread that may resize and does not copy: nobody does.
  pub nothing_copied :
      claims (y.threads a) ≡ true → is_copy (y.threads a) ≡ false → inv.progress ≡ 0
  nothing_copied mine plain = elim (dec_lt 0 inv.progress) [
    | no n ↦ omega arith
    | yes more ↦
        let (b, copies) = inv.shared.working more in
        elim (ℕ_discrete a b) [
          | yes e ↦ let z = ap (λ i. is_copy (y.threads i)) e in absurd (cc)
          | no n ↦
              let z = inv.shared.sole a b n mine in
              let w = is_copy-claims (y.threads b) copies in absurd (cc)
        ]
  ]

  pub trylock-Kept :
      (by ht_old : ℕ) (o : Outcome)
      → y.threads a ≡ trylock by ht_old
      → ht_old ≡ y.store.current
      → try_resize mem by ht_old y.store ≡ ok o
      → Kept mem y a o
  unfolding try_resize
  trylock-Kept by ht_old o here now run =
      let h = y.store.tables ht_old in
      let n = u64 (by * h.num_buckets) in
      let held : Store = record y.store { resize_lock = tas_taken } in
      elim (Bool-cases (y.store.resize_lock == lock_free)) [
        | inr taken ↦
            let z : ok (outcome held idle silent) ≡ ok o = rw taken at run in
            let same : outcome held idle silent ≡ o = cc in
            subst (Kept mem y a) same (
              quiet-Kept mem y inv a tas_taken idle tt refl (λ z. absurd (cc))
                (rw here (refl, refl, refl)))
        | inl free ↦ elim (Option-cases (hashtable_create mem n)) [
          | inl null ↦ let z : fault ≡ ok o = rw (free, null) at run in absurd (cc)
          | inr (ht_new, made) ↦
              let version = u64 (h.version + 1) in
              let (filled, is_created) = hashtable_create-created mem n ht_new made in
              let th : Hashtable → Thread = λ g. copy ht_old 0 (record g { version = version }) in
              let z : ok (outcome held (th ht_new) silent) ≡ ok o = rw (free, made) at run in
              let same : outcome held (th ht_new) silent ≡ o = cc in
              let no_progress = nothing_copied (rw here refl) (rw here refl) in
              subst (Kept mem y a) (ap (λ g. outcome held (th g) silent) is_created ∙ same) (
                quiet-Kept mem y inv a tas_taken (th (created (u32 n) 0))
                  (
                    now,
                    no_progress,
                    Copied-start mem (u32 n) version (current_table y.store).table filled
                        (omega arith),
                  )
                  refl (λ z. rw here refl) (rw here (refl, refl, refl)))
        ]
      ]

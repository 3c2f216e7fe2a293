-- ===== src/LbRes/Threads/Kept.antt =====
-- The invariant of a state, what an event says of the map, and what each kind of step has to keep.
use cht_bench.Prelude.{
  ℕ, ◌<◌, ◌≡◌, refl, ◌≢◌, true, false, none, some, arith, inl, inr, is_none, or_zero, get_elem?,
  Option-cases, eq→==, ne→==,
}
use cht_bench.Prelude.Run.{ok, fault}
use cht_bench.KeyMap.{Map, bind, unbind}
use cht_bench.Chain.{Chain}
use cht_bench.LbRes.{Hashtable, Memory, lock_resize, bucket_at}
use cht_bench.LbRes.Laws.Valid.{map_of}
use cht_bench.LbRes.Threads.{
  Store, Thread, Event, silent, fails, put_did, remove_did, Outcome, outcome, with_table, System,
  with_thread, stepped,
}
use cht_bench.LbRes.Threads.Invariant.{
  lock_at, claims, holds, publishes, IsPlain, Held, Local, Sound, Shared,
}
use cht_bench.LbRes.Threads.Effects.{quiet, other_stays, Held-other}

-- The table that `h->ht` points to.
abbrev pub current_table : Store → Hashtable
current_table y = y.tables y.current

pub record Invariant (mem : Memory) (y : System) : Type 0 where
  pub progress : ℕ
  pub sound : Sound (current_table y.store) progress
  pub shared : Shared mem (current_table y.store) y.store.current progress y.threads
  pub old :
      (t i l : ℕ)
      → t < y.store.current
      → lock_at (y.store.tables t).table i ≡ some l
      → l ≡ lock_resize
  pub held : Held (current_table y.store) y.threads
  pub published :
      (t : ℕ)
      → t < y.store.current
      → (y.store.tables t).has_new ≡ false
      → (b : ℕ) × (publishes (y.threads b) ≡ some t)

-- Two maps agree on the keys that a table can hold.
abbrev pub Same : Map → Map → Type 0
Same f g = (q : ℕ) → q ≢ 0 → g q ≡ f q

-- What a step does to the map: the work of a put or a removal is that of the finite map, with its
-- answer, and nothing else changes it.
abbrev pub Specified : Event → Map → Map → Type 0
Specified silent f g = Same f g
Specified (fails call) f g = Same f g
Specified (put_did k v answer) f g = (answer ≡ is_none (f k)) × Same (bind f k v) g
Specified (remove_did k result) f g = (result ≡ or_zero (f k)) × Same (unbind f k) g

pub record Kept (mem : Memory) (y : System) (a : ℕ) (o : Outcome) : Type 0 where
  pub invariant : Invariant mem (stepped y a o)
  pub specified :
      Specified o.event (map_of (current_table y.store)) (map_of (current_table o.store))

pub with_table_self : (y : Store) (t : ℕ) (h : Hashtable) → (with_table y t h).tables t ≡ h
with_table_self y t h = rw (eq→== t t refl) refl

pub with_table_ne :
    (y : Store) (t u : ℕ) (h : Hashtable) → t ≢ u → (with_table y t h).tables u ≡ y.tables u
with_table_ne y t u h n = rw (ne→== t u n) refl

pub bucket_at-ok :
    (h : Hashtable) (i : ℕ) (c : Chain) → bucket_at h i ≡ ok c → get_elem? h.table i ≡ some c
unfolding bucket_at
bucket_at-ok h i c run = elim (Option-cases (get_elem? h.table i)) [
  | inl e ↦ let z : fault ≡ ok c = rw (e, bucket_at) at run in absurd (cc)
  | inr (d, e) ↦ let z : ok d ≡ ok c = rw (e, bucket_at) at run in cc
]

module _ (mem : Memory) (y : System) (inv : Invariant mem y) (a : ℕ) where
  -- The tables stay; the resize lock may change.
  pub quiet-Kept :
      (lock : ℕ) (th : Thread)
      → Local mem (current_table y.store) y.store.current inv.progress th
      → holds th ≡ none
      → (claims th ≡ true → claims (y.threads a) ≡ true)
      → IsPlain (y.threads a)
      → Kept mem y a (outcome (record y.store { resize_lock = lock }) th silent)
  quiet-Kept lock th l free claim plain = record {
    invariant = record {
      progress = inv.progress;
      sound = inv.sound;
      shared =
          quiet mem (current_table y.store) y.store.current inv.progress y.threads inv.shared a th l
            free claim plain.0;
      old = inv.old;
      held = Held-other (current_table y.store) y.threads a th plain.1 inv.held;
      published = λ t before unset.
          let (b, e) = inv.published t before unset in
          (b, other_stays y.threads a th publishes b t plain.2 e);
    };
    specified = λ q real. refl;
  }

  -- The current table changes.
  pub current-Kept :
      (h : Hashtable) (p : ℕ) (th : Thread) (e : Event)
      → Sound h p
      → Shared mem h y.store.current p (with_thread y.threads a th)
      → Held h (with_thread y.threads a th)
      → publishes (y.threads a) ≡ none
      → Specified e (map_of (current_table y.store)) (map_of h)
      → Kept mem y a (outcome (with_table y.store y.store.current h) th e)
  current-Kept h p th e sound shared held quiet_publish does =
      let self = with_table_self y.store y.store.current h in
      record {
        invariant = record {
          progress = p;
          sound = rw self sound;
          shared = rw self shared;
          old = λ t i l before at_i.
              inv.old t i l before (
                rw (with_table_ne y.store y.store.current t h (λ z. absurd (omega arith))) at at_i);
          held = rw self held;
          published = λ t before unset.
              let ne = with_table_ne y.store y.store.current t h (λ z. absurd (omega arith)) in
              let (b, f) = inv.published t before (rw ne at unset) in
              (b, other_stays y.threads a th publishes b t quiet_publish f);
        };
        specified = rw self does;
      }

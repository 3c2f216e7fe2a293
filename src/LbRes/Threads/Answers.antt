-- ===== src/LbRes/Threads/Answers.antt =====
-- What the work of a call does to the counter, the thread and the map.
use cht_bench.Prelude.{
  ℕ, ◌+◌, ◌^◌, ◌≤◌, ◌<◌, ◌≡◌, refl, ◌∙◌, ap, ◌≢◌, Bool, true, false, none, some, arith, inl, inr,
  if◌then◌else◌, get_elem?, set, Bool-cases, dec_lt,
}
use cht_bench.KeyMap.{Map, unbind}
use cht_bench.Hash.{hash_bin}
use cht_bench.Chain.{Chain}
use cht_bench.Chain.Slots.{find, find-eq-none, find-eq-some}
use cht_bench.Chain.Laws.{slots}
use cht_bench.Table.Rows.{IsPlaced, row-get_elem?, set-Inserts, set-Deletes, view}
use cht_bench.LbRes.{Hashtable, Memory}
use cht_bench.LbRes.Laws.Valid.{map_of}
use cht_bench.LbRes.Threads.{Thread, idle, status, put_did, remove_did}
use cht_bench.LbRes.Threads.Work.{rewritten, Counts, stays, grows, PutWork, RemoveWork}
use cht_bench.LbRes.Threads.Invariant.{claims, holds, Local}
use cht_bench.LbRes.Threads.Frontier.{IsPlaced-set, view-set}
use cht_bench.LbRes.Threads.Kept.{Specified}
use cht_bench.LbRes.Threads.Steps.{IsBounded}

-- The counter does not wrap around, so a resize is asked for when it reaches the threshold.
pub Counts-IsBounded :
    (mem : Memory) (h : Hashtable) (n : ℕ) (more : Bool)
    → IsBounded mem
    → Counts mem h n more
    → (h.num_expands ≤ n)
      × (more ≡ true → (h.num_expands < h.num_expands_threshold) × (h.num_expands_threshold ≤ n))
Counts-IsBounded mem h n more bounded stays = (omega arith, λ z. absurd (cc))
Counts-IsBounded mem h n more bounded (grows again granted e) =
    elim (dec_lt (h.num_expands + 1) (2 ^ 32)) [
      | yes room ↦ (omega (arith, room), λ z. ground (arith, room))
      | no full ↦ absurd (granted (bounded h.version h.num_expands (omega arith)))
    ]

abbrev pub after_work : Bool → Thread
after_work more = if more then status else idle

pub after_work-Local :
    (mem : Memory) (h : Hashtable) (t p : ℕ) (more : Bool) → Local mem h t p (after_work more)
after_work-Local mem h t p true = tt
after_work-Local mem h t p false = tt

pub after_work-holds : (more : Bool) → holds (after_work more) ≡ none
after_work-holds true = refl
after_work-holds false = refl

pub after_work-claims : (more : Bool) → claims (after_work more) ≡ more
after_work-claims true = refl
after_work-claims false = refl

pub unbind_absent : (k q : ℕ) (f : Map) → f k ≡ none → f q ≡ unbind f k q
unbind_absent k q f h = ground arith

module _ (mem : Memory) (cur : Hashtable) (k : ℕ) (used : k ≢ 0) (c : Chain)
    (placed : IsPlaced (hash_bin cur.hash) cur.table)
    (there : get_elem? cur.table (hash_bin cur.hash k) ≡ some c) where
  pub map_of-key : map_of cur k ≡ find k (slots c)
  unfolding view
  map_of-key = ap (find k) (row-get_elem? cur.table (hash_bin cur.hash k) c there)

  -- The table after a put.
  pub put-Specified :
      (v : ℕ) (r : Bool × Hashtable × Bool) (w : PutWork mem cur (hash_bin cur.hash k) c k v r)
      → IsPlaced (hash_bin cur.hash) (set cur.table (hash_bin cur.hash k) w.chain)
        × Specified
            (put_did k v r.0)
            (map_of cur)
            (map_of (rewritten cur w.expands (hash_bin cur.hash k) w.chain))
  put-Specified v r w = elim (Bool-cases r.0) [
    | inl e ↦
        let (absent, adds) = w.stored e in
        let t =
          set-Inserts (hash_bin cur.hash) cur.table placed k c w.chain used there v absent adds in
        let unbound : map_of cur k ≡ none = map_of-key ∙ find-eq-none k (slots c) absent in
        (t.placed, rw (unbound, e) (refl, λ q real. t.reads q real))
    | inr e ↦
        let (present, same) = w.refused e in
        let (x, found) = find-eq-some k (slots c) present in
        let bound : map_of cur k ≡ some x = map_of-key ∙ found in
        (
          IsPlaced-set (hash_bin cur.hash) cur.table (hash_bin cur.hash k) c w.chain there same
              placed,
          rw (bound, e)
              (
                refl,
                λ q real.
                    view-set (hash_bin cur.hash) cur.table (hash_bin cur.hash k) c w.chain there
                      same q,
              ),
        )
  ]

  -- The table after a removal.
  pub remove-Specified :
      (r : ℕ × Hashtable) (w : RemoveWork cur (hash_bin cur.hash k) c k r)
      → IsPlaced (hash_bin cur.hash) (set cur.table (hash_bin cur.hash k) w.chain)
        × Specified
            (remove_did k r.0)
            (map_of cur)
            (map_of (rewritten cur cur.num_expands (hash_bin cur.hash k) w.chain))
  remove-Specified r w = elim w.did [
    | inl (found, removes) ↦
        let t = set-Deletes (hash_bin cur.hash) cur.table placed k c w.chain used there removes in
        let bound : map_of cur k ≡ some r.0 = map_of-key ∙ found in
        (t.placed, (rw bound refl, λ q real. t.reads q real))
    | inr (zero_result, absent, same) ↦
        let unbound : map_of cur k ≡ none = map_of-key ∙ find-eq-none k (slots c) absent in
        (
          IsPlaced-set (hash_bin cur.hash) cur.table (hash_bin cur.hash k) c w.chain there same
              placed,
          (
            rw unbound zero_result,
            λ q real.
                view-set (hash_bin cur.hash) cur.table (hash_bin cur.hash k) c w.chain there same q
                ∙ unbind_absent k q (map_of cur) unbound,
          ),
        )
  ]

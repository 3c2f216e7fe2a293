-- ===== src/LbRes/Threads/Finish.antt =====
-- The work of a call under the lock of its bucket, and the release, as a step of a thread.
use mathlib.Core.Path.{subst}
use cht_bench.Prelude.{
  ℕ, ◌≤◌, ◌<◌, ◌≡◌, refl, ◌∙◌, sym, ap, ◌≢◌, Bool, true, false, some, arith, inl, get_elem?, set,
  dec_lt,
}
use cht_bench.Prelude.Run.{Run, ok, ◌>>=◌, bind-ok}
use cht_bench.Hash.{hash_bin}
use cht_bench.Chain.{Chain, first}
use cht_bench.Table.Rows.{IsPlaced, row-get_elem?}
use cht_bench.LbRes.{Hashtable, Memory, lock_free, lock_update, bucket_at, hash}
use cht_bench.LbRes.Ops.{put_locked, remove_locked}
use cht_bench.LbRes.Laws.Valid.{map_of}
use cht_bench.LbRes.Threads.{
  Update, put_of, remove_of, key_of, idle, locked, Event, put_did, remove_did, Outcome, outcome,
  with_table, work, System,
}
use cht_bench.LbRes.Threads.Work.{rewritten, put_locked-PutWork, remove_locked-RemoveWork}
use cht_bench.LbRes.Threads.Invariant.{lock_at, bin, holds}
use cht_bench.LbRes.Threads.Frontier.{rewrite-Sound}
use cht_bench.LbRes.Threads.Effects.{rewrite-Shared, Held-rewritten}
use cht_bench.LbRes.Threads.Kept.{
  Invariant, Kept, Specified, current_table, bucket_at-ok, current-Kept,
}
use cht_bench.LbRes.Threads.Steps.{IsBounded}
use cht_bench.LbRes.Threads.Answers.{
  Counts-IsBounded, after_work, after_work-Local, after_work-holds, after_work-claims,
  put-Specified, remove-Specified,
}

module _ (mem : Memory) (bounded : IsBounded mem) (y : System) (inv : Invariant mem y) (a : ℕ)
    (call : Update) (here : y.threads a ≡ locked call y.store.current) (used : key_of call ≢ 0)
    (held : lock_at (current_table y.store).table (bin (current_table y.store) call)
      ≡ some lock_update) where
  abbrev cur : Hashtable
  cur = current_table y.store

  above : inv.progress ≤ bin cur call
  above = elim (dec_lt (bin cur call) inv.progress) [
    | yes below ↦ absurd (omega (arith, inv.sound.frozen (bin cur call) lock_update below held))
    | no n ↦ omega arith
  ]

  -- The bucket is stored back unlocked, and the thread goes on.
  released-Kept :
      (n : ℕ) (more : Bool) (c d : Chain) (e : Event)
      → get_elem? cur.table (bin cur call) ≡ some c
      → (first d).lock ≡ lock_free
      → cur.num_expands ≤ n
      → (more ≡ true
          → (cur.num_expands < cur.num_expands_threshold) × (cur.num_expands_threshold ≤ n))
      → IsPlaced (hash_bin cur.hash) (set cur.table (bin cur call) d)
      → Specified e (map_of cur) (map_of (rewritten cur n (bin cur call) d))
      → Kept mem y a (
          outcome
            (with_table y.store y.store.current (rewritten cur n (bin cur call) d))
            (after_work more)
            e)
  released-Kept n more c d e there unlocked grown claim placed does =
      current-Kept mem y inv a (rewritten cur n (bin cur call) d) inv.progress (after_work more) e
        (rewrite-Sound cur inv.progress n (bin cur call) c d inv.sound above there (inl unlocked)
          placed)
        (rewrite-Shared mem cur y.store.current inv.progress y.threads inv.shared a n (bin cur call)
          d (after_work more) above
          (λ b away u theirs same.
            inv.shared.apart a b away call u (rw here refl) theirs (sym same))
          (after_work-Local mem (rewritten cur n (bin cur call) d) y.store.current inv.progress
            more)
          (λ u mine. absurd (let z = after_work-holds more in cc)) grown
          (λ now. claim (sym (after_work-claims more) ∙ now)) (rw here refl))
        (Held-rewritten cur n (bin cur call) c d y.threads a (after_work more) there
          (λ taken. absurd (omega (arith, taken, unlocked)))
          (λ u mine.
            let z : holds (y.threads a) ≡ some call = rw here refl in
            let w : call ≡ u = cc in rw w refl)
          inv.held)
        (rw here refl) does

module _ (mem : Memory) (bounded : IsBounded mem) (y : System) (inv : Invariant mem y) (a : ℕ) where
  put_work :
      (k v : ℕ) (c : Chain) (o : Outcome)
      → y.threads a ≡ locked (put_of k v) y.store.current
      → k ≢ 0
      → lock_at (current_table y.store).table (hash_bin (current_table y.store).hash k)
        ≡ some lock_update
      → get_elem? (current_table y.store).table (hash_bin (current_table y.store).hash k) ≡ some c
      → work mem (put_of k v) y.store.current c y.store ≡ ok o
      → Kept mem y a o
  unfolding work hash
  put_work k v c o here used held there run =
      let h = current_table y.store in
      let i = hash_bin h.hash k in
      let next : Bool × Hashtable × Bool → Run Outcome = λ r.
        ok (outcome (with_table y.store y.store.current r.1) (after_work r.2) (put_did k v r.0)) in
      let (r, did, e) = bind-ok (put_locked mem h i c k v) next o run in
      let w = put_locked-PutWork mem h i c k v used r did in
      let (placed, does) = put-Specified mem h k used c inv.sound.placed there v r w in
      let (grown, claim) = Counts-IsBounded mem h w.expands r.2 bounded w.counts in
      let kept =
        released-Kept mem bounded y inv a (put_of k v) here used held w.expands r.2 c w.chain
          (put_did k v r.0) there w.unlocked grown claim placed does in
      let as_outcome : Hashtable → Outcome =
        λ g. outcome (with_table y.store y.store.current g) (after_work r.2) (put_did k v r.0) in
      let got : as_outcome r.1 ≡ o = cc in
      subst (Kept mem y a) (ap as_outcome (sym w.same) ∙ got) kept

  remove_work :
      (k : ℕ) (c : Chain) (o : Outcome)
      → y.threads a ≡ locked (remove_of k) y.store.current
      → k ≢ 0
      → lock_at (current_table y.store).table (hash_bin (current_table y.store).hash k)
        ≡ some lock_update
      → get_elem? (current_table y.store).table (hash_bin (current_table y.store).hash k) ≡ some c
      → work mem (remove_of k) y.store.current c y.store ≡ ok o
      → Kept mem y a o
  unfolding work hash
  remove_work k c o here used held there run =
      let h = current_table y.store in
      let i = hash_bin h.hash k in
      let next : ℕ × Hashtable → Run Outcome =
        λ r. ok (outcome (with_table y.store y.store.current r.1) idle (remove_did k r.0)) in
      let (r, did, e) = bind-ok (remove_locked h i c k) next o run in
      let once = rw (row-get_elem? h.table i c there) at (inv.sound.placed.once k i used) in
      let w = remove_locked-RemoveWork mem h i c k 0 used r once did in
      let (placed, does) = remove-Specified mem h k used c inv.sound.placed there r w in
      let kept =
        released-Kept mem bounded y inv a (remove_of k) here used held h.num_expands false c w.chain
          (remove_did k r.0) there w.unlocked (omega arith) (λ z. absurd (cc)) placed does in
      let as_outcome : Hashtable → Outcome =
        λ g. outcome (with_table y.store y.store.current g) idle (remove_did k r.0) in
      let got : as_outcome r.1 ≡ o = cc in
      subst (Kept mem y a) (ap as_outcome (sym w.same) ∙ got) kept

  work_now :
      (call : Update) (c : Chain) (o : Outcome)
      → y.threads a ≡ locked call y.store.current
      → key_of call ≢ 0
      → lock_at (current_table y.store).table (bin (current_table y.store) call) ≡ some lock_update
      → get_elem? (current_table y.store).table (bin (current_table y.store) call) ≡ some c
      → work mem call y.store.current c y.store ≡ ok o
      → Kept mem y a o
  work_now (put_of k v) c o = put_work k v c o
  work_now (remove_of k) c o = remove_work k c o

  -- The work of a call, done on the current table, is that of the finite map.
  pub work-Kept :
      (call : Update) (t : ℕ) (o : Outcome)
      → y.threads a ≡ locked call t
      → key_of call ≢ 0
      → t ≡ y.store.current
      → lock_at (current_table y.store).table (bin (current_table y.store) call) ≡ some lock_update
      → bucket_at (y.store.tables t) (hash (y.store.tables t) (key_of call))
          >>= (λ c. work mem call t c y.store)
        ≡ ok o
      → Kept mem y a o
  unfolding hash
  work-Kept call t o here used now held run =
      let h = current_table y.store in
      let i = bin h call in
      let (c, at_i, rest) =
        bind-ok (bucket_at h i) (λ c. work mem call y.store.current c y.store) o (rw now at run) in
      work_now call c o (rw now at here) used held (bucket_at-ok h i c at_i) rest

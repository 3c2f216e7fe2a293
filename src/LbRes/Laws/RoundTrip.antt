-- ===== src/LbRes/Laws/RoundTrip.antt =====
-- A put, a get and a removal of one key, one after the other.
use cht_bench.Prelude.{ℕ, ◌≡◌, ◌∙◌, ap, ◌≢◌, Bool, true, none, some, arith, is_none, or_zero}
use cht_bench.Prelude.Run.{ok}
use cht_bench.Table.Rows.{total}
use cht_bench.LbRes.{Hashtable, Memory}
use cht_bench.LbRes.Ops.{get, put_bucket, remove}
use cht_bench.LbRes.Laws.Valid.{IsValid, map_of, get-map_of}
use cht_bench.LbRes.Laws.Put.{put_bucket-Puts}
use cht_bench.LbRes.Laws.Remove.{remove-Takes}

-- The entry is stored, found, and taken out again, and the table stands for what it stood for.
pub record Restores (mem : Memory) (h : Hashtable) (k v : ℕ) : Type 0 where
  pub stored : Hashtable
  pub resize : Bool
  pub put : put_bucket mem h k v ≡ ok (true, stored, resize)
  pub found : get stored k ≡ ok v
  pub rest : Hashtable
  pub removed : remove stored k ≡ ok (v, rest)
  pub reads : (q : ℕ) → q ≢ 0 → map_of rest q ≡ map_of h q
  pub size : total rest.table ≡ total h.table

-- On a well-formed table, for an absent key other than 0 and memory granted: clht_put up to its
-- call of ht_status answers true, clht_get then returns the value, clht_remove then returns it
-- too, and after that the table stands for the same map and holds as many entries as at first.
pub put_bucket-Restores :
    (mem : Memory) (h : Hashtable) (k v : ℕ)
    → IsValid h
    → k ≢ 0
    → ((n : ℕ) → mem.bucket h.version n ≢ none)
    → map_of h k ≡ none
    → Restores mem h k v
put_bucket-Restores mem h k v valid used granted absent =
    let (r, run, puts) = put_bucket-Puts mem h k v valid used granted in
    let (s, ran, takes) = remove-Takes r.1 k puts.valid used in
    let answer : r.0 ≡ true = puts.answers ∙ ap is_none absent in
    let bound : map_of r.1 k ≡ some v = ground (arith, puts.reads k used) in
    let value : s.0 ≡ v = takes.answers ∙ ap or_zero bound in
    record {
      stored = r.1;
      resize = r.2;
      put = run ∙ ap (λ b. ok (b, r.1, r.2)) answer;
      found = get-map_of r.1 puts.valid k ∙ ap (λ m. ok (or_zero m)) bound;
      rest = s.1;
      removed = ran ∙ ap (λ n. ok (n, s.1)) value;
      reads = λ q real. ground (arith, takes.reads q real, puts.reads q real);
      size = ground (arith, takes.size, puts.size);
    }

-- ===== src/Tests/Collecting.antt =====
-- Two old tables, of which a thread still uses the second.
use cht_bench.Prelude.{ℕ, [], ◌∷◌}
use cht_bench.LbRes.{Hashtable}
use cht_bench.Gc.{Clht}
use cht_bench.Tests.Resizing.{crowded}

abbrev numbered : ℕ → Hashtable
numbered v = record crowded { version = v }

abbrev used : Clht
used = record {
  older = numbered 0 ∷ numbered 1 ∷ [];
  ht = numbered 2;
  version_list = record { version = 1; id = 7 } ∷ [];
  version_min = 0;
  gc_lock = 0;
}

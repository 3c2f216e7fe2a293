-- ===== src/Gc/Laws.antt =====
-- What a collection frees: the tables older than every version in use, each block once.
use cht_bench.Prelude.{ℕ, ◌≤◌, ◌<◌, ◌≡◌, Bool, true, List, [], ◌∷◌, ◌++◌, if◌then◌else◌, length}
use cht_bench.LbRes.{Hashtable, lock_free}
use cht_bench.Gc.{Ts, Block, Clht, gc_min_version_used, gc_free, oldest_version}

-- A property of each element of a list.
abbrev pub Each {ℓ κ} : {A : Type ℓ} → (A → Type κ) → List A → Type κ
Each P [] = Unit
Each P (x ∷ r) = P x × Each P r

-- Versions grow along `table_new`.
abbrev pub IsOrdered : List Hashtable → Hashtable → Type 0
IsOrdered [] ht = Unit
IsOrdered (h ∷ older) ht = (h.version < oldest_version older ht) × IsOrdered older ht

-- The lock is free, and `version_min` is the oldest version.
pub record IsReady (h : Clht) : Type 0 where
  pub ordered : IsOrdered h.older h.ht
  pub oldest : h.version_min ≡ oldest_version h.older h.ht
  pub unlocked : h.gc_lock ≡ lock_free

-- The least version in use is below every other one, and is the version of `ht` or of a thread.
record IsLeast (m : ℕ) (l : List Ts) (r : ℕ) : Type 0 where
  below : r ≤ m
  each : Each (λ ts. r ≤ ts.version) l

-- All that a collection frees, in order.
abbrev pub free_all : List Hashtable → List Block
free_all [] = []
free_all (h ∷ older) = gc_free h ++ free_all older

-- A collection below `min` splits the old tables: it frees those below `min`, and no other.
pub record Splits (min : ℕ) (older : List Hashtable) (ht : Hashtable)
    (r : ℕ × List Block × List Hashtable) : Type 0 where
  pub taken : List Hashtable
  pub whole : taken ++ r.2 ≡ older
  pub count : r.0 ≡ length taken
  pub freed : r.1 ≡ free_all taken
  pub unused : Each (λ h. h.version < min) taken
  pub kept : Each (λ h. min ≤ h.version) r.2
  pub ordered : IsOrdered r.2 ht

-- The versions below which a collection frees.
abbrev pub limit : Clht → Bool → ℕ
limit h only = if only then gc_min_version_used h else h.ht.version

-- What a collection has to do: it takes the oldest tables, frees the blocks of these and counts them,
-- takes none that is as new as a version in use, leaves none that is older than the limit, and is
-- ready for the next one.
pub record Collects (h : Clht) (only : Bool) (r : ℕ × List Block × Clht) : Type 0 where
  pub taken : List Hashtable
  pub whole : taken ++ r.2.older ≡ h.older
  pub count : r.0 ≡ length taken
  pub freed : r.1 ≡ free_all taken
  pub unused : only ≡ true → Each (λ g. Each (λ ts. g.version < ts.version) h.version_list) taken
  pub complete : Each (λ g. limit h only ≤ g.version) r.2.older
  pub same_ht : r.2.ht ≡ h.ht
  pub same_list : r.2.version_list ≡ h.version_list
  pub ready : IsReady r.2

-- ===== src/Lib.antt =====
-- CLHT, the cache-line hash tables of src/clht: tables of buckets of three slots in one cache line,
-- shared by threads that put, get and remove.
--
-- The program is one interface (create, put, get, remove, size) with several implementations, of
-- which one is linked. Each hashes a key to a bin by a mask, and works on that bucket:
--   * clht_lb locks a bucket for writes, and chains further buckets behind a full one;
--   * clht_lb_lock_ins does the same, but removes without the lock, by compare-and-swap on the key;
--   * clht_lb_res locks a bucket for writes, chains further buckets behind a full one, and moves to a
--     larger table when a counter of such expansions reaches its threshold;
--   * clht_lb_packed locks a bucket for writes, counts its used slots, and chains further buckets;
--   * clht_lf does all with compare-and-swap on one word of a version and a mark for each slot;
--   * clht_lf_res works on such buckets, and moves to a table of twice the size when a bucket stays full.
--
-- Shared:
--   * Prelude (Tests, Lists, Bits, Run), Digits: names of the libraries passed on, Boolean tests, list
--     operations over the native numbers, laws of bitwise operations; Run is how a call ends: with a
--     value (ok), at a null pointer or outside an array (fault), by spinning on a lock that no other
--     thread will release (blocked; among threads, a step that has to wait), or without fuel.
--   * Hash: clht_hash of src/clht/src/clht_lb_res.c, pow2roundup of src/clht/include/utils.h. Words are
--     numbers with the wrap-around written out; the overflow of a signed loop counter is undefined in C
--     and is a fault here. Pow2 bounds pow2roundup, Exact says what it and
--     is_power_of_two compute.
--
-- The lock-based table with resizing, src/clht/src/clht_lb_res.c and src/clht/include/clht_lb_res.h:
--   * Chain: a bucket and the buckets behind it, and the loops of clht_get, bucket_exists, clht_put,
--     clht_remove, clht_put_seq, clht_size and ht_status over them. The arrays key and val are one
--     list of slots, and the pointer empty is the number of a slot. Slots, Writes, Effects and Laws
--     see a chain as one row of slots.
--   * Table: arrays of chains with each key in its bin, and the map from keys to values they stand for.
--   * LbRes: clht_t, clht_hashtable_t, creation, bucket_create_stats, the lock words; Ops: get, put up
--     to its call of ht_status, remove; Seq: clht_put_seq, bucket_cpy, the copying loop of a resize,
--     clht_size; Resize: ht_resize_pes, ht_status, clht_put.
--   * LbRes/Laws: Valid (the invariant of a table), Put, Remove, RoundTrip, Seq and Resize
--     (copying), Growth (how far a table grows), Total (ht_status and
--     clht_put return), Session (sequences of calls).
--   * LbRes/Threads: any number of threads. A thread is the point of clht_put, clht_remove or
--     ht_resize_pes that it has reached, advance is one step of it, Step one step of any thread or a new
--     call, Reach the states that steps lead to. The first search reads slot by slot without a lock; the
--     work under the lock of a bucket is one step, and so is the copy of one bucket, since no other
--     thread writes to it then. Memory is sequentially consistent, and old tables stay readable. What
--     ht_status decides is any number, since it counts while others write. A step that waits or faults is
--     no step. Its children: Work (the work under a lock), Copying (how far a resize is), Invariant,
--     Frontier, Effects, Transfer and Kept (what the kinds of step keep), Steps, Answers, Finish,
--     Start and Moving (the steps), All, Waits, Blocked and Progress (where a thread can wait, and
--     that not all do). A resize starts from a put that has reached the threshold; calls of ht_status
--     and ht_resize_pes by a caller are no steps. Memory is taken to hold fewer than 2^32 expansions of one table, so that the
--     counter of expansions does not wrap around.
--   The header's settings are taken: CLHT_READ_ONLY_FAIL 1, CLHT_HELP_RESIZE 0, CLHT_DO_GC 0,
--   CLHT_DO_CHECK_STATUS 0. But for LbRes/Threads one thread runs. The answers of memalign are a
--   parameter (Memory); a bucket it gives has unknown values in val. The percentages of
--   ht_status are doubles, and are compared as exact quotients. ht_status and ht_resize_pes call one another, on fuel: each resize at
--   least doubles the table, and a table filled below 5 percent is not grown, so 32 is enough for
--   2 ^ 28 entries.
--
-- The lock-based table without resizing, src/clht/src/clht_lb.c and src/clht/include/clht_lb.h:
--   * Lb: the same loops over a chain, with a lock that is 0 or taken. READ_ONLY_FAIL is defined, as in
--     the header; one thread runs; memory is a parameter of each call.
--   * Lb/Laws: Simulation (one call is a call on the table with resizing), Session (sequences of calls).
--
-- The table that locks for insertions only, src/clht/src/clht_lb_lock_ins.c with
-- src/clht/include/clht_lb_lock_ins.h:
--   * LockIns: the same loops, put under the lock, remove without it. One thread runs; memory is a
--     parameter of each call. LockIns/Laws: Take (the loop of a removal), Calls, Session.
--   * LockIns/Threads: any number of threads that put and remove in one bin; the chain is a row of slots
--     that grows, and a step is one access to it: the test of next and the read of the slot behind it
--     are one step. Nothing starts a resize. Local (what a thread relies on), Effects (what a
--     change of the bin does), Moves (one step), All (all threads).
--
-- The lock-based table with packed buckets, src/clht/src/clht_lb_packed.c with
-- src/clht/include/clht_lb_packed.h:
--   * Packed: a bucket counts its used slots, get and bucket_exists search them from the last one down,
--     and a removal fills its hole with the last entry of the chain. One thread runs.
--   * Packed/Laws: Rows (the used slots of a chain as one row), Swap (an entry replaced by the last
--     one), Loops, Valid (the invariant and the map), Table (each call), Session (sequences of calls).
--
-- Reclaiming old tables, src/clht/src/clht_gc.c with src/clht/include/clht_lb_res.h:
--   * Gc: the versions that threads publish, a collection of the tables older than all of these, and
--     what goes to free. One collection runs at a time. Gc/Laws: what it frees and what it leaves.
--
-- The interface that the tables share, clht_put, clht_get and clht_remove:
--   * KeyMap: a record of the three operations and their laws against a finite map, and sequences of
--     calls for any table that fills it. Each table's Session fills it.
--
-- The lock-free table, src/clht/src/clht_lf.c and src/clht/include/clht_lf.h:
--   * Lf: one bucket, and threads as the point of clht_put, clht_remove or clht_get that each has
--     reached; advance is one access to shared memory (or one decision on local variables), Step one
--     step of any thread or a new call, Reach the states that steps lead to. Memory is sequentially
--     consistent. Buckets share nothing, so one bucket is the table for its keys.
--   * Lf/Laws: Snapshots (what a thread knows after it read a snapshot), Local (what it relies on at
--     each point), Slot, Own and Step (what its steps do), Refine (the entries), System (all threads),
--     Search and Alone (a thread that runs alone), Typed and Widths (the ranges of the C types).
--   The version of a bucket has 32 bits and wraps around; the theorems ask for fewer insertions.
--
-- The lock-free table with resizing, src/clht/src/clht_lf_res.c with src/clht/include/clht_lf_res.h:
--   * LfRes: clht_t and clht_hashtable_t over the buckets of Lf, creation, get, one pass of put over a
--     bucket with its two compare-and-swaps, remove; Seq: clht_put_seq, bucket_cpy, the copying loop,
--     clht_size; Resize: ht_resize_pes, clht_gc_collect (which does nothing, since clht_gc.c is compiled
--     with CLHT_DO_GC 0 of clht_lb_res.h), ht_status, clht_put.
--   * LfRes/Laws: Rows (a bucket as a row of slots), Entry (one bucket), Valid (the invariant and the
--     map), Calls (get and remove), Fill and Copy (filling a new table), Grow (a table whose size
--     is multiplied by a power of two), Resize and Status (ht_resize_pes, ht_status), Put and Insert (clht_put).
--   One thread runs; the versions of the other threads are values in the state. The fuel of a put
--   counts its passes over a bucket: 17 before each call of ht_status. A wait for other threads is
--   blocked. The answers of memalign are a parameter (Memory), with the version that a new table has.
--
-- Tests: runs at concrete inputs (Resizing: a put that grows a table from one bucket to four; Racing:
-- two threads that put the same key; Plain: the tables without resizing;
-- Packing: a packed bucket; Threading: a removal that waits for a resize; Taking: a removal without the lock;
-- Collecting: old tables; Doubling: a full bucket of the lock-free table; Words: powers of two).
--
-- Not modelled: the other tables of src/clht/src (clht_lb_linked,
-- clht_lb_res_no_next, clht_lf_only_map_rem); threads on clht_lb and clht_lb_packed
-- and on the resizes of clht_lf_res, and clht_get among threads on a lock-based table; printing, time stamps and
-- statistics; the allocators and atomic operations, which are outside libraries; src/cuckoo,
-- src/hashtable-tbb, src/hashtable-rcu and src/hopscotch, which are copies of other projects or benchmarks of them.
pub mod Digits
pub mod Prelude
pub mod Chain
pub mod Table
pub mod Hash
pub mod LbRes
pub mod KeyMap
pub mod Lb
pub mod Packed
pub mod Gc
pub mod Lf
pub mod LfRes
pub mod LockIns
mod Tests

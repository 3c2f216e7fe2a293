-- ===== src/Table.antt =====
-- The array of buckets: a chain for each bin, the map from keys to values that it stands for, and
-- a write to one bin.
pub mod Rows
pub mod Flat

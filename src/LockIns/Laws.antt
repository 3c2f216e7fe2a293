-- ===== src/LockIns/Laws.antt =====
-- The table that locks for insertions only against finite maps.
pub mod Take
pub mod Calls
pub mod Session

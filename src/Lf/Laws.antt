-- ===== src/Lf/Laws.antt =====
-- What holds of one bucket under any interleaving of threads.
pub mod Snapshots
pub mod Local
pub mod Slot
pub mod Own
pub mod Step
pub mod Refine
pub mod System
pub mod Search
pub mod Alone
pub mod Typed
pub mod Widths

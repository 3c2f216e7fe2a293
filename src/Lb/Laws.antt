-- ===== src/Lb/Laws.antt =====
-- The table without resizing against the one with resizing, and against a finite map.
pub mod Simulation
pub mod Session

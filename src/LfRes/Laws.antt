-- ===== src/LfRes/Laws.antt =====
-- The lock-free table with resizing against finite maps.
pub mod Rows
pub mod Entry
pub mod Valid
pub mod Calls
pub mod Fill
pub mod Copy
pub mod Grow
pub mod Resize
pub mod Status
pub mod Put
pub mod Insert

-- ===== src/Packed/Laws.antt =====
-- What the operations of Packed do to a packed chain, and to the table.
pub mod Rows
pub mod Swap
pub mod Loops
pub mod Valid
pub mod Table
pub mod Session

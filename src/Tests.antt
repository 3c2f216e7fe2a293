-- ===== src/Tests.antt =====
-- Runs at concrete inputs, and the theorems applied at them.
mod Resizing
mod Plain
mod Racing
mod Packing
mod Threading
mod Taking
mod Collecting
mod Doubling
mod Words

-- ===== src/LbRes/Laws.antt =====
-- What the operations of Ops do to a well-formed table.
pub mod Valid
pub mod Put
pub mod Remove
pub mod RoundTrip
pub mod Seq
pub mod Resize
pub mod Growth
pub mod Total
pub mod Session

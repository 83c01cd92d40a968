-- ===== src/Terminal.antt =====
-- The crate's terminal (src/terminal).
pub mod Input
pub mod Cells
pub mod Replication

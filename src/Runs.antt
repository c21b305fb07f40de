-- ===== src/Runs.antt =====
-- The life of a run (api/src/tabayyun/services/runs.py).
pub mod Tables
pub mod Transactions
pub mod Completion
pub mod Execute
pub mod Progress
pub mod Steps
pub mod Advance
pub mod Done
pub mod Reaped
pub mod Life
pub mod Moves
pub mod Kept
pub mod Once

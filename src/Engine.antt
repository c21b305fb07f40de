-- ===== src/Engine.antt =====
-- The fetch engine (api/src/tabayyun/services/fetches.py): fetches of sources, from their creation to
-- their end, over the modules of Fetch.
pub mod Tables
pub mod Create
pub mod Health
pub mod Prepare
pub mod Call
pub mod Execute
pub mod Covers
pub mod Calls
pub mod Planned
pub mod Filled
pub mod Final
pub mod Ended
pub mod Failing
pub mod Once

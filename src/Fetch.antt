-- ===== src/Fetch.antt =====
-- What a source's data is fetched over: the instants, the cached ranges and their gaps, and the calls
-- that fill them (api/src/tabayyun/services/timeconv.py, services/coverage.py, connectors/plan.py).
pub mod Instants
pub mod Coverage
pub mod Gaps
pub mod Cached
pub mod Plan
pub mod Spans
pub mod Calls
pub mod Bounds

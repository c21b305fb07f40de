-- ===== src/Rates.antt =====
-- api/src/tabayyun/services/rate_limits.py: fixed windows of requests, counted for a bucket and a key.
pub mod Windows
pub mod Counter
pub mod Budget

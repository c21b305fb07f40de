-- ===== src/Findings.antt =====
-- api/src/tabayyun/services/findings.py: how the findings of a report merge into those there are, and
-- the changes of their status.
pub mod Evidence
pub mod Store
pub mod Status
pub mod Report
pub mod Absorb
pub mod Again
pub mod Closed

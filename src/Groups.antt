-- ===== src/Groups.antt =====
-- Groups of series (api/src/tabayyun/services/groups.py).
pub mod Members
pub mod Fitting
pub mod Store
pub mod Whole
pub mod Patched

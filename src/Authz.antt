-- ===== src/Authz.antt =====
-- api/src/tabayyun/authz: roles and actions, the policy over the membership tables, and the
-- dependencies that put it in front of every route.
pub mod Roles
pub mod Grants
pub mod Policy
pub mod Batch
pub mod Visible

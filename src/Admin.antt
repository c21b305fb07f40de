-- ===== src/Admin.antt =====
-- api/src/tabayyun/services/admin: members, teams, workspaces and invitations of an org, each change
-- in the request's transaction with one event in the audit log.
pub mod Errors
pub mod Audit
pub mod Names
pub mod Rules
pub mod Members
pub mod Owners
pub mod Removal
pub mod Teams
pub mod Workspaces
pub mod Email
pub mod Invitations
pub mod Opened
pub mod Revoking
pub mod Log
pub mod Events
pub mod Routes
pub mod Handled
pub mod Frame
pub mod Reach
pub mod Access

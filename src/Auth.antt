-- ===== src/Auth.antt =====
-- api/src/tabayyun/auth and authz/deps.py: login flows, sessions, and whom a request acts for.
pub mod Flows
pub mod Sessions
pub mod Revoked
pub mod Touch
pub mod Handlers
pub mod Request
pub mod Current
pub mod Scopes

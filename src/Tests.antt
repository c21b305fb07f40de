-- ===== src/Tests.antt =====
-- Runs of the model on small examples, and the theorems at them.
mod Samples
mod Filling
mod Measuring
mod Running
mod Inviting
mod Grouping
mod People
mod Signing
mod Fetching
mod Counting
mod Reporting

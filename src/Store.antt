-- ===== src/Store.antt =====
-- src/project_supervisor/store.py: the canonical SQLite state, its operations and what they keep.
pub mod Error
pub mod Schema
pub mod Lease
pub mod Tasks
pub mod Dependencies
pub mod Workers
pub mod Scopes
pub mod Dispatch
pub mod Claim
pub mod Runs
pub mod Cancel
pub mod Recover
pub mod Adapter
pub mod Jobs
pub mod Records
pub mod Exclusive
pub mod System

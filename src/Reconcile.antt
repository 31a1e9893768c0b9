-- ===== src/Reconcile.antt =====
-- The package internal/reconcile: the order of the calls to the database and the providers.
pub mod Instance
pub mod Link
pub mod Subject
pub mod Cycle
pub mod Planning
pub mod Adopt
pub mod Sync
pub mod Probe
pub mod Observe
pub mod Report
pub mod Pacer
pub mod Recheck
pub mod Process
pub mod Apply

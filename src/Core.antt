-- ===== src/Core.antt =====
-- The package internal/core: the domain rules, with no I/O.
pub mod Quota
pub mod Model
pub mod Errors
pub mod Provider
pub mod Registry
pub mod Policy
pub mod Resolve
pub mod Plan
pub mod Usage

-- ===== src/Core.antt =====
-- The crate `crates/rustsync-core`.
pub mod Reconciliation
pub mod Diff

-- ===== src/Server.antt =====
-- The crate `crates/rustsync-server`.
pub mod Error
pub mod Replay
pub mod Database
pub mod Files
pub mod State
pub mod Auth
pub mod Api
pub mod Examples

-- ===== src/Server/Database.antt =====
-- The database of one workspace: `crates/rustsync-server/src/storage/sqlite.rs`. Each SQL statement
-- is a function on the tables. That the engine itself fails is left out.
pub mod Tables
pub mod Head
pub mod Access
pub mod Envelopes
pub mod Requests
pub mod Objects

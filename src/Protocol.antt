-- ===== src/Protocol.antt =====
-- The crate `crates/rustsync-protocol`: the formats and the rules that clients and server share.
pub mod Error
pub mod Encoding
pub mod Id
pub mod Device
pub mod Access
pub mod Object
pub mod Manifest
pub mod Auth
pub mod Envelope
pub mod Api

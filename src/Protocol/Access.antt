-- ===== src/Protocol/Access.antt =====
-- Workspace access: roles, signed events and the state that they build
-- (`crates/rustsync-protocol/src/access`).
pub mod Role
pub mod Event
pub mod State
pub mod Validation
pub mod Apply
pub mod Payload
pub mod Validity
pub mod Changes
pub mod Atomicity
pub mod Effects
pub mod Lookup
pub mod Authority
pub mod Removal
pub mod Keys
pub mod Examples
pub mod History

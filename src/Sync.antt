-- ===== src/Sync.antt =====
-- The sync service: services/sync.
pub mod Bytes
pub mod Utf8
pub mod Protocol
pub mod OpLog
pub mod Presence
pub mod Roles
pub mod Error
pub mod Config
pub mod Authority
pub mod Room
pub mod Registry
pub mod Session
mod Examples
mod Fixtures
mod Samples
mod SessionSamples

-- ===== src/Nexus.antt =====
-- The nexus: io-engine/src/bdev/nexus.
pub mod Child
pub mod Io
pub mod IoLog
pub mod IoSubsystem
pub mod Reservation
pub mod Store
pub mod Persistence

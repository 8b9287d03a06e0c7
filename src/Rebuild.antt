-- ===== src/Rebuild.antt =====
-- The rebuild of a nexus child: io-engine/src/rebuild.
pub mod State
pub mod Descriptor
pub mod Walk
pub mod Copy
pub mod Partial
pub mod Allocated
pub mod Tasks
pub mod Job

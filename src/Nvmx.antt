-- ===== src/Nvmx.antt =====
-- The NVMe initiator: io-engine/src/bdev/nvmx.
pub mod ControllerState

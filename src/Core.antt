-- ===== src/Core.antt =====
-- The parts that the other components rest on: io-engine/src/core.
pub mod BitVec
pub mod SegmentMap
pub mod Injection

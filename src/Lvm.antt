-- ===== src/Lvm.antt =====
-- The properties that LVM keeps as tags of its volumes (io-engine/src/lvm).
pub mod Property

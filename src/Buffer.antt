-- ===== src/Buffer.antt =====
-- Packet buffers: the bytes from `b->data` on and the metadata that the plugin reads and writes.
pub mod Defs
pub mod Vlan
pub mod Parse

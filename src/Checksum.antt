-- ===== src/Checksum.antt =====
-- The checksums of flow_table/core/proto/tcp_control.h. A header is the list of its bytes, and a
-- `u16` word of it is read on a little-endian host.
pub mod Defs
pub mod Fold
pub mod Words
pub mod Reference
pub mod Headers
pub mod Verify

-- ===== src/Reset.antt =====
-- The RST packets of flow_table/core/proto/tcp_control.h.
pub mod Frame
pub mod Send
pub mod Targets
pub mod Verify
pub mod Tags
pub mod Received

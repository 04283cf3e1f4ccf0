-- ===== src/Tcp.antt =====
-- The TCP state machine of flow_table/core/proto/tcp_state_transfer.h.
pub mod Types
pub mod Table
pub mod Flags
pub mod Transfers
pub mod Diagram
pub mod Events
pub mod Runs

-- ===== src/Protocol.antt =====
-- The protocol handlers of flow_table/core/proto and their table.
pub mod Handlers
pub mod Registered
pub mod Others
pub mod Tcp
pub mod Effects
pub mod Touched
pub mod Path
pub mod Steps

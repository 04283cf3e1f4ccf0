-- ===== src/Display.antt =====
-- The command `show flow-table` of flow_table/core/flow.c.
pub mod Format
pub mod Command
pub mod Described
pub mod Shown

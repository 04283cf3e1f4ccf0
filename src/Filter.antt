-- ===== src/Filter.antt =====
-- The hook framework of flow_table/vnetfilter and the hooks that flow_table/core/init.c registers.
pub mod Hook
pub mod Node
pub mod Laws
pub mod Graph
pub mod Command
pub mod Words
pub mod Stolen

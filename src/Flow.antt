-- ===== src/Flow.antt =====
-- Flows, the worker's context and the operations on them: flow_table/core/include/flow.h,
-- flow_table/core/include/timer.h and the set-up of flow_table/core/flow.c.
pub mod Types
pub mod Vpp
pub mod Defs
pub mod Timer
pub mod Init
pub mod Keys

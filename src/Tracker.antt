-- ===== src/Tracker.antt =====
-- What the flow table promises: a tracker of connections by key, with no hash table, pool, timer or
-- packet buffer, and the proof that the hooks of flow_table/core implement it.
pub mod Spec
pub mod View
pub mod Packets
pub mod Refines
pub mod Outward
pub mod Simulates
pub mod Frames
pub mod Tracked
pub mod Stays
pub mod Follows
pub mod Ready
pub mod Isolated
pub mod Own

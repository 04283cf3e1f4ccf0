-- ===== src/LinkPulse.antt =====
-- The plugin link_pulse: a list of callback scripts and what runs at a change of a link.
pub mod Defs
pub mod Laws
pub mod Runs
pub mod PathSet
pub mod Refines

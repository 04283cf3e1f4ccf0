-- ===== src/CpuLoading.antt =====
-- The plugin cpu_loading: the share of time that each thread does not spend on empty polls.
pub mod Defs
pub mod Account
pub mod Command
pub mod Shown
pub mod Process

-- ===== src/Ip4.antt =====
-- The hooks for IPv4 packets of flow_table/core/ip4_process.c.
pub mod Process
pub mod Valid
pub mod Input
pub mod Arrive
pub mod All
pub mod Keeps
pub mod Change
pub mod Shown
pub mod Mirror
pub mod Safety
pub mod Sends
pub mod Output
pub mod First
pub mod Reply
pub mod Handshake
pub mod Rounds
pub mod Established
pub mod Reach
pub mod Indexed
pub mod Matched
pub mod Resets
pub mod Crossed
pub mod Shared
pub mod Run
pub mod Workers
pub mod Start
pub mod Hooks
pub mod Frame

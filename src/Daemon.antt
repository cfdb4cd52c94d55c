-- ===== src/Daemon.antt =====
-- The daemon apps/quadrf_lora_phy.cpp: its queues and the transmit switch of its front end.
pub mod Queues
pub mod Phy
pub mod Messages
pub mod Reads
pub mod ModemLaws
pub mod Events
pub mod Configured
pub mod Reception
pub mod Heard
pub mod Delivered
pub mod LoFollow
pub mod LoFollowLaws
pub mod QueueLaws
pub mod Switch
pub mod SwitchLaws

-- ===== src/Util.antt =====
-- Shared utilities of the PHY, include/phy/util.
pub mod RingBuffer
pub mod Queue
pub mod Window
pub mod Refinement

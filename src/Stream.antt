-- ===== src/Stream.antt =====
-- The Meshtastic StreamAPI framing (src/stream/framer.cpp, include/phy/stream/framer.hpp).
pub mod Framer
pub mod Framing
pub mod Soundness

-- ===== src/Mesh.antt =====
-- Meshtastic air packets (src/mesh/packet.cpp, include/phy/mesh/packet.hpp).
pub mod Packet
pub mod Flags
pub mod Codec
pub mod Relay

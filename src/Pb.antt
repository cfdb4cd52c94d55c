-- ===== src/Pb.antt =====
-- The protobuf wire format (src/bridge/pb_wire.cpp, include/phy/bridge/pb_wire.hpp).
pub mod Wire
pub mod Varint
pub mod Fields
pub mod Writers

-- ===== src/Bridge.antt =====
-- The PhoneAPI bridge (src/bridge and include/phy/bridge, without the protobuf wire format).
pub mod Crypto
pub mod Types
pub mod Encode
pub mod Decode
pub mod DataRoundTrip
pub mod PacketRoundTrip
pub mod RadioRoundTrip
pub mod Air
pub mod Session
pub mod AirRoundTrip
pub mod Delivery
pub mod Queue

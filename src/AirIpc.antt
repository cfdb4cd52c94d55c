-- ===== src/AirIpc.antt =====
-- The Air-IPC protocol between the PHY and the mesh stack (include/quadrf/air_ipc.hpp).
pub mod Wire
pub mod Floats
pub mod Messages
pub mod Deframer
pub mod Endian
pub mod Framing
pub mod Appending
pub mod Soundness
pub mod RoundTrip
pub mod Frequency
pub mod Recovery

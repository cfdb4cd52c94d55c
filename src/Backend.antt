-- ===== src/Backend.antt =====
-- The Meshtastic radio backend, integrations/meshtastic/backend/QuadRFRadio.cpp.
pub mod Modem
pub mod Agreement
pub mod Radio
pub mod Transmit
pub mod Receive
pub mod Notify
pub mod Steps
pub mod Waiting
pub mod Cases
pub mod Greeting
pub mod Deliveries
pub mod Metrics

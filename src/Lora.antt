-- ===== src/Lora.antt =====
-- The bit-level LoRa coding chain, src/lora/coding.cpp.
pub mod Header
pub mod Hamming
pub mod Whitening
pub mod Gray
pub mod Blocks
pub mod Symbols
pub mod Interleave
pub mod Frame
pub mod BlockRoundTrip
pub mod Nibbles
pub mod PayloadRoundTrip
pub mod Rounds
pub mod FrameRoundTrip
pub mod Length
pub mod Exit
pub mod Modulator
pub mod Transmitter
pub mod Emission
pub mod Airtime
pub mod Requests
pub mod Presets
pub mod PresetRoundTrip

-- ===== src/Lib.antt =====
-- QuadRF Mesh: a Meshtastic node on a software radio. A PHY process turns samples into LoRa frames
-- and back; clients reach it over the Air-IPC byte stream, and a phone app over the Meshtastic
-- PhoneAPI, whose messages travel in StreamAPI frames. This library models the integer core of both
-- paths, the LoRa coding below them, and the backend that puts a firmware on top of the PHY.
--
-- The parts, and how they interact:
-- * AirIpc (include/quadrf/air_ipc.hpp). Wire: constants, little-endian fields, `encodeFrame`,
--   `quantizeFrequencyHz`. Messages: TxEnqueue, RxIndicate, SetModem and their codecs. Deframer: the
--   class, a state per object, `on_byte` for the body of the loop of `feed`. Framing, Soundness,
--   Recovery, RoundTrip and Frequency hold what is proved of them.
-- * Stream (src/stream/framer.cpp, include/phy/stream/framer.hpp). Framer: `frame` and the deframer of
--   the phone's byte stream, in the same shape.
-- * Mesh (src/mesh/packet.cpp, include/phy/mesh/packet.hpp). Packet: the 16-byte header, the flags
--   byte, `packPacket`, `unpackPacket`, `shouldRelay`, `prepareRelay`; Relay: journeys of a packet.
-- * Pb (src/bridge/pb_wire.cpp, include/phy/bridge/pb_wire.hpp). Wire: varints, field writers,
--   `parseFields`; Fields and Writers relate writers and parser.
-- * Bridge (src/bridge/crypto.cpp, phone_api.cpp, session.cpp and their headers). Crypto: keys, hash,
--   nonce, `aesCtr`. Types, Encode, Decode: the PhoneAPI envelopes, on Pb. Air: between phone packets
--   and the air packets of Mesh. Session: the state machine that `handleToRadio` and `handleAirFrame`
--   drive, with the queue towards the phone. Delivery composes all of them.
-- * Lora (src/lora/coding.cpp, include/phy/lora/coding.hpp, params.hpp). Header, Hamming, Whitening,
--   Gray, Blocks (the interleaver), Frame: `encodeFrame` and `decodeFrame`. Symbols, Interleave,
--   Nibbles, BlockRoundTrip, PayloadRoundTrip, Rounds and FrameRoundTrip relate the two directions,
--   from the bits of one symbol to whole frames. Presets (include/phy/lora/presets.hpp): the modem
--   presets; PresetRoundTrip: their names, and frames at each of them. Modulator and Transmitter
--   (src/lora/modulator.cpp, transmitter.cpp): from payloads to the sample stream of the radio;
--   Emission, Airtime and Requests: that stream, the length of a frame, and sequences of requests.
-- * Radio (src/radio/synth.cpp, include/phy/radio/synth.hpp). Words: the register words of the
--   synthesizers; Access: the transactions with the chips; Rounding, Chip and TwoChips: what is read
--   back, and what stays in the other chip. Follower: the follower of the oscillators, which the
--   daemon polls.
-- * Util (include/phy/util/ring_buffer.hpp). RingBuffer: the ring; Queue: the bounded queue that it
--   promises to be; Window and Refinement relate them.
-- * Backend (integrations/meshtastic/backend/QuadRFRadio.cpp and .h). Modem: the preset that the
--   firmware's configuration asks for and the message for the PHY; Agreement: with the presets of
--   Lora. Radio: the state, and the firmware as a parameter. Transmit, Receive and Notify: the
--   handlers of the worker thread; Steps: their sequences. Waiting, Greeting,
--   Deliveries and Metrics hold what is proved of them.
-- * Daemon (apps/quadrf_lora_phy.cpp). Queues: the queue of sample chunks and the memory of sent
--   frames; Switch: the front end between listening and sending,
--   with the calls of src/radio/rf_frontend.cpp that it makes. Phy: the state of the main loop,
--   the messages of a client, and the change of the modem; Reception: the received frames on their
--   way to the client; LoFollow: the poll of the oscillators. Messages, Reads, ModemLaws, Events,
--   Configured, Heard, Delivered and LoFollowLaws hold what
--   is proved of them, from the backend's bytes to the daemon's modem, and back to the client's.
-- * Base holds shared helpers, Examples the theorems at concrete inputs.
--
-- Conventions. A fixed-width integer is a natural number, its wrap-around written `% 2 ^ w` (u8, u16,
-- u32, u64 in Base.Words); a signed integer and, in the bridge, a float, is its bit pattern. A function
-- that returns bool and fills an output returns an Option. A pointer with a length is a Span, which
-- may be null. An object is a record that each call maps to the next; outputs that a call appends to
-- are passed in and out. Loops recurse on their input or on a count of rounds. `writeVarint` recurses
-- on the value, by well-founded recursion. Fuel stands in four loops: `parse_loop` with the number of
-- bytes, `encode_blocks` with the number of nibbles, `decode_loop` with the number of symbols, and
-- `pull_loop` with the number of samples; a round takes at least one of them each.
--
-- Parameters: the operations of `float` in Air-IPC (AirIpc.Floats), OpenSSL's AES (Bridge.Crypto.Evp,
-- relied on to be its own inverse in counter mode and to keep the length), the time of day, and the
-- firmware that the backend is linked with (Backend.Radio.Firmware, and in Backend.Modem the two
-- functions of `RadioInterface`): its packets, its queue, its notification slot, its clock, and
-- the packets that it sends when the backend greets a new peer. Of the PHY, the floating-point parts: the
-- sample of a chirp (Lora.Modulator), the decimating filter, the receiver and `scaledSymbols`
-- (Daemon.Phy.Platform), and the register calls of the driver (Radio.Access.Driver), relied on to set
-- and to return the registers that they name (Radio.Chip.Works), each chip apart
-- from the other, and those of the jtag tool, which may
-- throw (Daemon.Switch.RfDriver, and Daemon.SwitchLaws.Registers).
--
-- Not modelled: signal processing, the receiver and the soft decoder (floating point), the SoapySDR
-- session, the telemetry and the legacy PTY of the daemon, sockets,
-- threads and the command lines of the applications, and of the backend the control socket's
-- commands and the call sign. Memory exhaustion, the errors' texts, the log and the
-- `reserve` calls have no counterpart.
pub mod Base
pub mod AirIpc
pub mod Stream
pub mod Mesh
pub mod Pb
pub mod Bridge
pub mod Lora
pub mod Util
pub mod Radio
pub mod Backend
pub mod Daemon
pub mod Examples

-- ===== src/AirIpc/Wire.antt =====
-- include/quadrf/air_ipc.hpp: the constants, `quantizeFrequencyHz` and the namespace `detail`.
-- An output vector is the result; `none` stands for a return of false, which leaves it alone.
use quadrf_mesh.Base.{
  ℕ, zero, suc, ◌+◌, ◌-◌, ◌*◌, ◌/◌, ◌^◌, bit_or, Bool, ◌&&◌, ◌||◌, Option, none, some, List, [],
  ◌∷◌, ltb, leb, ◌==◌, if◌then◌else◌, length, get_or,
}
use quadrf_mesh.Base.Words.{u8, u16, u32, u64, shl, shr, low_bits, Span, null, bytes}

abbrev pub magic0 : ℕ
magic0 = 0x51

abbrev pub magic1 : ℕ
magic1 = 0x46

abbrev pub protocol_version : ℕ
protocol_version = 1

abbrev pub frame_header_len : ℕ
frame_header_len = 6

abbrev pub min_air_len : ℕ
min_air_len = 16

abbrev pub max_air_len : ℕ
max_air_len = 255

abbrev pub tx_meta_len : ℕ
tx_meta_len = 8

abbrev pub rx_meta_len : ℕ
rx_meta_len = 24

abbrev pub max_body_len : ℕ
max_body_len = rx_meta_len + max_air_len

-- `MsgType` is an `enum class : uint8_t`: its value.
abbrev pub tx_enqueue : ℕ
tx_enqueue = 1

abbrev pub rx_indicate : ℕ
rx_indicate = 2

abbrev pub set_modem : ℕ
set_modem = 3

abbrev pub message_type_known : ℕ → Bool
message_type_known type = type == tx_enqueue || type == rx_indicate || type == set_modem

abbrev pub frequency_quantum_hz : ℕ
frequency_quantum_hz = 1000

abbrev pub u64_max : ℕ
u64_max = 2 ^ 64 - 1

unfoldable pub quantize_frequency_hz : ℕ → ℕ
quantize_frequency_hz frequency_hz =
    if ltb (u64_max - frequency_quantum_hz / 2) frequency_hz
    then u64_max / frequency_quantum_hz * frequency_quantum_hz
    else u64 (
        u64 (frequency_hz + frequency_quantum_hz / 2) / frequency_quantum_hz * frequency_quantum_hz)

unfoldable pub write_le16 : ℕ → List ℕ
write_le16 value = u8 value ∷ u8 (shr value 8) ∷ []

-- A read past the end of the list would give 0; every caller has checked the length.
unfoldable pub read_le16 : List ℕ → ℕ
read_le16 input = u16 (bit_or (get_or input 0 0) (shl (get_or input 1 0) 8))

-- `for (offset...) output[offset] = uint8_t(value >> (8 * offset))`, `left` rounds to go.
unfoldable pub write_le_loop : ℕ → ℕ → ℕ → List ℕ
write_le_loop zero offset value = []
write_le_loop (suc left) offset value =
    u8 (shr value (8 * offset)) ∷ write_le_loop left (offset + 1) value

-- `for (offset...) value |= uintN_t(input[offset]) << (8 * offset)`.
unfoldable pub read_le_loop : ℕ → ℕ → List ℕ → ℕ → ℕ
read_le_loop zero offset input value = value
read_le_loop (suc left) offset input value =
    read_le_loop left (offset + 1) input (bit_or value (shl (get_or input offset 0) (8 * offset)))

unfoldable pub write_le32 : ℕ → List ℕ
unfolding write_le_loop
write_le32 value = write_le_loop 4 0 value

unfoldable pub read_le32 : List ℕ → ℕ
unfolding read_le_loop
read_le32 input = u32 (read_le_loop 4 0 input 0)

unfoldable pub write_le64 : ℕ → List ℕ
unfolding write_le_loop
write_le64 value = write_le_loop 8 0 value

unfoldable pub read_le64 : List ℕ → ℕ
unfolding read_le_loop
read_le64 input = u64 (read_le_loop 8 0 input 0)

unfoldable pub air_length_is_valid : ℕ → Bool
air_length_is_valid length = leb min_air_len length && leb length max_air_len

unfoldable pub encode_frame : ℕ → Span → Option (List ℕ)
encode_frame type (null n) = none
encode_frame type (bytes body) =
    let n = length body in
    if n == 0 || ltb max_body_len n
    then none
    else some (
        magic0
        ∷ magic1
        ∷ protocol_version
        ∷ u8 type
        ∷ u8 (low_bits (shr n 8) 8)
        ∷ u8 (low_bits n 8)
        ∷ body)

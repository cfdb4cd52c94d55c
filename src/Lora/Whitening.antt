-- ===== src/Lora/Whitening.antt =====
-- src/lora/coding.cpp: the whitening sequence and the payload CRC.
use quadrf_mesh.Base.{
  ℕ, zero, suc, ◌+◌, ◌-◌, ◌%◌, ◌<◌, ◌≡◌, refl, Bool, true, List, [], ◌∷◌, bit_and, bit_or, bit_xor,
  ltb, ◌==◌, ==_iff, if◌then◌else◌, length, get_or, take,
}
use quadrf_mesh.Base.Words.{u8, u16, shl, shr, low_bits}
use quadrf_mesh.Base.Table.{all_below, all_below_sound}
use quadrf_mesh.Lora.Header.{xor_from}

-- `kWhiteningSeq`.
abbrev pub whitening_seq : List ℕ
whitening_seq =
    0xff ∷ 0xfe ∷ 0xfc ∷ 0xf8 ∷ 0xf0 ∷ 0xe1 ∷ 0xc2 ∷ 0x85 ∷ 0x0b ∷ 0x17 ∷ 0x2f ∷ 0x5e ∷ 0xbc ∷ 0x78
    ∷ 0xf1 ∷ 0xe3 ∷ 0xc6 ∷ 0x8d ∷ 0x1a ∷ 0x34 ∷ 0x68 ∷ 0xd0 ∷ 0xa0 ∷ 0x40 ∷ 0x80 ∷ 0x01 ∷ 0x02
    ∷ 0x04 ∷ 0x08 ∷ 0x11 ∷ 0x23 ∷ 0x47 ∷ 0x8e ∷ 0x1c ∷ 0x38 ∷ 0x71 ∷ 0xe2 ∷ 0xc4 ∷ 0x89 ∷ 0x12
    ∷ 0x25 ∷ 0x4b ∷ 0x97 ∷ 0x2e ∷ 0x5c ∷ 0xb8 ∷ 0x70 ∷ 0xe0 ∷ 0xc0 ∷ 0x81 ∷ 0x03 ∷ 0x06 ∷ 0x0c
    ∷ 0x19 ∷ 0x32 ∷ 0x64 ∷ 0xc9 ∷ 0x92 ∷ 0x24 ∷ 0x49 ∷ 0x93 ∷ 0x26 ∷ 0x4d ∷ 0x9b ∷ 0x37 ∷ 0x6e
    ∷ 0xdc ∷ 0xb9 ∷ 0x72 ∷ 0xe4 ∷ 0xc8 ∷ 0x90 ∷ 0x20 ∷ 0x41 ∷ 0x82 ∷ 0x05 ∷ 0x0a ∷ 0x15 ∷ 0x2b
    ∷ 0x56 ∷ 0xad ∷ 0x5b ∷ 0xb6 ∷ 0x6d ∷ 0xda ∷ 0xb5 ∷ 0x6b ∷ 0xd6 ∷ 0xac ∷ 0x59 ∷ 0xb2 ∷ 0x65
    ∷ 0xcb ∷ 0x96 ∷ 0x2c ∷ 0x58 ∷ 0xb0 ∷ 0x61 ∷ 0xc3 ∷ 0x87 ∷ 0x0f ∷ 0x1f ∷ 0x3e ∷ 0x7d ∷ 0xfb
    ∷ 0xf6 ∷ 0xed ∷ 0xdb ∷ 0xb7 ∷ 0x6f ∷ 0xde ∷ 0xbd ∷ 0x7a ∷ 0xf5 ∷ 0xeb ∷ 0xd7 ∷ 0xae ∷ 0x5d
    ∷ 0xba ∷ 0x74 ∷ 0xe8 ∷ 0xd1 ∷ 0xa2 ∷ 0x44 ∷ 0x88 ∷ 0x10 ∷ 0x21 ∷ 0x43 ∷ 0x86 ∷ 0x0d ∷ 0x1b
    ∷ 0x36 ∷ 0x6c ∷ 0xd8 ∷ 0xb1 ∷ 0x63 ∷ 0xc7 ∷ 0x8f ∷ 0x1e ∷ 0x3c ∷ 0x79 ∷ 0xf3 ∷ 0xe7 ∷ 0xce
    ∷ 0x9c ∷ 0x39 ∷ 0x73 ∷ 0xe6 ∷ 0xcc ∷ 0x98 ∷ 0x31 ∷ 0x62 ∷ 0xc5 ∷ 0x8b ∷ 0x16 ∷ 0x2d ∷ 0x5a
    ∷ 0xb4 ∷ 0x69 ∷ 0xd2 ∷ 0xa4 ∷ 0x48 ∷ 0x91 ∷ 0x22 ∷ 0x45 ∷ 0x8a ∷ 0x14 ∷ 0x29 ∷ 0x52 ∷ 0xa5
    ∷ 0x4a ∷ 0x95 ∷ 0x2a ∷ 0x54 ∷ 0xa9 ∷ 0x53 ∷ 0xa7 ∷ 0x4e ∷ 0x9d ∷ 0x3b ∷ 0x77 ∷ 0xee ∷ 0xdd
    ∷ 0xbb ∷ 0x76 ∷ 0xec ∷ 0xd9 ∷ 0xb3 ∷ 0x67 ∷ 0xcf ∷ 0x9e ∷ 0x3d ∷ 0x7b ∷ 0xf7 ∷ 0xef ∷ 0xdf
    ∷ 0xbf ∷ 0x7e ∷ 0xfd ∷ 0xfa ∷ 0xf4 ∷ 0xe9 ∷ 0xd3 ∷ 0xa6 ∷ 0x4c ∷ 0x99 ∷ 0x33 ∷ 0x66 ∷ 0xcd
    ∷ 0x9a ∷ 0x35 ∷ 0x6a ∷ 0xd4 ∷ 0xa8 ∷ 0x51 ∷ 0xa3 ∷ 0x46 ∷ 0x8c ∷ 0x18 ∷ 0x30 ∷ 0x60 ∷ 0xc1
    ∷ 0x83 ∷ 0x07 ∷ 0x0e ∷ 0x1d ∷ 0x3a ∷ 0x75 ∷ 0xea ∷ 0xd5 ∷ 0xaa ∷ 0x55 ∷ 0xab ∷ 0x57 ∷ 0xaf
    ∷ 0x5f ∷ 0xbe ∷ 0x7c ∷ 0xf9 ∷ 0xf2 ∷ 0xe5 ∷ 0xca ∷ 0x94 ∷ 0x28 ∷ 0x50 ∷ 0xa1 ∷ 0x42 ∷ 0x84
    ∷ 0x09 ∷ 0x13 ∷ 0x27 ∷ 0x4f ∷ 0x9f ∷ 0x3f ∷ 0x7f ∷ []

-- One step of the register that the source's comment names, over its bits 7, 5, 4 and 3.
abbrev pub lfsr_step : ℕ → ℕ
lfsr_step x = bit_or (u8 (shl x 1)) (
    xor_from (low_bits (shr x 7) 1)
      (low_bits (shr x 5) 1 ∷ low_bits (shr x 4) 1 ∷ low_bits (shr x 3) 1 ∷ []))

-- Every entry of the whitening table is the register's step of the entry before it, and the first
-- one that of the last.
pub whitening_seq_lem :
    (i : ℕ)
    → i < 255
    → get_or whitening_seq ((i + 1) % length whitening_seq) 0 ≡ lfsr_step (get_or whitening_seq i 0)
whitening_seq_lem i h = (==_iff _ _).0 (all_below_sound 255 step i table h)
  where
    step : ℕ → Bool
    step i =
        get_or whitening_seq ((i + 1) % length whitening_seq) 0
        == lfsr_step (get_or whitening_seq i 0)

    table : all_below 255 step ≡ true
    table = unfold all_below in refl

-- The loop of `crc16`, with the number of rounds left.
unfoldable pub crc16_loop : ℕ → ℕ → ℕ → ℕ
crc16_loop zero crc byte = crc
crc16_loop (suc left) crc byte =
    let next =
      if bit_xor (shr (bit_and crc 0x8000) 8) (bit_and byte 0x80) == 0
      then u16 (shl crc 1)
      else u16 (bit_xor (shl crc 1) 0x1021) in
    crc16_loop left next (u8 (shl byte 1))

unfoldable pub crc16 : ℕ → ℕ → ℕ
crc16 crc byte = crc16_loop 8 crc byte

abbrev pub crc16_all : ℕ → List ℕ → ℕ
crc16_all crc [] = crc
crc16_all crc (b ∷ bs) = crc16_all (crc16 crc b) bs

unfoldable pub payload_crc : List ℕ → ℕ
payload_crc payload =
    let len = length payload in
    if ltb len 2
    then crc16_all 0 payload
    else u16 (
        xor_from (crc16_all 0 (take (len - 2) payload))
          (get_or payload (len - 1) 0 ∷ shl (get_or payload (len - 2) 0) 8 ∷ []))

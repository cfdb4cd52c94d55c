-- ===== src/Lora/Frame.antt =====
-- src/lora/coding.cpp with include/phy/lora/params.hpp: frames as chirp values. Of `LoraParams`
-- the fields that the integer coding reads; the others are floating-point settings of the
-- receiver, and so is `tail_margin` of the result.
use quadrf_mesh.Base.{
  ℕ, zero, suc, ◌+◌, ◌-◌, ◌*◌, ◌/◌, ◌%◌, Bool, true, false, not, ◌&&◌, ◌||◌, List, [], ◌∷◌, ◌++◌,
  map, bit_and, bit_or, bit_xor, ltb, leb, ◌==◌, if◌then◌else◌, length, get_or, take, drop,
}
use quadrf_mesh.Base.Words.{u8, u16, u32, shl, shr, low_bits}
use quadrf_mesh.Lora.Header.{HeaderInfo, build_header, parse_header, or_from}
use quadrf_mesh.Lora.Hamming.{hamming_encode, hamming_decode}
use quadrf_mesh.Lora.Whitening.{whitening_seq, payload_crc}
use quadrf_mesh.Lora.Gray.{gray_decode, gray_encode, reduced_value}
use quadrf_mesh.Lora.Blocks.{upto, interleave_block, deinterleave_block}

pub record LoraParams : Type 0 where
  pub spreading_factor : ℕ
  pub cr : ℕ
  pub has_crc : Bool
  pub ldro : Bool

unfoldable pub chip_count : LoraParams → ℕ
chip_count p = shl 1 p.spreading_factor

unfoldable pub nibble_count : Bool → ℕ → ℕ
nibble_count has_crc payload_len = 5 + 2 * payload_len + (if has_crc then 4 else 0)

unfoldable pub frame_symbol_count : LoraParams → ℕ → ℕ
frame_symbol_count p payload_len =
    let nibbles = nibble_count p.has_crc payload_len in
    let first_block = p.spreading_factor - 2 in
    let sf_app = if p.ldro then p.spreading_factor - 2 else p.spreading_factor in
    let rest = nibbles - first_block in
    if leb nibbles first_block then 8 else 8 + (rest + sf_app - 1) / sf_app * (p.cr + 4)

-- The whitened payload from byte `i` on, low nibble first.
unfoldable pub whitened : ℕ → List ℕ → List ℕ
whitened i [] = []
whitened i (b ∷ payload) =
    let w = u8 (bit_xor b (get_or whitening_seq (i % 255) 0)) in
    low_bits w 4 ∷ shr w 4 ∷ whitened (i + 1) payload

unfoldable pub crc_nibbles : ℕ → List ℕ
crc_nibbles crc =
    bit_and crc 0x000f
    ∷ shr (bit_and crc 0x00f0) 4
    ∷ shr (bit_and crc 0x0f00) 8
    ∷ shr (bit_and crc 0xf000) 12
    ∷ []

unfoldable pub frame_nibbles : LoraParams → List ℕ → List ℕ
frame_nibbles p payload =
    build_header (u8 (length payload)) p.cr p.has_crc
    ++ (whitened 0 payload ++ (if p.has_crc then crc_nibbles (payload_crc payload) else []))

-- The code rate and the width of a block: the header's block is reduced and at rate 4/8.
unfoldable pub block_cr : Bool → ℕ → ℕ
block_cr first cr = if first then 4 else cr

unfoldable pub block_width : Bool → LoraParams → ℕ
block_width first p = if first || p.ldro then p.spreading_factor - 2 else p.spreading_factor

unfoldable pub encode_block : LoraParams → Bool → List ℕ → List ℕ
encode_block p first nibbles =
    let sf = p.spreading_factor in
    let cr_app = block_cr first p.cr in
    let cw_len = u8 (cr_app + 4) in
    let sf_app = block_width first p in
    let cw = map (λ i. hamming_encode (get_or nibbles i 0) cr_app) (upto 0 sf_app) in
    map (λ s. u16 ((gray_decode s sf + 1) % chip_count p))
      (interleave_block cw sf sf_app cw_len (first || p.ldro))

-- The loop of `encodeFrame` on the nibbles from `idx` on, with their number as fuel.
unfoldable pub encode_blocks : LoraParams → ℕ → Bool → List ℕ → List ℕ
encode_blocks p zero first nibbles = []
encode_blocks p (suc fuel) first [] = []
encode_blocks p (suc fuel) first (n ∷ nibbles) =
    let rest = encode_blocks p fuel false (drop (block_width first p) (n ∷ nibbles)) in
    encode_block p first (n ∷ nibbles) ++ rest

unfoldable pub encode_frame : LoraParams → List ℕ → List ℕ
encode_frame p payload =
    let nibbles = frame_nibbles p payload in encode_blocks p (length nibbles) true nibbles

pub record DecodeResult : Type 0 where
  pub header : HeaderInfo
  pub crc_ok : Bool
  pub crc_expected : ℕ
  pub crc_received : ℕ
  pub payload : List ℕ
  pub symbols_consumed : ℕ

abbrev pub blank_header : HeaderInfo
blank_header = record { valid = false; payload_len = 0; cr = 0; has_crc = false }

abbrev pub blank_result : DecodeResult
blank_result = record {
  header = blank_header;
  crc_ok = false;
  crc_expected = 0;
  crc_received = 0;
  payload = [];
  symbols_consumed = 0;
}

unfoldable pub payload_byte : List ℕ → ℕ → ℕ
payload_byte nibbles i =
    let w = u8 (
      bit_or (low_bits (get_or nibbles (5 + 2 * i) 0) 4)
        (shl (get_or nibbles (5 + 2 * i + 1) 0) 4)) in
    u8 (bit_xor w (get_or whitening_seq (i % 255) 0))

unfoldable pub finish_payload : List ℕ → DecodeResult → DecodeResult
finish_payload nibbles result =
    let len = result.header.payload_len in
    let payload = map (payload_byte nibbles) (upto 0 len) in
    let c = 5 + 2 * len in
    let received = u16 (
      or_from (low_bits (get_or nibbles c 0) 4) (
        shl (get_or nibbles (c + 1) 0) 4
        ∷ shl (get_or nibbles (c + 2) 0) 8
        ∷ shl (get_or nibbles (c + 3) 0) 12
        ∷ [])) in
    let expected = payload_crc payload in
    if result.header.has_crc
    then record result {
      payload = payload;
      crc_received = received;
      crc_expected = expected;
      crc_ok = received == expected;
    }
    else record result { payload = payload; crc_ok = true }

unfoldable pub symbol_value : Bool → ℕ → ℕ → ℕ
symbol_value reduced n_chips raw =
    if reduced then reduced_value raw n_chips else u32 (raw + n_chips - 1) % n_chips

-- The nibbles of the block that starts at `raw`.
unfoldable pub decode_block : LoraParams → Bool → ℕ → List ℕ → List ℕ
decode_block p first cr raw =
    let n_chips = chip_count p in
    let reduced = first || p.ldro in
    let cr_app = block_cr first cr in
    let cw_len = u8 (cr_app + 4) in
    let sf_app = block_width first p in
    let block_syms =
      map (λ r. u16 (gray_encode (symbol_value reduced n_chips r))) (take cw_len raw) in
    map (λ c. hamming_decode c cr_app) (deinterleave_block block_syms sf_app cw_len)

-- The locals of `decodeFrame`: the symbols from `sym_idx` on stand in `raw`.
pub record Decoding : Type 0 where
  pub info : HeaderInfo
  pub nibbles : List ℕ
  pub nibbles_needed : ℕ
  pub sym_idx : ℕ
  pub first_block : Bool
  pub raw : List ℕ

-- The loop's condition, and the test that a whole block is left.
unfoldable pub wants_block : LoraParams → Decoding → Bool
wants_block p s =
    let cw_len = u8 (block_cr s.first_block s.info.cr + 4) in
    ltb (length s.nibbles) s.nibbles_needed && not (length s.raw == 0) && leb cw_len (length s.raw)

-- One round; the early return at an invalid header is in `decode_loop`.
unfoldable pub take_block : LoraParams → Decoding → Decoding
take_block p s =
    let cw_len = u8 (block_cr s.first_block s.info.cr + 4) in
    let nibbles = s.nibbles ++ decode_block p s.first_block s.info.cr s.raw in
    let next = record s {
      nibbles = nibbles;
      sym_idx = s.sym_idx + cw_len;
      raw = drop cw_len s.raw;
    } in
    let info = parse_header nibbles in
    if s.first_block
    then record next {
      info = info;
      nibbles_needed = nibble_count info.has_crc info.payload_len;
      first_block = false;
    }
    else next

-- The loop, with the number of symbols as fuel.
unfoldable pub decode_loop : LoraParams → ℕ → Decoding → Decoding
decode_loop p zero s = s
decode_loop p (suc fuel) s =
    let next = take_block p s in
    let rest = decode_loop p fuel next in
    if wants_block p s then (if s.first_block && not next.info.valid then next else rest) else s

abbrev pub start : LoraParams → List ℕ → Decoding
start p raw = record {
  info = blank_header;
  nibbles = [];
  nibbles_needed = p.spreading_factor - 2;
  sym_idx = 0;
  first_block = true;
  raw = raw;
}

unfoldable pub decode_frame : LoraParams → List ℕ → DecodeResult
decode_frame p raw =
    let s = decode_loop p (length raw) (start p raw) in
    let result = record blank_result { header = s.info; symbols_consumed = s.sym_idx } in
    if s.info.valid && leb s.nibbles_needed (length s.nibbles)
    then finish_payload s.nibbles result
    else result

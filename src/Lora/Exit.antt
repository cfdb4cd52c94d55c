-- ===== src/Lora/Exit.antt =====
-- src/lora/coding.cpp: how the loop of `decodeFrame` ends.
use quadrf_mesh.Base.{
  ℕ, zero, suc, ◌+◌, ◌≤◌, ◌<◌, ◌≡◌, refl, arith, ◌⊎◌, inl, inr, true, false, List, ◌++◌, length,
  length-drop, Bool-cases,
}
use quadrf_mesh.Base.Words.{u8}
use quadrf_mesh.Lora.Header.{parse_header}
use quadrf_mesh.Lora.Frame.{
  decode_block, LoraParams, Decoding, wants_block, take_block, decode_loop, block_cr, decode_frame,
  start, finish_payload, DecodeResult, payload_byte, blank_result,
}
use quadrf_mesh.Lora.Blocks.{upto, length-map, length-upto}
use quadrf_mesh.Lora.Whitening.{payload_crc}

-- The loop's own reasons to stop.
abbrev pub Stopped : LoraParams → Decoding → Type 0
Stopped p s = (wants_block p s ≡ false) ⊎ (s.info.valid ≡ false)

empty_lem : (p : LoraParams) (s : Decoding) → length s.raw ≤ 0 → wants_block p s ≡ false
unfolding wants_block
empty_lem p s h = ground arith

-- A state of the loop: before the first block the rate is not read.
abbrev IsSound : Decoding → Type 0
IsSound s = (s.first_block ≡ true) ⊎ (s.info.cr < 8)

width_pos : (s : Decoding) → IsSound s → 0 < u8 (block_cr s.first_block s.info.cr + 4)
unfolding block_cr
width_pos s (inl first) = ground arith
width_pos s (inr low) = ground arith

parse_header-cr : (n : List ℕ) → (parse_header n).cr < 8
unfolding parse_header
parse_header-cr n = omega arith

take_block-IsSound : (p : LoraParams) (s : Decoding) → IsSound s → IsSound (take_block p s)
unfolding take_block
take_block-IsSound p s sound =
    ground (arith, parse_header-cr (s.nibbles ++ decode_block p s.first_block s.info.cr s.raw))

-- A block that is taken makes the rest shorter by its symbols, which the position counts.
take_block-raw :
    (p : LoraParams) (s : Decoding)
    → IsSound s
    → wants_block p s ≡ true
    → (length (take_block p s).raw < length s.raw)
      × ((take_block p s).sym_idx + length (take_block p s).raw ≡ s.sym_idx + length s.raw)
unfolding take_block wants_block
take_block-raw p s sound more =
    ground (arith, width_pos s sound, length-drop (u8 (block_cr s.first_block s.info.cr + 4)) s.raw)

-- The loop of `decodeFrame` ends by its own condition, with a header that is not valid or with no
-- further block wanted, when it has as much fuel as there are symbols left: fuel never ends it.
pub decode_loop_stops :
    (p : LoraParams) (fuel : ℕ) (s : Decoding)
    → IsSound s
    → length s.raw ≤ fuel
    → Stopped p (decode_loop p fuel s)
unfolding decode_loop
decode_loop_stops p zero s sound h = inl (empty_lem p s h)
decode_loop_stops p (suc fuel) s sound h = elim (Bool-cases (wants_block p s)) [
  | inl more ↦ ground (
    arith,
    take_block-raw p s sound more,
    decode_loop_stops p fuel (take_block p s) (take_block-IsSound p s sound)
        (omega (arith, take_block-raw p s sound more)),
  )
  | inr less ↦ ground arith
]

decode_loop_bounds :
    (p : LoraParams) (fuel : ℕ) (s : Decoding)
    → IsSound s
    → (decode_loop p fuel s).sym_idx ≤ s.sym_idx + length s.raw
unfolding decode_loop
decode_loop_bounds p zero s sound = omega arith
decode_loop_bounds p (suc fuel) s sound = elim (Bool-cases (wants_block p s)) [
  | inl more ↦ ground (
    arith,
    take_block-raw p s sound more,
    decode_loop_bounds p fuel (take_block p s) (take_block-IsSound p s sound),
  )
  | inr less ↦ ground arith
]

finish_payload_lem :
    (nibbles : List ℕ) (r : DecodeResult)
    → ((finish_payload nibbles r).header ≡ r.header)
      × ((finish_payload nibbles r).symbols_consumed ≡ r.symbols_consumed)
      × (length (finish_payload nibbles r).payload ≡ r.header.payload_len)
      × (((finish_payload nibbles r).crc_ok ≡ false)
          ⊎ (r.header.has_crc ≡ false)
          ⊎ ((finish_payload nibbles r).crc_received
              ≡ payload_crc (finish_payload nibbles r).payload))
unfolding finish_payload
finish_payload_lem nibbles r = ground (
  arith,
  length-map (payload_byte nibbles) (upto 0 r.header.payload_len),
  length-upto 0 r.header.payload_len,
)

-- What `decodeFrame` returns on any symbols: it counts no more of them as consumed than there
-- are. The CRC is reported as good only when the header was valid, the payload has the length
-- that the header states, and, if the header announces a CRC, the one received is the payload's.
pub decode_frame_lem :
    (p : LoraParams) (raw : List ℕ)
    → ((decode_frame p raw).symbols_consumed ≤ length raw)
      × (((decode_frame p raw).crc_ok ≡ false)
          ⊎ ((decode_frame p raw).header.valid ≡ true)
            × (length (decode_frame p raw).payload ≡ (decode_frame p raw).header.payload_len)
            × (((decode_frame p raw).header.has_crc ≡ false)
                ⊎ ((decode_frame p raw).crc_received ≡ payload_crc (decode_frame p raw).payload)))
unfolding decode_frame
decode_frame_lem p raw =
    let s = decode_loop p (length raw) (start p raw) in
    let result = record blank_result { header = s.info; symbols_consumed = s.sym_idx } in
    ground (
      arith,
      decode_loop_bounds p (length raw) (start p raw) (inl refl),
      finish_payload_lem s.nibbles result,
    )

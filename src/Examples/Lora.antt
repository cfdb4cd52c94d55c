-- ===== src/Examples/Lora.antt =====
-- Concrete values for the LoRa coding of src/lora/coding.cpp.
use quadrf_mesh.Base.{
  ℕ, ◌+◌, ◌^◌, ◌≡◌, ◌≤◌, refl, arith, ◌⊎◌, inl, true, false, List, [], ◌∷◌, length, get_or, ◌%◌,
  bit_xor, map, ◌+◌,
}
use quadrf_mesh.Lora.Hamming.{hamming_encode, hamming_decode, hamming_decode_corrects}
use quadrf_mesh.Lora.Whitening.{whitening_seq, lfsr_step, whitening_seq_lem, payload_crc}
use quadrf_mesh.Lora.Frame.{
  LoraParams, start, encode_block, decode_block, block_width, encode_frame, decode_frame,
  decode_loop, frame_symbol_count,
}
use quadrf_mesh.Lora.Blocks.{length-map}
use quadrf_mesh.Lora.Symbols.{offset}
use quadrf_mesh.Lora.BlockRoundTrip.{InRange, padded, get_or-map, decode_block_tolerates}
use quadrf_mesh.Lora.PayloadRoundTrip.{arrived}
use quadrf_mesh.Lora.FrameRoundTrip.{decode_frame-encode_frame}
use quadrf_mesh.Lora.Exit.{Stopped, decode_loop_stops, decode_frame_lem}

abbrev params : LoraParams
params = record { spreading_factor = 7; cr = 1; has_crc = true; ldro = false }

hamming_decode_corrects_example : hamming_decode (bit_xor (hamming_encode 11 4) (2 ^ 6)) 4 ≡ 11
hamming_decode_corrects_example =
    hamming_decode_corrects 11 4 6 (omega arith) (omega arith) (omega arith) (omega arith)

abbrev nine : List ℕ
nine = 1 ∷ 5 ∷ 9 ∷ 13 ∷ 17 ∷ 21 ∷ 25 ∷ 29 ∷ 33 ∷ []

decode_loop_stops_example : Stopped params (decode_loop params 9 (start params nine))
decode_loop_stops_example = decode_loop_stops params 9 (start params nine) (inl refl) (omega arith)

decode_frame_lem_example :
    ((decode_frame params nine).symbols_consumed ≤ length nine)
    × (((decode_frame params nine).crc_ok ≡ false)
        ⊎ ((decode_frame params nine).header.valid ≡ true)
          × (length (decode_frame params nine).payload
              ≡ (decode_frame params nine).header.payload_len)
          × (((decode_frame params nine).header.has_crc ≡ false)
              ⊎ ((decode_frame params nine).crc_received
                  ≡ payload_crc (decode_frame params nine).payload)))
decode_frame_lem_example = decode_frame_lem params nine

whitening_seq_lem_example :
    get_or whitening_seq ((8 + 1) % length whitening_seq) 0 ≡ lfsr_step (get_or whitening_seq 8 0)
whitening_seq_lem_example = whitening_seq_lem 8 (omega arith)

params-InRange : InRange params
params-InRange = record {
  sf_low = omega arith;
  sf_high = omega arith;
  cr_low = omega arith;
  cr_high = omega arith;
}

decode_frame-encode_frame_example :
    decode_frame params (encode_frame params (72 ∷ 105 ∷ []))
    ≡ arrived params (72 ∷ 105 ∷ []) (frame_symbol_count params 2)
decode_frame-encode_frame_example =
    decode_frame-encode_frame params params-InRange (72 ∷ 105 ∷ []) (omega arith, (omega arith, tt))
      (omega arith) (omega arith)

-- The header block of some nibbles with every chip value one too high.
abbrev five : List ℕ
five = 1 ∷ 2 ∷ 3 ∷ 4 ∷ 5 ∷ []

abbrev drifted : List ℕ
drifted = map (λ c. offset 7 c 2) (encode_block params true five)

decode_block_tolerates_example :
    decode_block params true 1 drifted ≡ padded (block_width true params) five
decode_block_tolerates_example =
    let chips = encode_block params true five in
    let size = length-map (λ c. offset 7 c 2) chips in
    decode_block_tolerates params params-InRange true five drifted (λ i. 2) refl
      (omega arith, (omega arith, (omega arith, (omega arith, (omega arith, tt))))) size
      (λ i h. omega arith) (λ i h. get_or-map (λ c. offset 7 c 2) chips i (omega (arith, size, h)))

-- "Long-Fast".
abbrev name : List ℕ
name = b'L' ∷ b'o' ∷ b'n' ∷ b'g' ∷ b'-' ∷ b'F' ∷ b'a' ∷ b's' ∷ b't' ∷ []

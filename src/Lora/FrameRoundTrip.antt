-- ===== src/Lora/FrameRoundTrip.antt =====
-- src/lora/coding.cpp: a whole frame, encoded and decoded.
use quadrf_mesh.Base.{
  ℕ, zero, suc, ◌+◌, ◌-◌, ◌≤◌, ◌<◌, ◌≡◌, refl, sym, ap, ◌∙◌, arith, true, false, ◌⊎◌, inl, inr,
  drop-drop, List, [], ◌++◌, length, length-append, length-drop, drop, drop-append, All, ltb, leb,
  not, ◌&&◌,
}
use mathlib.Core.Path.{subst₂, ap₂}
use quadrf_mesh.Base.Words.{u8, IsBytes}
use quadrf_mesh.Lora.Header.{build_header, parse_header, parse_header-build_header}
use quadrf_mesh.Lora.Length.{length-frame_nibbles, length-encode_frame, length-encode_block}
use quadrf_mesh.Lora.Frame.{
  LoraParams, nibble_count, frame_symbol_count, frame_nibbles, block_cr, block_width, encode_block,
  encode_blocks, encode_frame, decode_block, Decoding, wants_block, take_block, decode_loop,
  decode_frame, start,
}
use quadrf_mesh.Lora.BlockRoundTrip.{
  IsNibble, InRange, padded, get_or-padded, decode_block-encode_block,
}
use quadrf_mesh.Lora.Nibbles.{frame_nibbles-IsNibble}
use quadrf_mesh.Lora.PayloadRoundTrip.{made, arrived, finish_payload_lem}
use quadrf_mesh.Lora.Rounds.{
  length-padded, All-drop, padded-drop, decode_loop_stop, decode_loop_step, encode_blocks_step,
  encode_blocks_none, frame_nibbles_head, parse_header_agrees,
}

-- The header's block has its rate whatever the parameters say.
header_rate :
    (p : LoraParams) (raw : List ℕ) → decode_block p true 0 raw ≡ decode_block p true p.cr raw
unfolding decode_block block_cr
header_rate p raw = refl

module _ (p : LoraParams) (range : InRange p) (payload : List ℕ) (small_bytes : IsBytes payload)
    (some : 1 ≤ length payload) (fits : length payload < 256) where
  abbrev len : ℕ
  len = length payload

  abbrev nibs : List ℕ
  nibs = frame_nibbles p payload

  abbrev small : All IsNibble nibs
  small = frame_nibbles-IsNibble p payload range.cr_high

  -- The loop between two blocks, `k` nibbles being decoded.
  abbrev between : List ℕ → ℕ → List ℕ → Decoding
  between nibbles idx raw = record {
    info = made p payload;
    nibbles = nibbles;
    nibbles_needed = nibble_count p.has_crc len;
    sym_idx = idx;
    first_block = false;
    raw = raw;
  }

  parse_header-made : (n : ℕ) → 5 ≤ n → parse_header (padded n nibs) ≡ made p payload
  parse_header-made n five =
      parse_header_agrees _ _
        (λ i h. get_or-padded n i nibs (omega (arith, five, h)) ∙ frame_nibbles_head p payload i h)
      ∙ ap (λ t. parse_header (build_header t p.cr p.has_crc)) (omega (arith, fits))
      ∙ parse_header-build_header len p.cr p.has_crc some fits range.cr_low range.cr_high

  abbrev w : ℕ
  w = block_width false p

  abbrev step : ℕ
  step = u8 (block_cr false p.cr + 4)

  widths : (5 ≤ w) × (5 ≤ block_width true p) × (5 ≤ step) × (step ≤ 8)
  unfolding block_width block_cr
  widths = ground (arith, range.sf_low, range.cr_low, range.cr_high)

  take_block-between :
      (k idx : ℕ) (rest : List ℕ)
      → take_block p (between (padded k nibs) idx (encode_block p false (drop k nibs) ++ rest))
        ≡ between (padded (k + w) nibs) (idx + step) rest
  unfolding take_block
  take_block-between k idx rest =
      rw
        (
          decode_block-encode_block p range false (drop k nibs) rest (All-drop k nibs small),
          padded-drop k w nibs,
        )
        (ap (λ t. between (padded (k + w) nibs) (idx + step) t)
          (ap (λ t. drop t (encode_block p false (drop k nibs) ++ rest))
              (sym (length-encode_block p false (drop k nibs)))
            ∙ drop-append (encode_block p false (drop k nibs)) rest))

  wants_block-between :
      (k idx : ℕ) (rest : List ℕ)
      → wants_block p (between (padded k nibs) idx (encode_block p false (drop k nibs) ++ rest))
        ≡ ltb k (nibble_count p.has_crc len)
  unfolding wants_block
  wants_block-between k idx rest =
      let size = length-append (encode_block p false (drop k nibs)) rest in
      let one = length-encode_block p false (drop k nibs) in
      rw (length-padded k nibs) (ground (arith, size, one, widths))

  -- The loop has read the symbols of a frame: it holds every nibble and nothing is left.
  abbrev Ends : Decoding → ℕ → Type 0
  Ends s idx = (k : ℕ) × (length nibs ≤ k) × (s ≡ between (padded k nibs) idx [])

  stops : (k idx : ℕ) → length nibs ≤ k → wants_block p (between (padded k nibs) idx []) ≡ false
  unfolding wants_block
  stops k idx over =
      rw (length-padded k nibs) (ground (arith, over, length-frame_nibbles p payload))

  loop_done :
      (fe k fd idx : ℕ)
      → length nibs ≤ k
      → Ends
          (decode_loop p fd (between (padded k nibs) idx (encode_blocks p fe false (drop k nibs))))
          (idx + length (encode_blocks p fe false (drop k nibs)))
  loop_done fe k fd idx over =
      let none_left =
        encode_blocks_none p fe (drop k nibs) (omega (arith, length-drop k nibs, over)) in
      rw none_left (
        k,
        over,
        decode_loop_stop p fd (between (padded k nibs) idx []) (stops k idx over)
            ∙ ap (λ t. between (padded k nibs) t []) (omega arith),
      )

  unrolled :
      (fe k : ℕ)
      → k < length nibs
      → length nibs ≤ k + suc fe
      → encode_blocks p (suc fe) false (drop k nibs)
        ≡ encode_block p false (drop k nibs) ++ encode_blocks p fe false (drop (k + w) nibs)
  unrolled fe k more enough =
      let size = length-drop k nibs in
      encode_blocks_step p (suc fe) false (drop k nibs) (omega (arith, size, more))
        (omega (arith, size, enough))
      ∙ ap₂ (λ t later. encode_block p false (drop k nibs) ++ encode_blocks p t false later)
          (omega arith) (drop-drop w k nibs)

  loop_step :
      (k fd idx : ℕ) (rest : List ℕ)
      → k < length nibs
      → 0 < fd
      → decode_loop p fd (between (padded k nibs) idx (encode_block p false (drop k nibs) ++ rest))
        ≡ decode_loop p (fd - 1) (between (padded (k + w) nibs) (idx + step) rest)
  loop_step k fd idx rest more fuel =
      let wants =
        wants_block-between k idx rest ∙ ground (arith, more, length-frame_nibbles p payload) in
      decode_loop_step p fd _ fuel wants refl
      ∙ ap (decode_loop p (fd - 1)) (take_block-between k idx rest)

  loop_lem :
      (fe k fd idx : ℕ)
      → length nibs ≤ k + fe
      → length (encode_blocks p fe false (drop k nibs)) ≤ fd
      → Ends
          (decode_loop p fd (between (padded k nibs) idx (encode_blocks p fe false (drop k nibs))))
          (idx + length (encode_blocks p fe false (drop k nibs)))
  loop_lem zero k fd idx enough fuel = loop_done zero k fd idx (omega (arith, enough))
  loop_lem (suc fe) k fd idx enough fuel = elim (side (length nibs) k) [
    | inl over ↦ loop_done (suc fe) k fd idx over
    | inr more ↦
        let rest = encode_blocks p fe false (drop (k + w) nibs) in
        let eq = unrolled fe k more enough in
        let size = ap length eq ∙ length-append (encode_block p false (drop k nibs)) rest in
        let one = length-encode_block p false (drop k nibs) in
        rw eq (
          subst₂ Ends (sym (loop_step k fd idx rest more (omega (arith, fuel, size, one, widths))))
            (omega (arith, length-append (encode_block p false (drop k nibs)) rest, one))
            (loop_lem fe (k + w) (fd - 1) (idx + step) (omega (arith, enough, widths))
              (omega (arith, fuel, size, one, widths))))
  ]
    where
      side : (n k : ℕ) → (n ≤ k) ⊎ (k < n)
      side n k = omega arith

  take_block-start :
      (rest : List ℕ)
      → take_block p (start p (encode_block p true nibs ++ rest))
        ≡ between (padded (block_width true p) nibs) 8 rest
  unfolding take_block block_cr
  take_block-start rest =
      let read : decode_block p true 0 (encode_block p true nibs ++ rest)
          ≡ padded (block_width true p) nibs =
        header_rate p _ ∙ decode_block-encode_block p range true nibs rest small in
      rw (read, parse_header-made (block_width true p) widths.1)
        (ap (between (padded (block_width true p) nibs) 8) (
          ap (λ t. drop t (encode_block p true nibs ++ rest))
            (sym (length-encode_block p true nibs))
          ∙ drop-append (encode_block p true nibs) rest))

  wants_block-start :
      (rest : List ℕ) → wants_block p (start p (encode_block p true nibs ++ rest)) ≡ true
  unfolding wants_block block_cr
  wants_block-start rest = ground (
    arith,
    length-append (encode_block p true nibs) rest,
    length-encode_block p true nibs,
    range.sf_low,
  )

  frame_lem :
      encode_frame p payload
      ≡ encode_block p true nibs
        ++ encode_blocks p (length nibs - 1) false (drop (block_width true p) nibs)
  unfolding encode_frame nibble_count
  frame_lem =
      encode_blocks_step p (length nibs) true nibs (omega (arith, length-frame_nibbles p payload))
        (omega arith)

  loop_start :
      (fd : ℕ) (rest : List ℕ)
      → 0 < fd
      → decode_loop p fd (start p (encode_block p true nibs ++ rest))
        ≡ decode_loop p (fd - 1) (between (padded (block_width true p) nibs) 8 rest)
  loop_start fd rest fuel =
      let first = take_block-start rest in
      decode_loop_step p fd _ fuel (wants_block-start rest)
        (ap (λ (s : Decoding). true && not s.info.valid) first)
      ∙ ap (decode_loop p (fd - 1)) first

  decode_loop-encode_frame :
      Ends
        (decode_loop p (length (encode_frame p payload)) (start p (encode_frame p payload)))
        (frame_symbol_count p len)
  unfolding block_cr
  decode_loop-encode_frame =
      let v = block_width true p in
      let rest = encode_blocks p (length nibs - 1) false (drop v nibs) in
      let raw = encode_frame p payload in
      let one = length-encode_block p true nibs in
      let size : length raw ≡ 8 + length rest =
        omega (arith, ap length frame_lem, length-append (encode_block p true nibs) rest, one) in
      subst₂ Ends
        (sym (
          ap (λ t. decode_loop p (length raw) (start p t)) frame_lem
          ∙ loop_start (length raw) rest (omega (arith, size))))
        (sym size ∙ length-encode_frame p payload (omega (arith, range.sf_low)) range.cr_high)
        (loop_lem (length nibs - 1) v (length raw - 1) 8 (omega (arith, widths))
          (omega (arith, size)))

  -- A frame that `encodeFrame` makes of a payload of 1 to 255 bytes is decoded by `decodeFrame` to
  -- that payload, with a valid header that names its length, the rate and the CRC flag, with the
  -- CRC of the payload as sent and as computed, and with every symbol consumed: at the spreading
  -- factors 7 to 12 and the rates 4/5 to 4/8, with and without CRC and reduced blocks.
  pub decode_frame-encode_frame :
      decode_frame p (encode_frame p payload) ≡ arrived p payload (frame_symbol_count p len)
  unfolding decode_frame
  decode_frame-encode_frame =
      let (k, over, e) = decode_loop-encode_frame in
      let whole : leb (nibble_count p.has_crc len) (length (padded k nibs)) ≡ true =
        ground (arith, over, length-frame_nibbles p payload, length-padded k nibs) in
      rw (e, whole)
        (finish_payload_lem p payload small_bytes (padded k nibs) (frame_symbol_count p len)
          (λ i h. get_or-padded k i nibs (omega (arith, h, over))))

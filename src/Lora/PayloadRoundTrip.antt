-- ===== src/Lora/PayloadRoundTrip.antt =====
-- src/lora/coding.cpp: the payload and the CRC, written and read as nibbles.
use quadrf_mesh.Base.{
  ℕ, zero, suc, ◌+◌, ◌*◌, ◌%◌, ◌<◌, ◌≡◌, refl, ap, ◌∙◌, arith, Bool, true, false, List, [], ◌∷◌,
  ◌++◌, map, ◌==◌, bit_or, bit_xor, get_or, get_or_ext, length, if◌then◌else◌,
}
use mathlib.Core.Path.{ap₂}
use quadrf_mesh.Base.Words.{u8, u16, shl, low_bits, shr, IsBytes}
use quadrf_mesh.Lora.Header.{HeaderInfo, or_from}
use quadrf_mesh.Lora.Whitening.{whitening_seq, payload_crc}
use quadrf_mesh.Lora.Blocks.{upto, length-map, length-upto}
use quadrf_mesh.Lora.Length.{length-frame_nibbles}
use quadrf_mesh.Lora.Frame.{
  LoraParams, nibble_count, whitened, crc_nibbles, frame_nibbles, DecodeResult, blank_result,
  payload_byte, finish_payload,
}
use quadrf_mesh.Lora.BlockRoundTrip.{get_or-map, get_or-upto}
use quadrf_mesh.Lora.Nibbles.{
  byte_of_nibbles, get_or-whitened, get_or-after, get_or-header, crc_of_nibbles, payload_crc-lt,
}

get_or-IsByte : (xs : List ℕ) (i : ℕ) → IsBytes xs → get_or xs i 0 < 256
get_or-IsByte [] i h = omega arith
get_or-IsByte (x ∷ xs) zero h = h.0
get_or-IsByte (x ∷ xs) (suc i) h = get_or-IsByte xs i h.1

-- The header that the receiver parses.
abbrev pub made : LoraParams → List ℕ → HeaderInfo
made p payload = record {
  valid = true;
  payload_len = length payload;
  cr = p.cr;
  has_crc = p.has_crc;
}

-- What the receiver reports of a frame that arrived.
abbrev pub arrived : LoraParams → List ℕ → ℕ → DecodeResult
arrived p payload consumed = record {
  header = made p payload;
  crc_ok = true;
  crc_expected = if p.has_crc then payload_crc payload else 0;
  crc_received = if p.has_crc then payload_crc payload else 0;
  payload = payload;
  symbols_consumed = consumed;
}

checked :
    (b : Bool) (crc received consumed : ℕ) (h : HeaderInfo) (payload : List ℕ)
    → (b ≡ true → received ≡ crc)
    → (if b
        then record blank_result {
          header = h;
          symbols_consumed = consumed;
          payload = payload;
          crc_received = received;
          crc_expected = crc;
          crc_ok = received == crc;
        }
        else record blank_result {
          header = h;
          symbols_consumed = consumed;
          payload = payload;
          crc_ok = true;
        })
      ≡ record {
        header = h;
        crc_ok = true;
        crc_expected = if b then crc else 0;
        crc_received = if b then crc else 0;
        payload = payload;
        symbols_consumed = consumed;
      }
checked true crc received consumed h payload same =
    let exact : (crc == crc) ≡ true = ground arith in rw (same refl, exact) refl
checked false crc received consumed h payload same = refl

module _ (p : LoraParams) (payload : List ℕ) (small : IsBytes payload) where
  abbrev len : ℕ
  len = length payload

  abbrev nibs : List ℕ
  nibs = frame_nibbles p payload

  abbrev tail : List ℕ
  tail = if p.has_crc then crc_nibbles (payload_crc payload) else []

  -- A nibble of the stream behind the header.
  get_or-nibs : (m : ℕ) → get_or nibs (5 + m) 0 ≡ get_or (whitened 0 payload ++ tail) m 0
  unfolding frame_nibbles
  get_or-nibs m = get_or-header (u8 len) p.cr p.has_crc (whitened 0 payload ++ tail) (5 + m) m refl

  payload_byte_lem :
      (nibbles : List ℕ) (i : ℕ)
      → i < len
      → ((k : ℕ) → k < length nibs → get_or nibbles k 0 ≡ get_or nibs k 0)
      → payload_byte nibbles i ≡ get_or payload i 0
  unfolding payload_byte nibble_count
  payload_byte_lem nibbles i h same =
      let key = get_or whitening_seq (i % 255) 0 in
      let word = λ (t : ℕ). u8 (bit_xor (get_or payload i 0) (get_or whitening_seq (t % 255) 0)) in
      let (low, high) = get_or-whitened 0 payload tail i h in
      let size = length-frame_nibbles p payload in
      ap₂ (λ a b. u8 (bit_xor (u8 (bit_or (low_bits a 4) (shl b 4))) key))
        (same (5 + 2 * i) (omega (arith, size, h))
          ∙ get_or-nibs (2 * i)
          ∙ low
          ∙ ap (λ t. low_bits (word t) 4) (zero_plus i))
        (same (5 + 2 * i + 1) (omega (arith, size, h))
          ∙ ap (λ t. get_or nibs t 0) (five_more i)
          ∙ get_or-nibs (2 * i + 1)
          ∙ high
          ∙ ap (λ t. shr (word t) 4) (zero_plus i))
      ∙ byte_of_nibbles i (get_or payload i 0) (get_or-IsByte payload i small)
    where
      five_more : (i : ℕ) → 5 + 2 * i + 1 ≡ 5 + (2 * i + 1)
      five_more i = omega arith

      zero_plus : (i : ℕ) → 0 + i ≡ i
      zero_plus i = omega arith

  bytes_lem :
      (nibbles : List ℕ)
      → ((k : ℕ) → k < length nibs → get_or nibbles k 0 ≡ get_or nibs k 0)
      → map (payload_byte nibbles) (upto 0 len) ≡ payload
  bytes_lem nibbles same =
      let size = length-map (payload_byte nibbles) (upto 0 len) ∙ length-upto 0 len in
      get_or_ext 0 _ _ size (λ i h.
        let lo : i < len = omega (arith, size, h) in
        get_or-map (payload_byte nibbles) (upto 0 len) i (omega (arith, length-upto 0 len, lo))
        ∙ ap (payload_byte nibbles) (get_or-upto len 0 i lo ∙ omega arith)
        ∙ payload_byte_lem nibbles i lo same)

  crc_nibble_lem :
      (nibbles : List ℕ) (n k : ℕ)
      → n ≡ 5 + 2 * len + k
      → k < 4
      → p.has_crc ≡ true
      → ((k : ℕ) → k < length nibs → get_or nibbles k 0 ≡ get_or nibs k 0)
      → get_or nibbles n 0 ≡ get_or (crc_nibbles (payload_crc payload)) k 0
  unfolding nibble_count
  crc_nibble_lem nibbles n k at near on same =
      same n (ground (arith, length-frame_nibbles p payload, at, near, on))
      ∙ ap (λ t. get_or nibs t 0) (omega (arith, at))
      ∙ get_or-nibs (2 * len + k)
      ∙ get_or-after 0 payload tail k
      ∙ ap (λ t. get_or (if t then crc_nibbles (payload_crc payload) else []) k 0) on

  received_lem :
      (nibbles : List ℕ)
      → p.has_crc ≡ true
      → ((k : ℕ) → k < length nibs → get_or nibbles k 0 ≡ get_or nibs k 0)
      → u16 (
          or_from (low_bits (get_or nibbles (5 + 2 * len) 0) 4) (
            shl (get_or nibbles (5 + 2 * len + 1) 0) 4
            ∷ shl (get_or nibbles (5 + 2 * len + 2) 0) 8
            ∷ shl (get_or nibbles (5 + 2 * len + 3) 0) 12
            ∷ []))
        ≡ payload_crc payload
  received_lem nibbles on same =
      rw
        (
          crc_nibble_lem nibbles (5 + 2 * len) 0 (omega arith) (omega arith) on same,
          crc_nibble_lem nibbles (5 + 2 * len + 1) 1 refl (omega arith) on same,
          crc_nibble_lem nibbles (5 + 2 * len + 2) 2 refl (omega arith) on same,
          crc_nibble_lem nibbles (5 + 2 * len + 3) 3 refl (omega arith) on same,
        )
        (crc_of_nibbles (payload_crc payload) (payload_crc-lt payload))

  -- Nibbles that agree with the frame's are finished to the frame's payload and CRC.
  pub finish_payload_lem :
      (nibbles : List ℕ) (consumed : ℕ)
      → ((k : ℕ) → k < length nibs → get_or nibbles k 0 ≡ get_or nibs k 0)
      → finish_payload nibbles
          (record blank_result { header = made p payload; symbols_consumed = consumed })
        ≡ arrived p payload consumed
  unfolding finish_payload
  finish_payload_lem nibbles consumed same = rw (bytes_lem nibbles same) (
      checked p.has_crc (payload_crc payload) _ consumed (made p payload) payload
        (λ on. received_lem nibbles on same))

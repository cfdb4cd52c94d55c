-- ===== src/Lora/Nibbles.antt =====
-- src/lora/coding.cpp: the nibble stream of a frame, written and read.
use quadrf_mesh.Base.{
  ℕ, zero, suc, ◌+◌, ◌*◌, ◌/◌, ◌%◌, ◌^◌, ◌≤◌, ◌<◌, ◌≡◌, refl, ap, ◌∙◌, arith, Bool, true, false,
  List, [], ◌∷◌, ◌++◌, bit_or, bit_xor, ◌==◌, ==_iff, get_or, length, All, All-append, ◌&&◌,
  if◌then◌else◌, ltb,
}
use mathlib.Core.Path.{subst}
use quadrf_mesh.Base.Bits.{bit_xor-lt, xor_cancel, bit_or-high_low}
use quadrf_mesh.Base.Table.{all_below, all_below_sound}
use quadrf_mesh.Base.Words.{u8, u16, shl, shr, low_bits}
use quadrf_mesh.Lora.Header.{build_header, or_from}
use quadrf_mesh.Lora.Whitening.{whitening_seq, payload_crc, crc16, crc16_loop}
use quadrf_mesh.Lora.Frame.{LoraParams, whitened, crc_nibbles, frame_nibbles}
use quadrf_mesh.Lora.BlockRoundTrip.{IsNibble}

-- Every entry of the whitening table is a byte.
whitening-lt : (i : ℕ) → get_or whitening_seq (i % 255) 0 < 256
whitening-lt i = ground (arith, all_below_sound 255 entry (i % 255) table (omega arith))
  where
    entry : ℕ → Bool
    entry i = ltb (get_or whitening_seq i 0) 256

    table : all_below 255 entry ≡ true
    table = unfold all_below in refl

-- A byte from its two nibbles, whitened and back.
pub byte_of_nibbles :
    (i b : ℕ)
    → b < 256
    → let key = get_or whitening_seq (i % 255) 0 in
      let w = u8 (bit_xor b key) in
      u8 (bit_xor (u8 (bit_or (low_bits (low_bits w 4) 4) (shl (shr w 4) 4))) key) ≡ b
byte_of_nibbles i b fits =
    let key = get_or whitening_seq (i % 255) 0 in
    let x = bit_xor b key in
    let small : x < 256 = bit_xor-lt 8 b key fits (whitening-lt i) in
    ap (λ t. u8 (bit_xor t key)) (joined x small)
    ∙ omega (arith, xor_cancel b key fits (whitening-lt i))
  where
    joined :
        (x : ℕ) → x < 256 → u8 (bit_or (low_bits (low_bits (u8 x) 4) 4) (shl (shr (u8 x) 4) 4)) ≡ x
    joined x small = (==_iff _ _).0 (all_below_sound 256 _ x table small)
      where
        table :
            all_below 256
              (λ x. u8 (bit_or (low_bits (low_bits (u8 x) 4) 4) (shl (shr (u8 x) 4) 4)) == x)
            ≡ true
        table = unfold all_below in refl

whitened-IsNibble : (i : ℕ) (payload : List ℕ) → All IsNibble (whitened i payload)
unfolding whitened
whitened-IsNibble i [] = tt
whitened-IsNibble i (b ∷ payload) = (omega arith, (omega arith, whitened-IsNibble (i + 1) payload))

skip_two :
    (x y : ℕ) (xs : List ℕ) (n m : ℕ) → n ≡ suc (suc m) → get_or (x ∷ y ∷ xs) n 0 ≡ get_or xs m 0
skip_two x y xs n m e = ap (λ t. get_or (x ∷ y ∷ xs) t 0) e

-- The nibbles of byte `k` stand at `2 * k`.
pub get_or-whitened :
    (i : ℕ) (payload rest : List ℕ) (k : ℕ)
    → k < length payload
    → let w = u8 (bit_xor (get_or payload k 0) (get_or whitening_seq ((i + k) % 255) 0)) in
      (get_or (whitened i payload ++ rest) (2 * k) 0 ≡ low_bits w 4)
      × (get_or (whitened i payload ++ rest) (2 * k + 1) 0 ≡ shr w 4)
unfolding whitened
get_or-whitened i [] rest k h = absurd (omega arith)
get_or-whitened i (b ∷ payload) rest zero h =
    let w = λ (t : ℕ). u8 (bit_xor b (get_or whitening_seq (t % 255) 0)) in
    (ap (λ t. low_bits (w t) 4) (plus_zero i), ap (λ t. shr (w t) 4) (plus_zero i))
  where
    plus_zero : (i : ℕ) → i ≡ i + 0
    plus_zero i = omega arith
get_or-whitened i (b ∷ payload) rest (suc k) h =
    let w = λ (t : ℕ). u8 (bit_xor (get_or payload k 0) (get_or whitening_seq (t % 255) 0)) in
    let (low, high) = get_or-whitened (i + 1) payload rest k (omega arith) in
    (
      skip_two _ _ _ (2 * suc k) (2 * k) (omega arith)
          ∙ low
          ∙ ap (λ t. low_bits (w t) 4) (next i k),
      skip_two _ _ _ (2 * suc k + 1) (2 * k + 1) (omega arith)
          ∙ high
          ∙ ap (λ t. shr (w t) 4) (next i k),
    )
  where
    next : (i k : ℕ) → i + 1 + k ≡ i + suc k
    next i k = omega arith

-- Behind the payload's nibbles.
pub get_or-after :
    (i : ℕ) (payload rest : List ℕ) (k : ℕ)
    → get_or (whitened i payload ++ rest) (2 * length payload + k) 0 ≡ get_or rest k 0
unfolding whitened
get_or-after i [] rest k = ap (λ t. get_or rest t 0) (omega arith)
get_or-after i (b ∷ payload) rest k =
    skip_two _ _ _ (2 * suc (length payload) + k) (2 * length payload + k) (omega arith)
    ∙ get_or-after (i + 1) payload rest k

-- Behind the header's five nibbles.
pub get_or-header :
    (len cr : ℕ) (has_crc : Bool) (rest : List ℕ) (n m : ℕ)
    → n ≡ 5 + m
    → get_or (build_header len cr has_crc ++ rest) n 0 ≡ get_or rest m 0
unfolding build_header
get_or-header len cr has_crc rest n m e =
    ap (λ t. get_or (build_header len cr has_crc ++ rest) t 0) (e ∙ five m)
  where
    five : (m : ℕ) → 5 + m ≡ suc (suc (suc (suc (suc m))))
    five m = omega arith

build_header-IsNibble :
    (len cr : ℕ) (has_crc : Bool) → len < 256 → cr ≤ 4 → All IsNibble (build_header len cr has_crc)
unfolding build_header
build_header-IsNibble len cr has_crc byte four =
    (omega arith, (omega arith, (rate cr has_crc four, (omega arith, (omega arith, tt)))))
  where
    rate : (cr : ℕ) (b : Bool) → cr ≤ 4 → u8 (bit_or (shl cr 1) (if b then 1 else 0)) < 16
    rate cr true four = omega (arith, bit_or-high_low 1 cr 1 (omega arith))
    rate cr false four = omega (arith, bit_or-high_low 1 cr 0 (omega arith))

-- The CRC from its four nibbles, and the nibbles.
crc_lossless : ℕ → Bool
crc_lossless crc =
    let n = crc_nibbles crc in
    ltb (get_or n 0 0) 16
    && ltb (get_or n 1 0) 16
    && ltb (get_or n 2 0) 16
    && ltb (get_or n 3 0) 16
    && (u16 (
          or_from (low_bits (get_or n 0 0) 4)
            (shl (get_or n 1 0) 4 ∷ shl (get_or n 2 0) 8 ∷ shl (get_or n 3 0) 12 ∷ []))
        == crc)

crc_table : all_below 256 (λ high. all_below 256 (λ low. crc_lossless (high * 256 + low))) ≡ true
unfolding all_below crc_lossless crc_nibbles
crc_table = refl

crc_lossless_lem : (crc : ℕ) → crc < 2 ^ 16 → crc_lossless crc ≡ true
crc_lossless_lem crc fits =
    subst (λ t. crc_lossless t ≡ true) (omega arith)
      (all_below_sound 256 _ (crc % 256)
        (all_below_sound 256 (λ high. all_below 256 (λ low. crc_lossless (high * 256 + low)))
          (crc / 256) crc_table (omega arith))
        (omega arith))

crc_nibbles-IsNibble : (crc : ℕ) → crc < 2 ^ 16 → All IsNibble (crc_nibbles crc)
unfolding crc_nibbles crc_lossless
crc_nibbles-IsNibble crc fits = ground (arith, crc_lossless_lem crc fits)

pub crc_of_nibbles :
    (crc : ℕ)
    → crc < 2 ^ 16
    → let n = crc_nibbles crc in
      u16 (
        or_from
          (low_bits (get_or n 0 0) 4)
          (shl (get_or n 1 0) 4 ∷ shl (get_or n 2 0) 8 ∷ shl (get_or n 3 0) 12 ∷ []))
      ≡ crc
unfolding crc_lossless
crc_of_nibbles crc fits = ground (arith, crc_lossless_lem crc fits)

crc16_loop-lt : (left crc byte : ℕ) → crc < 2 ^ 16 → crc16_loop left crc byte < 2 ^ 16
unfolding crc16_loop
crc16_loop-lt zero crc byte fits = fits
crc16_loop-lt (suc left) crc byte fits = crc16_loop-lt left _ _ (ground arith)

pub payload_crc-lt : (payload : List ℕ) → payload_crc payload < 2 ^ 16
unfolding payload_crc crc16
payload_crc-lt [] = omega arith
payload_crc-lt (b ∷ []) = crc16_loop-lt 8 0 b (omega arith)
payload_crc-lt (b ∷ c ∷ payload) = ground arith

pub frame_nibbles-IsNibble :
    (p : LoraParams) (payload : List ℕ) → p.cr ≤ 4 → All IsNibble (frame_nibbles p payload)
unfolding frame_nibbles
frame_nibbles-IsNibble p payload four =
    All-append IsNibble _ _
      (build_header-IsNibble (u8 (length payload)) p.cr p.has_crc (omega arith) four)
      (All-append IsNibble _ _ (whitened-IsNibble 0 payload) (tail p.has_crc))
  where
    tail : (b : Bool) → All IsNibble (if b then crc_nibbles (payload_crc payload) else [])
    tail true = crc_nibbles-IsNibble (payload_crc payload) (payload_crc-lt payload)
    tail false = tt

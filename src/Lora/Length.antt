-- ===== src/Lora/Length.antt =====
-- src/lora/coding.cpp: the number of symbols that `frameSymbolCount` predicts.
use quadrf_mesh.Base.{
  ℕ, zero, suc, ◌+◌, ◌-◌, ◌*◌, ◌/◌, ◌≤◌, ◌<◌, ◌≡◌, refl, ap, ◌∙◌, arith, Bool, true, false, List,
  [], ◌∷◌, ◌⊎◌, inl, inr, leb, if◌then◌else◌, length, drop, length-drop, length-append,
}
use native.Mathlib.Nat.{div-eq_of_lt, add-div_right}
use quadrf_mesh.Base.Words.{u8}
use quadrf_mesh.Lora.Header.{build_header}
use quadrf_mesh.Lora.Frame.{
  LoraParams, encode_blocks, encode_block, block_cr, block_width, encode_frame, frame_nibbles,
  frame_symbol_count, nibble_count, whitened, crc_nibbles,
}
use quadrf_mesh.Lora.Whitening.{payload_crc}
use quadrf_mesh.Lora.Blocks.{length-map, length-interleave_block}

pub length-encode_block :
    (p : LoraParams) (first : Bool) (nibbles : List ℕ)
    → length (encode_block p first nibbles) ≡ u8 (block_cr first p.cr + 4)
unfolding encode_block
length-encode_block p first nibbles = length-map _ _ ∙ length-interleave_block _ _ _ _ _

below : (a w : ℕ) → a < w → a / w ≡ 0
below a w h = div-eq_of_lt h

over : (a b w : ℕ) → a ≡ b → a / w ≡ b / w
over a b w p = ap (λ t. t / w) p

-- `n` items in blocks of `w`, rounded up, one block taken off.
blocks_step : (n w : ℕ) → 0 < w → 0 < n → (n + w - 1) / w ≡ 1 + (n - w + w - 1) / w
blocks_step n w pos some = elim (split n w) [
  | inl less ↦ omega (
    arith,
    over (n + w - 1) (n - 1 + w) w (omega arith),
    add-div_right (n - 1) pos,
    below (n - 1) w (omega arith),
    below (n - w + w - 1) w (omega arith),
  )
  | inr more ↦ omega (
    arith,
    over (n + w - 1) (n - 1 + w) w (omega arith),
    over (n - w + w - 1) (n - 1) w (omega arith),
    add-div_right (n - 1) pos,
  )
]
  where
    split : (n w : ℕ) → (n < w) ⊎ (w ≤ n)
    split n w = omega arith

no_blocks : (n w c : ℕ) → 0 < w → n ≡ 0 → (n + w - 1) / w * c ≡ 0
no_blocks n w c pos none_left =
    omega (arith, ap (λ (t : ℕ). t * c) (below (n + w - 1) w (omega arith)))

length-rest :
    (p : LoraParams) (fuel : ℕ) (nibbles : List ℕ)
    → p.cr ≤ 4
    → 0 < block_width false p
    → length nibbles ≤ fuel
    → length (encode_blocks p fuel false nibbles)
      ≡ (length nibbles + block_width false p - 1) / block_width false p * (p.cr + 4)
unfolding encode_blocks block_cr
length-rest p zero [] four pos enough =
    omega (arith, no_blocks 0 (block_width false p) (p.cr + 4) pos refl)
length-rest p zero (n ∷ nibbles) four pos enough = absurd (omega arith)
length-rest p (suc fuel) [] four pos enough =
    omega (arith, no_blocks 0 (block_width false p) (p.cr + 4) pos refl)
length-rest p (suc fuel) (n ∷ nibbles) four pos enough =
    let w = block_width false p in
    let later = drop w (n ∷ nibbles) in
    omega (
      arith,
      length-append (encode_block p false (n ∷ nibbles)) (encode_blocks p fuel false later),
      length-encode_block p false (n ∷ nibbles),
      length-drop w (n ∷ nibbles),
      length-rest p fuel later four pos (omega (arith, length-drop w (n ∷ nibbles))),
      ap (λ (t : ℕ). t * (p.cr + 4)) (blocks_step (length (n ∷ nibbles)) w pos (omega arith)),
      ap (λ (t : ℕ). (t + w - 1) / w * (p.cr + 4)) (length-drop w (n ∷ nibbles)),
    )

length-whitened : (i : ℕ) (payload : List ℕ) → length (whitened i payload) ≡ 2 * length payload
unfolding whitened
length-whitened i [] = refl
length-whitened i (b ∷ payload) = omega (arith, length-whitened (i + 1) payload)

pub length-frame_nibbles :
    (p : LoraParams) (payload : List ℕ)
    → length (frame_nibbles p payload) ≡ nibble_count p.has_crc (length payload)
unfolding frame_nibbles nibble_count crc_nibbles build_header
length-frame_nibbles p payload = ground (
  arith,
  length-whitened 0 payload,
  length-append (whitened 0 payload) (if p.has_crc then crc_nibbles (payload_crc payload) else []),
)

width_pos : (p : LoraParams) → 3 ≤ p.spreading_factor → 0 < block_width false p
unfolding block_width
width_pos p sf = ground arith

-- The whole loop on some nibbles: the header's block, then the others.
length-encode_blocks :
    (p : LoraParams) (fuel : ℕ) (nibbles : List ℕ)
    → 3 ≤ p.spreading_factor
    → p.cr ≤ 4
    → 0 < length nibbles
    → length nibbles ≤ fuel
    → length (encode_blocks p fuel true nibbles)
      ≡ 8
        + (length nibbles - (p.spreading_factor - 2) + block_width false p - 1)
          / block_width false p
          * (p.cr + 4)
unfolding encode_blocks block_cr encode_block block_width
length-encode_blocks p fuel [] sf four some enough = absurd (omega arith)
length-encode_blocks p zero (n ∷ nibbles) sf four some enough = absurd (omega arith)
length-encode_blocks p (suc fuel) (n ∷ nibbles) sf four some enough =
    let w = block_width false p in
    let v = p.spreading_factor - 2 in
    let later = drop v (n ∷ nibbles) in
    omega (
      arith,
      length-append (encode_block p true (n ∷ nibbles)) (encode_blocks p fuel false later),
      length-encode_block p true (n ∷ nibbles),
      length-rest p fuel later four (width_pos p sf) (omega (arith, length-drop v (n ∷ nibbles))),
      ap (λ (t : ℕ). (t + w - 1) / w * (p.cr + 4)) (length-drop v (n ∷ nibbles)),
    )

count_pos : (b : Bool) (n : ℕ) → 0 < nibble_count b n
unfolding nibble_count
count_pos b n = omega arith

by_cases :
    (n v w c : ℕ)
    → 0 < w
    → 8 + (n - v + w - 1) / w * c ≡ (if leb n v then 8 else 8 + (n - v + w - 1) / w * c)
by_cases n v w c pos = elim (split n v) [
  | inl small ↦ ground (arith, no_blocks (n - v) w c pos (omega arith))
  | inr big ↦ ground arith
]
  where
    split : (n v : ℕ) → (n ≤ v) ⊎ (v < n)
    split n v = omega arith

-- The chirp values that `encodeFrame` returns are as many as `frameSymbolCount` says, at
-- every spreading factor above 2 and every rate, with and without CRC and reduced blocks.
pub length-encode_frame :
    (p : LoraParams) (payload : List ℕ)
    → 3 ≤ p.spreading_factor
    → p.cr ≤ 4
    → length (encode_frame p payload) ≡ frame_symbol_count p (length payload)
unfolding encode_frame frame_symbol_count block_width
length-encode_frame p payload sf four =
    let n = nibble_count p.has_crc (length payload) in
    let v = p.spreading_factor - 2 in
    let w = block_width false p in
    let total =
      length-encode_blocks p (length (frame_nibbles p payload)) (frame_nibbles p payload) sf four
        (omega (arith, length-frame_nibbles p payload, count_pos p.has_crc (length payload)))
        (omega arith) in
    let counted =
      ap (λ (t : ℕ). 8 + (t - v + w - 1) / w * (p.cr + 4)) (length-frame_nibbles p payload) in
    total ∙ counted ∙ by_cases n v w (p.cr + 4) (width_pos p sf)

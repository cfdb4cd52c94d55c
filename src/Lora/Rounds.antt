-- ===== src/Lora/Rounds.antt =====
-- src/lora/coding.cpp: single rounds of the loops of `encodeFrame` and `decodeFrame`.
use quadrf_mesh.Base.{
  ℕ, zero, suc, ◌+◌, ◌-◌, ◌≤◌, ◌<◌, ◌≡◌, refl, sym, ap, ◌∙◌, arith, Bool, true, false, ◌⊎◌, inl,
  inr, List, [], ◌∷◌, ◌++◌, get_or, get_or_ext, length, length-append, drop, All, not, ◌&&◌,
}
use quadrf_mesh.Base.Words.{u8}
use quadrf_mesh.Lora.Header.{build_header, parse_header, header_checksum}
use quadrf_mesh.Lora.Blocks.{upto, length-map, length-upto}
use quadrf_mesh.Lora.Frame.{
  LoraParams, frame_nibbles, block_width, encode_block, encode_blocks, Decoding, wants_block,
  take_block, decode_loop,
}
use quadrf_mesh.Lora.BlockRoundTrip.{IsNibble, padded, get_or-padded}

suc_plus : (k i : ℕ) → suc (k + i) ≡ suc k + i
suc_plus k i = omega arith

pub All-drop : (n : ℕ) (xs : List ℕ) → All IsNibble xs → All IsNibble (drop n xs)
All-drop zero xs h = h
All-drop (suc n) [] h = h
All-drop (suc n) (x ∷ xs) h = All-drop n xs h.1

pub length-padded : (n : ℕ) (xs : List ℕ) → length (padded n xs) ≡ n
length-padded n xs = length-map (λ i. get_or xs i 0) (upto 0 n) ∙ length-upto 0 n

get_or-drop : (k i : ℕ) (xs : List ℕ) → get_or (drop k xs) i 0 ≡ get_or xs (k + i) 0
get_or-drop zero i xs = ap (λ t. get_or xs t 0) (omega arith)
get_or-drop (suc k) i [] = refl
get_or-drop (suc k) i (x ∷ xs) = get_or-drop k i xs ∙ ap (λ t. get_or (x ∷ xs) t 0) (suc_plus k i)

get_or-behind : (xs ys : List ℕ) (i : ℕ) → get_or (xs ++ ys) (length xs + i) 0 ≡ get_or ys i 0
get_or-behind [] ys i = ap (λ t. get_or ys t 0) (omega arith)
get_or-behind (x ∷ xs) ys i =
    ap (λ t. get_or (x ∷ xs ++ ys) t 0) (sym (suc_plus (length xs) i)) ∙ get_or-behind xs ys i

get_or-before : (xs ys : List ℕ) (i : ℕ) → i < length xs → get_or (xs ++ ys) i 0 ≡ get_or xs i 0
get_or-before [] ys i h = absurd (omega arith)
get_or-before (x ∷ xs) ys zero h = refl
get_or-before (x ∷ xs) ys (suc i) h = get_or-before xs ys i (omega arith)

-- Two blocks' nibbles, put together.
pub padded-drop : (k w : ℕ) (xs : List ℕ) → padded k xs ++ padded w (drop k xs) ≡ padded (k + w) xs
padded-drop k w xs =
    let size : length (padded k xs ++ padded w (drop k xs)) ≡ k + w = omega (
      arith,
      length-append (padded k xs) (padded w (drop k xs)),
      length-padded k xs,
      length-padded w (drop k xs),
    ) in
    get_or_ext 0 _ _ (size ∙ sym (length-padded (k + w) xs)) (λ i h. elim (side i k) [
      | inl less ↦
          get_or-before (padded k xs) (padded w (drop k xs)) i
            (omega (arith, length-padded k xs, less))
          ∙ get_or-padded k i xs less
          ∙ sym (get_or-padded (k + w) i xs (omega (arith, less)))
      | inr more ↦
          ap (λ t. get_or (padded k xs ++ padded w (drop k xs)) t 0)
            (omega (arith, length-padded k xs, more))
          ∙ get_or-behind (padded k xs) (padded w (drop k xs)) (i - k)
          ∙ get_or-padded w (i - k) (drop k xs) (omega (arith, size, h, more))
          ∙ get_or-drop k (i - k) xs
          ∙ ap (λ t. get_or xs t 0) (omega (arith, more))
          ∙ sym (get_or-padded (k + w) i xs (omega (arith, size, h)))
    ])
  where
    side : (i k : ℕ) → (i < k) ⊎ (k ≤ i)
    side i k = omega arith

pub decode_loop_stop :
    (p : LoraParams) (fuel : ℕ) (s : Decoding) → wants_block p s ≡ false → decode_loop p fuel s ≡ s
unfolding decode_loop
decode_loop_stop p zero s h = refl
decode_loop_stop p (suc fuel) s h = rw h refl

pub decode_loop_step :
    (p : LoraParams) (fuel : ℕ) (s : Decoding)
    → 0 < fuel
    → wants_block p s ≡ true
    → (s.first_block && not (take_block p s).info.valid) ≡ false
    → decode_loop p fuel s ≡ decode_loop p (fuel - 1) (take_block p s)
unfolding decode_loop
decode_loop_step p zero s pos h k = absurd (omega arith)
decode_loop_step p (suc fuel) s pos h k =
    rw (h, k) (ap (λ t. decode_loop p t (take_block p s)) (omega arith))

pub encode_blocks_step :
    (p : LoraParams) (fuel : ℕ) (first : Bool) (nibbles : List ℕ)
    → 0 < length nibbles
    → length nibbles ≤ fuel
    → encode_blocks p fuel first nibbles
      ≡ encode_block p first nibbles
        ++ encode_blocks p (fuel - 1) false (drop (block_width first p) nibbles)
unfolding encode_blocks
encode_blocks_step p fuel first [] pos enough = absurd (omega arith)
encode_blocks_step p zero first (n ∷ nibbles) pos enough = absurd (omega arith)
encode_blocks_step p (suc fuel) first (n ∷ nibbles) pos enough =
    ap
      (λ t.
        encode_block p first (n ∷ nibbles)
        ++ encode_blocks p t false (drop (block_width first p) (n ∷ nibbles)))
      (omega arith)

pub encode_blocks_none :
    (p : LoraParams) (fuel : ℕ) (nibbles : List ℕ)
    → length nibbles ≡ 0
    → encode_blocks p fuel false nibbles ≡ []
unfolding encode_blocks
encode_blocks_none p zero nibbles none_left = refl
encode_blocks_none p (suc fuel) [] none_left = refl
encode_blocks_none p (suc fuel) (n ∷ nibbles) none_left = absurd (omega arith)

pub frame_nibbles_head :
    (p : LoraParams) (payload : List ℕ) (i : ℕ)
    → i < 5
    → get_or (frame_nibbles p payload) i 0
      ≡ get_or (build_header (u8 (length payload)) p.cr p.has_crc) i 0
unfolding frame_nibbles build_header
frame_nibbles_head p payload zero h = refl
frame_nibbles_head p payload (suc zero) h = refl
frame_nibbles_head p payload (suc (suc zero)) h = refl
frame_nibbles_head p payload (suc (suc (suc zero))) h = refl
frame_nibbles_head p payload (suc (suc (suc (suc zero)))) h = refl
frame_nibbles_head p payload (suc (suc (suc (suc (suc i))))) h = absurd (omega arith)

-- The header parser reads five nibbles.
pub parse_header_agrees :
    (xs ys : List ℕ)
    → ((i : ℕ) → i < 5 → get_or xs i 0 ≡ get_or ys i 0)
    → parse_header xs ≡ parse_header ys
unfolding parse_header header_checksum
parse_header_agrees xs ys same =
    rw
      (
        same 0 (omega arith),
        same 1 (omega arith),
        same 2 (omega arith),
        same 3 (omega arith),
        same 4 (omega arith),
      )
      refl

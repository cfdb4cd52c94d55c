-- ===== src/Lora/BlockRoundTrip.antt =====
-- src/lora/coding.cpp: one block, encoded and decoded.
use quadrf_mesh.Base.{
  ℕ, zero, suc, ◌+◌, ◌-◌, ◌/◌, ◌%◌, ◌^◌, ◌≤◌, ◌<◌, ◌≡◌, refl, sym, ap, ◌∙◌, arith, Bool, true,
  false, ◌||◌, List, [], ◌∷◌, ◌++◌, map, get_or, length, length-append, take, length-take, All,
  if◌then◌else◌,
}
use mathlib.Core.List.{map-map}
use mathlib.Core.Path.{fun_ext, subst}
use native.Mathlib.Nat.{add-mod_right, mod-mod}
use quadrf_mesh.Base.Words.{u8, u16}
use quadrf_mesh.Lora.Gray.{gray_encode, reduced_value}
use quadrf_mesh.Lora.Hamming.{hamming_encode, hamming_encode-lt, hamming_decode-hamming_encode}
use quadrf_mesh.Lora.Blocks.{
  upto, interleave_block, deinterleave_block, interleave_symbol, length-map, length-upto,
}
use quadrf_mesh.Lora.Symbols.{
  carried, carried-lt, symbol_of, interleave_symbol_lem, chip_of, word_of, word_of-plain,
  word_of-reduced, offset,
}
use quadrf_mesh.Lora.Length.{length-encode_block}
use quadrf_mesh.Lora.Interleave.{deinterleave_block_lem}
use quadrf_mesh.Lora.Frame.{
  LoraParams, chip_count, block_cr, block_width, encode_block, decode_block, symbol_value,
}

abbrev pub IsNibble : ℕ → Type 0
IsNibble n = n < 16

-- The parameters that the radio has: spreading factors 7 to 12, rates 4/5 to 4/8.
pub record InRange (p : LoraParams) : Type 0 where
  pub sf_low : 7 ≤ p.spreading_factor
  pub sf_high : p.spreading_factor ≤ 12
  pub cr_low : 1 ≤ p.cr
  pub cr_high : p.cr ≤ 4

-- The first `n` items, with zeros behind the end.
abbrev pub padded : ℕ → List ℕ → List ℕ
padded n xs = map (λ i. get_or xs i 0) (upto 0 n)

pub get_or-map :
    (f : ℕ → ℕ) (xs : List ℕ) (i : ℕ) → i < length xs → get_or (map f xs) i 0 ≡ f (get_or xs i 0)
get_or-map f [] i h = absurd (omega arith)
get_or-map f (x ∷ xs) zero h = refl
get_or-map f (x ∷ xs) (suc i) h = get_or-map f xs i (omega arith)

pub get_or-upto : (n start i : ℕ) → i < n → get_or (upto start n) i 0 ≡ start + i
get_or-upto zero start i h = absurd (omega arith)
get_or-upto (suc n) start zero h = omega arith
get_or-upto (suc n) start (suc i) h = omega (arith, get_or-upto n (start + 1) i (omega arith))

pub get_or-padded : (n i : ℕ) (xs : List ℕ) → i < n → get_or (padded n xs) i 0 ≡ get_or xs i 0
get_or-padded n i xs h =
    get_or-map (λ i. get_or xs i 0) (upto 0 n) i (omega (arith, length-upto 0 n))
    ∙ ap (λ t. get_or xs t 0) (get_or-upto n 0 i h ∙ omega arith)

pub get_or-IsNibble : (xs : List ℕ) (i : ℕ) → All IsNibble xs → get_or xs i 0 < 16
get_or-IsNibble [] i h = omega arith
get_or-IsNibble (x ∷ xs) zero h = h.0
get_or-IsNibble (x ∷ xs) (suc i) h = get_or-IsNibble xs i h.1

get_or-take : (n i : ℕ) (xs : List ℕ) → i < n → get_or (take n xs) i 0 ≡ get_or xs i 0
get_or-take zero i xs h = absurd (omega arith)
get_or-take (suc n) i [] h = refl
get_or-take (suc n) zero (x ∷ xs) h = refl
get_or-take (suc n) (suc i) (x ∷ xs) h = get_or-take n i xs (omega arith)

get_or-append : (xs ys : List ℕ) (i : ℕ) → i < length xs → get_or (xs ++ ys) i 0 ≡ get_or xs i 0
get_or-append [] ys i h = absurd (omega arith)
get_or-append (x ∷ xs) ys zero h = refl
get_or-append (x ∷ xs) ys (suc i) h = get_or-append xs ys i (omega arith)

-- Reading takes the chip value modulo 2^sf, so an offset of nothing is none.
word_of-offset : (sf chip : ℕ) → word_of sf true (offset sf chip 1) ≡ word_of sf true chip
unfolding symbol_value reduced_value
word_of-offset sf chip =
    ap (λ t. u16 (gray_encode (t / 2 ^ 2)))
      (mod-mod (chip + 2 ^ sf + 1 - 1) (2 ^ sf)
        ∙ ap (λ t. t % 2 ^ sf) (plain_sum chip (2 ^ sf))
        ∙ add-mod_right chip (2 ^ sf))
  where
    plain_sum : (a b : ℕ) → a + b + 1 - 1 ≡ a + b
    plain_sum a b = omega arith

near_at :
    (sf w d r : ℕ)
    → 7 ≤ sf
    → sf ≤ 12
    → d < 4
    → w ≡ sf - 2
    → r < 2 ^ w
    → word_of sf true (offset sf (chip_of sf (symbol_of sf w true r)) d) ≡ r
near_at sf w d r low high near e fits =
    subst (λ t. word_of t true (offset t (chip_of t (symbol_of t w true r)) d) ≡ r)
      (two_more sf w low e) (word_of-reduced w d r (omega arith) near fits)
  where
    two_more : (sf w : ℕ) → 7 ≤ sf → w ≡ sf - 2 → w + 2 ≡ sf
    two_more sf w low e = omega arith

near_of :
    (reduced : Bool) (sf w d r : ℕ)
    → reduced ≡ true
    → 7 ≤ sf
    → sf ≤ 12
    → d < 4
    → w ≡ (if reduced then sf - 2 else sf)
    → r < 2 ^ w
    → word_of sf reduced (offset sf (chip_of sf (symbol_of sf w reduced r)) d) ≡ r
near_of true sf w d r is_reduced low high near e fits = near_at sf w d r low high near e fits
near_of false sf w d r is_reduced low high near e fits = absurd (cc)

word_of_at :
    (sf w : ℕ) (reduced : Bool) (r : ℕ)
    → 7 ≤ sf
    → sf ≤ 12
    → w ≡ (if reduced then sf - 2 else sf)
    → r < 2 ^ w
    → word_of sf reduced (chip_of sf (symbol_of sf w reduced r)) ≡ r
word_of_at sf w true r low high e fits =
    sym (word_of-offset sf _) ∙ near_at sf w 1 r low high (omega arith) e fits
word_of_at sf w false r low high e fits =
    subst (λ t. word_of t false (chip_of t (symbol_of t w false r)) ≡ r) e
      (word_of-plain w r (omega arith) fits)

module _ (p : LoraParams) (range : InRange p) (first : Bool) where
  abbrev sf : ℕ
  sf = p.spreading_factor

  abbrev rate : ℕ
  rate = block_cr first p.cr

  abbrev width : ℕ
  width = block_width first p

  abbrev reduced : Bool
  reduced = first || p.ldro

  abbrev codewords : List ℕ → List ℕ
  codewords nibbles = map (λ i. hamming_encode (get_or nibbles i 0) rate) (upto 0 width)

  rate_bounds : (1 ≤ rate) × (rate ≤ 4) × (u8 (rate + 4) ≡ rate + 4)
  unfolding block_cr
  rate_bounds = ground (arith, range.cr_low, range.cr_high)

  width_bounds : (width ≤ 12) × (5 ≤ width) × (width ≤ sf)
  unfolding block_width
  width_bounds = ground (arith, range.sf_low, range.sf_high)

  chips : chip_count p ≡ 2 ^ sf
  unfolding chip_count
  chips = omega arith

  -- What is read of a block's chip values is what its symbols carry.
  abbrev pub Reads : List ℕ → List ℕ → Type 0
  Reads nibbles raw =
      (i : ℕ)
      → i < rate + 4
      → word_of sf reduced (get_or raw i 0) ≡ carried (codewords nibbles) width (rate + 4) i

  decode_block-Reads :
      (nibbles raw : List ℕ)
      → All IsNibble nibbles
      → rate + 4 ≤ length raw
      → Reads nibbles raw
      → decode_block p first p.cr raw ≡ padded width nibbles
  unfolding decode_block
  decode_block-Reads nibbles raw small enough reads =
      let l : ℕ = rate + 4 in
      let cw = codewords nibbles in
      let words = map (word_of sf reduced) (take l raw) in
      let (one, four, exact) = rate_bounds in
      let blocks : deinterleave_block words width l ≡ cw =
        deinterleave_block_lem cw width l (width_bounds.0) (omega (arith, four)) words
          (length-map _ _ ∙ length-upto 0 width)
          (λ r h.
            get_or-map (word_of sf reduced) (take l raw) r
              (omega (arith, length-take l raw, enough, h))
            ∙ ap (word_of sf reduced) (get_or-take l r raw h)
            ∙ reads r h)
          (λ k h.
            rw
              (get_or-map (λ i. hamming_encode (get_or nibbles i 0) rate) (upto 0 width) k
                (omega (arith, length-upto 0 width, h)))
              (hamming_encode-lt _ rate (get_or-IsNibble nibbles _ small) one four)) in
      rw (exact, chips)
        (rw blocks (
          map-map _ _ (upto 0 width)
          ∙ ap (λ (f : ℕ → ℕ). map f (upto 0 width))
              (fun_ext λ i.
                hamming_decode-hamming_encode _ rate (get_or-IsNibble nibbles i small) one four)))

  get_or-encode_block :
      (nibbles : List ℕ) (i : ℕ)
      → i < rate + 4
      → get_or (encode_block p first nibbles) i 0
        ≡ chip_of sf (symbol_of sf width reduced (carried (codewords nibbles) width (rate + 4) i))
  unfolding encode_block interleave_block
  get_or-encode_block nibbles i h =
      let (one, four, exact) = rate_bounds in
      rw (exact, chips)
        (get_or-map (chip_of sf)
            (map (interleave_symbol (codewords nibbles) sf width (rate + 4) reduced)
              (upto 0 (rate + 4)))
            i
            (omega (
              arith,
              length-map (interleave_symbol (codewords nibbles) sf width (rate + 4) reduced)
                  (upto 0 (rate + 4)),
              length-upto 0 (rate + 4),
              h,
            ))
          ∙ ap (chip_of sf) (
              get_or-map (interleave_symbol (codewords nibbles) sf width (rate + 4) reduced)
                (upto 0 (rate + 4)) i (omega (arith, length-upto 0 (rate + 4), h))
              ∙ interleave_symbol_lem (codewords nibbles) sf width (rate + 4) reduced _
                  (omega (arith, width_bounds))
              ∙ ap
                  (λ t. symbol_of sf width reduced (carried (codewords nibbles) width (rate + 4) t))
                  (get_or-upto (rate + 4) 0 i h ∙ omega arith)))

  word_of_near :
      (d : ℕ)
      → reduced ≡ true
      → d < 4
      → (r : ℕ) → r < 2 ^ width
      → word_of sf reduced (offset sf (chip_of sf (symbol_of sf width reduced r)) d) ≡ r
  unfolding block_width
  word_of_near d is_reduced near r fits =
      near_of reduced sf width d r is_reduced range.sf_low range.sf_high near refl fits

  -- A word of the block's width, made a chip value and read.
  word_of-chip_of :
      (r : ℕ) → r < 2 ^ width → word_of sf reduced (chip_of sf (symbol_of sf width reduced r)) ≡ r
  unfolding block_width
  word_of-chip_of r fits = word_of_at sf width reduced r range.sf_low range.sf_high refl fits

  -- A block that was encoded is decoded to its nibbles, with zeros behind them, whatever follows.
  pub decode_block-encode_block :
      (nibbles rest : List ℕ)
      → All IsNibble nibbles
      → decode_block p first p.cr (encode_block p first nibbles ++ rest) ≡ padded width nibbles
  decode_block-encode_block nibbles rest small =
      let (one, four, exact) = rate_bounds in
      let size : length (encode_block p first nibbles) ≡ rate + 4 =
        length-encode_block p first nibbles ∙ exact in
      decode_block-Reads nibbles (encode_block p first nibbles ++ rest) small
        (omega (arith, length-append (encode_block p first nibbles) rest, size))
        (λ i h.
          ap (word_of sf reduced) (
            get_or-append (encode_block p first nibbles) rest i (omega (arith, size, h))
            ∙ get_or-encode_block nibbles i h)
          ∙ word_of-chip_of _
              (carried-lt (codewords nibbles) width (rate + 4) i (omega (arith, width_bounds))))

  -- A reduced block is decoded to its nibbles also when every chip value of it was received
  -- between one too low and two too high: `d` counts from -1.
  pub decode_block_tolerates :
      (nibbles raw : List ℕ) (d : ℕ → ℕ)
      → reduced ≡ true
      → All IsNibble nibbles
      → length raw ≡ length (encode_block p first nibbles)
      → ((i : ℕ) → i < length raw → d i < 4)
      → ((i : ℕ)
          → i < length raw
          → get_or raw i 0 ≡ offset sf (get_or (encode_block p first nibbles) i 0) (d i))
      → decode_block p first p.cr raw ≡ padded width nibbles
  decode_block_tolerates nibbles raw d is_reduced small size near moved =
      let (one, four, exact) = rate_bounds in
      let l : length raw ≡ rate + 4 = size ∙ length-encode_block p first nibbles ∙ exact in
      decode_block-Reads nibbles raw small (omega (arith, l)) (λ i h.
        let lo : i < length raw = omega (arith, l, h) in
        ap (word_of sf reduced)
          (moved i lo ∙ ap (λ t. offset sf t (d i)) (get_or-encode_block nibbles i h))
        ∙ word_of_near (d i) is_reduced (near i lo) _
            (carried-lt (codewords nibbles) width (rate + 4) i (omega (arith, width_bounds))))

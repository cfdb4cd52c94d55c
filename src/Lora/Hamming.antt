-- ===== src/Lora/Hamming.antt =====
-- src/lora/coding.cpp: the Hamming codes of rates 4/5 to 4/8. A `bool` is its digit; the shift by
-- `4 - cr_app` is defined for `cr_app` up to 4 only.
use quadrf_mesh.Base.{
  ℕ, zero, suc, ◌+◌, ◌-◌, ◌*◌, ◌/◌, ◌%◌, ◌^◌, ◌≤◌, ◌<◌, ◌≡◌, refl, arith, Bool, true, ◌&&◌, ◌||◌,
  not, [], ◌∷◌, bit_xor, ltb, leb, ◌==◌, ==_iff, if◌then◌else◌,
}
use mathlib.Core.Path.{subst₂}
use quadrf_mesh.Base.Words.{u8, shl, shr, low_bits}
use quadrf_mesh.Base.Table.{all_below, all_below_sound}
use quadrf_mesh.Lora.Header.{xor_from, or_from}

unfoldable pub hamming_encode : ℕ → ℕ → ℕ
hamming_encode nibble cr_app =
    let b0 = low_bits nibble 1 in
    let b1 = low_bits (shr nibble 1) 1 in
    let b2 = low_bits (shr nibble 2) 1 in
    let b3 = low_bits (shr nibble 3) 1 in
    let p4 = xor_from b0 (b1 ∷ b2 ∷ b3 ∷ []) in
    let p0 = xor_from b0 (b1 ∷ b2 ∷ []) in
    let p1 = xor_from b1 (b2 ∷ b3 ∷ []) in
    let p2 = xor_from b0 (b1 ∷ b3 ∷ []) in
    let p3 = xor_from b0 (b2 ∷ b3 ∷ []) in
    let full = u8 (
      or_from (shl b0 7)
        (shl b1 6 ∷ shl b2 5 ∷ shl b3 4 ∷ shl p0 3 ∷ shl p1 2 ∷ shl p2 1 ∷ p3 ∷ [])) in
    if cr_app == 1
    then u8 (or_from (shl b0 4) (shl b1 3 ∷ shl b2 2 ∷ shl b3 1 ∷ p4 ∷ []))
    else u8 (shr full (4 - cr_app))

-- `c[i]`: the first `cw_len` entries are the bits of the codeword from its top, the others 0.
unfoldable pub code_bit : ℕ → ℕ → ℕ → ℕ
code_bit codeword cw_len i = if ltb i cw_len then low_bits (shr codeword (cw_len - 1 - i)) 1 else 0

-- The sum of `c[i]` over the first `n` entries.
unfoldable pub popcount : ℕ → ℕ → ℕ → ℕ
popcount codeword cw_len zero = 0
popcount codeword cw_len (suc i) = popcount codeword cw_len i + code_bit codeword cw_len i

unfoldable pub hamming_decode : ℕ → ℕ → ℕ
hamming_decode codeword cr_app =
    let cw_len = u8 (cr_app + 4) in
    let c = code_bit codeword cw_len in
    let s0 = xor_from (c 0) (c 1 ∷ c 2 ∷ c 4 ∷ []) in
    let s1 = xor_from (c 1) (c 2 ∷ c 3 ∷ c 5 ∷ []) in
    let s2 = xor_from (c 0) (c 1 ∷ c 3 ∷ c 6 ∷ []) in
    let syndrome = s0 + shl s1 1 + shl s2 2 in
    let odd = not (popcount codeword cw_len cw_len % 2 == 0) in
    let corrects = (cr_app == 4 && odd) || cr_app == 3 in
    let d0 = if corrects && syndrome == 5 then 1 - c 0 else c 0 in
    let d1 = if corrects && syndrome == 7 then 1 - c 1 else c 1 in
    let d2 = if corrects && syndrome == 3 then 1 - c 2 else c 2 in
    let d3 = if corrects && syndrome == 6 then 1 - c 3 else c 3 in
    u8 (or_from (shl d3 3) (shl d2 2 ∷ shl d1 1 ∷ d0 ∷ []))

-- A claim about a nibble and a rate, looked up in a table of 64 rows.
rates_sound :
    (P : ℕ → ℕ → Bool) (nibble cr : ℕ)
    → all_below 64 (λ k. P (k % 16) (k / 16 + 1)) ≡ true
    → nibble < 16
    → 1 ≤ cr
    → cr ≤ 4
    → P nibble cr ≡ true
rates_sound P nibble cr table h one four =
    let row =
      all_below_sound 64 (λ k. P (k % 16) (k / 16 + 1)) ((cr - 1) * 16 + nibble) table
        (omega arith) in
    subst₂ (λ n c. P n c ≡ true) (omega arith) (omega arith) row

pub hamming_encode-lt :
    (nibble cr : ℕ) → nibble < 16 → 1 ≤ cr → cr ≤ 4 → hamming_encode nibble cr < 2 ^ (cr + 4)
hamming_encode-lt nibble cr h one four = ground (arith, rates_sound fits nibble cr table h one four)
  where
    fits : ℕ → ℕ → Bool
    fits n c = ltb (hamming_encode n c) (2 ^ (c + 4))

    table : all_below 64 (λ k. fits (k % 16) (k / 16 + 1)) ≡ true
    table = unfold all_below in unfold hamming_encode in refl

-- A nibble encoded at any rate from 4/5 to 4/8 is decoded again.
pub hamming_decode-hamming_encode :
    (nibble cr : ℕ)
    → nibble < 16
    → 1 ≤ cr
    → cr ≤ 4
    → hamming_decode (hamming_encode nibble cr) cr ≡ nibble
hamming_decode-hamming_encode nibble cr h one four =
    (==_iff _ _).0 (rates_sound same nibble cr table h one four)
  where
    same : ℕ → ℕ → Bool
    same n c = hamming_decode (hamming_encode n c) c == n

    table : all_below 64 (λ k. same (k % 16) (k / 16 + 1)) ≡ true
    table =
        unfold all_below in
        unfold hamming_decode in unfold hamming_encode in unfold code_bit in unfold popcount in refl

-- At the rates 4/7 and 4/8 a nibble is decoded also when any one bit of its codeword is flipped.
pub hamming_decode_corrects :
    (nibble cr i : ℕ)
    → nibble < 16
    → 3 ≤ cr
    → cr ≤ 4
    → i < cr + 4
    → hamming_decode (bit_xor (hamming_encode nibble cr) (2 ^ i)) cr ≡ nibble
hamming_decode_corrects nibble cr i h three four low = ground (arith, (==_iff _ _).0, lookup)
  where
    flipped : ℕ → ℕ → ℕ → Bool
    flipped i n c =
        leb c 2 || leb (c + 4) i || (hamming_decode (bit_xor (hamming_encode n c) (2 ^ i)) c == n)

    table : all_below 8 (λ i. all_below 64 (λ k. flipped i (k % 16) (k / 16 + 1))) ≡ true
    table =
        unfold all_below in
        unfold hamming_decode in unfold hamming_encode in unfold code_bit in unfold popcount in refl

    lookup : flipped i nibble cr ≡ true
    lookup =
        rates_sound (flipped i) nibble cr
          (all_below_sound 8 (λ i. all_below 64 (λ k. flipped i (k % 16) (k / 16 + 1))) i table
            (omega arith))
          h (omega arith) four

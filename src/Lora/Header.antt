-- ===== src/Lora/Header.antt =====
-- src/lora/coding.cpp and include/phy/lora/coding.hpp: the explicit header, five nibbles with a
-- checksum of five parities. A `bool` that enters `^`, `<<` or `|` is its digit.
use quadrf_mesh.Base.{
  ℕ, ◌+◌, ◌-◌, ◌≤◌, ◌<◌, ◌≡◌, refl, arith, Bool, true, false, ◌&&◌, not, List, [], ◌∷◌, bit_and,
  bit_or, bit_xor, leb, ◌==◌, if◌then◌else◌, get_or,
}
use mathlib.Core.Path.{subst₂}
use quadrf_mesh.Base.Words.{u8, shl, shr, low_bits}
use quadrf_mesh.Base.Table.{all_below, all_below_sound}

-- `a ^ b ^ ...`, from the left.
abbrev pub xor_from : ℕ → List ℕ → ℕ
xor_from a [] = a
xor_from a (b ∷ bs) = xor_from (bit_xor a b) bs

-- `a | b | ...`, from the left.
abbrev pub or_from : ℕ → List ℕ → ℕ
or_from a [] = a
or_from a (b ∷ bs) = or_from (bit_or a b) bs

unfoldable pub header_checksum : List ℕ → ℕ
header_checksum h =
    let h0 = get_or h 0 0 in
    let h1 = get_or h 1 0 in
    let h2 = get_or h 2 0 in
    let c4 =
      xor_from (shr (bit_and h0 0x8) 3)
        (shr (bit_and h0 0x4) 2 ∷ shr (bit_and h0 0x2) 1 ∷ bit_and h0 0x1 ∷ []) in
    let c3 = xor_from (shr (bit_and h0 0x8) 3) (
      shr (bit_and h1 0x8) 3
      ∷ shr (bit_and h1 0x4) 2
      ∷ shr (bit_and h1 0x2) 1
      ∷ bit_and h2 0x1
      ∷ []) in
    let c2 = xor_from (shr (bit_and h0 0x4) 2) (
      shr (bit_and h1 0x8) 3
      ∷ bit_and h1 0x1
      ∷ shr (bit_and h2 0x8) 3
      ∷ shr (bit_and h2 0x2) 1
      ∷ []) in
    let c1 = xor_from (shr (bit_and h0 0x2) 1) (
      shr (bit_and h1 0x4) 2
      ∷ bit_and h1 0x1
      ∷ shr (bit_and h2 0x4) 2
      ∷ shr (bit_and h2 0x2) 1
      ∷ bit_and h2 0x1
      ∷ []) in
    let c0 = xor_from (bit_and h0 0x1) (
      shr (bit_and h1 0x2) 1
      ∷ shr (bit_and h2 0x8) 3
      ∷ shr (bit_and h2 0x4) 2
      ∷ shr (bit_and h2 0x2) 1
      ∷ bit_and h2 0x1
      ∷ []) in
    u8 (or_from (shl c4 4) (shl c3 3 ∷ shl c2 2 ∷ shl c1 1 ∷ c0 ∷ []))

unfoldable pub build_header : ℕ → ℕ → Bool → List ℕ
build_header payload_len cr has_crc =
    let h0 = u8 (shr payload_len 4) in
    let h1 = u8 (low_bits payload_len 4) in
    let h2 = u8 (bit_or (shl cr 1) (if has_crc then 1 else 0)) in
    let chk = header_checksum (h0 ∷ h1 ∷ h2 ∷ 0 ∷ 0 ∷ []) in
    h0 ∷ h1 ∷ h2 ∷ u8 (low_bits (shr chk 4) 1) ∷ u8 (low_bits chk 4) ∷ []

pub record HeaderInfo : Type 0 where
  pub valid : Bool
  pub payload_len : ℕ
  pub cr : ℕ
  pub has_crc : Bool

unfoldable pub parse_header : List ℕ → HeaderInfo
parse_header n =
    let len = u8 (bit_or (shl (get_or n 0 0) 4) (low_bits (get_or n 1 0) 4)) in
    let rate = u8 (low_bits (shr (get_or n 2 0) 1) 3) in
    let chk_rx = u8 (bit_or (shl (low_bits (get_or n 3 0) 1) 4) (low_bits (get_or n 4 0) 4)) in
    record {
      valid = chk_rx == header_checksum n && not (len == 0) && leb 1 rate && leb rate 4;
      payload_len = len;
      cr = rate;
      has_crc = not (low_bits (get_or n 2 0) 1 == 0);
    }

abbrev made_from : Bool → ℕ → ℕ → HeaderInfo
made_from b len cr = record { valid = true; payload_len = len; cr = cr; has_crc = b }

-- The fields of a parsed header, compared.
abbrev agrees : HeaderInfo → Bool → ℕ → ℕ → Bool
agrees info b len cr =
    info.valid
    && (if b then info.has_crc else not info.has_crc)
    && info.payload_len == len
    && info.cr == cr

agrees_sound :
    (v : Bool) (l c : ℕ) (f b : Bool) (len cr : ℕ)
    → agrees (record { valid = v; payload_len = l; cr = c; has_crc = f }) b len cr ≡ true
    → record { valid = v; payload_len = l; cr = c; has_crc = f } ≡ made_from b len cr
agrees_sound true l c true true len cr h = ground arith
agrees_sound true l c false false len cr h = ground arith
agrees_sound true l c true false len cr h = ground arith
agrees_sound true l c false true len cr h = ground arith
agrees_sound false l c f b len cr h = ground arith

table :
    (b : Bool)
    → all_below 255 (λ l.
      all_below 4 (λ c. agrees (parse_header (build_header (l + 1) (c + 1) b)) b (l + 1) (c + 1)))
      ≡ true
unfolding all_below parse_header build_header header_checksum
table true = refl
table false = refl

-- The header of a payload of 1 to 255 bytes at a rate from 4/5 to 4/8 is parsed as valid, with the
-- length, the rate and the CRC flag that it was built from.
pub parse_header-build_header :
    (len cr : ℕ) (has_crc : Bool)
    → 1 ≤ len
    → len < 256
    → 1 ≤ cr
    → cr ≤ 4
    → parse_header (build_header len cr has_crc)
      ≡ record { valid = true; payload_len = len; cr = cr; has_crc = has_crc }
parse_header-build_header len cr has_crc pos fits one four = agrees_sound _ _ _ _ has_crc len cr (
    subst₂ (λ l c. agrees (parse_header (build_header l c has_crc)) has_crc l c ≡ true)
      (omega arith) (omega arith)
      (all_below_sound 4 _ (cr - 1) (all_below_sound 255 _ (len - 1) (table has_crc) (omega arith))
        (omega arith)))

-- ===== src/Mesh/Flags.antt =====
-- The flags byte: three bits of hop limit, two booleans, three bits of hop start.
use quadrf_mesh.Base.{
  ℕ, ◌+◌, ◌*◌, ◌/◌, ◌%◌, ◌^◌, ◌<◌, ◌≡◌, refl, arith, bit_and, Bool, true, false, ◌==◌, ==_iff, ◌∙◌,
}
use quadrf_mesh.Base.Bits.{bit_or-low_high}
use quadrf_mesh.Base.Table.{all_below, all_below_sound}
use quadrf_mesh.Mesh.Packet.{PacketHeader, pack_flags, unpack_flags}

hop_start_mask : (s : ℕ) → s < 256 → bit_and (s * 2 ^ 5) 0xe0 ≡ s % 8 * 2 ^ 5
hop_start_mask s h = (==_iff _ _).0 (all_below_sound 256 same s table h)
  where
    same : ℕ → Bool
    same s = bit_and (s * 2 ^ 5) 0xe0 == s % 8 * 2 ^ 5

    table : all_below 256 same ≡ true
    table = unfold all_below in refl

mask_bits :
    (f : ℕ)
    → f < 256
    → (bit_and f 0x08 ≡ f / 8 % 2 * 8)
      × (bit_and f 0x10 ≡ f / 16 % 2 * 16)
      × (bit_and f 0xe0 ≡ f / 32 * 32)
mask_bits f h = (
  (==_iff _ _).0 (all_below_sound 256 _ f t8 h),
  (==_iff _ _).0 (all_below_sound 256 _ f t16 h),
  (==_iff _ _).0 (all_below_sound 256 _ f t224 h),
)
  where
    t8 : all_below 256 (λ f. bit_and f 0x08 == f / 8 % 2 * 8) ≡ true
    t8 = unfold all_below in refl

    t16 : all_below 256 (λ f. bit_and f 0x10 == f / 16 % 2 * 16) ≡ true
    t16 = unfold all_below in refl

    t224 : all_below 256 (λ f. bit_and f 0xe0 == f / 32 * 32) ≡ true
    t224 = unfold all_below in refl

abbrev digit : Bool → ℕ
digit true = 1
digit false = 0

pub pack_flags_sum :
    (h : PacketHeader)
    → h.hop_start < 256
    → pack_flags h
      ≡ h.hop_start % 8 * 32 + digit h.via_mqtt * 16 + digit h.want_ack * 8 + h.hop_limit % 8
unfolding pack_flags
pack_flags_sum h s = rw (hop_start_mask h.hop_start s) (
    ground (
      arith,
      bit_or-low_high 3 1 (h.hop_limit % 8),
      bit_or-low_high 4 1 (h.hop_limit % 8),
      bit_or-low_high 4 1 (8 + h.hop_limit % 8),
      bit_or-low_high 5 (h.hop_start % 8) (h.hop_limit % 8),
      bit_or-low_high 5 (h.hop_start % 8) (8 + h.hop_limit % 8),
      bit_or-low_high 5 (h.hop_start % 8) (16 + h.hop_limit % 8),
      bit_or-low_high 5 (h.hop_start % 8) (24 + h.hop_limit % 8),
    ))

-- Unpacking what was packed gives the four fields back, and leaves the other fields of `g` alone.
pub unpack_flags-pack_flags :
    (h g : PacketHeader)
    → h.hop_limit < 8
    → h.hop_start < 8
    → unpack_flags (pack_flags h) g ≡ record g {
      hop_limit = h.hop_limit;
      want_ack = h.want_ack;
      via_mqtt = h.via_mqtt;
      hop_start = h.hop_start;
    }
unfolding unpack_flags
unpack_flags-pack_flags h g limit start =
    let e = pack_flags_sum h (omega arith) in
    let byte : pack_flags h < 256 = ground arith in ground (arith, e, mask_bits (pack_flags h) byte)

-- Every byte is the flags of the header unpacked from it.
pub pack_flags-unpack_flags :
    (f : ℕ) (g : PacketHeader) → f < 256 → pack_flags (unpack_flags f g) ≡ f
pack_flags-unpack_flags f g h =
    let m = mask_bits f h in
    let small : (unpack_flags f g).hop_start < 256 = unfold unpack_flags in omega arith in
    pack_flags_sum (unpack_flags f g) small ∙ unfold unpack_flags in ground (arith, m)

-- ===== src/Lora/Gray.antt =====
-- src/lora/coding.cpp and include/phy/lora/coding.hpp: the Gray maps and the reduced value.
use quadrf_mesh.Base.{
  ℕ, zero, suc, ◌+◌, ◌-◌, ◌%◌, ◌^◌, ◌≤◌, ◌<◌, ◌≡◌, refl, arith, Bool, true, ◌==◌, ==_iff, bit_xor,
}
use quadrf_mesh.Base.Words.{shr}
use quadrf_mesh.Base.Table.{all_below, all_below_sound}

-- The loop of `grayDecode` from `j` on, with the number of rounds left.
unfoldable pub gray_loop : ℕ → ℕ → ℕ → ℕ → ℕ
gray_loop zero g j b = b
gray_loop (suc left) g j b = gray_loop left g (j + 1) (bit_xor b (shr g j))

unfoldable pub gray_decode : ℕ → ℕ → ℕ
gray_decode g bits = gray_loop (bits - 1) g 1 g

unfoldable pub gray_encode : ℕ → ℕ
gray_encode b = bit_xor b (shr b 1)

unfoldable pub reduced_value : ℕ → ℕ → ℕ
reduced_value raw n_chips = shr (raw % n_chips) 2

inverse : ℕ → ℕ → Bool
inverse w g = gray_encode (gray_decode g w) == g

table : all_below 13 (λ w. all_below (2 ^ w) (inverse w)) ≡ true
unfolding all_below gray_encode gray_decode gray_loop inverse
table = refl

-- For words of at most 12 bits, the widest symbols of LoRa, the Gray map of the receiver undoes
-- the demap of the transmitter.
pub gray_encode-gray_decode : (w g : ℕ) → w ≤ 12 → g < 2 ^ w → gray_encode (gray_decode g w) ≡ g
unfolding inverse
gray_encode-gray_decode w g h fits =
    (==_iff _ _).0
      (all_below_sound (2 ^ w) (inverse w) g (all_below_sound 13 _ w table (omega arith)) fits)

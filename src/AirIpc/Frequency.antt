-- ===== src/AirIpc/Frequency.antt =====
-- `quantizeFrequencyHz` as a rounding function on uint64_t.
use quadrf_mesh.Base.{ℕ, ◌+◌, ◌%◌, ◌^◌, ◌≤◌, ◌<◌, ◌≡◌, arith}
use quadrf_mesh.AirIpc.Wire.{quantize_frequency_hz}

-- On every uint64_t the result is a multiple of 1000 Hz that fits a uint64_t; it is at most 500 Hz
-- above the input and at most 615 Hz below it, and quantizing again changes nothing.
pub quantize_frequency_hz_bounds :
    (f : ℕ)
    → f < 2 ^ 64
    → let q = quantize_frequency_hz f in
      (q % 1000 ≡ 0) × (q < 2 ^ 64) × (q ≤ f + 500) × (f ≤ q + 615) × (quantize_frequency_hz q ≡ q)
unfolding quantize_frequency_hz
quantize_frequency_hz_bounds f h =
    (ground arith, ground arith, ground arith, ground arith, ground arith)

-- Rounding keeps the order of two uint64_t frequencies, also where it saturates.
pub quantize_frequency_hz_mono :
    (f g : ℕ) → f ≤ g → g < 2 ^ 64 → quantize_frequency_hz f ≤ quantize_frequency_hz g
unfolding quantize_frequency_hz
quantize_frequency_hz_mono f g h fits = ground arith

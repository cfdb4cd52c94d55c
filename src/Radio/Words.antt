-- ===== src/Radio/Words.antt =====
-- src/radio/synth.cpp: the register words of the synthesizers. A frequency, in the source a `double`
-- in MHz, is a whole number of 1/2^20 Hz here, so that the step of a synthesizer is 80000000 of them,
-- and the arithmetic is exact.
use quadrf_mesh.Base.{ℕ, ◌+◌, ◌*◌, ◌/◌, ◌%◌, ◌^◌, bit_or, ltb, ◌==◌, if◌then◌else◌}
use quadrf_mesh.Base.Words.{u16, u32, shl, shr, low_bits}

abbrev pub hz : ℕ
hz = 2 ^ 20

abbrev pub lsb : ℕ
lsb = 80000000

abbrev pub ref : ℕ
ref = 80000000 * hz

abbrev pub frac_one : ℕ
frac_one = 2 ^ 20

unfoldable pub word : ℕ → ℕ → ℕ
word reg data10 = u16 (bit_or (shl (low_bits reg 6) 10) (low_bits data10 10))

pub record SynthWords : Type 0 where
  pub w15 : ℕ
  pub w16 : ℕ
  pub w17 : ℕ

-- `llround` of the fraction in steps, a half upwards.
unfoldable pub rounded_fdiv : ℕ → ℕ
rounded_fdiv lo = (2 * (lo % ref) + lsb) / (2 * lsb)

unfoldable pub words_of : ℕ → ℕ → SynthWords
words_of idiv fdiv = record {
  w15 = word 15 (bit_or (shl 1 9) (low_bits idiv 7));
  w16 = word 16 (shr fdiv 10);
  w17 = word 17 fdiv;
}

unfoldable pub synth_words : ℕ → SynthWords
synth_words lo =
    let fdiv = rounded_fdiv lo in
    if fdiv == frac_one then words_of (lo / ref + 1) 0 else words_of (lo / ref) fdiv

unfoldable pub synth_lo : ℕ → ℕ → ℕ → ℕ
synth_lo r15 r16 r17 =
    let idiv = low_bits r15 7 in
    let fdiv = bit_or (u32 (shl (low_bits r16 10) 10)) (low_bits r17 10) in
    (idiv * frac_one + fdiv) * lsb

unfoldable pub max2851_lna_band_reg2 : ℕ → ℕ
max2851_lna_band_reg2 lo =
    if ltb lo (5200000000 * hz)
    then 0x180
    else if ltb lo (5500000000 * hz)
    then 0x1a0
    else if ltb lo (5800000000 * hz)
    then 0x1c0
    else 0x1e0

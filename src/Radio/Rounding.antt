-- ===== src/Radio/Rounding.antt =====
-- src/radio/synth.cpp: what is read back of the words that were written.
use quadrf_mesh.Base.{
  ℕ, ◌+◌, ◌*◌, ◌/◌, ◌%◌, ◌^◌, ◌≤◌, ◌<◌, ◌≡◌, ap, ap₂, ◌∙◌, arith, inl, inr, bit_or, ◌==◌,
  Bool-cases,
}
use quadrf_mesh.Base.Words.{u32, shl, low_bits}
use quadrf_mesh.Base.Bits.{bit_or-high_low}
use quadrf_mesh.Radio.Words.{
  lsb, ref, frac_one, word, SynthWords, rounded_fdiv, words_of, synth_words, synth_lo,
}

-- The 10 bits of a register that are read back.
abbrev pub read_back : ℕ → ℕ
read_back w = low_bits w 10

pub word_lem : (reg data10 : ℕ) → reg < 64 → word reg data10 ≡ reg * 1024 + data10 % 1024
unfolding word
word_lem reg data10 h =
    let whole = bit_or-high_low 10 (reg % 64) (data10 % 1024) (omega arith) in
    omega (arith, whole, h)

pub read_back-word : (reg data10 : ℕ) → reg < 64 → read_back (word reg data10) ≡ data10 % 1024
read_back-word reg data10 h = omega (arith, word_lem reg data10 h)

synth_lo_fields :
    (idiv fdiv : ℕ)
    → idiv < 128
    → fdiv < frac_one
    → synth_lo (512 + idiv) (fdiv / 1024) (fdiv % 1024) ≡ (idiv * frac_one + fdiv) * lsb
unfolding synth_lo
synth_lo_fields idiv fdiv small fits =
    let whole = bit_or-high_low 10 (fdiv / 1024) (fdiv % 1024) (omega arith) in
    let high : u32 (shl (low_bits (fdiv / 1024) 10) 10) ≡ fdiv / 1024 * 2 ^ 10 = omega arith in
    let low : low_bits (fdiv % 1024) 10 ≡ fdiv % 1024 = omega arith in
    let fraction : bit_or (u32 (shl (low_bits (fdiv / 1024) 10) 10)) (low_bits (fdiv % 1024) 10)
        ≡ fdiv =
      ap₂ bit_or high low ∙ omega (arith, whole) in
    omega (arith, fraction, small)

-- What `synthLoMhz` reads of the words of a divider.
synth_lo-words_of :
    (idiv fdiv : ℕ)
    → idiv < 128
    → fdiv < frac_one
    → let w = words_of idiv fdiv in
      (synth_lo (read_back w.w15) (read_back w.w16) (read_back w.w17)
        ≡ (idiv * frac_one + fdiv) * lsb)
      × (read_back w.w15 ≡ 512 + idiv)
unfolding words_of
synth_lo-words_of idiv fdiv small fits =
    let top = bit_or-high_low 9 1 (idiv % 128) (omega arith) in
    let r15 : read_back (words_of idiv fdiv).w15 ≡ 512 + idiv =
      omega (arith, read_back-word 15 (bit_or 512 (idiv % 2 ^ 7)) (omega arith), top, small) in
    let r16 : read_back (words_of idiv fdiv).w16 ≡ fdiv / 1024 =
      omega (arith, read_back-word 16 (fdiv / 2 ^ 10) (omega arith)) in
    let r17 : read_back (words_of idiv fdiv).w17 ≡ fdiv % 1024 =
      read_back-word 17 fdiv (omega arith) in
    (
      ap (λ a. synth_lo a (read_back (words_of idiv fdiv).w16) (read_back (words_of idiv fdiv).w17))
            r15
          ∙ ap (λ b. synth_lo (512 + idiv) b (read_back (words_of idiv fdiv).w17)) r16
          ∙ ap (λ c. synth_lo (512 + idiv) (fdiv / 1024) c) r17
          ∙ synth_lo_fields idiv fdiv small fits,
      r15,
    )

-- What is read back of the words is near the frequency, and passes as a readback.
abbrev pub Reads : ℕ → SynthWords → Type 0
Reads lo w =
    let n = synth_lo (read_back w.w15) (read_back w.w16) (read_back w.w17) in
    (n ≤ lo + 40000000) × (lo ≤ n + 40000000) × (512 ≤ read_back w.w15) × (read_back w.w15 < 640)

words_of-Reads :
    (idiv fdiv lo : ℕ)
    → idiv < 128
    → fdiv < frac_one
    → (idiv * frac_one + fdiv) * lsb ≤ lo + 40000000
    → lo ≤ (idiv * frac_one + fdiv) * lsb + 40000000
    → Reads lo (words_of idiv fdiv)
words_of-Reads idiv fdiv lo small fits above below =
    let (read, r15) = synth_lo-words_of idiv fdiv small fits in
    (
      omega (arith, read, above),
      omega (arith, read, below),
      omega (arith, r15),
      omega (arith, r15, small),
    )

-- What a chip that was programmed reads back: the frequency to half a step, about 38 Hz, up to
-- half a step below 10.24 GHz; and bit 9 of Main15 set with bits 7 and 8 clear, so that the words
-- pass as a plausible readback.
pub synth_lo-synth_words : (lo : ℕ) → lo + 40000000 < 128 * ref → Reads lo (synth_words lo)
unfolding synth_words rounded_fdiv
synth_lo-synth_words lo below =
    let fdiv = (2 * (lo % ref) + lsb) / (2 * lsb) in
    elim (Bool-cases (fdiv == frac_one)) [
      | inl carry ↦
          let top : fdiv ≡ frac_one = ground (arith, carry) in
          rw carry (
            words_of-Reads (lo / ref + 1) 0 lo (omega (arith, top, below)) (omega arith)
              (omega (arith, top)) (omega arith))
      | inr plain ↦
          let most : fdiv ≤ frac_one = omega arith in
          let fits : fdiv < frac_one = ground (arith, plain, most) in
          rw plain (
            words_of-Reads (lo / ref) fdiv lo (omega (arith, below)) fits (omega arith)
              (omega arith))
    ]

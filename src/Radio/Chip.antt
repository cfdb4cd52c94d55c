-- ===== src/Radio/Chip.antt =====
-- src/radio/synth.cpp: a frequency that is programmed into a chip that works and then read back.
use mathlib.Core.Path.{subst}
use quadrf_mesh.Base.{
  ℕ, ◌+◌, ◌*◌, ◌/◌, ◌%◌, ◌≤◌, ◌<◌, ◌≡◌, ◌≢◌, refl, sym, ap, ◌∙◌, arith, inl, inr, Bool, true, false,
  ◌&&◌, Option, none, some, bit_or, ◌==◌, if◌then◌else◌, Bool-cases,
}
use quadrf_mesh.Base.Words.{shl, shr, low_bits}
use quadrf_mesh.Radio.Words.{
  ref, frac_one, rounded_fdiv, word, SynthWords, words_of, synth_words, synth_lo,
  max2851_lna_band_reg2,
}
use quadrf_mesh.Radio.Rounding.{read_back, read_back-word, synth_lo-synth_words}
use quadrf_mesh.Radio.Access.{
  Chip, tx_chip, rx_chip, address, leased, attached_ok, Driver, Transaction, open_transaction,
  write, read, read_command, read_main, after_main15, after_main16, after_main17, main14,
  is_plausible, read_lo, write_band, write_optional, program_lo, auto_select,
}

-- A chip that answers: every call succeeds under a lease. A write of a word of register `q` sets that
-- register's 10 bits and no other's, a read command selects the register that reads return, and changes
-- none, while Main14 switches DOUT to readback.
pub record Works {B : Type 0} (driver : Driver B) : Type 0 where
  pub reg : ℕ → ℕ → B → ℕ
  pub put : ℕ → ℕ → B → B
  pub under_lease : (b : B) → driver.attach b ≡ leased
  pub writes : (a v : ℕ) (b : B) → driver.reg_write a v b ≡ some (put a v b)
  pub sets : (a q d : ℕ) (b : B) → q < 32 → reg a q (put a (word q d) b) ≡ d % 1024
  pub leaves : (a q r d : ℕ) (b : B) → q < 32 → q ≢ r → reg a r (put a (word q d) b) ≡ reg a r b
  pub selects : (a q r : ℕ) (b : B) → reg a r (put a (read_command q) b) ≡ reg a r b
  pub reads :
      (a q : ℕ) (b : B)
      → q < 32
      → reg a 14 b / 2 % 2 ≡ 1
      → driver.reg_read a (put a (read_command q) b) ≡ some (reg a q b, put a (read_command q) b)

module _ {B : Type 0} (driver : Driver B) (works : Works driver) where
  open works use {reg, put}

  abbrev live : B → Transaction B
  live b = record { ok = true; device = b }

  write-live : (a v : ℕ) (b : B) → write driver a v (live b) ≡ live (put a v b)
  unfolding write
  write-live a v b = rw (works.writes a v b) refl

  open-live : (b : B) → open_transaction driver b ≡ live b
  unfolding open_transaction attached_ok
  open-live b = ap (λ o. record { ok = attached_ok o; device = b }) (works.under_lease b)

  read-live :
      (a v : ℕ) (b : B) → driver.reg_read a b ≡ some (v, b) → read driver a (live b) ≡ (v, live b)
  unfolding read
  read-live a v b e = rw (read, e) refl

  read_main-live :
      (a q : ℕ) (b : B)
      → q < 32
      → reg a 14 b / 2 % 2 ≡ 1
      → read_main driver a q (live b) ≡ (low_bits (reg a q b) 10, live (put a (read_command q) b))
  unfolding read_main
  read_main-live a q b small dout =
      ap (λ t. let r = read driver a t in (low_bits r.0 10, r.1)) (write-live a (read_command q) b)
      ∙ ap (λ (r : ℕ × Transaction B). (low_bits r.0 10, r.1))
          (read-live a (reg a q b) (put a (read_command q) b) (works.reads a q b small dout))

  abbrev plausible : ℕ → B → Bool
  plausible a b =
      is_plausible (low_bits (reg a 15 b) 10) (low_bits (reg a 16 b) 10) (low_bits (reg a 17 b) 10)

  abbrev answer : Bool → ℕ → ℕ → ℕ → Option (ℕ × ℕ × ℕ)
  answer ok r15 r16 r17 =
      if ok && is_plausible r15 r16 r17 then some (synth_lo r15 r16 r17, 0, 0) else none

  -- The device behind a readback.
  abbrev pub after_read : ℕ → B → B
  after_read a b =
      let b0 = put a (word 14 (bit_or main14 2)) b in
      let b1 = put a (read_command 15) b0 in
      let b2 = put a (read_command 16) b1 in put a (word 14 main14) (put a (read_command 17) b2)

  abbrev pub lo_of : ℕ → ℕ → ℕ → Option (ℕ × ℕ × ℕ)
  lo_of r15 r16 r17 = some (synth_lo r15 r16 r17, 0, 0)

  read_lo-live :
      (chip : Chip) (b : B)
      → plausible (address chip) b ≡ true
      → let a = address chip in
        read_lo driver chip false b ≡ (
          lo_of (low_bits (reg a 15 b) 10) (low_bits (reg a 16 b) 10) (low_bits (reg a 17 b) 10),
          after_read a b,
        )
  unfolding read_lo after_main15 after_main16 after_main17
  read_lo-live chip b good =
      let a = address chip in
      let v = word 14 (bit_or main14 2) in
      let b0 = put a v b in
      let b1 = put a (read_command 15) b0 in
      let b2 = put a (read_command 16) b1 in
      let b3 = put a (read_command 17) b2 in
      let kept : (r : ℕ) → 14 ≢ r → reg a r b0 ≡ reg a r b =
        λ r ne. works.leaves a 14 r (bit_or main14 2) b (omega arith) ne in
      let switched : bit_or main14 2 ≡ 354 = refl in
      let on0 : reg a 14 b0 / 2 % 2 ≡ 1 =
        omega (arith, works.sets a 14 (bit_or main14 2) b (omega arith), switched) in
      let s1 : (r : ℕ) → reg a r b1 ≡ reg a r b0 = λ r. works.selects a 15 r b0 in
      let s2 : (r : ℕ) → reg a r b2 ≡ reg a r b1 = λ r. works.selects a 16 r b1 in
      let on1 : reg a 14 b1 / 2 % 2 ≡ 1 = omega (arith, s1 14, on0) in
      let on2 : reg a 14 b2 / 2 % 2 ≡ 1 = omega (arith, s2 14, on1) in
      let start = ap (write driver a v) (open-live b) ∙ write-live a v b in
      let v15 = low_bits (reg a 15 b0) 10 in
      let v16 = low_bits (reg a 16 b1) 10 in
      let v17 = low_bits (reg a 17 b2) 10 in
      let r15 : v15 ≡ low_bits (reg a 15 b) 10 =
        ap (λ x. low_bits x 10) (kept 15 (λ e. omega (arith, e))) in
      let r16 : v16 ≡ low_bits (reg a 16 b) 10 =
        ap (λ x. low_bits x 10) (s1 16 ∙ kept 16 (λ e. omega (arith, e))) in
      let r17 : v17 ≡ low_bits (reg a 17 b) 10 =
        ap (λ x. low_bits x 10) (s2 17 ∙ s1 17 ∙ kept 17 (λ e. omega (arith, e))) in
      let ended = after_read a b in
      ap (λ t. after_main15 driver a false (read_main driver a 15 t)) start
      ∙ ap (after_main15 driver a false) (read_main-live a 15 b0 (omega arith) on0)
      ∙ ap (after_main16 driver a false v15) (read_main-live a 16 b1 (omega arith) on1)
      ∙ ap (after_main17 driver a false v15 v16) (read_main-live a 17 b2 (omega arith) on2)
      ∙ ap (λ (t : Transaction B). (answer t.ok v15 v16 v17, t.device))
          (write-live a (word 14 main14) b3)
      ∙ ap (λ x. (answer true x v16 v17, ended)) r15
      ∙ ap (λ x. (answer true (low_bits (reg a 15 b) 10) x v17, ended)) r16
      ∙ ap (λ x. (answer true (low_bits (reg a 15 b) 10) (low_bits (reg a 16 b) 10) x, ended)) r17
      ∙ rw good refl

  -- The three words of a divider, written in order.
  abbrev tuned : ℕ → SynthWords → B → B
  tuned a w b = put a w.w17 (put a w.w16 (put a w.w15 b))

  abbrev pub Holds : ℕ → SynthWords → B → Type 0
  Holds a w b =
      (reg a 15 b ≡ read_back w.w15)
      × (reg a 16 b ≡ read_back w.w16)
      × (reg a 17 b ≡ read_back w.w17)

  set_word : (a q d : ℕ) (b : B) → q < 32 → reg a q (put a (word q d) b) ≡ read_back (word q d)
  set_word a q d b small =
      works.sets a q d b small ∙ sym (read_back-word q d (omega (arith, small)))

  tuned-Holds : (a i f : ℕ) (b : B) → Holds a (words_of i f) (tuned a (words_of i f) b)
  unfolding words_of
  tuned-Holds a i f b =
      let d15 = bit_or (shl 1 9) (low_bits i 7) in
      let d16 = shr f 10 in
      let b15 = put a (word 15 d15) b in
      let b16 = put a (word 16 d16) b15 in
      (
        works.leaves a 17 15 f b16 (omega arith) (λ e. omega (arith, e))
            ∙ works.leaves a 16 15 d16 b15 (omega arith) (λ e. omega (arith, e))
            ∙ set_word a 15 d15 b (omega arith),
        works.leaves a 17 16 f b16 (omega arith) (λ e. omega (arith, e))
            ∙ set_word a 16 d16 b15 (omega arith),
        set_word a 17 f b16 (omega arith),
      )

  synth_words-cases : (lo : ℕ) → (i : ℕ) × (f : ℕ) × (synth_words lo ≡ words_of i f)
  unfolding synth_words
  synth_words-cases lo = elim (Bool-cases (rounded_fdiv lo == frac_one)) [
    | inl carry ↦ (lo / ref + 1, 0, rw carry refl)
    | inr plain ↦ (lo / ref, rounded_fdiv lo, rw plain refl)
  ]

  write_optional-live :
      (a q : ℕ) (value : Option ℕ) (b : B)
      → (c : B) × (write_optional driver a q value (live b) ≡ live c)
  unfolding write_optional
  write_optional-live a q none b = (b, refl)
  write_optional-live a q (some value) b = (put a (word q value) b, write-live a (word q value) b)

  write_band-live :
      (chip : Chip) (lo : ℕ) (w : SynthWords) (b : B)
      → Holds (address chip) w b
      → (c : B) × (write_band driver chip lo (live b) ≡ live c) × Holds (address chip) w c
  unfolding write_band
  write_band-live tx_chip lo w b h = (b, refl, h)
  write_band-live rx_chip lo w b (h15, h16, h17) =
      let a = address rx_chip in
      let d = max2851_lna_band_reg2 lo in
      (
        put a (word 2 d) b,
        write-live a (word 2 d) b,
        (
          works.leaves a 2 15 d b (omega arith) (λ e. omega (arith, e)) ∙ h15,
          works.leaves a 2 16 d b (omega arith) (λ e. omega (arith, e)) ∙ h16,
          works.leaves a 2 17 d b (omega arith) (λ e. omega (arith, e)) ∙ h17,
        ),
      )

  -- Programming succeeds and leaves the words in the chip.
  pub program_lo-live :
      (chip : Chip) (lo : ℕ) (main0 main6 : Option ℕ) (b : B)
      → let r = program_lo driver chip lo main0 main6 b in
        (r.0 ≡ true) × Holds (address chip) (synth_words lo) r.1
  unfolding program_lo
  program_lo-live chip lo main0 main6 b =
      let a = address chip in
      let w = synth_words lo in
      let (b6, e6) = write_optional-live a 6 main6 b in
      let (b0, e0) = write_optional-live a 0 main0 b6 in
      let b19 = put a (word 19 (auto_select chip)) b0 in
      let (i, f, divider) = synth_words-cases lo in
      let holds : Holds a w (tuned a w b19) =
        subst (λ v. Holds a v (tuned a v b19)) (sym divider) (tuned-Holds a i f b19) in
      let (c, band, held) = write_band-live chip lo w (tuned a w b19) holds in
      let restored : write_optional driver a 0 main0
            (write_optional driver a 6 main6 (open_transaction driver b))
          ≡ live b0 =
        ap (λ t. write_optional driver a 0 main0 (write_optional driver a 6 main6 t)) (open-live b)
        ∙ ap (write_optional driver a 0 main0) e6
        ∙ e0 in
      let words : Transaction B → Transaction B =
        λ t. write driver a w.w17 (write driver a w.w16 (write driver a w.w15 t)) in
      let b15 = put a w.w15 b19 in
      let b16 = put a w.w16 b15 in
      let tune : words (live b19) ≡ live (tuned a w b19) =
        ap (λ t. write driver a w.w17 (write driver a w.w16 t)) (write-live a w.w15 b19)
        ∙ ap (write driver a w.w17) (write-live a w.w16 b15)
        ∙ write-live a w.w17 b16 in
      let auto = word 19 (auto_select chip) in
      let whole =
        ap (λ t. write_band driver chip lo (words (write driver a auto t))) restored
        ∙ ap (λ t. write_band driver chip lo (words t)) (write-live a auto b0)
        ∙ ap (write_band driver chip lo) tune
        ∙ band in
      (
        ap (λ (t : Transaction B). t.ok) whole,
        subst (λ (t : Transaction B). Holds a w t.device) (sym whole) held,
      )

  -- What reads back of the words of a frequency.
  abbrev pub read_value : ℕ → ℕ
  read_value lo =
      let w = synth_words lo in synth_lo (read_back w.w15) (read_back w.w16) (read_back w.w17)

  pub read_lo-Holds :
      (chip : Chip) (lo : ℕ) (b : B)
      → lo + 40000000 < 128 * ref
      → Holds (address chip) (synth_words lo) b
      → read_lo driver chip false b ≡ (some (read_value lo, 0, 0), after_read (address chip) b)
  unfolding is_plausible
  read_lo-Holds chip lo b below (h15, h16, h17) =
      let a = address chip in
      let w = synth_words lo in
      let (above, under, low, high) = synth_lo-synth_words lo below in
      let r15 : low_bits (reg a 15 b) 10 ≡ read_back w.w15 = omega (arith, h15) in
      let r16 : low_bits (reg a 16 b) 10 ≡ read_back w.w16 = omega (arith, h16) in
      let r17 : low_bits (reg a 17 b) 10 ≡ read_back w.w17 = omega (arith, h17) in
      let good : plausible a b ≡ true = ground (arith, r15, low, high) in
      let ended = after_read a b in
      read_lo-live chip b good
      ∙ ap (λ x. (lo_of x (low_bits (reg a 16 b) 10) (low_bits (reg a 17 b) 10), ended)) r15
      ∙ ap (λ x. (lo_of (read_back w.w15) x (low_bits (reg a 17 b) 10), ended)) r16
      ∙ ap (λ x. (lo_of (read_back w.w15) (read_back w.w16) x, ended)) r17

  -- A chip that works is programmed with success, whatever registers are restored with it, and what
  -- is read of it then is the frequency to half a step of the synthesizer. The frequency is below the
  -- range of the divider.
  pub read_lo-program_lo :
      (chip : Chip) (lo : ℕ) (main0 main6 : Option ℕ) (b : B)
      → lo + 40000000 < 128 * ref
      → let r = program_lo driver chip lo main0 main6 b in
        (r.0 ≡ true)
        × ((n : ℕ) × ((read_lo driver chip false r.1).0 ≡ some (n, 0, 0))
            × (n ≤ lo + 40000000)
            × (lo ≤ n + 40000000))
  read_lo-program_lo chip lo main0 main6 b below =
      let r = program_lo driver chip lo main0 main6 b in
      let (success, holds) = program_lo-live chip lo main0 main6 b in
      let (above, under, low, high) = synth_lo-synth_words lo below in
      let read = ap (λ (x : Option (ℕ × ℕ × ℕ) × B). x.0) (read_lo-Holds chip lo r.1 below holds) in
      (success, (read_value lo, read, omega (arith, above), omega (arith, under)))

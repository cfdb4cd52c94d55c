-- ===== src/Radio/TwoChips.antt =====
-- src/radio/synth.cpp: what a transaction with one chip leaves in the other.
use quadrf_mesh.Base.{ℕ, ◌≡◌, ◌≢◌, ◌∙◌, arith, inl, inr, Option, none, some, bit_or, Bool-cases}
use quadrf_mesh.Radio.Words.{word, SynthWords, max2851_lna_band_reg2}
use quadrf_mesh.Radio.Access.{
  Chip, tx_chip, rx_chip, address, Driver, Transaction, open_transaction, write, main14, write_band,
  write_optional, program_lo,
}
use quadrf_mesh.Radio.Chip.{Works, Holds, after_read}

module _ {B : Type 0} (driver : Driver B) (works : Works driver) where
  open works use {reg, put}

  -- What every write to a chip keeps, a transaction with it keeps.
  module _ (a : ℕ) (P : B → Type 0) (keep : (v : ℕ) (b : B) → P b → P (put a v b)) where
    write-keeps : (v : ℕ) (t : Transaction B) → P t.device → P (write driver a v t).device
    unfolding write
    write-keeps v t p = elim (Bool-cases t.ok) [
      | inl ok ↦ rw (ok, works.writes a v t.device) (keep v t.device p)
      | inr failed ↦ rw failed p
    ]

    write_optional-keeps :
        (q : ℕ) (value : Option ℕ) (t : Transaction B)
        → P t.device
        → P (write_optional driver a q value t).device
    unfolding write_optional
    write_optional-keeps q none t p = p
    write_optional-keeps q (some value) t p = write-keeps (word q value) t p

    after_read-keeps : (b : B) → P b → P (after_read driver works a b)
    after_read-keeps b p =
        keep _ _ (keep _ _ (keep _ _ (keep _ _ (keep (word 14 (bit_or main14 2)) b p))))

  write_band-keeps :
      (chip : Chip) (P : B → Type 0)
      → ((v : ℕ) (b : B) → P b → P (put (address chip) v b))
      → (lo : ℕ) (t : Transaction B) → P t.device
      → P (write_band driver chip lo t).device
  unfolding write_band
  write_band-keeps tx_chip P keep lo t p = p
  write_band-keeps rx_chip P keep lo t p =
      write-keeps (address rx_chip) P keep (word 2 (max2851_lna_band_reg2 lo)) t p

  program_lo-keeps :
      (chip : Chip) (P : B → Type 0)
      → ((v : ℕ) (b : B) → P b → P (put (address chip) v b))
      → (lo : ℕ) (main0 main6 : Option ℕ) (b : B) → P b
      → P (program_lo driver chip lo main0 main6 b).1
  unfolding program_lo open_transaction
  program_lo-keeps chip P keep lo main0 main6 b p =
      let a = address chip in
      let through = write-keeps a P keep in
      write_band-keeps chip P keep lo _ (
        through _ _ (
          through _ _ (
            through _ _ (
              through _ _ (
                write_optional-keeps a P keep 0 main0 _
                  (write_optional-keeps a P keep 6 main6 _ p))))))

  -- The same words with the other chip, if its registers are apart.
  module _ (apart : (a c r v : ℕ) (b : B) → a ≢ c → reg c r (put a v b) ≡ reg c r b) where
    keeps_words :
        (a c : ℕ) (w : SynthWords)
        → a ≢ c
        → (v : ℕ) (b : B) → Holds driver works c w b
        → Holds driver works c w (put a v b)
    keeps_words a c w ne v b (h15, h16, h17) =
        (apart a c 15 v b ne ∙ h15, apart a c 16 v b ne ∙ h16, apart a c 17 v b ne ∙ h17)

    pub program_lo-other :
        (chip : Chip) (c : ℕ) (w : SynthWords) (lo : ℕ) (main0 main6 : Option ℕ) (b : B)
        → address chip ≢ c
        → Holds driver works c w b
        → Holds driver works c w (program_lo driver chip lo main0 main6 b).1
    program_lo-other chip c w lo main0 main6 b ne h =
        program_lo-keeps chip (Holds driver works c w) (keeps_words (address chip) c w ne) lo main0
          main6 b h

    pub after_read-other :
        (a c : ℕ) (w : SynthWords) (b : B)
        → a ≢ c
        → Holds driver works c w b
        → Holds driver works c w (after_read driver works a b)
    after_read-other a c w b ne h =
        after_read-keeps a (Holds driver works c w) (keeps_words a c w ne) b h

  -- A readback leaves the words of its own chip.
  after_read-register :
      (a r : ℕ) (b : B) → 14 ≢ r → reg a r (after_read driver works a b) ≡ reg a r b
  after_read-register a r b ne =
      works.leaves a 14 r main14 _ (omega arith) ne
      ∙ works.selects a 17 r _
      ∙ works.selects a 16 r _
      ∙ works.selects a 15 r _
      ∙ works.leaves a 14 r (bit_or main14 2) b (omega arith) ne

  pub after_read-own :
      (a : ℕ) (w : SynthWords) (b : B)
      → Holds driver works a w b
      → Holds driver works a w (after_read driver works a b)
  after_read-own a w b (h15, h16, h17) = (
    after_read-register a 15 b (λ e. omega (arith, e)) ∙ h15,
    after_read-register a 16 b (λ e. omega (arith, e)) ∙ h16,
    after_read-register a 17 b (λ e. omega (arith, e)) ∙ h17,
  )

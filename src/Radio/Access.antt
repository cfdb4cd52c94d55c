-- ===== src/Radio/Access.antt =====
-- src/radio/synth.cpp: transactions on the chips' registers. The driver is a parameter: whether the
-- device opens and what its lease answers, and the two register calls, each of which may fail. The
-- error texts are left out, and a closed device leaves no trace.
use quadrf_mesh.Base.{
  ℕ, ◌%◌, Bool, true, false, not, ◌&&◌, Option, none, some, bit_or, ◌==◌, leb, if◌then◌else◌,
}
use quadrf_mesh.Base.Words.{u16, shl, shr, low_bits}
use quadrf_mesh.Radio.Words.{word, synth_words, synth_lo, max2851_lna_band_reg2}

pub data Chip : Type 0 where
  tx_chip rx_chip : Chip

unfoldable pub address : Chip → ℕ
address tx_chip = 0x42
address rx_chip = 0x43

-- No device, a lease that another process holds, an error of the lease, a driver without leases, or
-- a lease.
pub data Attached : Type 0 where
  no_device lease_busy lease_error no_leases leased : Attached

pub record Driver (B : Type 0) : Type 0 where
  pub attach : B → Attached
  pub reg_write : ℕ → ℕ → B → Option B
  pub reg_read : ℕ → B → Option (ℕ × B)

pub record Transaction (B : Type 0) : Type 0 where
  pub ok : Bool
  pub device : B

unfoldable pub attached_ok : Attached → Bool
attached_ok no_device = false
attached_ok lease_busy = false
attached_ok lease_error = false
attached_ok no_leases = true
attached_ok leased = true

abbrev pub main14 : ℕ
main14 = 0x160

abbrev pub main27 : ℕ
main27 = 0x180

-- `kMain19AutoTx` and `kMain19AutoRx`.
unfoldable pub auto_select : Chip → ℕ
auto_select tx_chip = 0x05f
auto_select rx_chip = 0x0df

unfoldable pub read_command : ℕ → ℕ
read_command reg = u16 (bit_or 0x8000 (shl (low_bits reg 5) 10))

-- Bit 9 of Main15, which is always set, and not all bits of the three.
unfoldable pub is_plausible : ℕ → ℕ → ℕ → Bool
is_plausible r15 r16 r17 =
    not (shr r15 9 % 2 == 0) && not (r15 == 0x3ff && r16 == 0x3ff && r17 == 0x3ff)

module _ {B : Type 0} (driver : Driver B) where
  unfoldable pub open_transaction : B → Transaction B
  open_transaction device = record { ok = attached_ok (driver.attach device); device = device }

  unfoldable pub write : ℕ → ℕ → Transaction B → Transaction B
  write addr value t = if not t.ok then t else elim (driver.reg_write addr value t.device) [
    | none ↦ record t { ok = false }
    | some device ↦ record t { device = device }
  ]

  unfoldable pub read : ℕ → Transaction B → ℕ × Transaction B
  read addr t = if not t.ok then (0, t) else elim (driver.reg_read addr t.device) [
    | none ↦ (0, record t { ok = false })
    | some r ↦ (r.0, record t { device = r.1 })
  ]

  unfoldable pub read_main : ℕ → ℕ → Transaction B → ℕ × Transaction B
  read_main a reg t = let r = read a (write a (read_command reg) t) in (low_bits r.0 10, r.1)

  -- The LNA band of the receiver; nothing on the transmitter.
  unfoldable pub write_band : Chip → ℕ → Transaction B → Transaction B
  write_band tx_chip lo t = t
  write_band rx_chip lo t = write (address rx_chip) (word 2 (max2851_lna_band_reg2 lo)) t

  -- The rest of `readLo` behind the reads of Main17, Main16 and Main15.
  unfoldable pub after_main17 : ℕ → Bool → ℕ → ℕ → ℕ × Transaction B → Option (ℕ × ℕ × ℕ) × B
  after_main17 a mains r15 r16 t17 =
      let t0 = if mains then read_main a 0 t17.1 else (0, t17.1) in
      let t6 = if mains then read_main a 6 t0.1 else (0, t0.1) in
      let t = write a (word 14 main14) t6.1 in
      (
        (if t.ok && is_plausible r15 r16 t17.0
            then some (synth_lo r15 r16 t17.0, t0.0, t6.0)
            else none),
        t.device,
      )

  unfoldable pub after_main16 : ℕ → Bool → ℕ → ℕ × Transaction B → Option (ℕ × ℕ × ℕ) × B
  after_main16 a mains r15 t16 = after_main17 a mains r15 t16.0 (read_main a 17 t16.1)

  unfoldable pub after_main15 : ℕ → Bool → ℕ × Transaction B → Option (ℕ × ℕ × ℕ) × B
  after_main15 a mains t15 = after_main16 a mains t15.0 (read_main a 16 t15.1)

  -- The frequency and, where they are asked for, Main0 and Main6.
  unfoldable pub read_lo : Chip → Bool → B → Option (ℕ × ℕ × ℕ) × B
  read_lo chip mains device =
      let a = address chip in
      after_main15 a mains
        (read_main a 15 (write a (word 14 (bit_or main14 2)) (open_transaction device)))

  unfoldable pub write_optional : ℕ → ℕ → Option ℕ → Transaction B → Transaction B
  write_optional a reg none t = t
  write_optional a reg (some value) t = write a (word reg value) t

  unfoldable pub program_lo : Chip → ℕ → Option ℕ → Option ℕ → B → Bool × B
  program_lo chip lo main0 main6 device =
      let a = address chip in
      let restored =
        write_optional a 0 main0 (write_optional a 6 main6 (open_transaction device)) in
      let w = synth_words lo in
      let tuned =
        write a w.w17
          (write a w.w16 (write a w.w15 (write a (word 19 (auto_select chip)) restored))) in
      let t = write_band chip lo tuned in (t.ok, t.device)

pub record VcoState : Type 0 where
  pub main19 : ℕ
  pub band : ℕ
  pub tune_adc : ℕ

unfoldable pub is_auto_select : VcoState → Bool
is_auto_select st = not (shr st.main19 6 % 2 == 0)

unfoldable pub is_tune_in_range : VcoState → Bool
is_tune_in_range st = leb 1 st.tune_adc && leb st.tune_adc 6

module _ {B : Type 0} (driver : Driver B) where
  unfoldable pub read_vco : Chip → B → (Bool × VcoState) × B
  read_vco chip device =
      let a = address chip in
      let t19 =
        read_main driver a 19
          (write driver a (word 14 (bit_or main14 2)) (open_transaction driver device)) in
      let vas = read_main driver a 19 (write driver a (word 27 (bit_or main27 0x020)) t19.1) in
      let t = write driver a (word 14 main14) (write driver a (word 27 main27) vas.1) in
      (
        (
          t.ok,
          record { main19 = t19.0; band = low_bits vas.0 6; tune_adc = low_bits (shr vas.0 6) 3 },
        ),
        t.device,
      )

-- ===== src/Daemon/SwitchLaws.antt =====
-- apps/quadrf_lora_phy.cpp: what the switch of the front end does to a device that takes its writes.
use mathlib.Core.Path.{subst}
use quadrf_mesh.Base.{
  ℕ, zero, suc, ◌%◌, ◌^◌, ◌≡◌, ◌≢◌, ◌⊎◌, inl, inr, refl, sym, ap, ◌∙◌, arith, Bool, true, false,
  not, ◌||◌, none, some, if◌then◌else◌, leb, min,
}
use quadrf_mesh.Base.Words.{low_bits}
use quadrf_mesh.Daemon.Switch.{
  RfDriver, Attempt, SwitchState, SwitchOptions, fpga_spi, spi_main10_pa_on, spi_main10_pa_off,
  fpga_disable_tx, fpga_rx_gain, rx_gain_ducked, clamped_gain, write_register, pa_mute, pa_unmute,
  read_rx_gain, set_rx_gain, snapshot, unmute_tx_rf, mute_tx_rf,
}

-- Registers that keep what is written, each apart from the others. A read returns the register and
-- changes nothing, or throws.
pub record Registers {B : Type 0} (driver : RfDriver B) : Type 0 where
  pub reg : ℕ → B → ℕ
  pub put : ℕ → ℕ → B → B
  pub writes : (a v : ℕ) (b : B) → driver.reg_write a v b ≡ some (put a v b)
  pub sets : (a v : ℕ) (b : B) → reg a (put a v b) ≡ v
  pub leaves : (a c v : ℕ) (b : B) → a ≢ c → reg c (put a v b) ≡ reg c b
  pub reads :
      (a : ℕ) (b : B) → (driver.reg_read a b ≡ none) ⊎ (driver.reg_read a b ≡ some (reg a b, b))

module _ {B : Type 0} (driver : RfDriver B) where
  -- Unmuted some times.
  unfoldable pub unmute_times : SwitchOptions → ℕ → SwitchState B → SwitchState B
  unmute_times o zero s = s
  unmute_times o (suc n) s = unmute_times o n (unmute_tx_rf driver o s).1

module _ {B : Type 0} (driver : RfDriver B) (registers : Registers driver) (o : SwitchOptions)
    (sending : (not o.ota || o.rx_only) ≡ false) where
  open registers use {reg, put}

  abbrev live : B → Attempt B
  live b = record { ok = true; device = b }

  write-live : (a v : ℕ) (b : B) → write_register driver a v (live b) ≡ live (put a v b)
  unfolding write_register
  write-live a v b = rw (registers.writes a v b) refl

  abbrev ducked : B → B
  ducked b =
      put fpga_spi spi_main10_pa_on (put fpga_disable_tx 0 (put fpga_rx_gain rx_gain_ducked b))

  unmute-live :
      (b : B) → pa_unmute driver (set_rx_gain driver rx_gain_ducked (live b)) ≡ live (ducked b)
  unfolding pa_unmute set_rx_gain clamped_gain
  unmute-live b =
      ap
        (λ t.
          write_register driver fpga_spi spi_main10_pa_on
            (write_register driver fpga_disable_tx 0 t))
        (write-live fpga_rx_gain rx_gain_ducked b)
      ∙ ap (write_register driver fpga_spi spi_main10_pa_on) (write-live fpga_disable_tx 0 _)
      ∙ write-live fpga_spi spi_main10_pa_on _

  abbrev muted : ℕ → B → B
  muted gain b =
      put fpga_rx_gain (clamped_gain gain)
        (put fpga_disable_tx 1 (put fpga_spi spi_main10_pa_off b))

  pa_mute-live :
      (b : B)
      → pa_mute driver (live b) ≡ live (put fpga_disable_tx 1 (put fpga_spi spi_main10_pa_off b))
  unfolding pa_mute
  pa_mute-live b =
      ap (write_register driver fpga_disable_tx 1) (write-live fpga_spi spi_main10_pa_off b)
      ∙ write-live fpga_disable_tx 1 _

  abbrev unmuted : SwitchState B → SwitchState B
  unmuted s =
      let seen = snapshot driver o s.device in
      record { device = ducked seen.1; tx_unmuted = true; rx_gain_restore = seen.0 }

  unmute_again : (s : SwitchState B) → s.tx_unmuted ≡ true → (unmute_tx_rf driver o s).1 ≡ s
  unfolding unmute_tx_rf
  unmute_again s on = rw (sending, on) refl

  unmute_times_again :
      (n : ℕ) (s : SwitchState B) → s.tx_unmuted ≡ true → unmute_times driver o n s ≡ s
  unfolding unmute_times
  unmute_times_again zero s on = refl
  unmute_times_again (suc n) s on =
      ap (unmute_times driver o n) (unmute_again s on) ∙ unmute_times_again n s on

  unmute_first :
      (s : SwitchState B) → s.tx_unmuted ≡ false → (unmute_tx_rf driver o s).1 ≡ unmuted s
  unfolding unmute_tx_rf
  unmute_first s off =
      let seen = snapshot driver o s.device in
      let after : Attempt B → SwitchState B =
        λ t. record { device = t.device; tx_unmuted = t.ok; rx_gain_restore = seen.0 } in
      rw (sending, off) (ap after (unmute-live seen.1))

  mute_unmuted :
      (s : SwitchState B)
      → s.tx_unmuted ≡ true
      → mute_tx_rf driver o s
        ≡ (true, record s { device = muted s.rx_gain_restore s.device; tx_unmuted = false })
  unfolding mute_tx_rf set_rx_gain
  mute_unmuted s on =
      let value = clamped_gain s.rx_gain_restore in
      let after : Attempt B → Attempt B → Bool × SwitchState B =
        λ m t. (t.ok, record s { device = t.device; tx_unmuted = not m.ok }) in
      rw (sending, on)
        (ap (λ m. after m (write_register driver fpga_rx_gain value m)) (pa_mute-live s.device)
          ∙ ap (after (live s.device)) (write-live fpga_rx_gain value _))

  -- The gain that a muting restores: that of before, or where it could not be read the configured one
  -- within 0 and 63.
  abbrev pub Restores : ℕ → B → Type 0
  Restores gain b =
      ((driver.reg_read fpga_rx_gain b ≡ some (reg fpga_rx_gain b, b))
        × (gain ≡ reg fpga_rx_gain b % 2 ^ 6))
      ⊎ ((driver.reg_read fpga_rx_gain b ≡ none)
          × (gain ≡ (if leb (2 ^ 31) o.rx_gain then 0 else min o.rx_gain 63)))

  snapshot_read :
      (b : B) (r : ℕ × B)
      → driver.reg_read fpga_rx_gain b ≡ some r
      → snapshot driver o b ≡ (low_bits r.0 6, r.1)
  unfolding snapshot read_rx_gain
  snapshot_read b r got = rw (snapshot, read_rx_gain, got) refl

  snapshot_failed :
      (b : B) → driver.reg_read fpga_rx_gain b ≡ none → snapshot driver o b ≡ (o.rx_gain, b)
  unfolding snapshot read_rx_gain
  snapshot_failed b failed = rw (snapshot, read_rx_gain, failed) refl

  clamped_small : (x : ℕ) → clamped_gain (x % 2 ^ 6) ≡ x % 2 ^ 6
  unfolding clamped_gain
  clamped_small x = ground arith

  snapshot_lem :
      (b : B) → ((snapshot driver o b).1 ≡ b) × Restores (clamped_gain (snapshot driver o b).0) b
  unfolding clamped_gain
  snapshot_lem b = elim (registers.reads fpga_rx_gain b) [
    | inl failed ↦
        let e = snapshot_failed b failed in
        (ap (λ (r : ℕ × B). r.1) e, inr (failed, ap (λ (r : ℕ × B). clamped_gain r.0) e))
    | inr got ↦
        let e = snapshot_read b (reg fpga_rx_gain b, b) got in
        (
          ap (λ (r : ℕ × B). r.1) e,
          inl (got, ap (λ (r : ℕ × B). clamped_gain r.0) e ∙ clamped_small (reg fpga_rx_gain b)),
        )
  ]

  -- What holds of the device once it is unmuted, and of the end of a muting.
  abbrev pub Sending : SwitchState B → Type 0
  Sending t = (reg 0x42 t.device ≡ 0x2801) × (reg 0x23 t.device ≡ 0) × (reg 0x6a t.device ≡ 0)

  abbrev pub Listening : B → Bool × SwitchState B → Type 0
  Listening before r =
      (r.0 ≡ true)
      × (r.1.tx_unmuted ≡ false)
      × (reg 0x42 r.1.device ≡ 0x2800)
      × (reg 0x23 r.1.device ≡ 1)
      × Restores (reg 0x6a r.1.device) before

  apart : {a c : ℕ} → a ≢ c → (v : ℕ) (b : B) → reg c (put a v b) ≡ reg c b
  apart {a} {c} ne v b = registers.leaves a c v b ne

  ducked-Sending : (s : SwitchState B) → Sending (unmuted s)
  ducked-Sending s =
      let b = put fpga_rx_gain rx_gain_ducked (snapshot driver o s.device).1 in
      let c = put fpga_disable_tx 0 b in
      (
        registers.sets fpga_spi spi_main10_pa_on c,
        apart (λ e. omega (arith, e)) spi_main10_pa_on c ∙ registers.sets fpga_disable_tx 0 b,
        apart (λ e. omega (arith, e)) spi_main10_pa_on c
            ∙ apart (λ e. omega (arith, e)) 0 b
            ∙ registers.sets fpga_rx_gain rx_gain_ducked _,
      )

  muted-Listening : (s : SwitchState B) → Listening s.device (mute_tx_rf driver o (unmuted s))
  muted-Listening s =
      let gain = clamped_gain (snapshot driver o s.device).0 in
      let b = put fpga_spi spi_main10_pa_off (ducked (snapshot driver o s.device).1) in
      let c = put fpga_disable_tx 1 b in
      subst (Listening s.device) (sym (mute_unmuted (unmuted s) refl)) (
        refl,
        refl,
        apart (λ e. omega (arith, e)) gain c
            ∙ apart (λ e. omega (arith, e)) 1 b
            ∙ registers.sets fpga_spi spi_main10_pa_off _,
        apart (λ e. omega (arith, e)) gain c ∙ registers.sets fpga_disable_tx 1 b,
        subst (λ g. Restores g s.device) (sym (registers.sets fpga_rx_gain gain c))
            (snapshot_lem s.device).1,
      )

  -- With a device that takes the writes, in an application that may send: a muted switch that is
  -- unmuted, once or any number of times, has enabled the transmitter, switched the amplifier on and
  -- set the receive gain to 0. Muting it then succeeds, switches the amplifier off, disables the
  -- transmitter, and restores the gain that was read at the first of them, or the configured one,
  -- within 0 and 63, where the read threw.
  pub unmute_times-mute :
      (n : ℕ) (s : SwitchState B)
      → s.tx_unmuted ≡ false
      → let t = unmute_times driver o (suc n) s in
        Sending t × Listening s.device (mute_tx_rf driver o t)
  unfolding unmute_times
  unmute_times-mute n s off =
      let same : unmute_times driver o (suc n) s ≡ unmuted s =
        ap (unmute_times driver o n) (unmute_first s off) ∙ unmute_times_again n (unmuted s) refl in
      subst (λ t. Sending t × Listening s.device (mute_tx_rf driver o t)) (sym same)
        (ducked-Sending s, muted-Listening s)

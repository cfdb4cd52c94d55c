-- ===== src/Daemon/Switch.antt =====
-- apps/quadrf_lora_phy.cpp: the switch of the front end between listening and sending, with the calls
-- of src/radio/rf_frontend.cpp that it makes. The register calls of `RfFrontend`, which run the jtag
-- tool, are the parameter `RfDriver`: each may throw. What is behind a throw is not done; the texts
-- and the settling times are left out. `int` is its bit pattern.
use quadrf_mesh.Base.{
  ℕ, ◌^◌, Bool, true, false, not, ◌||◌, Option, none, some, leb, min, if◌then◌else◌,
}
use quadrf_mesh.Base.Words.{low_bits}

-- `readRegisterNoSetup` and `writeRegisterNoSetup`; `none` is a throw.
pub record RfDriver (B : Type 0) : Type 0 where
  pub reg_read : ℕ → B → Option (ℕ × B)
  pub reg_write : ℕ → ℕ → B → Option B

-- The device behind some calls, and whether none of them threw.
pub record Attempt (B : Type 0) : Type 0 where
  pub ok : Bool
  pub device : B

pub record SwitchState (B : Type 0) : Type 0 where
  pub device : B
  pub tx_unmuted : Bool
  pub rx_gain_restore : ℕ

-- `kFpgaSpi` and its two words for Main10, `kFpgaDisableTx`, and the register of the receive gain.
abbrev pub fpga_spi : ℕ
fpga_spi = 0x42

abbrev pub spi_main10_pa_on : ℕ
spi_main10_pa_on = 0x2801

abbrev pub spi_main10_pa_off : ℕ
spi_main10_pa_off = 0x2800

abbrev pub fpga_disable_tx : ℕ
fpga_disable_tx = 0x23

abbrev pub fpga_rx_gain : ℕ
fpga_rx_gain = 0x6a

abbrev pub rx_gain_ducked : ℕ
rx_gain_ducked = 0

-- The options of the command line.
pub record SwitchOptions : Type 0 where
  pub ota : Bool
  pub rx_only : Bool
  pub rx_gain : ℕ

-- `max(0, min(gain_db, 63))`.
unfoldable pub clamped_gain : ℕ → ℕ
clamped_gain gain_db = if leb (2 ^ 31) gain_db then 0 else min gain_db 63

module _ {B : Type 0} (driver : RfDriver B) where
  unfoldable pub write_register : ℕ → ℕ → Attempt B → Attempt B
  write_register addr value t =
      if not t.ok then t else elim (driver.reg_write addr value t.device) [
        | none ↦ record t { ok = false }
        | some device ↦ record t { device = device }
      ]

  unfoldable pub pa_mute : Attempt B → Attempt B
  pa_mute t = write_register fpga_disable_tx 1 (write_register fpga_spi spi_main10_pa_off t)

  unfoldable pub pa_unmute : Attempt B → Attempt B
  pa_unmute t = write_register fpga_spi spi_main10_pa_on (write_register fpga_disable_tx 0 t)

  unfoldable pub read_rx_gain : B → Option (ℕ × B)
  read_rx_gain device = elim (driver.reg_read fpga_rx_gain device) [
    | none ↦ none
    | some r ↦ some (low_bits r.0 6, r.1)
  ]

  unfoldable pub set_rx_gain : ℕ → Attempt B → Attempt B
  set_rx_gain gain_db t = write_register fpga_rx_gain (clamped_gain gain_db) t

  -- The gain to restore, and the device behind the reading of it.
  unfoldable pub snapshot : SwitchOptions → B → ℕ × B
  snapshot o device = elim (read_rx_gain device) [ none ↦ (o.rx_gain, device) | some r ↦ r ]

  -- `none` where an exception leaves the call.
  unfoldable pub unmute_tx_rf : SwitchOptions → SwitchState B → Option Bool × SwitchState B
  unmute_tx_rf o s =
      let seen = snapshot o s.device in
      let t = pa_unmute (set_rx_gain rx_gain_ducked (record { ok = true; device = seen.1 })) in
      if not o.ota || o.rx_only
      then (some false, s)
      else if s.tx_unmuted
      then (some false, s)
      else (
        if t.ok then some true else none,
        record { device = t.device; tx_unmuted = t.ok; rx_gain_restore = seen.0 },
      )

  -- `false` where an exception leaves the call. The switch is muted once the amplifier is.
  unfoldable pub mute_tx_rf : SwitchOptions → SwitchState B → Bool × SwitchState B
  mute_tx_rf o s =
      let muted = pa_mute (record { ok = true; device = s.device }) in
      let t = set_rx_gain s.rx_gain_restore muted in
      if not o.ota || o.rx_only
      then (true, s)
      else if s.tx_unmuted
      then (t.ok, record s { device = t.device; tx_unmuted = not muted.ok })
      else (true, s)

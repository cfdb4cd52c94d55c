-- ===== src/Backend/Modem.antt =====
-- integrations/meshtastic/backend/QuadRFRadio.cpp: the modem preset that the backend runs and
-- reports to the PHY. A bandwidth is a whole number of Hz where the source has kHz, so half a kHz is
-- 500. The firmware's `RadioInterface::reconfigure`, which sets the bandwidth, the spreading factor
-- and the code rate by the configuration, is the parameter `modem_of`, and its
-- `computeSlotTimeMsec` the parameter `slot_time_of`. `node_db` says that the firmware's database is
-- there, and `saves` counts its writes to disk.
use quadrf_mesh.Base.{
  ℕ, ◌+◌, ◌-◌, ◌*◌, ◌/◌, Bool, true, not, ◌&&◌, Option, none, some, List, [], ◌∷◌, ◌==◌, ltb, leb,
  if◌then◌else◌,
}
use quadrf_mesh.Base.Words.{shl}
use quadrf_mesh.AirIpc.Messages.{SetModem}

-- The firmware's presets: those that the source names, and the others.
pub data ModemPreset : Type 0 where
  short_turbo short_fast short_slow medium_fast medium_slow : ModemPreset
  long_fast long_moderate long_slow very_long_slow long_turbo : ModemPreset
  other_preset : ℕ → ModemPreset

unfoldable pub modem_preset_tag : ModemPreset → ℕ
modem_preset_tag short_turbo = 0
modem_preset_tag short_fast = 1
modem_preset_tag short_slow = 2
modem_preset_tag medium_fast = 3
modem_preset_tag medium_slow = 4
modem_preset_tag long_fast = 5
modem_preset_tag long_moderate = 6
modem_preset_tag long_slow = 7
modem_preset_tag very_long_slow = 8
modem_preset_tag long_turbo = 9
modem_preset_tag (other_preset n) = n + 10

pub record PhyPreset : Type 0 where
  pub preset : ModemPreset
  pub id : ℕ
  pub bw_hz : ℕ
  pub sf : ℕ
  pub cr : ℕ

abbrev row : ModemPreset → ℕ → ℕ → ℕ → ℕ → PhyPreset
row preset id bw_hz sf cr = record { preset = preset; id = id; bw_hz = bw_hz; sf = sf; cr = cr }

unfoldable pub phy_presets : List PhyPreset
phy_presets =
    row short_turbo 0 500000 7 5
    ∷ row short_fast 1 250000 7 5
    ∷ row short_slow 2 250000 8 5
    ∷ row medium_fast 3 250000 9 5
    ∷ row medium_slow 4 250000 10 5
    ∷ row long_fast 5 250000 11 5
    ∷ row long_moderate 6 125000 11 8
    ∷ row long_slow 7 125000 12 8
    ∷ row very_long_slow 8 62500 12 8
    ∷ row long_turbo 9 500000 11 8
    ∷ []

unfoldable pub first_preset : (PhyPreset → Bool) → List PhyPreset → Option PhyPreset
first_preset test [] = none
first_preset test (p ∷ presets) =
    let rest = first_preset test presets in if test p then some p else rest

unfoldable pub phy_preset_for : ModemPreset → Option PhyPreset
phy_preset_for preset =
    first_preset (λ p. modem_preset_tag p.preset == modem_preset_tag preset) phy_presets

-- `std::fabs(a - b) < 0.5f`.
unfoldable pub near : ℕ → ℕ → Bool
near a b = ltb (a - b + (b - a)) 500

unfoldable pub phy_preset_for_params : ℕ → ℕ → ℕ → Option PhyPreset
phy_preset_for_params bw sf cr =
    first_preset (λ p. near p.bw_hz bw && p.sf == sf && p.cr == cr) phy_presets

pub record LoraConfig : Type 0 where
  pub use_preset : Bool
  pub modem_preset : ModemPreset
  pub coding_rate : ℕ
  pub channel_num : ℕ
  pub override_frequency : ℕ

-- The members that `RadioInterface` computes; `cr` is 5 to 8.
pub record Modem : Type 0 where
  pub bw : ℕ
  pub sf : ℕ
  pub cr : ℕ

pub record Settings : Type 0 where
  pub config : LoraConfig
  pub modem : Modem
  pub slot_time_msec : ℕ
  pub preamble_time_msec : ℕ
  pub preamble_length : ℕ
  pub node_db : Bool
  pub saves : ℕ

unfoldable pub save_to_disk : Settings → Settings
save_to_disk s = if s.node_db then record s { saves = s.saves + 1 } else s

unfoldable pub clear_override_frequency : Settings → Settings
clear_override_frequency s =
    if s.config.override_frequency == 0
    then s
    else save_to_disk (record s { config = record s.config { override_frequency = 0 } })

unfoldable pub revert_to_short_turbo : Settings → Settings
revert_to_short_turbo s = save_to_disk (record s {
  config = record s.config { use_preset = true; modem_preset = short_turbo; coding_rate = 0 };
})

module _ (modem_of : LoraConfig → Modem) (slot_time_of : Modem → ℕ) where
  unfoldable pub interface_reconfigure : Settings → Settings
  interface_reconfigure s = record s { modem = modem_of s.config }

  unfoldable pub phy_preset_from_meshtastic : Settings → ℕ × Settings
  phy_preset_from_meshtastic s =
      let reverted : ℕ × Settings = (0, interface_reconfigure (revert_to_short_turbo s)) in
      let rate = s.config.coding_rate in
      if s.config.use_preset
      then elim (phy_preset_for s.config.modem_preset) [
        | none ↦ reverted
        | some p ↦
            if leb 5 rate && leb rate 8 && not (rate == p.cr)
            then (
              p.id,
              interface_reconfigure
                  (save_to_disk (record s { config = record s.config { coding_rate = 0 } })),
            )
            else (p.id, s)
      ]
      else elim (phy_preset_for_params s.modem.bw s.modem.sf s.modem.cr) [
        | none ↦ reverted
        | some p ↦ (p.id, s)
      ]

  unfoldable pub apply_phy_modem_timing : Settings → Settings
  apply_phy_modem_timing s =
      if s.config.use_preset
        && modem_preset_tag s.config.modem_preset == modem_preset_tag very_long_slow
      then elim (phy_preset_for s.config.modem_preset) [
        | none ↦ s
        | some p ↦
            let modem : Modem = record { bw = p.bw_hz; sf = p.sf; cr = p.cr } in
            record s {
              modem = modem;
              slot_time_msec = slot_time_of modem;
              preamble_time_msec = s.preamble_length * shl 1 p.sf * 1000 / p.bw_hz;
            }
      ]
      else s

  -- The message for the PHY, and the settings behind it.
  unfoldable pub push_modem_to_phy : Settings → SetModem × Settings
  push_modem_to_phy s =
      let chosen = phy_preset_from_meshtastic s in
      (record { preset = chosen.0 }, apply_phy_modem_timing chosen.1)

  unfoldable pub reconfigure : Settings → SetModem × Settings
  reconfigure s = push_modem_to_phy (interface_reconfigure (clear_override_frequency s))

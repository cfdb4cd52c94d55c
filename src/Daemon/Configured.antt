-- ===== src/Daemon/Configured.antt =====
-- The backend of integrations/meshtastic/backend/QuadRFRadio.cpp as the client of
-- apps/quadrf_lora_phy.cpp: a new configuration of the firmware reaches the daemon's modem.
use quadrf_mesh.Base.{◌+◌, ◌≡◌, true}
use quadrf_mesh.Backend.Modem.{Modem, near}
use quadrf_mesh.Daemon.Phy.{Phy, Platform}
use quadrf_mesh.Daemon.ModemLaws.{wanted_setup}

module _ {S Ddc Rx : Type 0} (platform : Platform S Ddc Rx) where
  -- The daemon's modem, and that of its transmitter, has the numbers that the backend computes with.
  pub record RunsModem (s : Phy S Ddc Rx) (modem : Modem) : Type 0 where
    pub same_bw : near s.params.bandwidth_hz modem.bw ≡ true
    pub same_sf : s.params.coding.spreading_factor ≡ modem.sf
    pub same_cr : s.params.coding.cr + 4 ≡ modem.cr
    pub sends_sf : s.sender.tx.setup.modulator.params.spreading_factor ≡ modem.sf
    pub sends_cr : s.sender.tx.setup.modulator.params.cr + 4 ≡ modem.cr
    pub sends_all : s.sender.tx.setup ≡ wanted_setup platform s.params

-- ===== src/Daemon/Delivered.antt =====
-- apps/quadrf_lora_phy.cpp: the received frames through `drainRx`, the socket and the client's
-- deframer and decoder.
use quadrf_mesh.Base.{◌^◌, ◌<◌, List, [], ◌∷◌}
use quadrf_mesh.AirIpc.Floats.{FloatOps}
use quadrf_mesh.AirIpc.Messages.{RxIndicate}
use quadrf_mesh.AirIpc.Deframer.{Frame}
use quadrf_mesh.AirIpc.Framing.{Wire}
use quadrf_mesh.Daemon.Phy.{Phy}
use quadrf_mesh.Daemon.Heard.{Received, frame_of}

module _ (ops : FloatOps) where
  open ops use {Float}

  frames_of : List (RxIndicate Float) → List Frame
  frames_of [] = []
  frames_of (m ∷ messages) = frame_of ops m ∷ frames_of messages

  -- The integer fields fit their types.
  abbrev Fits : RxIndicate Float → Type 0
  Fits m = (m.rssi_dbm < 2 ^ 16) × (m.cfo_hz < 2 ^ 32) × (m.freq_hz < 2 ^ 64)

  abbrev pub CfoFits : Received ops → Type 0
  CfoFits received = received.0.cfo_hz < 2 ^ 32

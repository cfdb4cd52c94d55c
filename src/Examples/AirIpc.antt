-- ===== src/Examples/AirIpc.antt =====
-- Concrete frames on the link of include/quadrf/air_ipc.hpp.
use quadrf_mesh.Base.{
  ℕ, zero, suc, ◌+◌, ◌-◌, ◌*◌, ◌/◌, ◌%◌, ◌^◌, ◌≤◌, ◌<◌, ◌≡◌, refl, arith, some, List, [], ◌∷◌, ltb,
  leb, All,
}
use quadrf_mesh.Base.Words.{bytes}
use quadrf_mesh.AirIpc.Wire.{quantize_frequency_hz, encode_frame}
use quadrf_mesh.AirIpc.Floats.{FloatOps}
use quadrf_mesh.AirIpc.Messages.{TxEnqueue, RxIndicate, encode_tx, decode_tx}
use quadrf_mesh.AirIpc.Deframer.{Frame, Deframer, State, feed, fresh}
use quadrf_mesh.AirIpc.Framing.{Wire, IsNoise, scanning, feed-Wire}
use quadrf_mesh.AirIpc.Soundness.{OnWire, feed-OnWire}
use quadrf_mesh.AirIpc.Recovery.{IsValid, Counted, feed_recovers, feed-Counted}
use quadrf_mesh.AirIpc.RoundTrip.{Delivers, decode_tx-encode_tx}
use quadrf_mesh.AirIpc.Frequency.{quantize_frequency_hz_bounds}

abbrev preset_frame : Frame
preset_frame = record { type = 3; body = 7 ∷ [] }

abbrev preset_bytes : List ℕ
preset_bytes = 0x51 ∷ 0x46 ∷ 1 ∷ 3 ∷ 0 ∷ 1 ∷ 7 ∷ []

abbrev noisy_wire : List ℕ
noisy_wire = 9 ∷ 0x51 ∷ 0x46 ∷ 1 ∷ 3 ∷ 0 ∷ 1 ∷ 7 ∷ 8 ∷ []

noisy_wire-Wire : Wire (preset_frame ∷ []) noisy_wire
unfolding encode_frame
noisy_wire-Wire =
    Wire.next (9 ∷ []) preset_frame preset_bytes (omega arith, _) refl refl
      (Wire.done (8 ∷ []) (omega arith, _))

feed-Wire_example :
    feed (scanning 0 0 0) (bytes noisy_wire) []
    ≡ record { deframer = scanning 3 1 0; output = preset_frame ∷ []; produced = 1 }
feed-Wire_example = feed-Wire 0 0 0 [] (omega arith) noisy_wire-Wire

feed-OnWire_example : All (OnWire noisy_wire) (feed fresh (bytes noisy_wire) []).output
feed-OnWire_example = feed-OnWire noisy_wire (ground arith)

abbrev inside_body : Deframer
inside_body = record {
  state = State.body;
  type = 1;
  body_length = 40;
  body = 1 ∷ 2 ∷ [];
  frames_ok = 5;
  frames_rejected = 1;
}

abbrev repeated : ℕ → List ℕ
repeated zero = []
repeated (suc n) = 7 ∷ repeated n

repeated-IsNoise : (n : ℕ) → IsNoise (repeated n)
repeated-IsNoise zero = _
repeated-IsNoise (suc n) = (omega arith, repeated-IsNoise n)

feed_recovers_example :
    (feed inside_body (bytes (repeated 300)) []).deframer.state ≡ State.scan_magic0
feed_recovers_example =
    feed_recovers inside_body (repeated 300) [] (omega arith, omega arith) (repeated-IsNoise 300)
      (omega arith)

feed-Counted_example :
    IsValid (feed inside_body (bytes preset_bytes) []).deframer
    × Counted 7 inside_body [] (feed inside_body (bytes preset_bytes) [])
feed-Counted_example =
    feed-Counted inside_body (bytes preset_bytes) [] (omega arith, omega arith)
      (record { ok = omega arith; rejected = omega arith })

abbrev sixteen : List ℕ
sixteen = 1 ∷ 2 ∷ 3 ∷ 4 ∷ 5 ∷ 6 ∷ 7 ∷ 8 ∷ 9 ∷ 10 ∷ 11 ∷ 12 ∷ 13 ∷ 14 ∷ 15 ∷ 16 ∷ []

abbrev tx_message : TxEnqueue
tx_message = record { freq_hz = 5_800_000_000; air = sixteen }

decode_tx-encode_tx_example :
    (body : List ℕ) × (wire : List ℕ) × (encode_tx tx_message ≡ some wire)
    × Delivers 1 body wire 3 5 1 []
    × (decode_tx (bytes body) ≡ some tx_message)
decode_tx-encode_tx_example =
    decode_tx-encode_tx tx_message 3 5 1 [] (omega arith) (omega arith) (omega arith)

-- Fixed-point numbers of hundredths in place of floats.
abbrev pub hundredths : FloatOps
hundredths = record {
  Float = ℕ;
  mul = λ x y. x * y / 100;
  add = λ x y. x + y;
  sub = λ x y. x - y;
  lt = ltb;
  le = leb;
  hundred = 10000;
  hundredth = 1;
  zero_f = 0;
  half = 50;
  i16_max = 3276700;
  i16_min = 0;
  i32_max = 214748364700;
  i32_min = 0;
  of_i16 = λ x. x * 100;
  of_i32 = λ x. x * 100;
  to_i16 = λ x. x / 100 % 2 ^ 16;
  to_i32 = λ x. x / 100 % 2 ^ 32;
  to_i16-lt = λ x. omega arith;
  to_i32-lt = λ x. omega arith;
}

abbrev rx_message : RxIndicate ℕ
rx_message = record {
  snr_db = 725;
  rssi_dbm = 65436;
  cfo_hz = 1200;
  rate_ppm = 31;
  freq_hz = 5_800_000_000;
  sir_db = 900;
  lvl_dbfs = 12;
  air = sixteen;
}

quantize_frequency_hz_bounds_example :
    let q = quantize_frequency_hz 5_800_000_499 in
    (q % 1000 ≡ 0)
    × (q < 2 ^ 64)
    × (q ≤ 5_800_000_499 + 500)
    × (5_800_000_499 ≤ q + 615)
    × (quantize_frequency_hz q ≡ q)
quantize_frequency_hz_bounds_example = quantize_frequency_hz_bounds 5_800_000_499 (omega arith)

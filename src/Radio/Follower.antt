-- ===== src/Radio/Follower.antt =====
-- src/radio/synth.cpp and include/phy/radio/synth.hpp: class LoFollower. A frequency is a whole number
-- of 1/2^20 Hz, as in Words; the intermediate frequency is not above the channel.
use quadrf_mesh.Base.{ℕ, ◌+◌, ◌-◌, Bool, not, ◌&&◌, Option, none, some, ltb, if◌then◌else◌}

pub record LoFollower : Type 0 where
  pub channel : ℕ
  pub intermediate : ℕ
  pub tolerance : ℕ
  pub tx_expect : ℕ
  pub rx_expect : ℕ

pub record Retune : Type 0 where
  pub tx_moved : Bool
  pub rx_moved : Bool
  pub new_channel : ℕ

unfoldable pub new_follower : ℕ → ℕ → ℕ → LoFollower
new_follower channel intermediate tolerance = record {
  channel = channel;
  intermediate = intermediate;
  tolerance = tolerance;
  tx_expect = channel;
  rx_expect = channel - intermediate;
}

unfoldable pub rx_lo : LoFollower → ℕ
rx_lo f = f.channel - f.intermediate

-- Further apart than the tolerance.
unfoldable pub has_moved : ℕ → ℕ → ℕ → Bool
has_moved tolerance lo expected = ltb tolerance ((lo - expected) + (expected - lo))

unfoldable pub observe : ℕ → ℕ → LoFollower → Option Retune × LoFollower
observe tx_lo rx_lo f =
    let tx_moved = has_moved f.tolerance tx_lo f.tx_expect in
    let rx_moved = has_moved f.tolerance rx_lo f.rx_expect in
    let channel = if tx_moved then tx_lo else rx_lo in
    if not tx_moved && not rx_moved then (none, f) else (
      some (record { tx_moved = tx_moved; rx_moved = rx_moved; new_channel = channel }),
      record f { channel = channel },
    )

unfoldable pub programmed : ℕ → ℕ → LoFollower → LoFollower
programmed tx_lo rx_lo f = record f { tx_expect = tx_lo; rx_expect = rx_lo }

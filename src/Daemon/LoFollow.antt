-- ===== src/Daemon/LoFollow.antt =====
-- apps/quadrf_lora_phy.cpp: the poll of the main loop that follows the oscillators of the chips. The
-- error texts and the log are left out; `frequencyMHzToQuantizedHz` is the parameter `quantized`.
use quadrf_mesh.Base.{ℕ, Bool, true, false, not, ◌&&◌, Option, none, some, ◌==◌, if◌then◌else◌}
use quadrf_mesh.Radio.Words.{synth_words, synth_lo}
use quadrf_mesh.Radio.Access.{tx_chip, rx_chip, Driver, read_lo, program_lo}
use quadrf_mesh.Radio.Follower.{LoFollower, Retune, rx_lo, observe, programmed}

-- Where there is a follower.
pub record Following (B : Type 0) : Type 0 where
  pub follower : LoFollower
  pub lo_primed : Bool
  pub tx_unmuted : Bool
  pub center_hz : ℕ
  pub device : B

-- What a chip reads back of the words of a frequency.
unfoldable pub ideal_lo : ℕ → ℕ
ideal_lo lo = let w = synth_words lo in synth_lo w.w15 w.w16 w.w17

unfoldable pub restored : Bool → ℕ → ℕ → Option ℕ
restored moved value configured =
    if moved && not (value == configured) then some configured else none

module _ {B : Type 0} (driver : Driver B) where
  -- The readbacks of both chips, with Main0 and Main6 of the receiver, where both succeed.
  unfoldable pub read_both : B → Option (ℕ × ℕ × ℕ × ℕ) × B
  read_both device =
      let tx = read_lo driver tx_chip false device in
      let rx = read_lo driver rx_chip true tx.1 in
      elim tx.0 [
        | none ↦ (none, tx.1)
        | some t ↦ (elim rx.0 [ none ↦ none | some r ↦ some (t.0, r.0, r.1, r.2) ], rx.1)
      ]

  -- The readbacks behind the writes, or else what the words mean.
  unfoldable pub read_again : Bool → ℕ → ℕ → B → (ℕ × ℕ) × B
  read_again ok channel rx_target device =
      let tx = read_lo driver tx_chip false device in
      let rx = read_lo driver rx_chip false tx.1 in
      let ideal : ℕ × ℕ = (ideal_lo channel, ideal_lo rx_target) in
      if ok
      then elim tx.0 [
        | none ↦ (ideal, tx.1)
        | some t ↦ (elim rx.0 [ none ↦ ideal | some r ↦ (t.0, r.0) ], rx.1)
      ]
      else (ideal, device)

module _ {B : Type 0} (driver : Driver B) (quantized : ℕ → ℕ) (rx_main0 rx_main6 : ℕ) where
  -- The receiver first, then the transmitter.
  unfoldable pub retune : Retune → ℕ → ℕ → LoFollower → Following B → Following B
  retune rt main0 main6 f s =
      let channel = rt.new_channel in
      let rx_target = rx_lo f in
      let rx =
        program_lo driver rx_chip rx_target (restored rt.rx_moved main0 rx_main0)
          (restored rt.rx_moved main6 rx_main6) s.device in
      let tx = program_lo driver tx_chip channel none none rx.1 in
      let again = read_again driver (tx.0 && rx.0) channel rx_target tx.1 in
      record s {
        follower = programmed again.0.0 again.0.1 f;
        center_hz = quantized channel;
        device = again.1;
      }

  unfoldable pub follow_seen : Option Retune × LoFollower → ℕ → ℕ → Following B → Following B
  follow_seen (none, f) main0 main6 s = s
  follow_seen (some rt, f) main0 main6 s = retune rt main0 main6 f s

  unfoldable pub follow : ℕ × ℕ × ℕ × ℕ → Following B → Following B
  follow r s =
      let first = record s { follower = programmed r.0 r.1 s.follower; lo_primed = true } in
      let later = follow_seen (observe r.0 r.1 s.follower) r.2 r.3 s in
      if not s.lo_primed then first else later

  -- Nothing while the transmitter is unmuted.
  unfoldable pub poll_lo_follow : Following B → Following B
  poll_lo_follow s =
      let both = read_both driver s.device in
      let read = record s { device = both.1 } in
      if s.tx_unmuted then s else elim both.0 [ none ↦ read | some r ↦ follow r read ]

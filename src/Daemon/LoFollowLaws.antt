-- ===== src/Daemon/LoFollowLaws.antt =====
-- apps/quadrf_lora_phy.cpp: what a poll of the oscillators does.
use mathlib.Core.Path.{subst}
use quadrf_mesh.Base.{
  ℕ, ◌+◌, ◌-◌, ◌*◌, ◌≤◌, ◌<◌, ◌≡◌, ◌≢◌, refl, sym, ap, ap₂, ◌∙◌, arith, Bool, true, false, not,
  ◌&&◌, ◌||◌, Option, none, some, if◌then◌else◌,
}
use quadrf_mesh.Radio.Words.{ref, synth_words}
use quadrf_mesh.Radio.Rounding.{synth_lo-synth_words}
use quadrf_mesh.Radio.Access.{tx_chip, rx_chip, address, Driver, read_lo, program_lo}
use quadrf_mesh.Radio.Chip.{Works, Holds, after_read, read_value, read_lo-Holds, program_lo-live}
use quadrf_mesh.Radio.TwoChips.{program_lo-other, after_read-other, after_read-own}
use quadrf_mesh.Radio.Follower.{LoFollower, Retune, has_moved, observe, programmed, rx_lo}
use quadrf_mesh.Daemon.LoFollow.{
  Following, ideal_lo, restored, read_both, read_again, retune, follow_seen, follow, poll_lo_follow,
}

observe-still :
    (tx rx : ℕ) (f : LoFollower)
    → (has_moved f.tolerance tx f.tx_expect || has_moved f.tolerance rx f.rx_expect) ≡ false
    → observe tx rx f ≡ (none, f)
unfolding observe
observe-still tx rx f still =
    let a = has_moved f.tolerance tx f.tx_expect in
    let b = has_moved f.tolerance rx f.rx_expect in
    let retuned : Retune = record {
      tx_moved = a;
      rx_moved = b;
      new_channel = if a then tx else rx;
    } in
    ap (λ c. if c then (none, f) else (some retuned, record f { channel = if a then tx else rx }))
      (both a b still)
  where
    both : (a b : Bool) → (a || b) ≡ false → (not a && not b) ≡ true
    both false false e = refl
    both false true e = absurd (cc)
    both true b e = absurd (cc)

module _ {B : Type 0} where
  abbrev pub tx_seen : Following B → ℕ → Bool
  tx_seen s lo = has_moved s.follower.tolerance lo s.follower.tx_expect

  abbrev pub rx_seen : Following B → ℕ → Bool
  rx_seen s lo = has_moved s.follower.tolerance lo s.follower.rx_expect

-- Within half a step of the synthesizer.
abbrev pub IsNear : ℕ → ℕ → Type 0
IsNear n lo = (n ≤ lo + 40000000) × (lo ≤ n + 40000000)

module _ {B : Type 0} (driver : Driver B) (quantized : ℕ → ℕ) where
  -- Both chips read back what the follower expects of them: the transmitter the channel, the receiver
  -- the channel less the intermediate frequency.
  pub record TunedTo (channel : ℕ) (s : Following B) : Type 0 where
    pub follows : s.follower.channel ≡ channel
    pub center : s.center_hz ≡ quantized channel
    pub tx_reads : (read_lo driver tx_chip false s.device).0 ≡ some (s.follower.tx_expect, 0, 0)
    pub rx_reads : (read_lo driver rx_chip false s.device).0 ≡ some (s.follower.rx_expect, 0, 0)
    pub tx_near : IsNear s.follower.tx_expect channel
    pub rx_near : IsNear s.follower.rx_expect (channel - s.follower.intermediate)

module _ {B : Type 0} (driver : Driver B) (quantized : ℕ → ℕ) (rx_main0 rx_main6 : ℕ) where
  abbrev seen_retune : ℕ → ℕ → Following B → Retune
  seen_retune tx rx s = record {
    tx_moved = tx_seen s tx;
    rx_moved = rx_seen s rx;
    new_channel = if tx_seen s tx then tx else rx;
  }

  observe-moved :
      (tx rx : ℕ) (s : Following B)
      → (tx_seen s tx || rx_seen s rx) ≡ true
      → let rt = seen_retune tx rx s in
        observe tx rx s.follower ≡ (some rt, record s.follower { channel = rt.new_channel })
  unfolding observe
  observe-moved tx rx s moved =
      let rt = seen_retune tx rx s in
      ap
        (λ b.
          if b
          then (none, s.follower)
          else (some rt, record s.follower { channel = rt.new_channel }))
        (neither (tx_seen s tx) (rx_seen s rx) moved)
    where
      neither : (a b : Bool) → (a || b) ≡ true → (not a && not b) ≡ false
      neither true b e = refl
      neither false true e = refl
      neither false false e = absurd (cc)

  follow_primed :
      (tx rx main0 main6 : ℕ) (s : Following B)
      → s.lo_primed ≡ true
      → follow driver quantized rx_main0 rx_main6 (tx, rx, main0, main6) s
        ≡ follow_seen driver quantized rx_main0 rx_main6 (observe tx rx s.follower) main0 main6 s
  unfolding follow
  follow_primed tx rx main0 main6 s primed =
      let first : Following B = record s {
        follower = programmed tx rx s.follower;
        lo_primed = true;
      } in
      ap
        (λ b.
          if not b
          then first
          else follow_seen driver quantized rx_main0 rx_main6 (observe tx rx s.follower) main0 main6
              s)
        primed

  follow_still :
      (tx rx main0 main6 : ℕ) (s : Following B)
      → s.lo_primed ≡ true
      → (tx_seen s tx || rx_seen s rx) ≡ false
      → follow driver quantized rx_main0 rx_main6 (tx, rx, main0, main6) s ≡ s
  unfolding follow_seen
  follow_still tx rx main0 main6 s primed still =
      follow_primed tx rx main0 main6 s primed
      ∙ ap (λ o. follow_seen driver quantized rx_main0 rx_main6 o main0 main6 s)
          (observe-still tx rx s.follower still)

  follow_moved :
      (tx rx main0 main6 : ℕ) (s : Following B)
      → s.lo_primed ≡ true
      → (tx_seen s tx || rx_seen s rx) ≡ true
      → let rt = seen_retune tx rx s in
        follow driver quantized rx_main0 rx_main6 (tx, rx, main0, main6) s
        ≡ retune driver quantized rx_main0 rx_main6 rt main0 main6
            (record s.follower { channel = rt.new_channel })
            s
  unfolding follow_seen
  follow_moved tx rx main0 main6 s primed moved =
      follow_primed tx rx main0 main6 s primed
      ∙ ap (λ o. follow_seen driver quantized rx_main0 rx_main6 o main0 main6 s)
          (observe-moved tx rx s moved)

  module _ (works : Works driver)
      (apart : (a c r v : ℕ) (b : B)
        → a ≢ c
        → works.reg c r (works.put a v b) ≡ works.reg c r b) where
    abbrev value : ℕ → ℕ
    value = read_value driver works

    value-IsNear : (lo : ℕ) → lo + 40000000 < 128 * ref → IsNear (value lo) lo
    value-IsNear lo below =
        let (above, under, low, high) = synth_lo-synth_words lo below in
        (omega (arith, above), omega (arith, under))

    -- The words of both frequencies are in the chips.
    abbrev Both : ℕ → ℕ → B → Type 0
    Both tx rx b =
        Holds driver works 0x42 (synth_words tx) b × Holds driver works 0x43 (synth_words rx) b

    after_tx : (tx rx : ℕ) (b : B) → Both tx rx b → Both tx rx (after_read driver works 0x42 b)
    after_tx tx rx b (held, other) = (
      after_read-own driver works 0x42 (synth_words tx) b held,
      after_read-other driver works apart 0x42 0x43 (synth_words rx) b (λ e. omega (arith, e))
          other,
    )

    after_rx : (tx rx : ℕ) (b : B) → Both tx rx b → Both tx rx (after_read driver works 0x43 b)
    after_rx tx rx b (other, held) = (
      after_read-other driver works apart 0x43 0x42 (synth_words tx) b (λ e. omega (arith, e))
          other,
      after_read-own driver works 0x43 (synth_words rx) b held,
    )

    read_again-Both :
        (tx rx : ℕ) (b : B)
        → tx + 40000000 < 128 * ref
        → rx + 40000000 < 128 * ref
        → Both tx rx b
        → let a = after_read driver works 0x42 b in
          read_again driver true tx rx b ≡ ((value tx, value rx), after_read driver works 0x43 a)
    unfolding read_again address
    read_again-Both tx rx b tx_below rx_below both =
        let a = after_read driver works 0x42 b in
        let first = read_lo-Holds driver works tx_chip tx b tx_below both.0 in
        let second = read_lo-Holds driver works rx_chip rx a rx_below (after_tx tx rx b both).1 in
        let out : Option (ℕ × ℕ × ℕ) × B → Option (ℕ × ℕ × ℕ) × B → (ℕ × ℕ) × B = λ t r. elim t.0 [
          | none ↦ ((ideal_lo tx, ideal_lo rx), t.1)
          | some x ↦ (elim r.0 [ none ↦ (ideal_lo tx, ideal_lo rx) | some y ↦ (x.0, y.0) ], r.1)
        ] in
        ap (λ t. out t (read_lo driver rx_chip false t.1)) first
        ∙ ap (out (some (value tx, 0, 0), a)) second

    programmed-Both :
        (tx rx : ℕ) (main0 main6 : Option ℕ) (b : B)
        → let r = program_lo driver rx_chip rx main0 main6 b in
          let t = program_lo driver tx_chip tx none none r.1 in
          ((t.0 && r.0) ≡ true) × Both tx rx t.1
    unfolding address
    programmed-Both tx rx main0 main6 b =
        let r = program_lo driver rx_chip rx main0 main6 b in
        let (r_ok, r_held) = program_lo-live driver works rx_chip rx main0 main6 b in
        let (t_ok, t_held) = program_lo-live driver works tx_chip tx none none r.1 in
        (
          ap₂ ◌&&◌ t_ok r_ok,
          (
            t_held,
            program_lo-other driver works apart tx_chip 0x43 (synth_words rx) tx none none r.1
                (λ e. omega (arith, e)) r_held,
          ),
        )

    retune-TunedTo :
        (rt : Retune) (main0 main6 : ℕ) (f : LoFollower) (s : Following B)
        → f.channel ≡ rt.new_channel
        → rt.new_channel + 40000000 < 128 * ref
        → TunedTo driver quantized rt.new_channel
            (retune driver quantized rx_main0 rx_main6 rt main0 main6 f s)
    unfolding retune programmed rx_lo address
    retune-TunedTo rt main0 main6 f s same below =
        let tx = rt.new_channel in
        let rx = f.channel - f.intermediate in
        let rx_below : rx + 40000000 < 128 * ref = omega (arith, same, below) in
        let m0 = restored rt.rx_moved main0 rx_main0 in
        let m6 = restored rt.rx_moved main6 rx_main6 in
        let (ok, both) = programmed-Both tx rx m0 m6 s.device in
        let r = program_lo driver rx_chip rx m0 m6 s.device in
        let t = program_lo driver tx_chip tx none none r.1 in
        let b = after_read driver works 0x42 t.1 in
        let ended = after_read driver works 0x43 b in
        let (tx_held, rx_held) = after_rx tx rx b (after_tx tx rx t.1 both) in
        let again =
          ap (λ k. read_again driver k tx rx t.1) ok
          ∙ read_again-Both tx rx t.1 below rx_below both in
        let end : (ℕ × ℕ) × B → Following B = λ out. record s {
          follower = record f { tx_expect = out.0.0; rx_expect = out.0.1 };
          center_hz = quantized tx;
          device = out.1;
        } in
        subst (λ out. TunedTo driver quantized tx (end out)) (sym again)
          (record {
            follows = same;
            center = refl;
            tx_reads =
                ap (λ (x : Option (ℕ × ℕ × ℕ) × B). x.0)
                  (read_lo-Holds driver works tx_chip tx ended below tx_held);
            rx_reads =
                ap (λ (x : Option (ℕ × ℕ × ℕ) × B). x.0)
                  (read_lo-Holds driver works rx_chip rx ended rx_below rx_held);
            tx_near = value-IsNear tx below;
            rx_near =
                subst (λ c. IsNear (value rx) (c - f.intermediate)) same (value-IsNear rx rx_below);
          })

    -- A poll that is primed and reads both chips: where neither oscillator is further than the
    -- tolerance from what is expected, nothing but the reads is done. Otherwise the channel and the
    -- center frequency go to the oscillator that moved, the transmitter's where both did, and both
    -- chips are programmed: the transmitter to the channel and the receiver to the channel less the
    -- intermediate frequency, each read back to half a step, and what they read is what the follower
    -- then expects of each. While the transmitter is unmuted nothing is done. The conditions are that
    -- the chips keep what is written, each apart from the other, and that the channel is below the
    -- range of the divider.
    pub poll_lo_follow_lem :
        (tx rx main0 main6 : ℕ) (s : Following B)
        → s.lo_primed ≡ true
        → (read_both driver s.device).0 ≡ some (tx, rx, main0, main6)
        → (if tx_seen s tx then tx else rx) + 40000000 < 128 * ref
        → let t = poll_lo_follow driver quantized rx_main0 rx_main6 s in
          (s.tx_unmuted ≡ true → t ≡ s)
          × (s.tx_unmuted ≡ false
              → ((tx_seen s tx || rx_seen s rx) ≡ false
                  → t ≡ record s { device = (read_both driver s.device).1 })
                × ((tx_seen s tx || rx_seen s rx) ≡ true
                    → TunedTo driver quantized (if tx_seen s tx then tx else rx) t))
    unfolding poll_lo_follow
    poll_lo_follow_lem tx rx main0 main6 s primed reads below =
        let both = read_both driver s.device in
        let read : Following B = record s { device = both.1 } in
        let act : Option (ℕ × ℕ × ℕ × ℕ) → Following B =
          λ o. elim o [ none ↦ read | some r ↦ follow driver quantized rx_main0 rx_main6 r read ] in
        let rt = seen_retune tx rx read in
        (
          (λ sending. ap (λ b. if b then s else act both.0) sending),
          (λ muted.
              let seen = ap (λ b. if b then s else act both.0) muted ∙ ap act reads in
              (
                (λ quiet. seen ∙ follow_still tx rx main0 main6 read primed quiet),
                (λ moved.
                    subst (TunedTo driver quantized (if tx_seen s tx then tx else rx))
                      (sym (seen ∙ follow_moved tx rx main0 main6 read primed moved))
                      (retune-TunedTo rt main0 main6
                        (record s.follower { channel = rt.new_channel }) read refl below)),
              )),
        )

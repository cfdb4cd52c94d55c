-- ===== src/Backend/Greeting.antt =====
-- integrations/meshtastic/backend/QuadRFRadio.cpp: what the calls of `send` in a greeting leave.
use quadrf_mesh.Base.{
  ℕ, ◌≡◌, refl, ◌∙◌, Bool, true, false, List, [], ◌∷◌, if◌then◌else◌, ltb, Bool-cases, Option-cases,
  inl, inr,
}
use quadrf_mesh.Backend.Radio.{Firmware, Radio}
use quadrf_mesh.Backend.Transmit.{
  is_some, millis, timer_delay, start_transmit_timer, start_transmit_timer_rebroadcast,
  set_transmit_delay, send,
}
use quadrf_mesh.Backend.Receive.{send_all}

module _ (fw : Firmware) {Float : Type 0} where
  -- Nothing that reception keeps changes.
  pub record Leaves (s t : Radio fw Float) : Type 0 where
    pub same_node : t.node_num ≡ s.node_num
    pub same_events : t.events ≡ s.events
    pub same_good : t.rx_good ≡ s.rx_good
    pub same_bad : t.rx_bad ≡ s.rx_bad
    pub same_metrics : t.recent_metrics ≡ s.recent_metrics

  Leaves-refl : (s : Radio fw Float) → Leaves s s
  Leaves-refl s = record {
    same_node = refl;
    same_events = refl;
    same_good = refl;
    same_bad = refl;
    same_metrics = refl;
  }

  Leaves-trans : (s t u : Radio fw Float) → Leaves s t → Leaves t u → Leaves s u
  Leaves-trans s t u a b = record {
    same_node = b.same_node ∙ a.same_node;
    same_events = b.same_events ∙ a.same_events;
    same_good = b.same_good ∙ a.same_good;
    same_bad = b.same_bad ∙ a.same_bad;
    same_metrics = b.same_metrics ∙ a.same_metrics;
  }

  either :
      (b : Bool) (s t u : Radio fw Float) → Leaves s t → Leaves s u → Leaves s (if b then t else u)
  either true s t u a b = a
  either false s t u a b = b

  timer_delay-Leaves : (delay : ℕ) (s : Radio fw Float) → Leaves s (timer_delay fw delay s).1
  unfolding timer_delay millis
  timer_delay-Leaves delay s = elim (Bool-cases (is_some s.sending_packet)) [
    | inl busy ↦ elim (Bool-cases (ltb (millis fw s).0 s.tx_end_time_ms)) [
      | inl early ↦
          rw (busy, early)
            (record {
              same_node = refl;
              same_events = refl;
              same_good = refl;
              same_bad = refl;
              same_metrics = refl;
            })
      | inr over ↦
          rw (busy, over)
            (record {
              same_node = refl;
              same_events = refl;
              same_good = refl;
              same_bad = refl;
              same_metrics = refl;
            })
    ]
    | inr idle ↦ rw idle (Leaves-refl s)
  ]

  with_slot :
      (s t : Radio fw Float) (slot : fw.Slot) → Leaves s t → Leaves s (record t { slot = slot })
  with_slot s t slot a = record {
    same_node = a.same_node;
    same_events = a.same_events;
    same_good = a.same_good;
    same_bad = a.same_bad;
    same_metrics = a.same_metrics;
  }

  start_transmit_timer-Leaves :
      (with_delay : Bool) (s : Radio fw Float) → Leaves s (start_transmit_timer fw with_delay s)
  unfolding start_transmit_timer
  start_transmit_timer-Leaves with_delay s = either _ s _ _ (Leaves-refl s) (
      with_slot s _ _
        (timer_delay-Leaves (if with_delay then fw.tx_delay_msec s.clock_reads else 1) s))

  rebroadcast-Leaves :
      (p : fw.TxPacket) (s : Radio fw Float) → Leaves s (start_transmit_timer_rebroadcast fw p s)
  unfolding start_transmit_timer_rebroadcast
  rebroadcast-Leaves p s = either _ s _ _ (Leaves-refl s) (with_slot s s _ (Leaves-refl s))

  set_transmit_delay-Leaves : (s : Radio fw Float) → Leaves s (set_transmit_delay fw s)
  unfolding set_transmit_delay
  set_transmit_delay-Leaves s = elim (Option-cases (fw.get_front s.tx_queue)) [
    | inl nothing ↦ rw (set_transmit_delay, nothing) (Leaves-refl s)
    | inr (p, front) ↦
        rw (set_transmit_delay, front)
          (either (fw.was_heard p) s _ _ (rebroadcast-Leaves p s)
            (start_transmit_timer-Leaves true s))
  ]

  send-Leaves : (p : fw.TxPacket) (s : Radio fw Float) → Leaves s (send fw p s).1
  unfolding send
  send-Leaves p s = elim (Bool-cases (fw.enqueue s.tx_queue p).0) [
    | inl accepted ↦
        let a = set_transmit_delay-Leaves _ in
        rw accepted (record {
          same_node = a.same_node;
          same_events = a.same_events;
          same_good = a.same_good;
          same_bad = a.same_bad;
          same_metrics = a.same_metrics;
        })
    | inr refused ↦ rw refused (record {
      same_node = refl;
      same_events = refl;
      same_good = refl;
      same_bad = refl;
      same_metrics = refl;
    })
  ]

  pub send_all-Leaves :
      (packets : List fw.TxPacket) (s : Radio fw Float) → Leaves s (send_all fw packets s)
  unfolding send_all
  send_all-Leaves [] s = Leaves-refl s
  send_all-Leaves (p ∷ packets) s =
      Leaves-trans s (send fw p s).1 _ (send-Leaves p s) (send_all-Leaves packets (send fw p s).1)

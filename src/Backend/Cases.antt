-- ===== src/Backend/Cases.antt =====
-- integrations/meshtastic/backend/QuadRFRadio.cpp: the cases of the handlers, as equations.
use quadrf_mesh.Base.{◌≡◌, refl, ap, inl, inr, leb, Bool-cases, Option-cases, none, some}
use quadrf_mesh.Backend.Radio.{Firmware, Radio}
use quadrf_mesh.Backend.Transmit.{
  emit, millis, is_some, complete_packet, complete_sending, handle_transmit_interrupt,
  check_tx_complete,
}
use quadrf_mesh.Backend.Notify.{can_send_immediately}

module _ (fw : Firmware) {Float : Type 0} (s : Radio fw Float) where
  pub complete_sending_idle : s.sending_packet ≡ none → complete_sending fw s ≡ s
  unfolding complete_sending
  complete_sending_idle e = ap (λ o. elim o [ none ↦ s | some p ↦ complete_packet fw p s ]) e

  pub complete_sending_busy :
      (p : fw.TxPacket) → s.sending_packet ≡ some p → complete_sending fw s ≡ complete_packet fw p s
  unfolding complete_sending
  complete_sending_busy p e = ap (λ o. elim o [ none ↦ s | some p ↦ complete_packet fw p s ]) e

module _ (fw : Firmware) {Float : Type 0} where
  complete_sending-tx_queue : (s : Radio fw Float) → (complete_sending fw s).tx_queue ≡ s.tx_queue
  unfolding complete_packet emit
  complete_sending-tx_queue s = elim (Option-cases s.sending_packet) [
    | inl idle ↦ ap (λ (t : Radio fw Float). t.tx_queue) (complete_sending_idle fw s idle)
    | inr (p, busy) ↦ ap (λ (t : Radio fw Float). t.tx_queue) (complete_sending_busy fw s p busy)
  ]

  pub check_tx_complete-tx_queue :
      (s : Radio fw Float) → (check_tx_complete fw s).tx_queue ≡ s.tx_queue
  unfolding check_tx_complete handle_transmit_interrupt millis
  check_tx_complete-tx_queue s = elim (Bool-cases (is_some s.sending_packet)) [
    | inl busy ↦ elim (Bool-cases (leb s.tx_end_time_ms (millis fw s).0)) [
      | inl over ↦ rw (busy, over) (complete_sending-tx_queue (millis fw s).1)
      | inr early ↦ rw (busy, early) refl
    ]
    | inr idle ↦ rw idle refl
  ]

  pub can_send_immediately-tx_queue :
      (s : Radio fw Float) → (can_send_immediately fw s).1.tx_queue ≡ s.tx_queue
  unfolding can_send_immediately
  can_send_immediately-tx_queue s = check_tx_complete-tx_queue s

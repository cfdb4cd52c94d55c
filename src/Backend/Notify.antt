-- ===== src/Backend/Notify.antt =====
-- integrations/meshtastic/backend/QuadRFRadio.cpp: the notifications of the worker thread, and the
-- start of a transmission. `pending_preset` is the id that the control socket left, if any.
use quadrf_mesh.Base.{
  ℕ, ◌+◌, ◌-◌, ◌*◌, ◌^◌, Bool, true, false, not, ◌&&◌, ◌||◌, Option, none, some, List, [], ◌∷◌,
  ◌==◌, leb, if◌then◌else◌,
}
use quadrf_mesh.Base.Words.{u32}
use quadrf_mesh.AirIpc.Messages.{encode_tx}
use quadrf_mesh.Backend.Modem.{modem_preset_tag, PhyPreset, phy_presets, LoraConfig}
use quadrf_mesh.Backend.Radio.{
  Firmware, Radio, started, wrote, queue_status_sent, tx_airtime, config_reloaded,
}
use quadrf_mesh.Backend.Transmit.{
  isr_rx, isr_tx, transmit_delay_completed, is_some, is_empty, emit, millis,
  handle_transmit_interrupt, check_tx_complete, start_transmit_timer, set_transmit_delay,
}
use quadrf_mesh.Backend.Receive.{handle_receive_interrupt}

-- The row of the id, the last one if there were several.
unfoldable pub last_preset : ℕ → List PhyPreset → Option PhyPreset
last_preset id [] = none
last_preset id (p ∷ presets) = elim (last_preset id presets) [
  | some q ↦ some q
  | none ↦ if p.id == id then some p else none
]

unfoldable pub requested_preset : Option ℕ → Option PhyPreset
requested_preset none = none
requested_preset (some id) = last_preset id phy_presets

module _ (fw : Firmware) {Float : Type 0} where
  unfoldable pub is_actively_receiving : Radio fw Float → Bool
  is_actively_receiving s = elim s.rx_q [ [] ↦ false | rx ∷ frames ↦ true ]

  unfoldable pub can_send_immediately : Radio fw Float → Bool × Radio fw Float
  can_send_immediately s =
      let checked = check_tx_complete fw s in
      (not (is_some checked.sending_packet) && not (is_actively_receiving checked), checked)

  -- The frame for the PHY, with the current carrier; one that cannot be encoded is not written.
  unfoldable pub write_tx : fw.TxPacket → Radio fw Float → Radio fw Float
  write_tx p s = elim (encode_tx (record { freq_hz = 0; air = fw.buffer_bytes p })) [
    | none ↦ s
    | some frame ↦ emit fw (wrote frame) s
  ]

  unfoldable pub start_send : fw.TxPacket → Radio fw Float → Radio fw Float
  start_send p s =
      let begun =
        emit fw (started p) (record s { is_receiving = false; sending_packet = some p }) in
      let written = write_tx p begun in
      let now = millis fw written in
      if leb 1000 (u32 (now.0 + 2 ^ 32 - s.last_queue_status_ms))
      then emit fw queue_status_sent (record now.1 { last_queue_status_ms = now.0 })
      else now.1

  -- The timer's notification with a packet in the queue and none in the air.
  unfoldable pub transmit_next : Radio fw Float → Radio fw Float
  transmit_next s = elim (fw.dequeue s.tx_queue) [
    | none ↦ s
    | some next ↦
        let sent = start_send next.0 (record s { tx_queue = next.1 }) in
        let xmit_msec = fw.packet_time next.0 in
        let now = millis fw (emit fw (tx_airtime xmit_msec) sent) in
        record now.1 {
          tx_end_time_ms = u32 (now.0 + xmit_msec);
          slot = fw.notify_later xmit_msec isr_tx false sent.slot;
        }
  ]

  unfoldable pub on_transmit_delay : Radio fw Float → Radio fw Float
  on_transmit_delay s =
      let received = handle_receive_interrupt fw (check_tx_complete fw s) in
      let ready = can_send_immediately received in
      if is_empty fw received.tx_queue
      then received
      else if not ready.0 || is_actively_receiving ready.1
      then set_transmit_delay fw ready.1
      else transmit_next ready.1

  unfoldable pub apply_preset : PhyPreset → Radio fw Float → Radio fw Float
  apply_preset p s =
      let c = s.config in
      let next : LoraConfig = record {
        use_preset = true;
        modem_preset = p.preset;
        coding_rate = 0;
        channel_num = 0;
        override_frequency = 0;
      } in
      let now = millis fw (emit fw (config_reloaded next) (record s { config = next })) in
      if c.use_preset
        && modem_preset_tag c.modem_preset == modem_preset_tag p.preset
        && c.coding_rate == 0
      then s
      else record now.1 { reboot_at_msec = some (u32 (now.0 + fw.reboot_seconds * 1000)) }

  unfoldable pub apply_preset_request : Radio fw Float → Radio fw Float
  apply_preset_request s =
      let taken = record s { pending_preset = none } in
      elim (requested_preset s.pending_preset) [ none ↦ taken | some p ↦ apply_preset p taken ]

  -- `onNotify`; other notifications do not occur (`assert(0)`).
  unfoldable pub on_notify : ℕ → Radio fw Float → Radio fw Float
  on_notify notification s =
      let ready = if is_some s.pending_preset then apply_preset_request s else s in
      if notification == isr_tx
      then start_transmit_timer fw true (handle_transmit_interrupt fw ready)
      else if notification == isr_rx
      then start_transmit_timer fw true (handle_receive_interrupt fw (check_tx_complete fw ready))
      else if notification == transmit_delay_completed
      then on_transmit_delay ready
      else ready

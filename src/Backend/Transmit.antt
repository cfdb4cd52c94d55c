-- ===== src/Backend/Transmit.antt =====
-- integrations/meshtastic/backend/QuadRFRadio.cpp: the queue of packets to send and the packet in
-- the air. The counters are `uint32_t` but `tx_drop`, which is `uint16_t`.
use quadrf_mesh.Base.{
  ℕ, ◌+◌, ◌-◌, ◌^◌, Bool, true, false, Option, none, some, [], ◌∷◌, ◌++◌, ◌==◌, ltb, leb,
  if◌then◌else◌,
}
use quadrf_mesh.Base.Words.{u16, u32}
use quadrf_mesh.Backend.Radio.{Firmware, Radio, Event, completed}

-- `PendingISR`.
abbrev pub isr_rx : ℕ
isr_rx = 1

abbrev pub isr_tx : ℕ
isr_tx = 2

abbrev pub transmit_delay_completed : ℕ
transmit_delay_completed = 3

abbrev pub is_some : {A : Type 0} → Option A → Bool
is_some none = false
is_some (some a) = true

abbrev pub is_empty : (fw : Firmware) → fw.Queue → Bool
is_empty fw q = fw.queue_size q == 0

module _ (fw : Firmware) {Float : Type 0} where
  unfoldable pub emit : Event fw Float → Radio fw Float → Radio fw Float
  emit event s = record s { events = s.events ++ (event ∷ []) }

  unfoldable pub millis : Radio fw Float → ℕ × Radio fw Float
  millis s = (u32 (fw.clock s.clock_reads), record s { clock_reads = s.clock_reads + 1 })

  unfoldable pub complete_packet : fw.TxPacket → Radio fw Float → Radio fw Float
  complete_packet p s =
      let counted = record s {
        sending_packet = none;
        tx_good = u32 (s.tx_good + 1);
        tx_relay = if fw.is_from_us p then s.tx_relay else u32 (s.tx_relay + 1);
      } in
      emit (completed p) counted

  unfoldable pub complete_sending : Radio fw Float → Radio fw Float
  complete_sending s = elim s.sending_packet [ none ↦ s | some p ↦ complete_packet p s ]

  unfoldable pub handle_transmit_interrupt : Radio fw Float → Radio fw Float
  handle_transmit_interrupt s = record (complete_sending s) { is_receiving = true }

  -- The clock is read only while a packet is in the air.
  unfoldable pub check_tx_complete : Radio fw Float → Radio fw Float
  check_tx_complete s =
      let now = millis s in
      if is_some s.sending_packet
      then (if leb s.tx_end_time_ms now.0 then handle_transmit_interrupt now.1 else now.1)
      else s

  -- The delay of the timer, and the clock behind its reads.
  unfoldable pub timer_delay : ℕ → Radio fw Float → ℕ × Radio fw Float
  timer_delay delay_msec s =
      let now = millis s in
      let again = millis now.1 in
      let remaining = u32 (s.tx_end_time_ms + 2 ^ 32 - again.0) in
      if is_some s.sending_packet
      then (if ltb now.0 s.tx_end_time_ms
          then (if ltb delay_msec remaining then u32 (remaining + 1) else delay_msec, again.1)
          else (delay_msec, now.1))
      else (delay_msec, s)

  unfoldable pub start_transmit_timer : Bool → Radio fw Float → Radio fw Float
  start_transmit_timer with_delay s =
      let timed = timer_delay (if with_delay then fw.tx_delay_msec s.clock_reads else 1) s in
      if is_empty fw s.tx_queue
      then s
      else record timed.1 { slot = fw.notify_later timed.0 transmit_delay_completed false s.slot }

  unfoldable pub start_transmit_timer_rebroadcast : fw.TxPacket → Radio fw Float → Radio fw Float
  start_transmit_timer_rebroadcast p s = if is_empty fw s.tx_queue then s else record s {
    slot = fw.notify_later (fw.tx_delay_msec_weighted p) transmit_delay_completed false s.slot;
  }

  unfoldable pub set_transmit_delay : Radio fw Float → Radio fw Float
  set_transmit_delay s = elim (fw.get_front s.tx_queue) [
    | none ↦ s
    | some p ↦
        if fw.was_heard p then start_transmit_timer_rebroadcast p s else start_transmit_timer true s
  ]

  -- `true` for `ERRNO_OK`.
  unfoldable pub send : fw.TxPacket → Radio fw Float → Bool × Radio fw Float
  send p s =
      let (accepted, dropped, queue) = fw.enqueue s.tx_queue p in
      let next = record s {
        tx_queue = queue;
        tx_drop = if dropped then u16 (s.tx_drop + 1) else s.tx_drop;
      } in
      if accepted then (true, set_transmit_delay next) else (false, next)

  unfoldable pub cancel_sending : ℕ → ℕ → Radio fw Float → Bool × Radio fw Float
  cancel_sending from id s =
      let (found, queue) = fw.remove s.tx_queue from id in
      (is_some found, record s { tx_queue = queue })

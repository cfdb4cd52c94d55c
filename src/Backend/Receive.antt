-- ===== src/Backend/Receive.antt =====
-- integrations/meshtastic/backend/QuadRFRadio.cpp: frames from the PHY. The handler takes the frames
-- one by one until none is left, so those that the reader thread adds meanwhile stand in `rx_q` too.
use quadrf_mesh.Base.{
  ℕ, ◌+◌, ◌-◌, Bool, true, false, not, ◌&&◌, ◌||◌, Option, none, some, List, [], ◌∷◌, ◌++◌, ◌==◌,
  ltb, if◌then◌else◌, length, drop,
}
use quadrf_mesh.Base.Words.{u32}
use quadrf_mesh.Backend.Radio.{
  Firmware, RxFrame, RxMetrics, ReceivedPacket, Radio, delivered, greeted, rx_airtime,
}
use quadrf_mesh.Backend.Transmit.{isr_rx, emit, millis, check_tx_complete, send}

unfoldable pub is_own : Option ℕ → ℕ → Bool
is_own none from = false
is_own (some node) from = from == node

unfoldable pub contains : List ℕ → ℕ → Bool
contains [] x = false
contains (y ∷ ys) x = y == x || contains ys x

module _ {A : Type 0} where
  -- `push_back`, and `pop_front` of more than 64.
  unfoldable pub push_metrics : List A → A → List A
  push_metrics xs x =
      let longer = xs ++ (x ∷ []) in if ltb 64 (length longer) then drop 1 longer else longer

  -- The last entry of the id, as the reverse iteration finds it.
  unfoldable pub find_metrics : List (ℕ × A) → ℕ → Option A
  find_metrics [] id = none
  find_metrics (x ∷ xs) id = elim (find_metrics xs id) [
    | some found ↦ some found
    | none ↦ if x.0 == id then some x.1 else none
  ]

module _ (fw : Firmware) {Float : Type 0} where
  -- The reader thread.
  unfoldable pub enqueue_rx : RxFrame Float → Radio fw Float → Radio fw Float
  enqueue_rx rx s = record s { rx_q = s.rx_q ++ (rx ∷ []); slot = fw.notify isr_rx true s.slot }

  unfoldable pub received_packet : RxFrame Float → ℕ → ReceivedPacket Float
  received_packet rx now =
      let h = fw.buffer_header rx.air in
      let flags = fw.flag_fields h.flags in
      record {
        from = h.from;
        to = h.to;
        id = h.id;
        channel = h.channel;
        hop_limit = flags.hop_limit;
        hop_start = flags.hop_start;
        want_ack = flags.want_ack;
        via_mqtt = flags.via_mqtt;
        next_hop = if flags.hop_start == 0 then fw.no_next_hop_preference else h.next_hop;
        relay_node = if flags.hop_start == 0 then fw.no_relay_node else h.relay_node;
        rx_snr = rx.snr_db;
        rx_rssi = rx.rssi_dbm;
        rx_time = now;
        encrypted = drop fw.header_size rx.air;
      }

  unfoldable pub metrics_of : RxFrame Float → ℕ → RxMetrics Float
  metrics_of rx now = record {
    snr_db = rx.snr_db;
    rssi_dbm = rx.rssi_dbm;
    cfo_hz = rx.cfo_hz;
    rate_ppm = rx.rate_ppm;
    sir_db = rx.sir_db;
    lvl_dbfs = rx.lvl_dbfs;
    timestamp_ms = now;
  }

  -- The calls of `send` that `sendOurNodeInfo` comes back with.
  unfoldable pub send_all : List fw.TxPacket → Radio fw Float → Radio fw Float
  send_all [] s = s
  send_all (p ∷ packets) s = send_all packets (send fw p s).1

  -- A frame that passed the tests. A new peer is greeted with the own node, which goes out through
  -- this radio's `send`.
  unfoldable pub accept_frame : RxFrame Float → Radio fw Float → Radio fw Float
  accept_frame rx s =
      let h = fw.buffer_header rx.air in
      let need_greet = not (contains s.greeted_peers h.from) in
      let mp = received_packet rx (fw.valid_time s.clock_reads) in
      let now = millis fw s in
      let counted = record now.1 {
        greeted_peers = if need_greet then h.from ∷ s.greeted_peers else s.greeted_peers;
        last_rssi = rx.rssi_dbm;
        rx_good = u32 (s.rx_good + 1);
        recent_metrics = push_metrics s.recent_metrics (h.id, metrics_of rx now.0);
      } in
      let out =
        emit fw (delivered mp) (emit fw (rx_airtime (fw.air_time (length rx.air))) counted) in
      if need_greet && s.has_node_info
      then send_all (fw.station_id out.clock_reads) (emit fw (greeted h.from) out)
      else out

  unfoldable pub receive_frame : RxFrame Float → Radio fw Float → Radio fw Float
  receive_frame rx s =
      let n = length rx.air in
      let from = (fw.buffer_header rx.air).from in
      let bad = record s { rx_bad = u32 (s.rx_bad + 1) } in
      if ltb n fw.header_size
      then bad
      else if ltb fw.buffer_payload (n - fw.header_size)
      then bad
      else if from == 0
      then s
      else if is_own s.node_num from
      then s
      else accept_frame rx s

  unfoldable pub receive_frames : List (RxFrame Float) → Radio fw Float → Radio fw Float
  receive_frames [] s = record s { rx_q = [] }
  receive_frames (rx ∷ frames) s = receive_frames frames (receive_frame rx s)

  unfoldable pub handle_receive_interrupt : Radio fw Float → Radio fw Float
  handle_receive_interrupt s =
      let checked = check_tx_complete fw s in receive_frames checked.rx_q checked

  unfoldable pub get_rx_metrics : Radio fw Float → ℕ → Option (RxMetrics Float)
  get_rx_metrics s packet_id = find_metrics s.recent_metrics packet_id

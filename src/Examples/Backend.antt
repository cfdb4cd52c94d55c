-- ===== src/Examples/Backend.antt =====
-- The backend with a small firmware: packets are numbers, the queue is a list, and the notification
-- slot says whether a notification is due.
use quadrf_mesh.Base.{
  ℕ, ◌+◌, ◌*◌, ◌≤◌, ◌≡◌, refl, arith, ◌⊎◌, Bool, true, false, not, ◌&&◌, Option, none, some, List,
  [], ◌∷◌, ◌++◌, leb, ◌==◌, if◌then◌else◌, length, length-append, get_or,
}
use quadrf_mesh.Base.Words.{u32}
use quadrf_mesh.Backend.Modem.{other_preset, PhyPreset, phy_preset_for, LoraConfig, Modem, Settings}
use quadrf_mesh.AirIpc.Messages.{SetModem}
use quadrf_mesh.Backend.Radio.{BufferHeader, FlagFields, Firmware, RxFrame, Radio}
use quadrf_mesh.Backend.Transmit.{is_some, is_empty, millis, send}
use quadrf_mesh.Backend.Receive.{
  is_own, enqueue_rx, handle_receive_interrupt, receive_frame, get_rx_metrics,
}
use quadrf_mesh.Backend.Notify.{on_notify}
use quadrf_mesh.Backend.Steps.{
  delay_notification, notification_number, initial, next, send_step, rx_step, notify_step,
}
use quadrf_mesh.Backend.Waiting.{Reachable-IsServed}
use quadrf_mesh.Backend.Deliveries.{deliveries, is_wanted, wanted, handle_receive_interrupt_lem}
use quadrf_mesh.Backend.Metrics.{get_rx_metrics-receive_frame}

-- A firmware that knows the presets of the table.
abbrev numbers_for : Option PhyPreset → ℕ → Modem
numbers_for none rate = record { bw = 250000; sf = 11; cr = 5 }
numbers_for (some p) rate = record {
  bw = p.bw_hz;
  sf = p.sf;
  cr = if leb 5 rate && leb rate 8 then rate else p.cr;
}

abbrev modem_of : LoraConfig → Modem
modem_of c = numbers_for (phy_preset_for c.modem_preset) c.coding_rate

abbrev unknown_preset : Settings
unknown_preset = record {
  config = record {
    use_preset = true;
    modem_preset = other_preset 7;
    coding_rate = 8;
    channel_num = 0;
    override_frequency = 5800000000;
  };
  modem = record { bw = 800000; sf = 9; cr = 5 };
  slot_time_msec = 0;
  preamble_time_msec = 0;
  preamble_length = 16;
  node_db = true;
  saves = 0;
}

abbrev turbo_message : SetModem
turbo_message = record { preset = 0 }

abbrev reads : List (List ℕ)
reads = (0x51 ∷ 0x46 ∷ 1 ∷ []) ∷ (3 ∷ 0 ∷ 1 ∷ 0 ∷ []) ∷ []

front_of : List ℕ → Option ℕ
front_of [] = none
front_of (p ∷ q) = some p

taken_of : List ℕ → Option (ℕ × List ℕ)
taken_of [] = none
taken_of (p ∷ q) = some (p, q)

abbrev header_of : List ℕ → BufferHeader
header_of air = record {
  to = get_or air 0 0;
  from = get_or air 4 0;
  id = get_or air 8 0;
  flags = get_or air 12 0;
  channel = get_or air 13 0;
  next_hop = get_or air 14 0;
  relay_node = get_or air 15 0;
}

abbrev no_flags : ℕ → FlagFields
no_flags flags = record { hop_limit = flags; hop_start = 0; want_ack = false; via_mqtt = false }

abbrev firmware : Firmware
firmware = record {
  TxPacket = ℕ;
  is_from_us = λ p. true;
  was_heard = λ p. false;
  packet_time = λ p. 100;
  buffer_bytes = λ p. p ∷ [];
  Queue = List ℕ;
  enqueue = λ q p. (true, false, q ++ (p ∷ []));
  dequeue = taken_of;
  get_front = front_of;
  remove = λ q from id. (none, q);
  queue_size = length;
  Slot = Bool;
  notify = λ n overwrite slot. true;
  notify_later = λ delay n overwrite slot. true;
  tx_delay_msec = λ n. 50;
  tx_delay_msec_weighted = λ p. 50;
  clock = λ n. 10 * n;
  valid_time = λ n. n;
  header_size = 16;
  buffer_payload = 239;
  buffer_header = header_of;
  flag_fields = no_flags;
  no_next_hop_preference = 0;
  no_relay_node = 0;
  reboot_seconds = 5;
  air_time = λ n. n;
  station_id = λ n. 99 ∷ [];
}

front_of_lem : (q : List ℕ) → is_some (front_of q) ≡ not (length q == 0)
unfolding front_of
front_of_lem [] = refl
front_of_lem (p ∷ q) = ground arith

taken_of_lem : (q : List ℕ) → is_some (taken_of q) ≡ not (length q == 0)
unfolding taken_of
taken_of_lem [] = refl
taken_of_lem (p ∷ q) = ground arith

abbrev idle : Radio firmware ℕ
idle = record {
  tx_queue = [];
  sending_packet = none;
  slot = false;
  clock_reads = 0;
  node_num = some 9;
  has_node_info = true;
  rx_q = [];
  rx_bad = 0;
  rx_good = 0;
  tx_good = 0;
  tx_relay = 0;
  tx_drop = 0;
  greeted_peers = [];
  recent_metrics = [];
  is_receiving = true;
  last_rssi = 0;
  tx_end_time_ms = 0;
  last_queue_status_ms = 0;
  pending_preset = some 3;
  config = unknown_preset.config;
  reboot_at_msec = none;
  events = [];
}

-- A frame from node 5 with the id 77.
abbrev heard : RxFrame ℕ
heard = record {
  air = 255 ∷ 0 ∷ 0 ∷ 0 ∷ 5 ∷ 0 ∷ 0 ∷ 0 ∷ 77 ∷ 0 ∷ 0 ∷ 0 ∷ 3 ∷ 8 ∷ 0 ∷ 0 ∷ 42 ∷ [];
  snr_db = 6;
  rssi_dbm = 80;
  cfo_hz = 13000;
  rate_ppm = 2;
  sir_db = 9;
  lvl_dbfs = 20;
}

abbrev arrived : Radio firmware ℕ
arrived = record idle { rx_q = heard ∷ (record heard { air = 1 ∷ [] }) ∷ [] }

abbrev queued : Radio firmware ℕ
queued = (send firmware 7 idle).1

abbrev sent : Radio firmware ℕ
sent =
    on_notify firmware (notification_number delay_notification)
      (record (enqueue_rx firmware heard queued) { slot = false })

Reachable-IsServed_example : (is_empty firmware sent.tx_queue ≡ true) ⊎ (sent.slot ≡ true)
Reachable-IsServed_example =
    Reachable-IsServed firmware (λ slot. slot) (λ n slot. refl) (λ delay n slot. refl) front_of_lem
      taken_of_lem (λ q from id. omega arith) (λ q p. omega (arith, length-append q (p ∷ [])))
      (next (next (next (initial {s = idle} refl) (send_step 7)) (rx_step heard))
        (notify_step delay_notification false))

handle_receive_interrupt_lem_example :
    ((handle_receive_interrupt firmware arrived).rx_q ≡ [])
    × (deliveries firmware (handle_receive_interrupt firmware arrived).events
        ≡ deliveries firmware arrived.events ++ wanted firmware (some 9) arrived.rx_q)
    × (u32 (handle_receive_interrupt firmware arrived).rx_good
        ≡ u32 (0 + length (wanted firmware (some 9) arrived.rx_q)))
handle_receive_interrupt_lem_example = handle_receive_interrupt_lem firmware arrived

get_rx_metrics-receive_frame_example :
    (get_rx_metrics firmware (receive_frame firmware heard idle) 77
      ≡ some (record {
        snr_db = 6;
        rssi_dbm = 80;
        cfo_hz = 13000;
        rate_ppm = 2;
        sir_db = 9;
        lvl_dbfs = 20;
        timestamp_ms = (millis firmware idle).0;
      }))
    × (length (receive_frame firmware heard idle).recent_metrics ≤ 64)
get_rx_metrics-receive_frame_example =
    get_rx_metrics-receive_frame firmware heard idle (unfold is_wanted is_own in refl) (omega arith)

-- ===== src/Backend/Radio.antt =====
-- integrations/meshtastic/backend/QuadRFRadio.h: the state of the backend, and what it uses of the
-- firmware, which is a parameter: the packets, the queue of packets to send, the notification slot
-- of the worker thread, the clock and the layout of the radio buffer. What the backend calls of
-- other parts of the firmware, and what it writes to the PHY, is a list of events.
use quadrf_mesh.Base.{ℕ, Bool, Option, List}
use quadrf_mesh.Backend.Modem.{LoraConfig}

-- `PacketHeader` of the firmware.
pub record BufferHeader : Type 0 where
  pub to : ℕ
  pub from : ℕ
  pub id : ℕ
  pub flags : ℕ
  pub channel : ℕ
  pub next_hop : ℕ
  pub relay_node : ℕ

-- What the backend reads of the `flags` of a header.
pub record FlagFields : Type 0 where
  pub hop_limit : ℕ
  pub hop_start : ℕ
  pub want_ack : Bool
  pub via_mqtt : Bool

-- `was_heard p` says that the packet has an SNR or an RSSI; `buffer_bytes` is what `beginSending`,
-- which also makes `p` the packet in the air, leaves in the radio buffer; `clock n` is what the `n`-th
-- call of `millis` returns. `station_id n` is what `sendOurNodeInfo`, called behind `n` of these, hands
-- to the `send` of the backend: the broadcast of the own node, if the firmware makes one.
pub record Firmware : Type 1 where
  pub TxPacket : Type 0
  pub is_from_us : TxPacket → Bool
  pub was_heard : TxPacket → Bool
  pub packet_time : TxPacket → ℕ
  pub buffer_bytes : TxPacket → List ℕ
  pub Queue : Type 0
  pub enqueue : Queue → TxPacket → Bool × Bool × Queue
  pub dequeue : Queue → Option (TxPacket × Queue)
  pub get_front : Queue → Option TxPacket
  pub remove : Queue → ℕ → ℕ → Option TxPacket × Queue
  pub queue_size : Queue → ℕ
  pub Slot : Type 0
  pub notify : ℕ → Bool → Slot → Slot
  pub notify_later : ℕ → ℕ → Bool → Slot → Slot
  pub tx_delay_msec : ℕ → ℕ
  pub tx_delay_msec_weighted : TxPacket → ℕ
  pub clock : ℕ → ℕ
  pub valid_time : ℕ → ℕ
  pub header_size : ℕ
  pub buffer_payload : ℕ
  pub buffer_header : List ℕ → BufferHeader
  pub flag_fields : ℕ → FlagFields
  pub no_next_hop_preference : ℕ
  pub no_relay_node : ℕ
  pub reboot_seconds : ℕ
  pub air_time : ℕ → ℕ
  pub station_id : ℕ → List TxPacket

-- A frame from the PHY; the measurements but the RSSI are floating-point numbers, of any type.
pub record RxFrame (Float : Type 0) : Type 0 where
  pub air : List ℕ
  pub snr_db : Float
  pub rssi_dbm : ℕ
  pub cfo_hz : ℕ
  pub rate_ppm : Float
  pub sir_db : Float
  pub lvl_dbfs : Float

pub record RxMetrics (Float : Type 0) : Type 0 where
  pub snr_db : Float
  pub rssi_dbm : ℕ
  pub cfo_hz : ℕ
  pub rate_ppm : Float
  pub sir_db : Float
  pub lvl_dbfs : Float
  pub timestamp_ms : ℕ

-- The packet that the backend makes of a frame.
pub record ReceivedPacket (Float : Type 0) : Type 0 where
  pub from : ℕ
  pub to : ℕ
  pub id : ℕ
  pub channel : ℕ
  pub hop_limit : ℕ
  pub hop_start : ℕ
  pub want_ack : Bool
  pub via_mqtt : Bool
  pub next_hop : ℕ
  pub relay_node : ℕ
  pub rx_snr : Float
  pub rx_rssi : ℕ
  pub rx_time : ℕ
  pub encrypted : List ℕ

module _ (fw : Firmware) (Float : Type 0) where
  pub data Event : Type 0 where
    delivered : ReceivedPacket Float → Event
    greeted : ℕ → Event
    started : fw.TxPacket → Event
    wrote : List ℕ → Event
    queue_status_sent : Event
    tx_airtime : ℕ → Event
    rx_airtime : ℕ → Event
    completed : fw.TxPacket → Event
    config_reloaded : LoraConfig → Event

  pub record Radio : Type 0 where
    pub tx_queue : fw.Queue
    pub sending_packet : Option fw.TxPacket
    pub slot : fw.Slot
    pub clock_reads : ℕ
    pub node_num : Option ℕ
    pub has_node_info : Bool
    pub rx_q : List (RxFrame Float)
    pub rx_bad : ℕ
    pub rx_good : ℕ
    pub tx_good : ℕ
    pub tx_relay : ℕ
    pub tx_drop : ℕ
    pub greeted_peers : List ℕ
    pub recent_metrics : List (ℕ × RxMetrics Float)
    pub is_receiving : Bool
    pub last_rssi : ℕ
    pub tx_end_time_ms : ℕ
    pub last_queue_status_ms : ℕ
    pub pending_preset : Option ℕ
    pub config : LoraConfig
    pub reboot_at_msec : Option ℕ
    pub events : List Event

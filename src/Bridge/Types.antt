-- ===== src/Bridge/Types.antt =====
-- include/phy/bridge/phone_api.hpp: the envelopes. A std::string is its bytes, an `int32_t` and a
-- `float` are their bit patterns.
use quadrf_mesh.Base.{ℕ, Bool, false, Option, List, []}
use quadrf_mesh.Mesh.Packet.{broadcast_node}

pub record Data : Type 0 where
  pub portnum : ℕ
  pub payload : List ℕ
  pub want_response : Bool
  pub dest : ℕ
  pub source : ℕ
  pub request_id : ℕ
  pub reply_id : ℕ

abbrev pub blank_data : Data
blank_data = record {
  portnum = 0;
  payload = [];
  want_response = false;
  dest = 0;
  source = 0;
  request_id = 0;
  reply_id = 0;
}

pub record MeshPacketPb : Type 0 where
  pub from : ℕ
  pub to : ℕ
  pub channel : ℕ
  pub decoded : Option Data
  pub encrypted : List ℕ
  pub id : ℕ
  pub rx_time : ℕ
  pub rx_snr : ℕ
  pub hop_limit : ℕ
  pub want_ack : Bool
  pub hop_start : ℕ
  pub via_mqtt : Bool
  pub next_hop : ℕ
  pub relay_node : ℕ
  pub rx_rssi : ℕ

abbrev pub blank_packet : MeshPacketPb
blank_packet = record {
  from = 0;
  to = broadcast_node;
  channel = 0;
  decoded = Option.none;
  encrypted = [];
  id = 0;
  rx_time = 0;
  rx_snr = 0;
  hop_limit = 3;
  want_ack = false;
  hop_start = 0;
  via_mqtt = false;
  next_hop = 0;
  relay_node = 0;
  rx_rssi = 0;
}

pub data ToRadioKind : Type 0 where
  none packet want_config disconnect heartbeat : ToRadioKind

pub record ToRadio : Type 0 where
  pub kind : ToRadioKind
  pub packet : MeshPacketPb
  pub want_config_id : ℕ
  pub disconnect : Bool

abbrev pub blank_to_radio : ToRadio
blank_to_radio = record {
  kind = ToRadioKind.none;
  packet = blank_packet;
  want_config_id = 0;
  disconnect = false;
}

pub data FromRadioKind : Type 0 where
  none packet my_info node_info config config_complete rebooted module_config channel queue_status
        metadata :
      FromRadioKind

pub record MyNodeInfo : Type 0 where
  pub my_node_num : ℕ
  pub reboot_count : ℕ
  pub min_app_version : ℕ

pub record DeviceMetadata : Type 0 where
  pub firmware_version : List ℕ
  pub device_state_version : ℕ
  pub can_shutdown : Bool
  pub has_wifi : Bool
  pub has_bluetooth : Bool
  pub role : ℕ
  pub hw_model : ℕ

pub record ChannelSettings : Type 0 where
  pub psk : List ℕ
  pub name : List ℕ

pub record Channel : Type 0 where
  pub index : ℕ
  pub settings : ChannelSettings
  pub role : ℕ

pub record NodeUser : Type 0 where
  pub id : List ℕ
  pub long_name : List ℕ
  pub short_name : List ℕ
  pub hw_model : ℕ
  pub role : ℕ

pub record NodeInfo : Type 0 where
  pub num : ℕ
  pub user : NodeUser
  pub snr : ℕ
  pub last_heard : ℕ

pub record FromRadio : Type 0 where
  pub id : ℕ
  pub kind : FromRadioKind
  pub packet : MeshPacketPb
  pub my_info : MyNodeInfo
  pub node_info : NodeInfo
  pub config_bytes : List ℕ
  pub module_config_bytes : List ℕ
  pub channel : Channel
  pub metadata : DeviceMetadata
  pub config_complete_id : ℕ
  pub rebooted : Bool
  pub free : ℕ
  pub maxlen : ℕ
  pub res : ℕ
  pub mesh_packet_id : ℕ

-- ===== src/Bridge/Session.antt =====
-- src/bridge/session.cpp: one PhoneAPI session. A call runs under the caller's thread and the mutex
-- guards the queue alone, so a session is a state that each call maps to the next.
use quadrf_mesh.Base.{
  ℕ, zero, suc, ◌+◌, ◌-◌, ◌/◌, ◌%◌, true, false, not, Option, none, some, List, [], ◌∷◌, ◌++◌, ltb,
  ◌==◌, if◌then◌else◌, length,
}
use quadrf_mesh.Base.Words.{u32, u64, Span, bytes}
use quadrf_mesh.Mesh.Packet.{Packet, pack_packet, unpack_packet}
use quadrf_mesh.Pb.Wire.{write_u32, write_bool, write_tag, write_varint, varint_type}
use quadrf_mesh.Bridge.Crypto.{Evp, default_psk, expand_psk, channel_hash}
use quadrf_mesh.Bridge.Types.{
  MeshPacketPb, blank_packet, ToRadioKind, ToRadio, FromRadioKind, FromRadio, DeviceMetadata,
}
use quadrf_mesh.Bridge.Encode.{write_vector, encode_from_radio}
use quadrf_mesh.Bridge.Decode.{decode_to_radio}
use quadrf_mesh.Bridge.Air.{mesh_packet_to_air, air_to_mesh_packet}

abbrev pub nonce_only_nodes : ℕ
nonce_only_nodes = 69421

-- `lora` is stored by the source and read by no method.
pub record SessionConfig : Type 0 where
  pub node_num : ℕ
  pub long_name : List ℕ
  pub short_name : List ℕ
  pub psk_shorthand : List ℕ
  pub channel_name : List ℕ
  pub tx_queue_maxlen : ℕ

pub record Session : Type 0 where
  pub cfg : SessionConfig
  pub channel_key : List ℕ
  pub hash : ℕ
  pub from_seq : ℕ
  pub tx_enqueued : ℕ
  pub rx_delivered : ℕ
  pub from_q : List (List ℕ)

abbrev pub or_default : Option (List ℕ) → List ℕ
or_default none = default_psk
or_default (some key) = key

unfoldable pub make_session : SessionConfig → Session
make_session cfg =
    let key = or_default (expand_psk (bytes cfg.psk_shorthand)) in
    record {
      cfg = cfg;
      channel_key = key;
      hash =
          if length cfg.psk_shorthand == 1
          then channel_hash cfg.channel_name key
          else channel_hash cfg.channel_name cfg.psk_shorthand;
      from_seq = 1;
      tx_enqueued = 0;
      rx_delivered = 0;
      from_q = [];
    }

-- A lower case hexadecimal digit, and the `digits` lowest of a number, highest first.
abbrev pub hex_digit : ℕ → ℕ
hex_digit d = if ltb d 10 then (b'0' + d) else (b'a' + (d - 10))

unfoldable pub hex : ℕ → ℕ → List ℕ
hex zero n = []
hex (suc digits) n = hex digits (n / 16) ++ (hex_digit (n % 16) ∷ [])

-- `snprintf("!%08x")`.
unfoldable pub node_id_string : Session → List ℕ
unfolding hex
node_id_string s = b'!' ∷ hex 8 s.cfg.node_num

unfoldable pub from_radio_queued : Session → ℕ
from_radio_queued s = length s.from_q

unfoldable pub enqueue_from : Session → FromRadio → Session
enqueue_from s fr = record s {
  from_seq = u32 (s.from_seq + 1);
  from_q = s.from_q ++ (encode_from_radio (record fr { id = s.from_seq }) ∷ []);
}

unfoldable pub pop_from_radio : Session → Session × Option (List ℕ)
pop_from_radio s = elim (s.from_q) [
  | [] ↦ (s, none)
  | front ∷ rest ↦ (record s { from_q = rest }, some front)
]

unfoldable pub make_lora_config : List ℕ
make_lora_config = write_vector 6 (
    write_bool 1 true
    ++ (write_tag 2 varint_type ++ (write_varint 8 ++ (write_u32 8 3 ++ write_bool 9 true))))

unfoldable pub make_device_config : List ℕ
make_device_config = write_vector 1 (write_u32 7 10800)

-- `FromRadio fr;`, every field at its default. The strings are those of the header file.
abbrev pub blank_metadata : DeviceMetadata
blank_metadata = record {
  firmware_version =
      b'q' ∷ b'u' ∷ b'a' ∷ b'd' ∷ b'r' ∷ b'f' ∷ b'-' ∷ b'l' ∷ b'o' ∷ b'r' ∷ b'a' ∷ b'-' ∷ b'p'
      ∷ b'h' ∷ b'y' ∷ b'-' ∷ b'0' ∷ b'.' ∷ b'1' ∷ [];
  device_state_version = 24;
  can_shutdown = false;
  has_wifi = false;
  has_bluetooth = false;
  role = 0;
  hw_model = 0;
}

abbrev pub blank_from_radio : FromRadio
blank_from_radio = record {
  id = 0;
  kind = FromRadioKind.none;
  packet = blank_packet;
  my_info = record { my_node_num = 0; reboot_count = 0; min_app_version = 30200 };
  node_info = record {
    num = 0;
    user = record {
      id = [];
      long_name = b'Q' ∷ b'u' ∷ b'a' ∷ b'd' ∷ b'R' ∷ b'F' ∷ [];
      short_name = b'Q' ∷ b'R' ∷ b'F' ∷ [];
      hw_model = 0;
      role = 0;
    };
    snr = 0;
    last_heard = 0;
  };
  config_bytes = [];
  module_config_bytes = [];
  channel = record {
    index = 0;
    settings = record {
      psk = [];
      name = b'L' ∷ b'o' ∷ b'n' ∷ b'g' ∷ b'F' ∷ b'a' ∷ b's' ∷ b't' ∷ [];
    };
    role = 1;
  };
  metadata = blank_metadata;
  config_complete_id = 0;
  rebooted = false;
  free = 0;
  maxlen = 16;
  res = 0;
  mesh_packet_id = 0;
}

unfoldable pub own_node_info : Session → FromRadio
own_node_info s = record blank_from_radio {
  kind = FromRadioKind.node_info;
  node_info = record (blank_from_radio.node_info) {
    num = s.cfg.node_num;
    user = record (blank_from_radio.node_info.user) {
      id = node_id_string s;
      long_name = s.cfg.long_name;
      short_name = s.cfg.short_name;
    };
  };
}

unfoldable pub emit_own_node_info : Session → Session
emit_own_node_info s = enqueue_from s (own_node_info s)

unfoldable pub my_info_message : Session → FromRadio
my_info_message s = record blank_from_radio {
  kind = FromRadioKind.my_info;
  my_info = record (blank_from_radio.my_info) { my_node_num = s.cfg.node_num };
}

unfoldable pub channel_message : Session → FromRadio
channel_message s = record blank_from_radio {
  kind = FromRadioKind.channel;
  channel = record {
    index = 0;
    settings = record { psk = s.cfg.psk_shorthand; name = s.cfg.channel_name };
    role = 1;
  };
}

unfoldable pub config_message : List ℕ → FromRadio
config_message config = record blank_from_radio {
  kind = FromRadioKind.config;
  config_bytes = config;
}

unfoldable pub config_complete_message : ℕ → FromRadio
config_complete_message nonce = record blank_from_radio {
  kind = FromRadioKind.config_complete;
  config_complete_id = nonce;
}

unfoldable pub start_config : Session → ℕ → Session
start_config s nonce =
    let nodes_only = nonce == nonce_only_nodes in
    let s₁ = emit_own_node_info (enqueue_from s (my_info_message s)) in
    let s₂ = enqueue_from s₁ (record blank_from_radio { kind = FromRadioKind.metadata }) in
    let s₃ = enqueue_from s₂ (channel_message s₂) in
    let s₄ = enqueue_from s₃ (config_message make_device_config) in
    let s₅ = enqueue_from s₄ (config_message make_lora_config) in
    enqueue_from (if not nodes_only then s₅ else s₁) (config_complete_message nonce)

-- The blanks that the host left, filled in; an id is drawn from the message counter.
unfoldable pub fill_blanks : Session → MeshPacketPb → Session × MeshPacketPb
fill_blanks s p =
    let seen = p.id == 0 in
    (
      if seen then record s { from_seq = u32 (s.from_seq + 1) } else s,
      record p {
        from = if p.from == 0 then s.cfg.node_num else p.from;
        id = if seen then s.from_seq else p.id;
        hop_limit = if p.hop_limit == 0 then 3 else p.hop_limit;
      },
    )

unfoldable pub queue_status : Session → ℕ → FromRadio
queue_status s packet_id = record blank_from_radio {
  kind = FromRadioKind.queue_status;
  free = if ltb 1 s.cfg.tx_queue_maxlen then s.cfg.tx_queue_maxlen - 1 else 0;
  maxlen = s.cfg.tx_queue_maxlen;
  mesh_packet_id = packet_id;
}

-- The end of the packet case, once the air packet is made: pack it, hand it over, report.
unfoldable pub transmit : Session → List (List ℕ) → ℕ → Option (List ℕ) → Session × List (List ℕ)
transmit s tx_air packet_id none = (s, tx_air)
transmit s tx_air packet_id (some wire) =
    let counted = record s { tx_enqueued = u64 (s.tx_enqueued + 1) } in
    (enqueue_from counted (queue_status counted packet_id), tx_air ++ (wire ∷ []))

abbrev pub pack_air : Option Packet → Option (List ℕ)
pack_air none = none
pack_air (some air) = pack_packet air

unfoldable pub handle_packet :
    Evp → Session → MeshPacketPb → List (List ℕ) → Session × List (List ℕ)
handle_packet evp s packet tx_air =
    let (s', pkt) = fill_blanks s packet in
    transmit s' tx_air pkt.id
      (pack_air (mesh_packet_to_air evp pkt s.channel_key s.hash s.cfg.node_num))

unfoldable pub on_to_radio :
    Evp → Session → List (List ℕ) → ToRadioKind → ToRadio → Session × List (List ℕ)
on_to_radio evp s tx_air ToRadioKind.want_config m = (start_config s m.want_config_id, tx_air)
on_to_radio evp s tx_air ToRadioKind.packet m = handle_packet evp s m.packet tx_air
on_to_radio evp s tx_air ToRadioKind.heartbeat m = (s, tx_air)
on_to_radio evp s tx_air ToRadioKind.disconnect m = (s, tx_air)
on_to_radio evp s tx_air ToRadioKind.none m = (s, tx_air)

abbrev pub on_decoded : Evp → Session → List (List ℕ) → Option ToRadio → Session × List (List ℕ)
on_decoded evp s tx_air none = (s, tx_air)
on_decoded evp s tx_air (some m) = on_to_radio evp s tx_air m.kind m

-- The session afterwards, with `tx_air`.
unfoldable pub handle_to_radio : Evp → Session → Span → List (List ℕ) → Session × List (List ℕ)
handle_to_radio evp s payload tx_air = on_decoded evp s tx_air (decode_to_radio payload)

unfoldable pub deliver : Session → ℕ → Option MeshPacketPb → Session
deliver s snr_db none = s
deliver s snr_db (some pkt) =
    let fr = record blank_from_radio {
      kind = FromRadioKind.packet;
      packet = record pkt { rx_snr = snr_db };
    } in
    let queued = enqueue_from s fr in record queued { rx_delivered = u64 (s.rx_delivered + 1) }

abbrev pub on_air : Evp → ℕ → Session → ℕ → Option Packet → Session
on_air evp now s snr_db none = s
on_air evp now s snr_db (some air) =
    if length air.encrypted == 0
    then s
    else deliver s snr_db (air_to_mesh_packet evp now air s.channel_key)

unfoldable pub handle_air_frame : Evp → ℕ → Session → Span → ℕ → Session
handle_air_frame evp now s payload snr_db = on_air evp now s snr_db (unpack_packet payload)

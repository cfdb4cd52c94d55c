-- ===== src/Examples/Bridge.antt =====
-- Concrete sessions of src/bridge/session.cpp, with a cipher that complements every byte.
use quadrf_mesh.Base.{
  ℕ, suc, ◌-◌, ◌≡◌, refl, ap, ap₂, arith, true, some, List, [], ◌∷◌, length, map, ltb,
  if◌then◌else◌,
}
use quadrf_mesh.Base.Words.{bytes}
use quadrf_mesh.Mesh.Packet.{Packet}
use quadrf_mesh.Bridge.Crypto.{Evp, default_psk}
use quadrf_mesh.Bridge.Types.{
  Data, blank_data, MeshPacketPb, blank_packet, ToRadioKind, FromRadioKind, FromRadio,
}
use quadrf_mesh.Bridge.Encode.{
  encode_data, encode_content, encode_mesh_packet, encode_to_radio, encode_from_radio,
}
use quadrf_mesh.Bridge.Decode.{decode_mesh_packet, decode_to_radio, has_content}
use quadrf_mesh.Bridge.DataRoundTrip
use quadrf_mesh.Bridge.DataRoundTrip.{decode_data-encode_data}
use quadrf_mesh.Bridge.PacketRoundTrip
use quadrf_mesh.Bridge.PacketRoundTrip.{as_received, decode_mesh_packet-encode_mesh_packet}
use quadrf_mesh.Bridge.RadioRoundTrip.{Sendable, received, decode_to_radio-encode_to_radio}
use quadrf_mesh.Bridge.Air.{air_header}
use quadrf_mesh.Bridge.Session.{SessionConfig, Session, handle_to_radio, blank_from_radio}
use quadrf_mesh.Bridge.Queue.{OneFrame, handle_to_radio-OneFrame}
use quadrf_mesh.Bridge.Delivery.{packet_message, outgoing}
use quadrf_mesh.Pb.Wire.{
  write_u32, write_bool, write_fixed32, write_float, write_bytes, write_tag, write_varint, tag,
}

abbrev complement : ℕ → ℕ
complement b = if ltb b 256 then 255 - b else b

complement_twice : (b : ℕ) → complement (complement b) ≡ b
complement_twice b = ground arith

map_twice : (xs : List ℕ) → map complement (map complement xs) ≡ xs
map_twice [] = refl
map_twice (x ∷ xs) = ap₂ ◌∷◌ (complement_twice x) (map_twice xs)

length-map : (xs : List ℕ) → length (map complement xs) ≡ length xs
length-map [] = refl
length-map (x ∷ xs) = ap suc (length-map xs)

abbrev complementing : Evp
complementing = record {
  init_ok = λ key nonce. true;
  crypt = λ key nonce plain. some (map complement plain);
  crypt_twice = λ key nonce plain cipher e. ground (arith, map_twice plain);
  length-crypt = λ key nonce plain cipher e. ground (arith, length-map plain);
}

abbrev text : Data
text = record blank_data { portnum = 1; payload = 0x68 ∷ 0x69 ∷ [] }

abbrev text_IsValid : DataRoundTrip.IsValid text
text_IsValid = record {
  portnum = omega arith;
  payload = omega arith;
  dest = omega arith;
  source = omega arith;
  request_id = omega arith;
  reply_id = omega arith;
}

text_bytes : encode_data text ≡ 8 ∷ 1 ∷ 18 ∷ 2 ∷ 0x68 ∷ 0x69 ∷ []
unfolding encode_data write_u32 write_bytes write_bool write_fixed32 write_tag tag write_varint
text_bytes = refl

abbrev phone_packet : MeshPacketPb
phone_packet = record blank_packet { id = 9; decoded = some text }

packet_bytes :
    encode_mesh_packet phone_packet
    ≡ 21 ∷ 255 ∷ 255 ∷ 255 ∷ 255 ∷ 34 ∷ 6 ∷ 8 ∷ 1 ∷ 18 ∷ 2 ∷ 0x68 ∷ 0x69 ∷ 53 ∷ 9 ∷ 0 ∷ 0 ∷ 0 ∷ 72
      ∷ 3 ∷ []
unfolding encode_mesh_packet encode_content encode_data write_u32 write_bytes write_bool
    write_fixed32 write_float write_tag tag write_varint
packet_bytes = refl

phone_packet_IsValid : PacketRoundTrip.IsValid phone_packet
phone_packet_IsValid = record {
  from = omega arith;
  to = omega arith;
  channel = omega arith;
  content = (
    text_IsValid,
    omega (arith, ap length text_bytes),
    omega (arith, ap length text_bytes),
    refl,
  );
  id = omega arith;
  rx_time = omega arith;
  rx_snr = omega arith;
  hop_limit = omega arith;
  hop_start = omega arith;
  next_hop = omega arith;
  relay_node = omega arith;
  rx_rssi = omega arith;
}

phone_packet_content : has_content phone_packet ≡ true
unfolding has_content
phone_packet_content = refl

decode_mesh_packet-encode_mesh_packet_example :
    decode_mesh_packet (bytes (encode_mesh_packet phone_packet)) ≡ some (as_received phone_packet)
decode_mesh_packet-encode_mesh_packet_example =
    decode_mesh_packet-encode_mesh_packet phone_packet phone_packet_IsValid phone_packet_content

phone_packet-Sendable : Sendable ToRadioKind.packet (packet_message phone_packet)
phone_packet-Sendable = (
  phone_packet_IsValid,
  phone_packet_content,
  omega (arith, ap length packet_bytes),
  omega (arith, ap length packet_bytes),
)

decode_to_radio-encode_to_radio_example :
    decode_to_radio (bytes (encode_to_radio (packet_message phone_packet)))
    ≡ some (received ToRadioKind.packet (packet_message phone_packet))
decode_to_radio-encode_to_radio_example =
    decode_to_radio-encode_to_radio (packet_message phone_packet) phone_packet-Sendable

abbrev config_of : ℕ → SessionConfig
config_of node = record {
  node_num = node;
  long_name = [];
  short_name = [];
  psk_shorthand = 1 ∷ [];
  channel_name = 0x4c ∷ [];
  tx_queue_maxlen = 16;
}

abbrev session_of : ℕ → List (List ℕ) → Session
session_of node queued = record {
  cfg = config_of node;
  channel_key = default_psk;
  hash = 8;
  from_seq = 1;
  tx_enqueued = 0;
  rx_delivered = 0;
  from_q = queued;
}

abbrev sent : MeshPacketPb
sent = outgoing (session_of 5 []) phone_packet

abbrev sent_air : Packet
sent_air = record {
  header = air_header sent 8 5;
  encrypted = 247 ∷ 254 ∷ 237 ∷ 253 ∷ 151 ∷ 150 ∷ [];
}

handle_to_radio-OneFrame_example : OneFrame (session_of 5 []) [] (
    handle_to_radio complementing
      (session_of 5 [])
      (bytes (encode_to_radio (packet_message phone_packet)))
      [])
handle_to_radio-OneFrame_example =
    handle_to_radio-OneFrame complementing (session_of 5 [])
      (bytes (encode_to_radio (packet_message phone_packet))) []

abbrev heartbeat_answer : FromRadio
heartbeat_answer = record blank_from_radio { kind = FromRadioKind.queue_status; free = 15 }

abbrev numbered_answer : List ℕ
numbered_answer = encode_from_radio (record heartbeat_answer { id = 1 })

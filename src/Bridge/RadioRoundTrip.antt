-- ===== src/Bridge/RadioRoundTrip.antt =====
-- The ToRadio and FromRadio envelopes on the wire.
use quadrf_mesh.Base.{◌^◌, ◌<◌, ◌≡◌, refl, arith, true, false, some, List, [], length}
use quadrf_mesh.Base.Words.{bytes}
use quadrf_mesh.Pb.Wire.{Field}
use quadrf_mesh.Pb.Fields.{Writes, parse_fields-Writes}
use quadrf_mesh.Pb.Writers.{
  u32_fields, bool_fields, bytes_fields, Writes-write_u32, Writes-write_bool, Writes-write_bytes,
}
use quadrf_mesh.Bridge.Types.{ToRadioKind, ToRadio, blank_to_radio}
use quadrf_mesh.Bridge.Encode.{encode_mesh_packet, to_radio_body, encode_to_radio}
use quadrf_mesh.Bridge.Decode.{
  has_content, on_to_radio_field, on_to_radio_fields, decode_to_radio, is_none,
}
use quadrf_mesh.Bridge.PacketRoundTrip
use quadrf_mesh.Bridge.PacketRoundTrip.{as_received, decode_mesh_packet-encode_mesh_packet}

-- The messages that a host sends: what the kind does not use is at its default, and what it uses
-- is not.
abbrev pub Sendable : ToRadioKind → ToRadio → Type 0
Sendable ToRadioKind.none m = ⊥
Sendable ToRadioKind.packet m =
    PacketRoundTrip.IsValid m.packet
    × (has_content m.packet ≡ true)
    × (0 < length (encode_mesh_packet m.packet))
    × (length (encode_mesh_packet m.packet) < 2 ^ 32)
Sendable ToRadioKind.want_config m = (0 < m.want_config_id) × (m.want_config_id < 2 ^ 32)
Sendable ToRadioKind.disconnect m = Unit
Sendable ToRadioKind.heartbeat m = Unit

-- The message as the bridge sees it.
abbrev pub received : ToRadioKind → ToRadio → ToRadio
received ToRadioKind.none m = blank_to_radio
received ToRadioKind.packet m = record blank_to_radio {
  kind = ToRadioKind.packet;
  packet = as_received m.packet;
}
received ToRadioKind.want_config m = record blank_to_radio {
  kind = ToRadioKind.want_config;
  want_config_id = m.want_config_id;
}
received ToRadioKind.disconnect m = record blank_to_radio {
  kind = ToRadioKind.disconnect;
  disconnect = true;
}
received ToRadioKind.heartbeat m = record blank_to_radio { kind = ToRadioKind.heartbeat }

abbrev to_radio_fields : ToRadioKind → ToRadio → List Field
to_radio_fields ToRadioKind.none m = []
to_radio_fields ToRadioKind.packet m = bytes_fields 1 (encode_mesh_packet m.packet) false
to_radio_fields ToRadioKind.want_config m = u32_fields 3 m.want_config_id
to_radio_fields ToRadioKind.disconnect m = bool_fields 4 true
to_radio_fields ToRadioKind.heartbeat m = bytes_fields 7 [] true

Writes-to_radio_body :
    (k : ToRadioKind) (m : ToRadio)
    → Sendable k m
    → Writes (to_radio_body k m) (to_radio_fields k m)
unfolding to_radio_body
Writes-to_radio_body ToRadioKind.none m s = absurd s
Writes-to_radio_body ToRadioKind.packet m s =
    Writes-write_bytes 1 (omega arith) (encode_mesh_packet m.packet) false (omega arith)
Writes-to_radio_body ToRadioKind.want_config m s =
    Writes-write_u32 3 (omega arith) m.want_config_id (omega arith)
Writes-to_radio_body ToRadioKind.disconnect m s = Writes-write_bool 4 (omega arith) true
Writes-to_radio_body ToRadioKind.heartbeat m s =
    Writes-write_bytes 7 (omega arith) [] true (omega arith)

on_to_radio_fields-to_radio_fields :
    (k : ToRadioKind) (m : ToRadio)
    → Sendable k m
    → (on_to_radio_fields blank_to_radio (to_radio_fields k m) ≡ some (received k m))
      × (is_none (received k m).kind ≡ false)
unfolding on_to_radio_fields on_to_radio_field
on_to_radio_fields-to_radio_fields ToRadioKind.none m s = absurd s
on_to_radio_fields-to_radio_fields ToRadioKind.packet m s =
    (ground (arith, decode_mesh_packet-encode_mesh_packet m.packet s.0 s.1), refl)
on_to_radio_fields-to_radio_fields ToRadioKind.want_config m s = (ground arith, refl)
on_to_radio_fields-to_radio_fields ToRadioKind.disconnect m s = (ground arith, refl)
on_to_radio_fields-to_radio_fields ToRadioKind.heartbeat m s = (ground arith, refl)

-- Decoding an encoded ToRadio that is a packet with content, a config request with an id that is not
-- 0, a disconnect or a heartbeat gives the same kind with its content; the packet as
-- `decodeMeshPacket` receives it, with broadcast for the destination 0, three hops for none and +0.0
-- for an SNR of -0.0. The packet's fields fit their types, and its Data encodes to some bytes and stands
-- alone. The empty submessage of a heartbeat is written although it is empty.
pub decode_to_radio-encode_to_radio :
    (m : ToRadio)
    → Sendable m.kind m
    → decode_to_radio (bytes (encode_to_radio m)) ≡ some (received m.kind m)
unfolding decode_to_radio encode_to_radio
decode_to_radio-encode_to_radio m s =
    let (e, k) = on_to_radio_fields-to_radio_fields m.kind m s in
    rw (parse_fields-Writes _ (to_radio_fields m.kind m) (Writes-to_radio_body m.kind m s), e)
      (rw k)

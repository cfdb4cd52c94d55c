-- ===== src/Bridge/Decode.antt =====
-- src/bridge/phone_api.cpp: the decoders. Each parses the fields, then takes them in turn, so that a
-- later field of the same number overrides an earlier one. `none` stands for a return of false; no
-- caller then reads the output.
use quadrf_mesh.Base.{
  Bool, true, false, ◌||◌, not, Option, none, some, List, [], ◌∷◌, ◌==◌, if◌then◌else◌, length,
}
use quadrf_mesh.Base.Words.{u32, Span, bytes}
use quadrf_mesh.Pb.Wire.{Field, parse_fields, ◌>>=◌}
use quadrf_mesh.Bridge.Types.{
  Data, blank_data, MeshPacketPb, blank_packet, ToRadioKind, ToRadio, blank_to_radio,
}

-- The body of the loop over the fields in `decodeData`.
unfoldable pub on_data_field : Data → Field → Data
on_data_field out f =
    if f.number == 1
    then record out { portnum = u32 f.varint }
    else if f.number == 2
    then record out { payload = f.payload }
    else if f.number == 3
    then record out { want_response = not (f.varint == 0) }
    else if f.number == 4
    then record out { dest = f.fixed32 }
    else if f.number == 5
    then record out { source = f.fixed32 }
    else if f.number == 6
    then record out { request_id = f.fixed32 }
    else if f.number == 7
    then record out { reply_id = f.fixed32 }
    else out

unfoldable pub on_data_fields : Data → List Field → Data
on_data_fields out [] = out
on_data_fields out (f ∷ fs) = on_data_fields (on_data_field out f) fs

unfoldable pub decode_data : Span → Option Data
decode_data input = do fields ← parse_fields input; some (on_data_fields blank_data fields)

-- The body of the loop in `decodeMeshPacket`; a nested Data that does not parse fails the whole.
unfoldable pub on_packet_field : MeshPacketPb → Field → Option MeshPacketPb
on_packet_field out f =
    if f.number == 1
    then some (record out { from = f.fixed32 })
    else if f.number == 2
    then some (record out { to = f.fixed32 })
    else if f.number == 3
    then some (record out { channel = u32 f.varint })
    else if f.number == 4
    then (do d ← decode_data (bytes f.payload); some (record out { decoded = some d }))
    else if f.number == 5
    then some (record out { encrypted = f.payload })
    else if f.number == 6
    then some (record out { id = f.fixed32 })
    else if f.number == 7
    then some (record out { rx_time = f.fixed32 })
    else if f.number == 8
    then some (record out { rx_snr = f.fixed32 })
    else if f.number == 9
    then some (record out { hop_limit = u32 f.varint })
    else if f.number == 10
    then some (record out { want_ack = not (f.varint == 0) })
    else if f.number == 12
    then some (record out { rx_rssi = u32 f.varint })
    else if f.number == 14
    then some (record out { via_mqtt = not (f.varint == 0) })
    else if f.number == 15
    then some (record out { hop_start = u32 f.varint })
    else if f.number == 18
    then some (record out { next_hop = u32 f.varint })
    else if f.number == 19
    then some (record out { relay_node = u32 f.varint })
    else some out

unfoldable pub on_packet_fields : MeshPacketPb → List Field → Option MeshPacketPb
on_packet_fields out [] = some out
on_packet_fields out (f ∷ fs) = do out' ← on_packet_field out f; on_packet_fields out' fs

abbrev pub has_value : Option Data → Bool
has_value none = false
has_value (some d) = true

unfoldable pub has_content : MeshPacketPb → Bool
has_content p =
    not (p.from == 0) || not (p.id == 0) || has_value p.decoded || not (length p.encrypted == 0)

unfoldable pub decode_mesh_packet : Span → Option MeshPacketPb
decode_mesh_packet input = do
  fields ← parse_fields input
  out ← on_packet_fields blank_packet fields
  if has_content out then some out else none

-- The body of the loop in `decodeToRadio`.
unfoldable pub on_to_radio_field : ToRadio → Field → Option ToRadio
on_to_radio_field out f =
    if f.number == 1
    then (do
      p ← decode_mesh_packet (bytes f.payload)
      some (record out { kind = ToRadioKind.packet; packet = p }))
    else if f.number == 3
    then some (record out { kind = ToRadioKind.want_config; want_config_id = u32 f.varint })
    else if f.number == 4
    then some (record out { kind = ToRadioKind.disconnect; disconnect = not (f.varint == 0) })
    else if f.number == 7
    then some (record out { kind = ToRadioKind.heartbeat })
    else some out

unfoldable pub on_to_radio_fields : ToRadio → List Field → Option ToRadio
on_to_radio_fields out [] = some out
on_to_radio_fields out (f ∷ fs) = do out' ← on_to_radio_field out f; on_to_radio_fields out' fs

-- `out.kind != ToRadioKind::kNone`.
abbrev pub is_none : ToRadioKind → Bool
is_none ToRadioKind.none = true
is_none _ = false

unfoldable pub decode_to_radio : Span → Option ToRadio
decode_to_radio input = do
  fields ← parse_fields input
  out ← on_to_radio_fields blank_to_radio fields
  if not (is_none out.kind) then some out else none

-- ===== src/Bridge/Air.antt =====
-- src/bridge/phone_api.cpp: `meshPacketToAir` and `airToMeshPacket`. The clock is an argument.
use quadrf_mesh.Base.{ℕ, ◌&&◌, not, Option, none, some, List, ◌==◌, leb, if◌then◌else◌, length}
use quadrf_mesh.Base.Words.{u8, u32, low_bits, bytes}
use quadrf_mesh.Mesh.Packet.{Packet, PacketHeader, broadcast_node, max_encrypted_length}
use quadrf_mesh.Pb.Wire.{◌>>=◌}
use quadrf_mesh.Bridge.Crypto.{Evp, aes_ctr}
use quadrf_mesh.Bridge.Types.{Data, MeshPacketPb, blank_packet}
use quadrf_mesh.Bridge.Encode.{encode_data}
use quadrf_mesh.Bridge.Decode.{decode_data}

-- The header of the air packet.
unfoldable pub air_header : MeshPacketPb → ℕ → ℕ → PacketHeader
air_header input channel_hash our_node = record {
  to = if input.to == 0 then broadcast_node else input.to;
  from = if input.from == 0 then our_node else input.from;
  id = input.id;
  hop_limit = u8 (low_bits input.hop_limit 3);
  hop_start = u8 (low_bits (if input.hop_start == 0 then input.hop_limit else input.hop_start) 3);
  want_ack = input.want_ack;
  via_mqtt = input.via_mqtt;
  channel = channel_hash;
  next_hop = u8 (low_bits input.next_hop 8);
  relay_node = u8 (low_bits input.relay_node 8);
}

-- The part after the header: pass encrypted bytes through, or encode and encrypt the Data.
unfoldable pub seal : Evp → List ℕ → PacketHeader → Option Data → List ℕ → Option Packet
seal evp channel_key header decoded encrypted =
    if not (length encrypted == 0)
    then if not (header.from == 0) && not (header.id == 0)
      then some (record { header = header; encrypted = encrypted })
      else none
    else (do
      d ← decoded
      sealed ← aes_ctr evp channel_key header.id header.from (bytes (encode_data d))
      if not (header.from == 0)
            && (not (header.id == 0) && leb (length sealed) max_encrypted_length)
          then some (record { header = header; encrypted = sealed })
          else none)

unfoldable pub mesh_packet_to_air : Evp → MeshPacketPb → List ℕ → ℕ → ℕ → Option Packet
mesh_packet_to_air evp input channel_key channel_hash our_node =
    seal evp channel_key (air_header input channel_hash our_node) input.decoded input.encrypted

-- A Data that parses and has a port is handed on, all else stays encrypted.
unfoldable pub open_payload : MeshPacketPb → List ℕ → Option Data → MeshPacketPb
open_payload out encrypted none = record out { encrypted = encrypted }
open_payload out encrypted (some d) =
    if not (d.portnum == 0)
    then record out { decoded = some d }
    else record out { encrypted = encrypted }

-- The packet before its payload is opened; `now` is std::time(nullptr).
unfoldable pub from_header : ℕ → PacketHeader → MeshPacketPb
from_header now header = record blank_packet {
  from = header.from;
  to = header.to;
  channel = 0;
  id = header.id;
  hop_limit = header.hop_limit;
  hop_start = header.hop_start;
  want_ack = header.want_ack;
  via_mqtt = header.via_mqtt;
  next_hop = header.next_hop;
  relay_node = header.relay_node;
  rx_time = u32 now;
}

unfoldable pub air_to_mesh_packet : Evp → ℕ → Packet → List ℕ → Option MeshPacketPb
air_to_mesh_packet evp now input channel_key = do
  plain ← aes_ctr evp channel_key input.header.id input.header.from (bytes input.encrypted)
  some (open_payload (from_header now input.header) input.encrypted (decode_data (bytes plain)))

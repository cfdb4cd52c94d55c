-- ===== src/Examples/Mesh.antt =====
-- Concrete packets of src/mesh/packet.cpp.
use quadrf_mesh.Base.{ℕ, ◌+◌, ◌≡◌, ◌≢◌, refl, arith, true, false, some, List, [], ◌∷◌, length, All}
use quadrf_mesh.Base.Words.{bytes}
use quadrf_mesh.Mesh.Packet.{
  PacketHeader, Packet, pack_packet, unpack_packet, unpack_header, read_header, read_le32,
  with_payload, pack_flags, unpack_flags, should_relay, prepare_relay, node_id_byte,
}
use quadrf_mesh.Mesh.Flags.{unpack_flags-pack_flags}
use quadrf_mesh.Mesh.Codec.{unpack_packet-pack_packet, pack_packet-unpack_packet}
use quadrf_mesh.Mesh.Relay.{Travels, SamePacket, Travels_bound}

abbrev text_header : PacketHeader
text_header = record {
  to = 0xffff_ffff;
  from = 0xa1b2_c3d4;
  id = 77;
  hop_limit = 3;
  hop_start = 3;
  want_ack = true;
  via_mqtt = false;
  channel = 8;
  next_hop = 0;
  relay_node = 0;
}

abbrev text_packet : Packet
text_packet = record { header = text_header; encrypted = 1 ∷ 2 ∷ 3 ∷ [] }

unpack_packet-pack_packet_example :
    (wire : List ℕ) × (pack_packet text_packet ≡ some wire)
    × (unpack_packet (bytes wire) ≡ some text_packet)
unpack_packet-pack_packet_example =
    unpack_packet-pack_packet text_packet
      (record {
        to = omega arith;
        from = omega arith;
        id = omega arith;
        hop_limit = omega arith;
        hop_start = omega arith;
      })
      (omega arith) (omega arith)

abbrev text_wire : List ℕ
text_wire =
    255 ∷ 255 ∷ 255 ∷ 255 ∷ 0xd4 ∷ 0xc3 ∷ 0xb2 ∷ 0xa1 ∷ 77 ∷ 0 ∷ 0 ∷ 0 ∷ 0x6b ∷ 8 ∷ 0 ∷ 0 ∷ 1 ∷ 2
    ∷ 3 ∷ []

read_text : unpack_packet (bytes text_wire) ≡ some text_packet
unfolding unpack_packet unpack_header read_header read_le32 unpack_flags with_payload
read_text = refl

pack_packet-unpack_packet_example : pack_packet text_packet ≡ some text_wire
pack_packet-unpack_packet_example =
    pack_packet-unpack_packet text_wire text_packet (ground arith) read_text

unpack_flags-pack_flags_example : unpack_flags (pack_flags text_header) text_header ≡ text_header
unpack_flags-pack_flags_example =
    unpack_flags-pack_flags text_header text_header (omega arith) (omega arith)

abbrev relayed : Packet
relayed = record text_packet { header = record text_header { hop_limit = 2; relay_node = 0x34 } }

abbrev path : List ℕ
path = 0x1234 ∷ []

one_hop : Travels text_packet path relayed
unfolding prepare_relay should_relay node_id_byte
one_hop = Travels.hop 0x1234 refl (Travels.start relayed)

Travels_bound_example :
    (relayed.header.hop_limit + length path ≡ text_header.hop_limit)
    × SamePacket text_packet relayed
    × All (λ node. (node ≢ text_header.from) × (node ≢ text_header.to)) path
Travels_bound_example = Travels_bound (omega arith) one_hop

-- ===== src/Bridge/Delivery.antt =====
-- A phone's packet from one session over the air to the phone of another, and the session's queue.
use quadrf_mesh.Base.{ℕ, ◌^◌, ◌%◌, ◌<◌, ◌==◌, if◌then◌else◌, some, []}
use quadrf_mesh.Mesh.Packet.{Packet}
use quadrf_mesh.Mesh.Codec
use quadrf_mesh.Bridge.Types.{
  Data, MeshPacketPb, ToRadioKind, ToRadio, blank_to_radio, FromRadioKind, FromRadio,
}
use quadrf_mesh.Bridge.PacketRoundTrip
use quadrf_mesh.Bridge.PacketRoundTrip.{as_received}
use quadrf_mesh.Bridge.Air.{air_header, from_header}
use quadrf_mesh.Bridge.Session.{Session, blank_from_radio, fill_blanks}

-- The ToRadio message around a packet.
abbrev pub packet_message : MeshPacketPb → ToRadio
packet_message p = record blank_to_radio { kind = ToRadioKind.packet; packet = p }

-- The packet that session `a` puts on the air for a phone's packet `p`.
abbrev pub outgoing : Session → MeshPacketPb → MeshPacketPb
outgoing a p = (fill_blanks a (as_received p)).1

-- The message that session `b` queues for it: the fields of the phone's packet, or what stands for
-- them where they are 0, cut to the widths of the air header.
abbrev pub incoming : Session → Session → MeshPacketPb → Data → ℕ → ℕ → FromRadio
incoming a b p d now snr = record blank_from_radio {
  id = b.from_seq;
  kind = FromRadioKind.packet;
  packet = record {
    from = if p.from == 0 then a.cfg.node_num else p.from;
    to = if p.to == 0 then 0xffffffff else p.to;
    channel = 0;
    decoded = some d;
    encrypted = [];
    id = if p.id == 0 then a.from_seq else p.id;
    rx_time = now % 2 ^ 32;
    rx_snr = snr;
    hop_limit = (if p.hop_limit == 0 then 3 else p.hop_limit) % 8;
    hop_start =
        (if p.hop_start == 0 then (if p.hop_limit == 0 then 3 else p.hop_limit) else p.hop_start)
        % 8;
    want_ack = p.want_ack;
    via_mqtt = p.via_mqtt;
    next_hop = p.next_hop % 256;
    relay_node = p.relay_node % 256;
    rx_rssi = 0;
  };
}

-- What the header on the air makes of them.
abbrev heard_packet : Session → MeshPacketPb → Data → ℕ → ℕ → MeshPacketPb
heard_packet a p d now snr =
    record (from_header now (air_header (outgoing a p) a.hash a.cfg.node_num)) {
      decoded = some d;
      rx_snr = snr;
    }

-- A session whose node number and message counter are uint32_t.
pub record InRange (s : Session) : Type 0 where
  pub node_num : s.cfg.node_num < 2 ^ 32
  pub from_seq : s.from_seq < 2 ^ 32

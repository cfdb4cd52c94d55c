-- ===== src/Mesh/Packet.antt =====
-- src/mesh/packet.cpp and include/phy/mesh/packet.hpp. `none` stands for a return of false; what
-- an unpacking function has then written into its output is read by no caller.
use quadrf_mesh.Base.{
  ℕ, ◌+◌, ◌-◌, bit_or, bit_and, Bool, false, ◌||◌, not, Option, none, some, List, [], ◌∷◌, ◌++◌,
  ltb, leb, ◌==◌, if◌then◌else◌, length, drop, get_or,
}
use quadrf_mesh.Base.Words.{u8, u32, shl, shr, low_bits, Span, null, bytes}

abbrev pub header_length : ℕ
header_length = 16

abbrev pub max_payload_length : ℕ
max_payload_length = 255

abbrev pub max_encrypted_length : ℕ
max_encrypted_length = max_payload_length - header_length

abbrev pub broadcast_node : ℕ
broadcast_node = 0xffff_ffff

abbrev pub no_next_hop : ℕ
no_next_hop = 0

pub record PacketHeader : Type 0 where
  pub to : ℕ
  pub from : ℕ
  pub id : ℕ
  pub hop_limit : ℕ
  pub hop_start : ℕ
  pub want_ack : Bool
  pub via_mqtt : Bool
  pub channel : ℕ
  pub next_hop : ℕ
  pub relay_node : ℕ

pub record Packet : Type 0 where
  pub header : PacketHeader
  pub encrypted : List ℕ

unfoldable pub node_id_byte : ℕ → ℕ
node_id_byte node = u8 (low_bits node 8)

unfoldable pub pack_flags : PacketHeader → ℕ
pack_flags h =
    let limit = u8 (low_bits h.hop_limit 3) in
    let acked = if h.want_ack then u8 (bit_or limit 0x08) else limit in
    let relayed = if h.via_mqtt then u8 (bit_or acked 0x10) else acked in
    u8 (bit_or relayed (bit_and (shl h.hop_start 5) 0xe0))

-- The header `h` with the four fields that the flags byte holds.
unfoldable pub unpack_flags : ℕ → PacketHeader → PacketHeader
unpack_flags flags h = record h {
  hop_limit = u8 (low_bits flags 3);
  want_ack = not (bit_and flags 0x08 == 0);
  via_mqtt = not (bit_and flags 0x10 == 0);
  hop_start = u8 (shr (bit_and flags 0xe0) 5);
}

unfoldable pub write_le32 : ℕ → List ℕ
write_le32 v = u8 v ∷ u8 (shr v 8) ∷ u8 (shr v 16) ∷ u8 (shr v 24) ∷ []

unfoldable pub read_le32 : List ℕ → ℕ
read_le32 p =
    bit_or (bit_or (bit_or (get_or p 0 0) (shl (get_or p 1 0) 8)) (shl (get_or p 2 0) 16))
      (u32 (shl (get_or p 3 0) 24))

unfoldable pub pack_header : PacketHeader → List ℕ
pack_header h =
    write_le32 h.to
    ++ (write_le32 h.from
        ++ (write_le32 h.id ++ (pack_flags h ∷ h.channel ∷ h.next_hop ∷ h.relay_node ∷ [])))

-- The sixteen bytes as a header, before the test of `from`.
unfoldable pub read_header : List ℕ → PacketHeader
read_header xs = unpack_flags (get_or xs 12 0) (record {
  to = read_le32 xs;
  from = read_le32 (drop 4 xs);
  id = read_le32 (drop 8 xs);
  hop_limit = 0;
  hop_start = 0;
  want_ack = false;
  via_mqtt = false;
  channel = get_or xs 13 0;
  next_hop = get_or xs 14 0;
  relay_node = get_or xs 15 0;
})

unfoldable pub unpack_header : Span → Option PacketHeader
unpack_header (null n) = none
unpack_header (bytes xs) =
    if ltb (length xs) header_length
    then none
    else if not ((read_header xs).from == 0)
    then some (read_header xs)
    else none

unfoldable pub pack_packet : Packet → Option (List ℕ)
pack_packet pkt =
    if pkt.header.from == 0 || ltb max_encrypted_length (length pkt.encrypted)
    then none
    else some (pack_header pkt.header ++ pkt.encrypted)

-- A packet once its header is unpacked from `xs`.
unfoldable pub with_payload : List ℕ → Option PacketHeader → Option Packet
with_payload xs none = none
with_payload xs (some h) =
    if leb (length (drop header_length xs)) max_encrypted_length
    then some (record { header = h; encrypted = drop header_length xs })
    else none

unfoldable pub unpack_packet : Span → Option Packet
unfolding with_payload
unpack_packet (null n) = none
unpack_packet (bytes xs) = with_payload xs (unpack_header (bytes xs))

unfoldable pub should_relay : PacketHeader → ℕ → Bool
should_relay h our_node =
    if h.from == 0 || h.from == our_node
    then false
    else if h.to == our_node
    then false
    else if h.hop_limit == 0 || h.id == 0
    then false
    else (h.next_hop == no_next_hop || h.next_hop == node_id_byte our_node)

-- `--hop_limit` wraps in uint8_t; the guard has excluded 0.
unfoldable pub prepare_relay : Packet → ℕ → Option Packet
prepare_relay pkt our_node =
    if not (should_relay pkt.header our_node)
    then none
    else some (record pkt {
      header = record (pkt.header) {
        hop_limit = u8 (pkt.header.hop_limit + 255);
        relay_node = node_id_byte our_node;
      };
    })

-- ===== src/Bridge/PacketRoundTrip.antt =====
-- What `decodeMeshPacket` makes of `encodeMeshPacket`.
use quadrf_mesh.Base.{
  ℕ, ◌%◌, ◌^◌, ◌<◌, ◌≡◌, refl, arith, Bool, true, false, Option, none, some, List, [], ◌∷◌, ◌++◌,
  length, ◌==◌, if◌then◌else◌, Bool-cases, inl, inr, Option-cases,
}
use quadrf_mesh.Base.Words.{bytes}
use quadrf_mesh.Mesh.Packet.{broadcast_node}
use quadrf_mesh.Pb.Wire.{write_u32, write_bool, write_fixed32, write_float, Field, ◌>>=◌}
use quadrf_mesh.Pb.Fields.{Writes, Writes-append, Writes-nil, parse_fields-Writes}
use quadrf_mesh.Pb.Writers.{
  u32_fields, bool_fields, fixed32_fields, float_fields, bytes_fields, Writes-write_u32,
  Writes-write_bool, Writes-write_fixed32, Writes-write_float, Writes-write_bytes,
}
use quadrf_mesh.Bridge.Types.{Data, MeshPacketPb, blank_packet}
use quadrf_mesh.Bridge.Encode.{encode_data, encode_content, encode_mesh_packet}
use quadrf_mesh.Bridge.Decode.{on_packet_field, on_packet_fields, has_content, decode_mesh_packet}
use quadrf_mesh.Bridge.DataRoundTrip.{decode_data-encode_data}
use quadrf_mesh.Bridge.DataRoundTrip

-- A packet carries a Data that is not all defaults, or encrypted bytes, or nothing.
abbrev pub OneContent : Option Data → List ℕ → Type 0
OneContent (some d) encrypted =
    DataRoundTrip.IsValid d
    × (0 < length (encode_data d))
    × (length (encode_data d) < 2 ^ 32)
    × (encrypted ≡ [])
OneContent none encrypted = length encrypted < 2 ^ 32

pub record IsValid (p : MeshPacketPb) : Type 0 where
  pub from : p.from < 2 ^ 32
  pub to : p.to < 2 ^ 32
  pub channel : p.channel < 2 ^ 32
  pub content : OneContent p.decoded p.encrypted
  pub id : p.id < 2 ^ 32
  pub rx_time : p.rx_time < 2 ^ 32
  pub rx_snr : p.rx_snr < 2 ^ 32
  pub hop_limit : p.hop_limit < 2 ^ 32
  pub hop_start : p.hop_start < 2 ^ 32
  pub next_hop : p.next_hop < 2 ^ 32
  pub relay_node : p.relay_node < 2 ^ 32
  pub rx_rssi : p.rx_rssi < 2 ^ 32

abbrev content_fields : Option Data → List ℕ → List Field
content_fields (some d) encrypted = bytes_fields 4 (encode_data d) false
content_fields none encrypted = bytes_fields 5 encrypted false

-- The fields behind the content, and those in front of it.
abbrev later_fields : MeshPacketPb → List Field
later_fields p =
    fixed32_fields 6 p.id
    ++ (fixed32_fields 7 p.rx_time
        ++ (float_fields 8 p.rx_snr
            ++ (u32_fields 9 p.hop_limit
                ++ (bool_fields 10 p.want_ack
                    ++ (u32_fields 12 p.rx_rssi
                        ++ (bool_fields 14 p.via_mqtt
                            ++ (u32_fields 15 p.hop_start
                                ++ (u32_fields 18 p.next_hop ++ u32_fields 19 p.relay_node))))))))

abbrev packet_fields : MeshPacketPb → List Field
packet_fields p =
    fixed32_fields 1 p.from
    ++ (fixed32_fields 2 p.to
        ++ (u32_fields 3 p.channel ++ (content_fields p.decoded p.encrypted ++ later_fields p)))

Writes-encode_content :
    (d : Option Data) (encrypted : List ℕ)
    → OneContent d encrypted
    → Writes (encode_content d encrypted) (content_fields d encrypted)
unfolding encode_content
Writes-encode_content (some d) encrypted h =
    Writes-write_bytes 4 (omega arith) (encode_data d) false (omega arith)
Writes-encode_content none encrypted h =
    let writes = Writes-write_bytes 5 (omega arith) encrypted false (omega arith) in
    elim (Bool-cases (length encrypted == 0)) [
      | inl z ↦ rw z Writes-nil
      | inr nz ↦ rw nz (rw nz at writes)
    ]

abbrev later_bytes : MeshPacketPb → List ℕ
later_bytes p =
    write_fixed32 6 p.id
    ++ (write_fixed32 7 p.rx_time
        ++ (write_float 8 p.rx_snr
            ++ (write_u32 9 p.hop_limit
                ++ (write_bool 10 p.want_ack
                    ++ (write_u32 12 p.rx_rssi
                        ++ (write_bool 14 p.via_mqtt
                            ++ (write_u32 15 p.hop_start
                                ++ (write_u32 18 p.next_hop ++ write_u32 19 p.relay_node))))))))

Writes-later_bytes : (p : MeshPacketPb) → IsValid p → Writes (later_bytes p) (later_fields p)
Writes-later_bytes p v = Writes-append _ _ _ _ (Writes-write_fixed32 6 (omega arith) p.id v.id) (
    Writes-append _ _ _ _ (Writes-write_fixed32 7 (omega arith) p.rx_time v.rx_time) (
      Writes-append _ _ _ _ (Writes-write_float 8 (omega arith) p.rx_snr v.rx_snr) (
        Writes-append _ _ _ _ (u32 9 p.hop_limit (omega arith) v.hop_limit) (
          Writes-append _ _ _ _ (Writes-write_bool 10 (omega arith) p.want_ack) (
            Writes-append _ _ _ _ (u32 12 p.rx_rssi (omega arith) v.rx_rssi) (
              Writes-append _ _ _ _ (Writes-write_bool 14 (omega arith) p.via_mqtt) (
                Writes-append _ _ _ _ (u32 15 p.hop_start (omega arith) v.hop_start) (
                  Writes-append _ _ _ _ (u32 18 p.next_hop (omega arith) v.next_hop)
                    (u32 19 p.relay_node (omega arith) v.relay_node)))))))))
  where
    u32 : (n x : ℕ) → n < 2 ^ 29 → x < 2 ^ 32 → Writes (write_u32 n x) (u32_fields n x)
    u32 n x hn hx = Writes-write_u32 n hn x (omega arith)

Writes-encode_mesh_packet :
    (p : MeshPacketPb) → IsValid p → Writes (encode_mesh_packet p) (packet_fields p)
unfolding encode_mesh_packet
Writes-encode_mesh_packet p v =
    Writes-append _ _ _ _ (Writes-write_fixed32 1 (omega arith) p.from v.from) (
      Writes-append _ _ _ _ (Writes-write_fixed32 2 (omega arith) p.to v.to) (
        Writes-append _ _ _ _
          (Writes-write_u32 3 (omega arith) p.channel (omega (arith, v.channel)))
          (Writes-append _ _ _ _ (Writes-encode_content p.decoded p.encrypted v.content)
            (Writes-later_bytes p v))))

on_packet_fields-append :
    (out : MeshPacketPb) (fs gs : List Field)
    → on_packet_fields out (fs ++ gs)
      ≡ (on_packet_fields out fs >>= λ out'. on_packet_fields out' gs)
unfolding on_packet_fields
on_packet_fields-append out [] gs = refl
on_packet_fields-append out (f ∷ fs) gs = elim (Option-cases (on_packet_field out f)) [
  | inl e ↦ rw e
  | inr (out', e) ↦ rw e (on_packet_fields-append out' fs gs)
]

-- Each writer's fields set the field of the packet that they came from. A `to` of 0 and a hop limit
-- of 0 are not written, and leave the defaults.
module _ (out : MeshPacketPb) where
  set_from :
      (v : ℕ)
      → out.from ≡ 0
      → on_packet_fields out (fixed32_fields 1 v) ≡ some (record out { from = v })
  unfolding on_packet_fields on_packet_field
  set_from v z = ground arith

  set_to :
      (v : ℕ)
      → out.to ≡ broadcast_node
      → on_packet_fields out (fixed32_fields 2 v)
        ≡ some (record out { to = if v == 0 then broadcast_node else v })
  unfolding on_packet_fields on_packet_field
  set_to v z = ground arith

  set_channel :
      (v : ℕ)
      → out.channel ≡ 0
      → v < 2 ^ 32
      → on_packet_fields out (u32_fields 3 v) ≡ some (record out { channel = v })
  unfolding on_packet_fields on_packet_field
  set_channel v z h = ground arith

  set_id :
      (v : ℕ)
      → out.id ≡ 0
      → on_packet_fields out (fixed32_fields 6 v) ≡ some (record out { id = v })
  unfolding on_packet_fields on_packet_field
  set_id v z = ground arith

  set_rx_time :
      (v : ℕ)
      → out.rx_time ≡ 0
      → on_packet_fields out (fixed32_fields 7 v) ≡ some (record out { rx_time = v })
  unfolding on_packet_fields on_packet_field
  set_rx_time v z = ground arith

  set_rx_snr :
      (v : ℕ)
      → out.rx_snr ≡ 0
      → on_packet_fields out (float_fields 8 v)
        ≡ some (record out { rx_snr = if v % 2 ^ 31 == 0 then 0 else v })
  unfolding on_packet_fields on_packet_field
  set_rx_snr v z = ground arith

  set_hop_limit :
      (v : ℕ)
      → out.hop_limit ≡ 3
      → v < 2 ^ 32
      → on_packet_fields out (u32_fields 9 v)
        ≡ some (record out { hop_limit = if v == 0 then 3 else v })
  unfolding on_packet_fields on_packet_field
  set_hop_limit v z h = ground arith

  set_rx_rssi :
      (v : ℕ)
      → out.rx_rssi ≡ 0
      → v < 2 ^ 32
      → on_packet_fields out (u32_fields 12 v) ≡ some (record out { rx_rssi = v })
  unfolding on_packet_fields on_packet_field
  set_rx_rssi v z h = ground arith

  set_hop_start :
      (v : ℕ)
      → out.hop_start ≡ 0
      → v < 2 ^ 32
      → on_packet_fields out (u32_fields 15 v) ≡ some (record out { hop_start = v })
  unfolding on_packet_fields on_packet_field
  set_hop_start v z h = ground arith

  set_next_hop :
      (v : ℕ)
      → out.next_hop ≡ 0
      → v < 2 ^ 32
      → on_packet_fields out (u32_fields 18 v) ≡ some (record out { next_hop = v })
  unfolding on_packet_fields on_packet_field
  set_next_hop v z h = ground arith

  set_relay_node :
      (v : ℕ)
      → out.relay_node ≡ 0
      → v < 2 ^ 32
      → on_packet_fields out (u32_fields 19 v) ≡ some (record out { relay_node = v })
  unfolding on_packet_fields on_packet_field
  set_relay_node v z h = ground arith

  set_want_ack :
      (v : Bool)
      → out.want_ack ≡ false
      → on_packet_fields out (bool_fields 10 v) ≡ some (record out { want_ack = v })
  unfolding on_packet_fields on_packet_field
  set_want_ack v z = ground arith

  set_via_mqtt :
      (v : Bool)
      → out.via_mqtt ≡ false
      → on_packet_fields out (bool_fields 14 v) ≡ some (record out { via_mqtt = v })
  unfolding on_packet_fields on_packet_field
  set_via_mqtt v z = ground arith

  set_content :
      (d : Option Data) (encrypted : List ℕ)
      → out.decoded ≡ none
      → out.encrypted ≡ []
      → OneContent d encrypted
      → on_packet_fields out (content_fields d encrypted)
        ≡ some (record out { decoded = d; encrypted = encrypted })
  unfolding on_packet_fields on_packet_field
  set_content none [] zd ze h = ground arith
  set_content none (x ∷ xs) zd ze h = ground arith
  set_content (some d) encrypted zd ze h = ground (arith, decode_data-encode_data d h.0)

-- What arrives: broadcast for the destination 0, three hops for none, and +0.0 for -0.0.
abbrev pub as_received : MeshPacketPb → MeshPacketPb
as_received p = record p {
  to = if p.to == 0 then broadcast_node else p.to;
  rx_snr = if p.rx_snr % 2 ^ 31 == 0 then 0 else p.rx_snr;
  hop_limit = if p.hop_limit == 0 then 3 else p.hop_limit;
}

on_packet_fields-packet_fields :
    (p : MeshPacketPb)
    → IsValid p
    → on_packet_fields blank_packet (packet_fields p) ≡ some (as_received p)
on_packet_fields-packet_fields p v = simp (
  on_packet_fields-append,
  set_from,
  set_to,
  set_channel _ p.channel refl v.channel,
  set_content _ p.decoded p.encrypted refl refl v.content,
  set_id,
  set_rx_time,
  set_rx_snr,
  set_hop_limit _ p.hop_limit refl v.hop_limit,
  set_want_ack,
  set_rx_rssi _ p.rx_rssi refl v.rx_rssi,
  set_via_mqtt,
  set_hop_start _ p.hop_start refl v.hop_start,
  set_next_hop _ p.next_hop refl v.next_hop,
  set_relay_node _ p.relay_node refl v.relay_node,
)

-- Decoding what `encodeMeshPacket` wrote of a packet that has a sender, an id, a Data or encrypted
-- bytes gives the packet as received: equal to the one sent but for a destination of 0, which
-- becomes broadcast, a hop limit of 0, which becomes 3, and a negative zero SNR. The fields fit their
-- types, and a Data encodes to at least one byte and has no encrypted bytes beside it: the encoder
-- drops a Data with every field at its default, and of the two contents it writes the Data alone.
pub decode_mesh_packet-encode_mesh_packet :
    (p : MeshPacketPb)
    → IsValid p
    → has_content p ≡ true
    → decode_mesh_packet (bytes (encode_mesh_packet p)) ≡ some (as_received p)
unfolding decode_mesh_packet has_content
decode_mesh_packet-encode_mesh_packet p v c =
    rw
      (
        parse_fields-Writes _ (packet_fields p) (Writes-encode_mesh_packet p v),
        on_packet_fields-packet_fields p v,
      )
      (rw c)

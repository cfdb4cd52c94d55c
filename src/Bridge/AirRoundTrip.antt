-- ===== src/Bridge/AirRoundTrip.antt =====
-- From a phone packet to the air and back, under one channel key.
use quadrf_mesh.Base.{ℕ, ◌≤◌, ◌≡◌, ◌≢◌, arith, some, List, [], length}
use quadrf_mesh.Base.Words.{bytes}
use quadrf_mesh.Mesh.Packet.{Packet, PacketHeader, max_encrypted_length}
use quadrf_mesh.Bridge.Crypto.{Evp, nonce, aes_ctr}
use quadrf_mesh.Bridge.Types.{Data, MeshPacketPb}
use quadrf_mesh.Bridge.Encode.{encode_data}
use quadrf_mesh.Bridge.DataRoundTrip
use quadrf_mesh.Bridge.DataRoundTrip.{decode_data-encode_data}
use quadrf_mesh.Bridge.Air.{
  air_header, seal, mesh_packet_to_air, open_payload, from_header, air_to_mesh_packet,
}

-- Encrypting twice under one key, id and sender gives the bytes back, for every key that is
-- accepted, the empty one included.
pub aes_ctr_twice :
    (evp : Evp) (key : List ℕ) (id from : ℕ) (plain cipher : List ℕ)
    → aes_ctr evp key id from (bytes plain) ≡ some cipher
    → aes_ctr evp key id from (bytes cipher) ≡ some plain
unfolding aes_ctr
aes_ctr_twice evp key id from plain cipher e = ground (
  arith,
  evp.crypt_twice key (nonce id from) plain cipher,
  evp.length-crypt key (nonce id from) plain cipher,
)

-- What a sealed Data is.
pub seal_lem :
    (evp : Evp) (key : List ℕ) (h : PacketHeader) (d : Data) (air : Packet)
    → seal evp key h (some d) [] ≡ some air
    → (air.header ≡ h)
      × (h.from ≢ 0)
      × (h.id ≢ 0)
      × (length air.encrypted ≤ max_encrypted_length)
      × (aes_ctr evp key h.id h.from (bytes (encode_data d)) ≡ some air.encrypted)
unfolding seal
seal_lem evp key h d air e = ground arith

-- A Data with a port that goes to the air under some key is what the other side hands on under the
-- same key, with the header fields that the air packet carries.
pub air_to_mesh_packet-mesh_packet_to_air :
    (evp : Evp) (now : ℕ) (p : MeshPacketPb) (d : Data) (key : List ℕ) (hash our_node : ℕ)
    (air : Packet)
    → p.decoded ≡ some d
    → p.encrypted ≡ []
    → DataRoundTrip.IsValid d
    → d.portnum ≢ 0
    → mesh_packet_to_air evp p key hash our_node ≡ some air
    → air_to_mesh_packet evp now air key
      ≡ some (record (from_header now (air_header p hash our_node)) { decoded = some d })
unfolding mesh_packet_to_air air_to_mesh_packet open_payload
air_to_mesh_packet-mesh_packet_to_air evp now p d key hash our_node air hd he v port e =
    let h = air_header p hash our_node in
    let sealed : seal evp key h (some d) [] ≡ some air = cc in
    let (eh, from, id, fits, crypt) = seal_lem evp key h d air sealed in
    ground (
      arith,
      aes_ctr_twice evp key h.id h.from (encode_data d) air.encrypted,
      decode_data-encode_data d v,
    )

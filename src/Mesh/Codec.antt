-- ===== src/Mesh/Codec.antt =====
-- Air frames and packets: packing and unpacking are inverse to one another.
use quadrf_mesh.Base.{
  ℕ, ◌+◌, ◌*◌, ◌/◌, ◌%◌, ◌^◌, ◌≤◌, ◌<◌, ◌≡◌, refl, arith, List, [], ◌∷◌, ◌++◌, some, length, drop,
}
use quadrf_mesh.Base.Bits.{bit_or-low_high}
use quadrf_mesh.Base.Words.{IsBytes, bytes}
use quadrf_mesh.Mesh.Packet.{
  PacketHeader, Packet, write_le32, read_le32, pack_flags, unpack_flags, pack_header, read_header,
  unpack_header, pack_packet, unpack_packet, max_encrypted_length,
}
use quadrf_mesh.Mesh.Flags.{unpack_flags-pack_flags, pack_flags-unpack_flags}

-- The ranges of the C++ types, with hop counts that fit their three bits.
pub record IsValid (h : PacketHeader) : Type 0 where
  pub to : h.to < 2 ^ 32
  pub from : h.from < 2 ^ 32
  pub id : h.id < 2 ^ 32
  pub hop_limit : h.hop_limit < 8
  pub hop_start : h.hop_start < 8

-- Four bytes as the number that they spell, lowest first.
read_le32_sum :
    (a b c d : ℕ) (rest : List ℕ)
    → a < 256
    → b < 256
    → c < 256
    → d < 256
    → read_le32 (a ∷ b ∷ c ∷ d ∷ rest) ≡ a + b * 2 ^ 8 + c * 2 ^ 16 + d * 2 ^ 24
unfolding read_le32
read_le32_sum a b c d rest ha hb hc hd =
    let small : d * 2 ^ 24 % 2 ^ 32 ≡ d * 2 ^ 24 = omega arith in
    rw
      (
        small,
        bit_or-low_high 8 b a ha,
        bit_or-low_high 16 c (b * 2 ^ 8 + a) (omega arith),
        bit_or-low_high 24 d (c * 2 ^ 16 + (b * 2 ^ 8 + a)) (omega arith),
      )
      (omega arith)

read_le32-write_le32 : (v : ℕ) (rest : List ℕ) → v < 2 ^ 32 → read_le32 (write_le32 v ++ rest) ≡ v
unfolding write_le32
read_le32-write_le32 v rest h = omega (
  arith,
  read_le32_sum (v % 2 ^ 8) (v / 2 ^ 8 % 2 ^ 8) (v / 2 ^ 16 % 2 ^ 8) (v / 2 ^ 24 % 2 ^ 8) rest
      (omega arith) (omega arith) (omega arith) (omega arith),
)

write_le32-read_le32 :
    (a b c d : ℕ) (rest : List ℕ)
    → a < 256
    → b < 256
    → c < 256
    → d < 256
    → write_le32 (read_le32 (a ∷ b ∷ c ∷ d ∷ rest)) ≡ a ∷ b ∷ c ∷ d ∷ []
unfolding write_le32
write_le32-read_le32 a b c d rest ha hb hc hd =
    rw (read_le32_sum a b c d rest ha hb hc hd) (ground arith)

read_header-pack_header :
    (h : PacketHeader) (rest : List ℕ) → IsValid h → read_header (pack_header h ++ rest) ≡ h
read_header-pack_header h rest v =
    let tail = pack_flags h ∷ h.channel ∷ h.next_hop ∷ h.relay_node ∷ rest in
    let e0 = read_le32-write_le32 h.to (write_le32 h.from ++ (write_le32 h.id ++ tail)) v.to in
    let e1 = read_le32-write_le32 h.from (write_le32 h.id ++ tail) v.from in
    let e2 = read_le32-write_le32 h.id tail v.id in
    unfold read_header pack_header write_le32 in
    rw (unpack_flags-pack_flags h _ v.hop_limit v.hop_start) (cc (e0, e1, e2))

pub length-pack_header :
    (h : PacketHeader) (rest : List ℕ) → length (pack_header h ++ rest) ≡ 16 + length rest
unfolding pack_header write_le32
length-pack_header h rest = omega arith

drop-pack_header : (h : PacketHeader) (rest : List ℕ) → drop 16 (pack_header h ++ rest) ≡ rest
unfolding pack_header write_le32
drop-pack_header h rest = refl

-- A packet with a sender, at most 239 encrypted bytes, hop counts below 8 and node numbers and id
-- below 2^32 is packed, and unpacking the bytes gives the same packet. A hop count of 8 or more, which
-- the flags byte has no room for, is excluded.
pub unpack_packet-pack_packet :
    (p : Packet)
    → IsValid p.header
    → 0 < p.header.from
    → length p.encrypted ≤ max_encrypted_length
    → (wire : List ℕ) × (pack_packet p ≡ some wire) × (unpack_packet (bytes wire) ≡ some p)
unpack_packet-pack_packet p v sender fits = (
  pack_header p.header ++ p.encrypted,
  unfold pack_packet in ground arith,
  unfold unpack_packet unpack_header in
      ground (
        arith,
        length-pack_header p.header p.encrypted,
        drop-pack_header p.header p.encrypted,
        read_header-pack_header p.header p.encrypted v,
      ),
)

-- The first four bytes of a long enough buffer.
record Split (xs : List ℕ) : Type 0 where
  a : ℕ
  b : ℕ
  c : ℕ
  d : ℕ
  rest : List ℕ
  whole : xs ≡ a ∷ b ∷ c ∷ d ∷ rest
  byte_a : a < 256
  byte_b : b < 256
  byte_c : c < 256
  byte_d : d < 256
  bytes_rest : IsBytes rest
  length_rest : length xs ≡ length rest + 4

split : (xs : List ℕ) → IsBytes xs → 4 ≤ length xs → Split xs
split [] h l = absurd (omega arith)
split (a ∷ []) h l = absurd (omega arith)
split (a ∷ b ∷ []) h l = absurd (omega arith)
split (a ∷ b ∷ c ∷ []) h l = absurd (omega arith)
split (a ∷ b ∷ c ∷ d ∷ rest) (ha, (hb, (hc, (hd, hr)))) l = record {
  a = a;
  b = b;
  c = c;
  d = d;
  rest = rest;
  whole = refl;
  byte_a = ha;
  byte_b = hb;
  byte_c = hc;
  byte_d = hd;
  bytes_rest = hr;
  length_rest = omega arith;
}

-- The sixteen header bytes, four at a time, are what the header read from them is written as.
long_enough :
    (xs : List ℕ) (s : Split xs) (t : Split s.rest) (u : Split t.rest) (v : Split u.rest)
    → pack_header (read_header xs) ++ drop 16 xs ≡ xs
unfolding pack_header read_header unpack_flags
long_enough xs s t u v =
    let after_id = v.a ∷ v.b ∷ v.c ∷ v.d ∷ v.rest in
    let after_from = u.a ∷ u.b ∷ u.c ∷ u.d ∷ after_id in
    let after_to = t.a ∷ t.b ∷ t.c ∷ t.d ∷ after_from in
    let e : xs ≡ s.a ∷ s.b ∷ s.c ∷ s.d ∷ after_to = cc (s.whole, t.whole, u.whole, v.whole) in
    let to = write_le32-read_le32 s.a s.b s.c s.d after_to s.byte_a s.byte_b s.byte_c s.byte_d in
    let from =
      write_le32-read_le32 t.a t.b t.c t.d after_from t.byte_a t.byte_b t.byte_c t.byte_d in
    let id = write_le32-read_le32 u.a u.b u.c u.d after_id u.byte_a u.byte_b u.byte_c u.byte_d in
    let flags =
      pack_flags-unpack_flags v.a (read_header (s.a ∷ s.b ∷ s.c ∷ s.d ∷ after_to)) v.byte_a in
    rw e (rw (to, from, id, flags))

pack_header-read_header :
    (xs : List ℕ) → IsBytes xs → 16 ≤ length xs → pack_header (read_header xs) ++ drop 16 xs ≡ xs
pack_header-read_header xs h long =
    let s = split xs h (omega arith) in
    let t = split s.rest s.bytes_rest (omega (arith, s.length_rest)) in
    let u = split t.rest t.bytes_rest (omega (arith, s.length_rest, t.length_rest)) in
    let v =
      split u.rest u.bytes_rest (omega (arith, s.length_rest, t.length_rest, u.length_rest)) in
    long_enough xs s t u v

-- Unpacking is exact: whatever bytes it accepts, packing the result gives these bytes back.
pub pack_packet-unpack_packet :
    (wire : List ℕ) (p : Packet)
    → IsBytes wire
    → unpack_packet (bytes wire) ≡ some p
    → pack_packet p ≡ some wire
unfolding pack_packet unpack_packet unpack_header
pack_packet-unpack_packet wire p h e = ground (arith, pack_header-read_header wire h)

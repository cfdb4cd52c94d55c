-- ===== src/Bridge/Crypto.antt =====
-- src/bridge/crypto.cpp and include/phy/bridge/crypto.hpp. The AES calls are OpenSSL's, so they are
-- a parameter; a std::string is the list of its bytes.
use quadrf_mesh.Base.{
  ℕ, ◌+◌, ◌-◌, ◌≡◌, bit_xor, Bool, ◌&&◌, ◌||◌, not, Option, none, some, List, [], ◌∷◌, ltb, ◌==◌,
  if◌then◌else◌, length, get_or, set,
}
use quadrf_mesh.Base.Words.{u8, shr, Span, null, bytes}

abbrev pub default_psk : List ℕ
default_psk =
    0xd4 ∷ 0xf1 ∷ 0xbb ∷ 0x3a ∷ 0x20 ∷ 0x29 ∷ 0x07 ∷ 0x59 ∷ 0xf0 ∷ 0xbc ∷ 0xff ∷ 0xab ∷ 0xcf ∷ 0x4e
    ∷ 0x69 ∷ 0x01 ∷ []

-- The key, or `none` for a return of false. An empty key means no encryption.
unfoldable pub expand_psk : Span → Option (List ℕ)
expand_psk (null len) = some []
expand_psk (bytes psk) =
    if length psk == 0
    then some []
    else if length psk == 1
    then if get_or psk 0 0 == 0
      then some []
      else if ltb 1 (get_or psk 0 0)
      then some (set default_psk 15 (u8 (get_or default_psk 15 0 + (get_or psk 0 0 - 1))))
      else some default_psk
    else if length psk == 16 || length psk == 32
    then some psk
    else none

unfoldable pub xor_hash_loop : ℕ → List ℕ → ℕ
xor_hash_loop h [] = h
xor_hash_loop h (b ∷ rest) = xor_hash_loop (u8 (bit_xor h b)) rest

unfoldable pub xor_hash : List ℕ → ℕ
unfolding xor_hash_loop
xor_hash data_in = xor_hash_loop 0 data_in

unfoldable pub channel_hash : List ℕ → List ℕ → ℕ
unfolding xor_hash
channel_hash name key = u8 (bit_xor (xor_hash name) (xor_hash key))

-- OpenSSL's EVP calls for AES in counter mode: whether the context can be set up for a key and a
-- nonce, and the bytes that update and final then make, if they succeed. What is relied on: the
-- cipher is its own inverse and keeps the length.
pub record Evp : Type 0 where
  pub init_ok : List ℕ → List ℕ → Bool
  pub crypt : List ℕ → List ℕ → List ℕ → Option (List ℕ)
  pub crypt_twice :
      (key nonce plain cipher : List ℕ)
      → crypt key nonce plain ≡ some cipher
      → crypt key nonce cipher ≡ some plain
  pub length-crypt :
      (key nonce plain cipher : List ℕ)
      → crypt key nonce plain ≡ some cipher
      → length cipher ≡ length plain

unfoldable pub nonce : ℕ → ℕ → List ℕ
nonce packet_id from_node =
    u8 packet_id
    ∷ u8 (shr packet_id 8)
    ∷ u8 (shr packet_id 16)
    ∷ u8 (shr packet_id 24)
    ∷ 0
    ∷ 0
    ∷ 0
    ∷ 0
    ∷ u8 from_node
    ∷ u8 (shr from_node 8)
    ∷ u8 (shr from_node 16)
    ∷ u8 (shr from_node 24)
    ∷ 0
    ∷ 0
    ∷ 0
    ∷ 0
    ∷ []

-- The bytes of the buffer afterwards, or `none` for a return of false.
unfoldable pub aes_ctr : Evp → List ℕ → ℕ → ℕ → Span → Option (List ℕ)
aes_ctr evp key packet_id from_node (null len) =
    if length key == 0
    then some []
    else if not (len == 0)
    then none
    else if not (length key == 16) && not (length key == 32)
    then none
    else if evp.init_ok key (nonce packet_id from_node)
    then some []
    else none
aes_ctr evp key packet_id from_node (bytes data_in) =
    if length key == 0
    then some data_in
    else if not (length key == 16) && not (length key == 32)
    then none
    else if not (evp.init_ok key (nonce packet_id from_node))
    then none
    else if length data_in == 0
    then some data_in
    else evp.crypt key (nonce packet_id from_node) data_in

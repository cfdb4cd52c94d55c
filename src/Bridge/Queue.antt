-- ===== src/Bridge/Queue.antt =====
-- What the calls of a session do to its queue, its counters and the frames to transmit.
use quadrf_mesh.Base.{
  ℕ, ◌+◌, ◌≤◌, ◌≡◌, refl, arith, Option, none, some, List, [], ◌∷◌, ◌++◌, append_assoc, length,
  ◌==◌, if◌then◌else◌, ◌⊎◌, inl, inr, Bool-cases, Option-cases,
}
use quadrf_mesh.Base.Words.{u32, u64, Span}
use quadrf_mesh.Mesh.Packet.{Packet, pack_packet}
use quadrf_mesh.Mesh.Codec.{length-pack_header}
use quadrf_mesh.Bridge.Crypto.{Evp}
use quadrf_mesh.Bridge.Types.{MeshPacketPb, ToRadioKind, ToRadio, FromRadio, FromRadioKind}
use quadrf_mesh.Bridge.Encode.{encode_from_radio}
use quadrf_mesh.Bridge.Decode.{decode_to_radio}
use quadrf_mesh.Bridge.Air.{mesh_packet_to_air}
use quadrf_mesh.Bridge.Session.{
  Session, nonce_only_nodes, start_config, config_complete_message, fill_blanks, transmit, pack_air,
  handle_packet, on_to_radio, handle_to_radio, enqueue_from, emit_own_node_info, pop_from_radio,
  my_info_message, own_node_info, channel_message, config_message, make_device_config,
  make_lora_config, blank_from_radio, node_id_string,
}

length-pack_packet :
    (air : Packet) (wire : List ℕ)
    → pack_packet air ≡ some wire
    → (16 ≤ length wire) × (length wire ≤ 255)
unfolding pack_packet
length-pack_packet air wire e = ground (arith, length-pack_header air.header air.encrypted)

length-pack_air :
    (air : Option Packet) (wire : List ℕ)
    → pack_air air ≡ some wire
    → (16 ≤ length wire) × (length wire ≤ 255)
length-pack_air none wire e = cc
length-pack_air (some air) wire e = length-pack_packet air wire e

-- One call: at most one more frame, counted, and of a legal length.
abbrev pub OneFrame : Session → List (List ℕ) → Session × List (List ℕ) → Type 0
OneFrame s tx_air r =
    ((r.1 ≡ tx_air) × (r.0.tx_enqueued ≡ s.tx_enqueued))
    ⊎ ((wire : List ℕ) × (r.1 ≡ tx_air ++ (wire ∷ []))
        × (r.0.tx_enqueued ≡ u64 (s.tx_enqueued + 1))
        × (16 ≤ length wire)
        × (length wire ≤ 255))

transmit-OneFrame :
    (s : Session) (tx_air : List (List ℕ)) (id : ℕ) (wire : Option (List ℕ))
    → ((w : List ℕ) → wire ≡ some w → (16 ≤ length w) × (length w ≤ 255))
    → OneFrame s tx_air (transmit s tx_air id wire)
unfolding transmit enqueue_from
transmit-OneFrame s tx_air id none h = inl (refl, refl)
transmit-OneFrame s tx_air id (some w) h = inr (w, refl, refl, (h w refl).0, (h w refl).1)

same_count : (s : Session) (p : MeshPacketPb) → (fill_blanks s p).0.tx_enqueued ≡ s.tx_enqueued
unfolding fill_blanks
same_count s p = ground arith

handle_packet-OneFrame :
    (evp : Evp) (s : Session) (p : MeshPacketPb) (tx_air : List (List ℕ))
    → OneFrame s tx_air (handle_packet evp s p tx_air)
unfolding handle_packet
handle_packet-OneFrame evp s p tx_air =
    let pkt = (fill_blanks s p).1 in
    let air = mesh_packet_to_air evp pkt s.channel_key s.hash s.cfg.node_num in
    rw (same_count s p) at
      (transmit-OneFrame (fill_blanks s p).0 tx_air pkt.id (pack_air air) (length-pack_air air))

start_config-tx_enqueued : (s : Session) (n : ℕ) → (start_config s n).tx_enqueued ≡ s.tx_enqueued
unfolding start_config enqueue_from emit_own_node_info
start_config-tx_enqueued s n = ground arith

on_to_radio-OneFrame :
    (evp : Evp) (s : Session) (tx_air : List (List ℕ)) (k : ToRadioKind) (m : ToRadio)
    → OneFrame s tx_air (on_to_radio evp s tx_air k m)
unfolding on_to_radio
on_to_radio-OneFrame evp s tx_air ToRadioKind.none m = inl (refl, refl)
on_to_radio-OneFrame evp s tx_air ToRadioKind.packet m =
    handle_packet-OneFrame evp s m.packet tx_air
on_to_radio-OneFrame evp s tx_air ToRadioKind.want_config m =
    inl (refl, start_config-tx_enqueued s m.want_config_id)
on_to_radio-OneFrame evp s tx_air ToRadioKind.disconnect m = inl (refl, refl)
on_to_radio-OneFrame evp s tx_air ToRadioKind.heartbeat m = inl (refl, refl)

-- Whatever bytes the phone sends, `handleToRadio` transmits at most one frame, of 16 to 255 bytes,
-- behind those that were there, and `txEnqueued` counts it, modulo 2^64.
pub handle_to_radio-OneFrame :
    (evp : Evp) (s : Session) (payload : Span) (tx_air : List (List ℕ))
    → OneFrame s tx_air (handle_to_radio evp s payload tx_air)
unfolding handle_to_radio
handle_to_radio-OneFrame evp s payload tx_air = elim (Option-cases (decode_to_radio payload)) [
  | inl e ↦ rw e (inl (refl, refl))
  | inr (m, e) ↦ rw e (on_to_radio-OneFrame evp s tx_air m.kind m)
]

-- Messages numbered in a row from the session's counter, which wraps at 2^32.
abbrev pub numbered : ℕ → List FromRadio → List (List ℕ)
numbered seq [] = []
numbered seq (m ∷ ms) = encode_from_radio (record m { id = seq }) ∷ numbered (u32 (seq + 1)) ms

-- The answer to a config request: identity and node, then, unless only nodes are asked for,
-- metadata, channel, device and LoRa config; the nonce comes last.
abbrev pub config_burst : Session → ℕ → List FromRadio
config_burst s n =
    my_info_message s
    ∷ own_node_info s
    ∷ ((if n == nonce_only_nodes
          then []
          else (record blank_from_radio { kind = FromRadioKind.metadata }
              ∷ channel_message s
              ∷ config_message make_device_config
              ∷ config_message make_lora_config
              ∷ []))
        ++ (config_complete_message n ∷ []))

-- `startConfig` queues exactly the answer to the request, in order and numbered in a row, behind
-- what is queued already.
pub start_config-from_q :
    (s : Session) (n : ℕ)
    → (start_config s n).from_q ≡ s.from_q ++ numbered s.from_seq (config_burst s n)
unfolding start_config enqueue_from emit_own_node_info own_node_info channel_message node_id_string
start_config-from_q s n = elim (Bool-cases (n == nonce_only_nodes)) [
  | inl e ↦ rw e (simp append_assoc)
  | inr e ↦ rw e (simp append_assoc)
]

-- Messages that the session enqueues and that its user pops, in any order: `Runs s pushed popped t`
-- has the bytes of both.
pub data Runs : Session → List (List ℕ) → List (List ℕ) → Session → Type 0 where
  stop : (s : Session) → Runs s [] [] s
  enqueue :
      {s t : Session} {pushed popped : List (List ℕ)} (fr : FromRadio)
      → Runs (enqueue_from s fr) pushed popped t
      → Runs s (encode_from_radio (record fr { id = s.from_seq }) ∷ pushed) popped t
  pop :
      {s t u : Session} {pushed popped : List (List ℕ)} (m : List ℕ)
      → pop_from_radio s ≡ (t, some m)
      → Runs t pushed popped u
      → Runs s pushed (m ∷ popped) u

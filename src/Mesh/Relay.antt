-- ===== src/Mesh/Relay.antt =====
-- Managed flooding: which packets a node rebroadcasts, and why a packet dies out.
use quadrf_mesh.Base.{
  ℕ, ◌+◌, ◌<◌, ◌≡◌, ◌≢◌, ◌↔◌, ◌⊎◌, refl, arith, List, [], ◌∷◌, some, length, true, All, ◌∙◌,
}
use mathlib.Core.Path.{subst₂, sym}
use quadrf_mesh.Mesh.Packet.{
  PacketHeader, Packet, no_next_hop, node_id_byte, should_relay, prepare_relay,
}

-- A node relays exactly the packets that have a sender and an id, that it neither sent nor is the
-- destination of, that have a hop left, and whose next hop is unset or its own low byte.
pub should_relay_iff :
    (h : PacketHeader) (our_node : ℕ)
    → (should_relay h our_node ≡ true) ↔ (
        (h.from ≢ 0)
        × (h.from ≢ our_node)
        × (h.to ≢ our_node)
        × (h.hop_limit ≢ 0)
        × (h.id ≢ 0)
        × ((h.next_hop ≡ no_next_hop) ⊎ (h.next_hop ≡ node_id_byte our_node)))
unfolding should_relay
should_relay_iff h our_node = ground arith

-- One relay: a hop less, the relay byte stamped, all else unchanged.
pub record IsRelayOf (pkt out : Packet) (our_node : ℕ) : Type 0 where
  pub accepted : should_relay pkt.header our_node ≡ true
  pub hops : out.header.hop_limit + 1 ≡ pkt.header.hop_limit
  pub rest : out ≡ record pkt {
    header = record (pkt.header) {
      hop_limit = out.header.hop_limit;
      relay_node = node_id_byte our_node;
    };
  }

prepare_relay_lem :
    (pkt out : Packet) (our_node : ℕ)
    → pkt.header.hop_limit < 256
    → prepare_relay pkt our_node ≡ some out
    → IsRelayOf pkt out our_node
unfolding prepare_relay should_relay
prepare_relay_lem pkt out our_node small e = record {
  accepted = ground arith;
  hops = ground arith;
  rest = ground arith;
}

-- A packet as it travels: each node in turn relays what the one before it sent.
pub data Travels : Packet → List ℕ → Packet → Type 0 where
  start : (pkt : Packet) → Travels pkt [] pkt
  hop :
      {pkt next last : Packet} {nodes : List ℕ} (node : ℕ)
      → prepare_relay pkt node ≡ some next
      → Travels next nodes last
      → Travels pkt (node ∷ nodes) last

-- What a journey keeps.
abbrev pub SamePacket : Packet → Packet → Type 0
SamePacket p q =
    (p.encrypted ≡ q.encrypted)
    × (p.header.from ≡ q.header.from)
    × (p.header.to ≡ q.header.to)
    × (p.header.id ≡ q.header.id)
    × (p.header.hop_start ≡ q.header.hop_start)

same_from_relay :
    (pkt out : Packet) (node : ℕ) → prepare_relay pkt node ≡ some out → SamePacket pkt out
unfolding prepare_relay
same_from_relay pkt out node e =
    (ground arith, ground arith, ground arith, ground arith, ground arith)

foreign :
    (h : PacketHeader) (node : ℕ) → should_relay h node ≡ true → (node ≢ h.from) × (node ≢ h.to)
unfolding should_relay
foreign h node e = ground arith

-- On any path of relays every hop takes exactly one from the hop limit, so a packet is relayed at
-- most as often as its hop limit says; sender, destination, id and payload stay, and neither the
-- sender nor the destination is on the path.
pub Travels_bound :
    {pkt last : Packet} {nodes : List ℕ}
    → pkt.header.hop_limit < 256
    → Travels pkt nodes last
    → (last.header.hop_limit + length nodes ≡ pkt.header.hop_limit)
      × SamePacket pkt last
      × All (λ node. (node ≢ pkt.header.from) × (node ≢ pkt.header.to)) nodes
Travels_bound small (start pkt) = (omega arith, (refl, refl, refl, refl, refl), tt)
Travels_bound small (hop {pkt} {next} {nodes} node e more) =
    let r = prepare_relay_lem pkt next node small e in
    let (a, b, c, d, f) = same_from_relay pkt next node e in
    let ih = Travels_bound (omega (arith, r.hops)) more in
    let (a', b', c', d', f') = ih.1 in
    (
      omega (arith, r.hops, ih.0),
      (a ∙ a', b ∙ b', c ∙ c', d ∙ d', f ∙ f'),
      (
        foreign pkt.header node r.accepted,
        subst₂ (λ f t. All (λ n. (n ≢ f) × (n ≢ t)) nodes) (sym b) (sym c) ih.2,
      ),
    )

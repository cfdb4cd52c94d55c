-- ===== src/Daemon/Queues.antt =====
-- apps/quadrf_lora_phy.cpp: the queue of sample chunks between the capture and the modem threads,
-- and the air frames that were sent last. Each operation is what it does under its lock; `pop` from
-- the moment its wait ends. `Sample` is any type, and `Transmitter::enqueue`, with the state of the
-- transmitter, the parameter `tx_enqueue`.
use quadrf_mesh.Base.{
  ℕ, ◌+◌, Bool, true, false, ◌&&◌, ◌||◌, Option, none, some, List, [], ◌∷◌, ◌++◌, ◌==◌, ltb, leb,
  if◌then◌else◌, length, drop,
}
use quadrf_mesh.Base.Words.{u64}

abbrev pub max_chunks : ℕ
max_chunks = 32

pub record ChunkQueue {ℓ} (A : Type ℓ) : Type ℓ where
  pub q : List (List A)
  pub dropped : ℕ

module _ {ℓ} {A : Type ℓ} where
  unfoldable pub push : List A → ChunkQueue A → ChunkQueue A
  push c s =
      let room =
        if leb max_chunks (length s.q)
        then record s { q = drop 1 s.q; dropped = u64 (s.dropped + 1) }
        else s in
      record room { q = room.q ++ (c ∷ []) }

  unfoldable pub pop : ChunkQueue A → Option (List A) × ChunkQueue A
  pop s = elim s.q [ [] ↦ (none, s) | c ∷ q ↦ (some c, record s { q = q }) ]

  unfoldable pub flush : ChunkQueue A → ChunkQueue A
  flush s = record s { q = [] }

abbrev pub max_recent_tx : ℕ
max_recent_tx = 8

-- `pop_front` until no more than `max_recent_tx` are left.
unfoldable pub trim_recent : List (List ℕ) → List (List ℕ)
trim_recent [] = []
trim_recent (air ∷ recent) =
    let rest = trim_recent recent in
    if ltb max_recent_tx (length (air ∷ recent)) then rest else air ∷ recent

unfoldable pub remember_tx : List ℕ → List (List ℕ) → List (List ℕ)
remember_tx air recent = trim_recent (recent ++ (air ∷ []))

unfoldable pub same_air : List ℕ → List ℕ → Bool
same_air [] [] = true
same_air (x ∷ xs) (y ∷ ys) = x == y && same_air xs ys
same_air xs ys = false

unfoldable pub is_recent_tx_echo : List ℕ → List (List ℕ) → Bool
is_recent_tx_echo air [] = false
is_recent_tx_echo air (tx_air ∷ recent) = same_air tx_air air || is_recent_tx_echo air recent

pub record TxState (Tx : Type 0) : Type 0 where
  pub tx : Tx
  pub recent_tx : List (List ℕ)
  pub tx_enqueued : ℕ

unfoldable pub enqueue_air :
    {Tx : Type 0} → (List ℕ → Tx → Option Tx) → Bool → List ℕ → TxState Tx → Bool × TxState Tx
enqueue_air tx_enqueue rx_only air s = if rx_only then (false, s) else elim (tx_enqueue air s.tx) [
  | none ↦ (false, s)
  | some tx ↦ (
    true,
    record {
      tx = tx;
      recent_tx = remember_tx air s.recent_tx;
      tx_enqueued = u64 (s.tx_enqueued + 1);
    },
  )
]

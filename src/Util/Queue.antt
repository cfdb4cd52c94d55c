-- ===== src/Util/Queue.antt =====
-- What the ring of include/phy/util/ring_buffer.hpp promises: a bounded queue.
use quadrf_mesh.Base.{
  ℕ, ◌+◌, Bool, true, false, List, [], ◌∷◌, ◌++◌, length, take, drop, ltb, if◌then◌else◌,
}

-- An operation under the lock, and what its caller sees.
pub data Op {ℓ} (A : Type ℓ) : Type ℓ where
  push_op : List A → Op A
  pop_op : ℕ → Op A

pub data Reply {ℓ} (A : Type ℓ) : Type ℓ where
  pushed : Bool → Reply A
  popped : List A → Reply A

module _ {ℓ} {A : Type ℓ} where
  -- A block is taken whole or not at all.
  unfoldable pub queue_step : ℕ → List A → Op A → Reply A × List A
  queue_step capacity q (push_op samples) =
      if ltb capacity (length q + length samples)
      then (pushed false, q)
      else (pushed true, q ++ samples)
  queue_step capacity q (pop_op max_count) = (popped (take max_count q), drop max_count q)

  unfoldable pub queue_run : ℕ → List A → List (Op A) → List (Reply A)
  queue_run capacity q [] = []
  queue_run capacity q (op ∷ ops) =
      let next = queue_step capacity q op in next.0 ∷ queue_run capacity next.1 ops

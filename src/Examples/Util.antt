-- ===== src/Examples/Util.antt =====
-- The ring buffer at concrete values.
use quadrf_mesh.Base.{ℕ, ◌≡◌, arith, List, [], ◌∷◌}
use quadrf_mesh.Util.RingBuffer.{new_ring}
use quadrf_mesh.Util.Queue.{Op, push_op, pop_op, queue_run}
use quadrf_mesh.Util.Refinement.{ring_run, ring_run-queue_run}

-- A push behind a pop that wraps around, and one that does not fit.
abbrev ops : List (Op ℕ)
ops = push_op (1 ∷ 2 ∷ []) ∷ pop_op 1 ∷ push_op (3 ∷ 4 ∷ []) ∷ push_op (5 ∷ []) ∷ pop_op 9 ∷ []

ring_run-queue_run_example : ring_run 0 (new_ring 3 0) ops ≡ queue_run 3 [] ops
ring_run-queue_run_example = ring_run-queue_run 0 3 ops (omega arith)

-- ===== src/Util/RingBuffer.antt =====
-- include/phy/util/ring_buffer.hpp: the ring between the capture thread and the receiver. Each
-- operation is what it does while it holds the mutex: `pop` from the moment its wait ends, when the
-- ring either has samples or the time is over and it has none. `Sample` is any type `A`, with the
-- value `blank` that a new vector holds.
use quadrf_mesh.Base.{
  ℕ, zero, suc, ◌+◌, ◌-◌, ◌%◌, min, Bool, true, false, List, [], ◌∷◌, ltb, ◌==◌, if◌then◌else◌,
  length, get_or, set,
}

pub record RingBuffer {ℓ} (A : Type ℓ) : Type ℓ where
  pub data_ : List A
  pub read_pos : ℕ
  pub write_pos : ℕ
  pub size : ℕ

unfoldable pub next_pos : ℕ → ℕ → ℕ
next_pos capacity pos = (pos + 1) % capacity

module _ {ℓ} {A : Type ℓ} where
  unfoldable pub filled : ℕ → A → List A
  filled zero blank = []
  filled (suc n) blank = blank ∷ filled n blank

  unfoldable pub new_ring : ℕ → A → RingBuffer A
  new_ring capacity blank = record {
    data_ = filled capacity blank;
    read_pos = 0;
    write_pos = 0;
    size = 0;
  }

  unfoldable pub free_locked : RingBuffer A → ℕ
  free_locked r = length r.data_ - r.size

  unfoldable pub write_samples : RingBuffer A → List A → RingBuffer A
  write_samples r [] = r
  write_samples r (x ∷ samples) =
      write_samples
        (record r {
          data_ = set r.data_ r.write_pos x;
          write_pos = next_pos (length r.data_) r.write_pos;
        })
        samples

  unfoldable pub push : RingBuffer A → List A → Bool × RingBuffer A
  push r samples =
      let written = write_samples r samples in
      if ltb (free_locked r) (length samples)
      then (false, r)
      else (true, record written { size = r.size + length samples })

  -- The loop of `pop`: the samples and the position behind them.
  unfoldable pub read_samples : List A → A → ℕ → ℕ → List A × ℕ
  read_samples data_ blank pos zero = ([], pos)
  read_samples data_ blank pos (suc n) =
      let rest = read_samples data_ blank (next_pos (length data_) pos) n in
      (get_or data_ pos blank ∷ rest.0, rest.1)

  unfoldable pub pop : A → RingBuffer A → ℕ → List A × RingBuffer A
  pop blank r max_count =
      let n = min max_count r.size in
      let read = read_samples r.data_ blank r.read_pos n in
      if r.size == 0 then ([], r) else (read.0, record r { read_pos = read.1; size = r.size - n })
